-- ===== src/Tests/Ingest.antt =====
-- Ingestion and the worker at concrete inputs.
use report_insight.Base.{
  ◌⊎◌, ◌≡◌, ◌≢◌, refl, true, false, none, some, List, [], ◌∷◌, arith, map, ◌++◌, ltb, String, ℕ,
  Text, All, if◌then◌else◌,
}
use report_insight.Domain.{
  needs_review, auto_classified, ok, Float, IngestMessage, MaskingResult, ClassificationEnvelope,
  claim, high,
}
use report_insight.Db.{World}
use report_insight.Db.Table.{find_by}
use report_insight.Repositories.Report.{
  upsert_ingested, report_key, analysis_key, new_report, new_analysis, new_chunks,
}
use report_insight.Ingest.Chunks.{build_chunks}
use report_insight.Ingest.Service.{
  ingest_from_key, prepare, IngestOutcome, Prepared, is_high, analysis_of,
}
use report_insight.Ingest.Idempotence.{ingest_idempotent, notifications, SameObjects}
use report_insight.Ingest.Privacy.{ingest_sends_masked, SentMasked}
use report_insight.Ingest.Prepared.{prepare_sound}
use report_insight.Ingest.Stored.{ingest_stores, urgent_notification}
use report_insight.Worker.Process.{Container, SqsMessage, process_message, handle}
use report_insight.Worker.Redelivery.{redelivery_harmless, Unchanged, EndsAgain, IsIngested}
use report_insight.Worker.Deletion.{deleted_only_if_IsIngested, deletions}
use report_insight.Ingest.S3Event.{parse_s3_event}
use report_insight.Domain.{Error, retryable, err}
use report_insight.Ingest.Service.{Ports}
use report_insight.Tests.{world, ports, message}

abbrev outcome : IngestOutcome
outcome = record {
  source_key = "k";
  report_id = some 9;
  status = needs_review;
  duplicate = false;
  notified = true;
}

returns : (ingest_from_key ports "k" world).0 ≡ ok outcome
unfolding ingest_from_key analysis_of upsert_ingested
returns = refl

abbrev later : World
later = record { db = (ingest_from_key ports "k" world).1.db; effects = [] }

-- The body of the message is no JSON: it is the key.
abbrev container : Container
container = record {
  ports = ports;
  json_loads = λ body. none;
  to_str = λ j. "";
  delete = λ receipt. ok tt;
}

abbrev sqs : SqsMessage
sqs = record { receipt_handle = "receipt"; body = "k" }

processed : (process_message container sqs world).0 ≡ ok tt
unfolding process_message parse_s3_event ingest_from_key analysis_of upsert_ingested
processed = refl

abbrev after : World
after = record { db = (process_message container sqs world).1.db; effects = [] }

deleted : deletions (handle container sqs world).1.effects ≢ []
unfolding handle parse_s3_event ingest_from_key analysis_of upsert_ingested
deleted h = absurd (ground arith)

-- The same objects, while the language model is down.
abbrev outage : Ports
outage = record ports { classify_report = λ t. err retryable }

same_objects : SameObjects ports outage
same_objects = ((λ key raw h. h), (λ raw. refl))

redelivery_harmless_example :
    let again = process_message (record container { ports = outage }) sqs after in
    (keys : List String) × (parse_s3_event container.to_str container.json_loads "k" ≡ ok keys)
    × EndsAgain outage keys again.0
    × Unchanged after again.1
redelivery_harmless_example =
    redelivery_harmless container outage sqs world after same_objects processed refl

ingest_idempotent_example :
    (((again : IngestOutcome) × ((ingest_from_key outage "k" later).0 ≡ ok again)
        × (again.duplicate ≡ true)
        × (again.notified ≡ false))
      ⊎ ((e : Error) × ((prepare outage "k" later).0 ≡ err e)
          × ((ingest_from_key outage "k" later).0 ≡ err e)))
    × ((ingest_from_key outage "k" later).1.db ≡ later.db)
    × (notifications (ingest_from_key outage "k" later).1.effects ≡ [])
ingest_idempotent_example =
    ingest_idempotent ports outage "k" world later outcome same_objects returns refl

ingest_sends_masked_example : SentMasked ports "k" world (ingest_from_key ports "k" world).1
ingest_sends_masked_example = ingest_sends_masked ports "k" world

deleted_only_if_IsIngested_example :
    (deletions (handle container sqs world).1.effects ≡ "receipt" ∷ [])
    × ((keys : List String) × (parse_s3_event container.to_str container.json_loads "k" ≡ ok keys)
        × All (IsIngested ports (handle container sqs world).1.db) keys)
deleted_only_if_IsIngested_example = deleted_only_if_IsIngested container sqs world deleted

ingest_stores_example :
    (new : Prepared) × (t : ℕ) × ((prepare ports "k" world).0 ≡ ok new)
    × (find_by report_key 9 (ingest_from_key ports "k" world).1.db.reports
        ≡ some (new_report 9 t new.report))
    × (find_by analysis_key 9 (ingest_from_key ports "k" world).1.db.analyses
        ≡ some (new_analysis ports.server.real 9 t new.analysis))
    × ((ingest_from_key ports "k" world).1.db.chunks ≡ new_chunks 9 0 new.chunks ++ [])
    × (notifications (ingest_from_key ports "k" world).1.effects ≡ urgent_notification 9 new ++ [])
    × (outcome.duplicate ≡ false)
    × (outcome.notified ≡ is_high new.analysis.urgency)
ingest_stores_example = ingest_stores ports "k" world outcome 9 returns refl

abbrev pub prepared : Prepared
prepared = record {
  report = record {
    id = none;
    property_id = 1;
    source_key = "new";
    reported_at = 150;
    reporter_role = "cleaner";
    raw_text = 97 ∷ 98 ∷ [];
    photo_meta = message.photo_meta;
    created_at = none;
    analysis = none;
  };
  analysis = record {
    report_id = 0;
    category = claim;
    urgency = high;
    action_required = true;
    normalized_summary = 115 ∷ [];
    confidence = 3;
    status = needs_review;
    model_id = "model";
    prompt_version = "v1";
    input_tokens = 5;
    output_tokens = 6;
    analyzed_at = none;
  };
  chunks = (115 ∷ 10 ∷ 10 ∷ 97 ∷ 98 ∷ [], 1 ∷ []) ∷ [];
}

prepares : (prepare ports "k" world).0 ≡ ok prepared
unfolding prepare analysis_of
prepares = refl

prepare_sound_example :
    (raw : List ℕ) × (message : IngestMessage) × (masked : MaskingResult)
    × (envelope : ClassificationEnvelope) × (vectors : List (List Float)) × (ports.get_object "k"
        ≡ ok raw)
    × (ports.model_validate_json raw ≡ ok message)
    × (ports.mask message.raw_text ≡ ok masked)
    × (ports.classify_report (ports.normalize masked.masked_text) ≡ ok envelope)
    × (ports.embed_documents (build_chunks envelope.result.normalized_summary message.raw_text)
        ≡ ok vectors)
    × (prepared.report ≡ record {
      id = none;
      property_id = message.property_id;
      source_key = message.source_key;
      reported_at = message.reported_at;
      reporter_role = message.reporter_role;
      raw_text = message.raw_text;
      photo_meta = message.photo_meta;
      created_at = none;
      analysis = none;
    })
    × (prepared.analysis ≡ record {
      report_id = 0;
      category = envelope.result.category;
      urgency = envelope.result.urgency;
      action_required = envelope.result.action_required;
      normalized_summary = envelope.result.normalized_summary;
      confidence = envelope.result.confidence;
      status =
          if ltb envelope.result.confidence ports.threshold then needs_review else auto_classified;
      model_id = envelope.meta.model_id;
      prompt_version = envelope.meta.prompt_version;
      input_tokens = envelope.meta.input_tokens;
      output_tokens = envelope.meta.output_tokens;
      analyzed_at = none;
    })
    × (map (λ (p : Text × List Float). p.0) prepared.chunks
        ≡ build_chunks envelope.result.normalized_summary message.raw_text)
    × (map (λ (p : Text × List Float). p.1) prepared.chunks ≡ vectors)
prepare_sound_example = prepare_sound ports "k" world prepared prepares
