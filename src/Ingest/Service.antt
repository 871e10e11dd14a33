-- ===== src/Ingest/Service.antt =====
-- `IngestService` of app/services/ingest.py. The ports are parameters; a port that may raise returns
-- a `Result`.
use report_insight.Base.{
  ℕ, String, Bool, true, false, Option, none, some, List, [], ◌∷◌, Text, ltb, if◌then◌else◌,
}
use report_insight.Domain.{
  IngestMessage, Report, ReportAnalysis, ClassificationEnvelope, MaskingResult, AnalysisStatus,
  needs_review, auto_classified, Urgency, high, medium, low, Float, Error, retryable, value_error,
  Result, ok, err,
}
use report_insight.Db.{
  Server, Exec, pure, raise, lift, emit, catch, Effect, incr, emit_tokens, notify_urgent, ◌>>=◌,
  ◌>>◌,
}
use report_insight.Repositories.Report as Repo
use report_insight.Ingest.Chunks.{build_chunks}

pub record IngestOutcome : Type 0 where
  pub source_key : String
  pub report_id : Option ℕ
  pub status : AnalysisStatus
  pub duplicate : Bool
  pub notified : Bool

-- What the services outside answer during one ingestion: a later one may have other ports.
pub record Ports : Type 0 where
  pub server : Server
  -- `storage.get_object` and `IngestMessage.model_validate_json`
  pub get_object : String → Result (List ℕ)
  pub model_validate_json : List ℕ → Result IngestMessage
  pub mask : Text → Result MaskingResult
  pub normalize : Text → Text
  pub classify_report : Text → Result ClassificationEnvelope
  pub embed_documents : List Text → Result (List (List Float))
  pub notify_urgent : Report → ReportAnalysis → Result (Unit {0})
  pub threshold : Float

-- `list(zip(texts, vectors, strict=True))`
unfoldable pub zip_strict : List Text → List (List Float) → Result (List (Text × List Float))
zip_strict [] [] = ok []
zip_strict (t ∷ ts) (v ∷ vs) = elim (zip_strict ts vs) [
  | ok pairs ↦ ok ((t, v) ∷ pairs)
  | err e ↦ err e
]
zip_strict _ _ = err value_error

-- The counter of a failed classification.
abbrev failure_counter : Error → String
failure_counter retryable = "llm_error"
failure_counter _ = "structured_failure"

unfoldable pub classify : Ports → Text → Exec ClassificationEnvelope
classify ports text =
    catch (emit (Effect.classify_report text) >> lift (ports.classify_report text))
      (λ e. emit (incr (failure_counter e)) >> raise e)

unfoldable pub status_of : Float → Float → AnalysisStatus
status_of threshold confidence = if ltb confidence threshold then needs_review else auto_classified

abbrev pub report_of : IngestMessage → Report
report_of message = record {
  id = none;
  property_id = message.property_id;
  source_key = message.source_key;
  reported_at = message.reported_at;
  reporter_role = message.reporter_role;
  raw_text = message.raw_text;
  photo_meta = message.photo_meta;
  created_at = none;
  analysis = none;
}

unfoldable pub analysis_of : Float → ClassificationEnvelope → ReportAnalysis
unfolding status_of
analysis_of threshold envelope = record {
  report_id = 0;
  category = envelope.result.category;
  urgency = envelope.result.urgency;
  action_required = envelope.result.action_required;
  normalized_summary = envelope.result.normalized_summary;
  confidence = envelope.result.confidence;
  status = status_of threshold envelope.result.confidence;
  model_id = envelope.meta.model_id;
  prompt_version = envelope.meta.prompt_version;
  input_tokens = envelope.meta.input_tokens;
  output_tokens = envelope.meta.output_tokens;
  analyzed_at = none;
}

-- `result.urgency is Urgency.HIGH`
abbrev pub is_high : Urgency → Bool
is_high high = true
is_high medium = false
is_high low = false

-- The call of the notifier: an effect if it returns.
unfoldable pub send_urgent : Ports → Report → ReportAnalysis → Exec (Unit {0})
send_urgent ports report analysis =
    lift (ports.notify_urgent report analysis) >> emit (notify_urgent report analysis)

-- The end of `ingest_from_key`, from the result of `upsert_ingested` on.
unfoldable pub finish : Ports → String → Report → ReportAnalysis → Option ℕ → Exec IngestOutcome
unfolding send_urgent
finish ports source_key report analysis none = pure (record {
  source_key = source_key;
  report_id = none;
  status = analysis.status;
  duplicate = true;
  notified = false;
})
finish ports source_key report analysis (some id) = do
  if is_high analysis.urgency
      then send_urgent ports (record report { id = some id }) (record analysis { report_id = id })
      else pure tt
  pure (record {
    source_key = source_key;
    report_id = some id;
    status = analysis.status;
    duplicate = false;
    notified = is_high analysis.urgency;
  })

-- What is stored: the report, its analysis and its chunks.
pub record Prepared : Type 0 where
  pub report : Report
  pub analysis : ReportAnalysis
  pub chunks : List (Text × List Float)

-- `ingest_from_key`, up to the write.
unfoldable pub prepare : Ports → String → Exec Prepared
unfolding classify analysis_of zip_strict build_chunks
prepare ports source_key = do
  emit (incr "ingest_total")
  raw ← lift (ports.get_object source_key)
  message ← lift (ports.model_validate_json raw)
  masked ← lift (ports.mask message.raw_text)
  envelope ← classify ports (ports.normalize masked.masked_text)
  emit (emit_tokens envelope.meta.input_tokens envelope.meta.output_tokens)
  let texts = build_chunks envelope.result.normalized_summary message.raw_text
  vectors ← lift (ports.embed_documents texts)
  chunks ← lift (zip_strict texts vectors)
  pure (record {
    report = report_of message;
    analysis = analysis_of ports.threshold envelope;
    chunks = chunks;
  })

unfoldable pub ingest_from_key : Ports → String → Exec IngestOutcome
unfolding prepare finish
ingest_from_key ports source_key = do
  new ← prepare ports source_key
  report_id ← Repo.upsert_ingested ports.server new.report new.analysis new.chunks
  finish ports source_key new.report new.analysis report_id
