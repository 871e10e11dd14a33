-- ===== src/Ingest/Prepared.antt =====
-- Where everything that an ingestion prepares for the database comes from.
use report_insight.Base.{
  none, ℕ, String, ◌≡◌, inl, inr, List, [], ◌∷◌, map, Text, arith, ltb, if◌then◌else◌,
}
use report_insight.Domain.{
  IngestMessage, MaskingResult, ClassificationEnvelope, needs_review, auto_classified, Float,
  Result-cases, ok,
}
use report_insight.Db.{World}
use report_insight.Ingest.Chunks.{build_chunks}
use report_insight.Ingest.Service.{
  Ports, Prepared, prepare, classify, status_of, zip_strict, analysis_of,
}

-- The texts of the pairs are the texts that were zipped, and their vectors the vectors.
zip_strict-texts :
    (ts : List Text) (vs : List (List Float)) (pairs : List (Text × List Float))
    → zip_strict ts vs ≡ ok pairs
    → map (λ (p : Text × List Float). p.0) pairs ≡ ts
unfolding zip_strict
zip_strict-texts [] [] pairs h = ground arith
zip_strict-texts [] (v ∷ vs) pairs h = ground arith
zip_strict-texts (t ∷ ts) [] pairs h = ground arith
zip_strict-texts (t ∷ ts) (v ∷ vs) pairs h = elim (Result-cases (zip_strict ts vs)) [
  | inl (ps, e) ↦ ground (arith, zip_strict-texts ts vs ps e)
  | inr (x, e) ↦ ground arith
]

zip_strict-vectors :
    (ts : List Text) (vs : List (List Float)) (pairs : List (Text × List Float))
    → zip_strict ts vs ≡ ok pairs
    → map (λ (p : Text × List Float). p.1) pairs ≡ vs
unfolding zip_strict
zip_strict-vectors [] [] pairs h = ground arith
zip_strict-vectors [] (v ∷ vs) pairs h = ground arith
zip_strict-vectors (t ∷ ts) [] pairs h = ground arith
zip_strict-vectors (t ∷ ts) (v ∷ vs) pairs h = elim (Result-cases (zip_strict ts vs)) [
  | inl (ps, e) ↦ ground (arith, zip_strict-vectors ts vs ps e)
  | inr (x, e) ↦ ground arith
]

-- What is prepared for the database comes from the object's message, unmasked, and from the language
-- model's answer about the masked and normalised text. Every field of the report is the message's, and the
-- ids and times of the database are still open. Every field of the analysis is the answer's, but for the
-- status, which is `needs_review` exactly if the confidence is below the threshold. The chunks are those
-- of the summary and the raw text, each with the vector that was embedded for it.
pub prepare_sound :
    (ports : Ports) (key : String) (w : World) (new : Prepared)
    → (prepare ports key w).0 ≡ ok new
    → (raw : List ℕ) × (message : IngestMessage) × (masked : MaskingResult)
      × (envelope : ClassificationEnvelope) × (vectors : List (List Float)) × (ports.get_object key
          ≡ ok raw)
      × (ports.model_validate_json raw ≡ ok message)
      × (ports.mask message.raw_text ≡ ok masked)
      × (ports.classify_report (ports.normalize masked.masked_text) ≡ ok envelope)
      × (ports.embed_documents (build_chunks envelope.result.normalized_summary message.raw_text)
          ≡ ok vectors)
      × (new.report ≡ record {
        id = none;
        property_id = message.property_id;
        source_key = message.source_key;
        reported_at = message.reported_at;
        reporter_role = message.reporter_role;
        raw_text = message.raw_text;
        photo_meta = message.photo_meta;
        created_at = none;
        analysis = none;
      })
      × (new.analysis ≡ record {
        report_id = 0;
        category = envelope.result.category;
        urgency = envelope.result.urgency;
        action_required = envelope.result.action_required;
        normalized_summary = envelope.result.normalized_summary;
        confidence = envelope.result.confidence;
        status =
            if ltb envelope.result.confidence ports.threshold
            then needs_review
            else auto_classified;
        model_id = envelope.meta.model_id;
        prompt_version = envelope.meta.prompt_version;
        input_tokens = envelope.meta.input_tokens;
        output_tokens = envelope.meta.output_tokens;
        analyzed_at = none;
      })
      × (map (λ (p : Text × List Float). p.0) new.chunks
          ≡ build_chunks envelope.result.normalized_summary message.raw_text)
      × (map (λ (p : Text × List Float). p.1) new.chunks ≡ vectors)
unfolding prepare classify analysis_of status_of
prepare_sound ports key w new h = elim (Result-cases (ports.get_object key)) [
  | inr (e, x) ↦ absurd (ground arith)
  | inl (raw, got) ↦ elim (Result-cases (ports.model_validate_json raw)) [
    | inr (e, x) ↦ absurd (ground arith)
    | inl (message, valid) ↦ elim (Result-cases (ports.mask message.raw_text)) [
      | inr (e, x) ↦ absurd (ground arith)
      | inl (masked, hidden) ↦
          elim (Result-cases (ports.classify_report (ports.normalize masked.masked_text))) [
            | inr (e, x) ↦ absurd (ground arith)
            | inl (envelope, answered) ↦
                let texts = build_chunks envelope.result.normalized_summary message.raw_text in
                elim (Result-cases (ports.embed_documents texts)) [
                  | inr (e, x) ↦ absurd (ground arith)
                  | inl (vectors, embedded) ↦ elim (Result-cases (zip_strict texts vectors)) [
                    | inr (e, x) ↦ absurd (ground arith)
                    | inl (pairs, zipped) ↦ (
                      raw,
                      message,
                      masked,
                      envelope,
                      vectors,
                      got,
                      valid,
                      hidden,
                      answered,
                      embedded,
                      ground arith,
                      ground arith,
                      zip_strict-texts texts vectors new.chunks (ground arith),
                      zip_strict-vectors texts vectors new.chunks (ground arith),
                    )
                  ]
                ]
          ]
    ]
  ]
]
