-- ===== src/Ingest/Privacy.antt =====
-- What reaches the language model when a report is ingested.
use report_insight.Base.{
  ℕ, String, ◌≡◌, ◌⊎◌, inl, inr, refl, Option, none, some, List, [], ◌∷◌, Text, arith,
}
use report_insight.Domain.{
  IngestMessage, MaskingResult, Report, ReportAnalysis, Float, Result-cases, ok,
}
use report_insight.Db.{World, Effect}
use report_insight.Repositories.Report.{upsert_ingested}
use report_insight.Ingest.Service.{Ports, prepare, classify, ingest_from_key, finish}

-- The texts sent to the language model for classification, the newest first.
abbrev pub classified : List Effect → List Text
classified [] = []
classified (Effect.classify_report t ∷ es) = t ∷ classified es
classified (Effect.incr _ ∷ es) = classified es
classified (Effect.emit_tokens _ _ ∷ es) = classified es
classified (Effect.stream_answer _ _ ∷ es) = classified es
classified (Effect.narrate_monthly _ _ ∷ es) = classified es
classified (Effect.notify_urgent _ _ ∷ es) = classified es
classified (Effect.delete_message _ ∷ es) = classified es

-- The object has this message, and this is its text masked.
abbrev pub Masks : Ports → String → MaskingResult → Type 0
Masks ports source_key masked =
    (raw : List ℕ) × (message : IngestMessage) × (ports.get_object source_key ≡ ok raw)
    × (ports.model_validate_json raw ≡ ok message)
    × (ports.mask message.raw_text ≡ ok masked)

-- Nothing was sent, or one text: the masked text of the object, normalised.
abbrev pub SentMasked : Ports → String → World → World → Type 0
SentMasked ports key w w' =
    (classified w'.effects ≡ classified w.effects)
    ⊎ ((masked : MaskingResult) × Masks ports key masked
        × (classified w'.effects ≡ ports.normalize masked.masked_text ∷ classified w.effects))

prepare-SentMasked :
    (ports : Ports) (key : String) (w : World) → SentMasked ports key w (prepare ports key w).1
unfolding prepare classify
prepare-SentMasked ports key w = elim (Result-cases (ports.get_object key)) [
  | inr (e, h) ↦ inl (ground arith)
  | inl (raw, got) ↦ elim (Result-cases (ports.model_validate_json raw)) [
    | inr (e, h) ↦ inl (ground arith)
    | inl (message, valid) ↦ elim (Result-cases (ports.mask message.raw_text)) [
      | inr (e, h) ↦ inl (ground arith)
      | inl (masked, hidden) ↦ inr (masked, (raw, message, got, valid, hidden), ground arith)
    ]
  ]
]

classified-upsert :
    (ports : Ports) (report : Report) (analysis : ReportAnalysis)
    (chunks : List (Text × List Float)) (w : World)
    → classified (upsert_ingested ports.server report analysis chunks w).1.effects
      ≡ classified w.effects
unfolding upsert_ingested
classified-upsert ports report analysis chunks w = ground arith

classified-finish :
    (ports : Ports) (key : String) (report : Report) (analysis : ReportAnalysis) (id : Option ℕ)
    (w : World)
    → classified (finish ports key report analysis id w).1.effects ≡ classified w.effects
unfolding finish
classified-finish ports key report analysis none w = refl
classified-finish ports key report analysis (some id) w = ground arith

classified-ingest :
    (ports : Ports) (key : String) (w : World)
    → classified (ingest_from_key ports key w).1.effects
      ≡ classified (prepare ports key w).1.effects
unfolding ingest_from_key
classified-ingest ports key w = grind (arith, classified-upsert, classified-finish)

-- The language model sees no text of a report but its masked and normalised text: whatever happens
-- during an ingestion, errors included, it was sent nothing, or exactly the normalised form of what
-- the masker returned for the object's raw text.
pub ingest_sends_masked :
    (ports : Ports) (key : String) (w : World)
    → SentMasked ports key w (ingest_from_key ports key w).1
ingest_sends_masked ports key w = rw classified-ingest (prepare-SentMasked ports key w)
