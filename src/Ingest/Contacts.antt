-- ===== src/Ingest/Contacts.antt =====
-- Ingestion with the masker of app/infra/masking/pii.py.
use report_insight.Base.{
  refl, String, ◌≤◌, ◌≡◌, ◌∙◌, ◌⊎◌, inl, inr, List, ◌∷◌, Text, length, ap, arith, ltb, Bool-cases,
}
use report_insight.Domain.{MaskingResult, ok}
use report_insight.Db.{World}
use report_insight.Ingest.Service.{Ports, ingest_from_key}
use report_insight.Ingest.Privacy.{classified, ingest_sends_masked}
use report_insight.Infra.Masking.Pattern.{Unicode, email, phone}
use report_insight.Infra.Masking.Masker.{Token, mask_sync}
use report_insight.Infra.Masking.Sub.{Clean}
use report_insight.Infra.Masking.Clean.{IsUnicode, mask_sync-Clean}

-- The service has this masker, and a normaliser that changes nothing (`NullNormalizer`).
pub record UsesMasker (u : Unicode) (tokenize : Text → List Token) (ports : Ports) : Type 0 where
  pub masks : (t : Text) → ports.mask t ≡ ok (mask_sync u tokenize t)
  pub normalizes : (t : Text) → ports.normalize t ≡ t

-- The text is what the masker makes of some text, and no contact is left in it, unless the masker has
-- hidden 100000 things.
abbrev pub NoContacts : Unicode → (Text → List Token) → Text → Type 0
NoContacts u tokenize sent =
    (raw : Text) × (sent ≡ (mask_sync u tokenize raw).masked_text)
    × ((Clean (email u) sent × Clean (phone u) sent)
        ⊎ (100000 ≤ length (mask_sync u tokenize raw).mapping))

masked-NoContacts :
    (u : Unicode) (tokenize : Text → List Token) (raw : Text)
    → IsUnicode u
    → NoContacts u tokenize (mask_sync u tokenize raw).masked_text
masked-NoContacts u tokenize raw laws =
    elim (Bool-cases (ltb (length (mask_sync u tokenize raw).mapping) 100000)) [
      | inl few ↦ (raw, refl, inl (mask_sync-Clean u laws tokenize raw (ground arith)))
      | inr many ↦ (raw, refl, inr (ground arith))
    ]

-- With the masker that the program uses, and no normalisation, the language model never receives an
-- e-mail address or a telephone number: whatever an ingestion does, it was sent nothing, or one text,
-- in which neither is left, unless the masker hid 100000 things in it.
pub ingest_sends-NoContacts :
    (u : Unicode) (tokenize : Text → List Token) (ports : Ports) (key : String) (w : World)
    → IsUnicode u
    → UsesMasker u tokenize ports
    → (classified (ingest_from_key ports key w).1.effects ≡ classified w.effects)
      ⊎ ((sent : Text) × (classified (ingest_from_key ports key w).1.effects
            ≡ sent ∷ classified w.effects)
          × NoContacts u tokenize sent)
ingest_sends-NoContacts u tokenize ports key w laws uses = elim (ingest_sends_masked ports key w) [
  | inl nothing ↦ inl nothing
  | inr (masked, (raw, message, got, valid, hidden), sent) ↦
      let result = mask_sync u tokenize message.raw_text in
      let same : masked ≡ result = cc (hidden, uses.masks message.raw_text) in
      inr (
        result.masked_text,
        sent
            ∙ ap (λ (t : Text). t ∷ classified w.effects)
                (uses.normalizes masked.masked_text
                  ∙ ap (λ (r : MaskingResult). r.masked_text) same),
        masked-NoContacts u tokenize message.raw_text laws,
      )
]
