-- ===== src/Scripts/Merge.antt =====
-- `merge` of scripts/export_corrections.py and of scripts/export_eval_cases.py: the same loop, over
-- corrections by their variant and over cases by their source's key. A file is the list of its
-- entries, and a file that does not exist has none.
use report_insight.Base.{
  ℕ, suc, String, Bool, ◌&&◌, not, if◌then◌else◌, List, [], ◌∷◌, map, Text, length, is_empty,
}
use report_insight.Base.Str.{strip}
use report_insight.Base.Dict.{text_eq, text_lt, set, has}
use report_insight.Infra.TextNormalizer.{Correction}
pub mod Sorted
pub mod Loop
pub mod Refines

-- One item of the JSON, whose values are texts and whose source is there, or by default.
unfoldable pub load_corrections : List Correction → List Correction
unfolding strip text_eq
load_corrections [] = []
load_corrections (item ∷ items) =
    let rest = load_corrections items in
    let variant = strip item.variant in
    let canonical = strip item.canonical in
    if not (is_empty variant) && (not (is_empty canonical) && not (text_eq variant canonical))
    then record { variant = variant; canonical = canonical; source = item.source } ∷ rest
    else rest

-- A case of the evaluation, from a report that a human verified.
pub record EvalCase : Type 0 where
  pub source_key : Text
  pub raw_text : Text
  pub reporter_role : String
  pub expected_category : String
  pub expected_urgency : String
  pub expected_action_required : Bool
  pub tags : List String

module _ {A : Type 0} where
  -- `{key(c): c for c in existing}`
  unfoldable pub collect : (A → Text) → List A → List (Text × A) → List (Text × A)
  unfolding set
  collect key [] d = d
  collect key (c ∷ cs) d = collect key cs (set (key c) c d)

  -- The loop over what comes in, with the number of the added.
  unfoldable pub take_in : (A → Text) → List A → List (Text × A) → ℕ → List (Text × A) × ℕ
  unfolding set has
  take_in key [] d added = (d, added)
  take_in key (c ∷ cs) d added =
      take_in key cs (set (key c) c d) (if has (key c) d then added else suc added)

  -- `sorted(by_key.values(), key=key)`; the keys stay beside the values.
  unfoldable pub insert_sorted : Text × A → List (Text × A) → List (Text × A)
  unfolding text_lt
  insert_sorted e [] = e ∷ []
  insert_sorted e (f ∷ d) = if text_lt f.0 e.0 then f ∷ insert_sorted e d else e ∷ f ∷ d

  unfoldable pub sorted : List (Text × A) → List (Text × A)
  unfolding insert_sorted
  sorted [] = []
  sorted (e ∷ d) = insert_sorted e (sorted d)

  -- The entries that the file has then, the number of the added, and the number of all.
  unfoldable pub merge : (A → Text) → List A → List A → List A × (ℕ × ℕ)
  unfolding collect take_in sorted
  merge key existing incoming =
      let (by_key, added) = take_in key incoming (collect key existing []) 0 in
      let entries = map (λ (e : Text × A). e.1) (sorted by_key) in
      (entries, (added, length entries))

-- `merge` of scripts/export_corrections.py
unfoldable pub merge_corrections : List Correction → List Correction → List Correction × (ℕ × ℕ)
unfolding load_corrections merge
merge_corrections golden incoming =
    merge (λ c. c.variant) (load_corrections golden) (load_corrections incoming)

-- `merge` of scripts/export_eval_cases.py
unfoldable pub merge_cases : List EvalCase → List EvalCase → List EvalCase × (ℕ × ℕ)
unfolding merge
merge_cases existing incoming = merge (λ c. c.source_key) existing incoming
