-- ===== src/Search/Cited.antt =====
-- A report that the answer names is among the citations.
use report_insight.Base.{
  ℕ, zero, suc, ◌+◌, ◌*◌, ◌/◌, ◌%◌, ◌<◌, ◌==◌, Bool, false, ◌≡◌, refl, sym, ap, subst, ◌∙◌, true,
  false, Bool-cases, ◌&&◌, ◌⊎◌, inl, inr, Option, none, some, List, [], ◌∷◌, ◌++◌, append_assoc,
  Text, codes, ltb, elem, Any, map, filter, is_empty, arith,
}
use report_insight.Base.Str.{decimal, decimal_from}
use report_insight.Base.Find.{strip_prefix, strip_prefix-append}
use report_insight.Db.{ReportRow, World}
use report_insight.Repositories.Report.{report_key}
use report_insight.Search.Repository.{existing_report_ids}
use report_insight.Search.Citations.{
  digits, digits_of, with_match, parse_citations, insert_once, sorted_set,
}
use report_insight.Search.Service.{SearchPorts, join, valid_citations}
use report_insight.Search.Authorised.{IsPermitted}

abbrev pub Names : ℕ → List ℕ → Type 0
Names id = Any (λ (x : ℕ). x ≡ id)

-- `\d` matches the ASCII digits, each with its value, and not the bracket.
abbrev pub ReadsAscii : (ℕ → Option ℕ) → Type 0
ReadsAscii value = ((d : ℕ) → d < 10 → value (48 + d) ≡ some d) × (value 93 ≡ none)

-- `[report:id]`
unfoldable pub citation : ℕ → Text
unfolding decimal
citation id = codes "[report:" ++ (decimal id ++ 93 ∷ [])

module _ (value : ℕ → Option ℕ) (ascii : ReadsAscii value) where
  digits-first :
      (d : ℕ) (t : Text) → d < 10 → digits value none ((48 + d) ∷ t) ≡ digits value (some d) t
  unfolding digits
  digits-first d t h = rw (digits, ascii.0 d h) refl

  digits-next :
      (n d : ℕ) (t : Text)
      → d < 10
      → digits value (some n) ((48 + d) ∷ t) ≡ digits value (some (n * 10 + d)) t
  unfolding digits
  digits-next n d t h = rw (digits, ascii.0 d h) refl

  digits-decimal_from :
      (fuel n : ℕ) (t : Text)
      → n < fuel
      → digits value none (decimal_from fuel n ++ t) ≡ digits value (some n) t
  unfolding decimal_from
  digits-decimal_from zero n t h = absurd (omega (arith, h))
  digits-decimal_from (suc fuel) n t h = elim (Bool-cases (ltb n 10)) [
    | inl e ↦ let small : n < 10 = ground (arith, e) in rw e (digits-first n t small)
    | inr e ↦
        let fewer : n / 10 < fuel = ground (arith, e, h) in
        let last : n % 10 < 10 = omega arith in
        let value_of : n / 10 * 10 + n % 10 ≡ n = omega arith in
        rw e (
          ap (digits value none) (append_assoc (decimal_from fuel (n / 10)) ((48 + n % 10) ∷ []) t)
          ∙ (digits-decimal_from fuel (n / 10) ((48 + n % 10) ∷ t) fewer
              ∙ (digits-next (n / 10) (n % 10) t last
                  ∙ ap (λ m. digits value (some m) t) value_of)))
  ]

  digits-bracket : (n : ℕ) (t : Text) → digits value (some n) (93 ∷ t) ≡ some n
  unfolding digits
  digits-bracket n t = rw (digits, ascii.1) refl

  citation-read :
      (id : ℕ) (t : Text)
      → digits_of value (strip_prefix (codes "[report:") (citation id ++ t)) ≡ some id
  unfolding citation decimal
  citation-read id t =
      let enough : id < id + 1 = omega arith in
      ap (digits_of value) (strip_prefix-append (codes "[report:") ((decimal id ++ 93 ∷ []) ++ t))
      ∙ (ap (digits value none) (append_assoc (decimal id) (93 ∷ []) t)
          ∙ (digits-decimal_from (id + 1) id (93 ∷ t) enough ∙ digits-bracket id t))

  pub parse_citations-here :
      (id : ℕ) (t : Text) → Names id (parse_citations value (citation id ++ t))
  unfolding parse_citations citation
  parse_citations-here id t = named _ _ (citation-read id t)
    where
      named : (m : Option ℕ) (ids : List ℕ) → m ≡ some id → Names id (with_match m ids)
      named none ids e = absurd (ground (arith, e))
      named (some n) ids e = inl (ground (arith, e))

  pub parse_citations-behind :
      (id : ℕ) (u t : Text)
      → Names id (parse_citations value t)
      → Names id (parse_citations value (u ++ t))
  unfolding parse_citations
  parse_citations-behind id [] t h = h
  parse_citations-behind id (c ∷ u) t h =
      matched (digits_of value (strip_prefix (codes "[report:") (c ∷ u ++ t)))
        (parse_citations value (u ++ t)) (parse_citations-behind id u t h)
    where
      matched : (m : Option ℕ) (ids : List ℕ) → Names id ids → Names id (with_match m ids)
      matched none ids h = h
      matched (some n) ids h = inr h

elem-Names : (id : ℕ) (ids : List ℕ) → Names id ids → elem id ids ≡ true
elem-Names id [] h = absurd h
elem-Names id (x ∷ ids) (inl e) = ground (arith, e)
elem-Names id (x ∷ ids) (inr h) = ground (arith, elem-Names id ids h)

Names-insert_once :
    (id a : ℕ) (ids : List ℕ) → (a ≡ id) ⊎ Names id ids → Names id (insert_once a ids)
unfolding insert_once
Names-insert_once id a [] h = h
Names-insert_once id a (b ∷ ids) h = elim (Bool-cases (a == b)) [
  | inl e ↦ rw e (elim h [ inl same ↦ inl (ground (arith, e, same)) | inr k ↦ k ])
  | inr e ↦ elim (Bool-cases (ltb a b)) [
    | inl l ↦ rw (e, l) h
    | inr l ↦
        rw (e, l)
          (elim h [
            | inl same ↦ inr (Names-insert_once id a ids (inl same))
            | inr (inl same) ↦ inl same
            | inr (inr k) ↦ inr (Names-insert_once id a ids (inr k))
          ])
  ]
]

Names-sorted_set : (id : ℕ) (ids : List ℕ) → Names id ids → Names id (sorted_set ids)
unfolding sorted_set
Names-sorted_set id [] h = h
Names-sorted_set id (a ∷ ids) (inl e) = Names-insert_once id a (sorted_set ids) (inl e)
Names-sorted_set id (a ∷ ids) (inr h) =
    Names-insert_once id a (sorted_set ids) (inr (Names-sorted_set id ids h))

module _ (ids permitted : List ℕ) where
  abbrev wanted : ReportRow → Bool
  wanted r = elem r.id ids && elem r.property_id permitted

  Names-wanted :
      (id : ℕ) (rows : List ReportRow)
      → elem id ids ≡ true
      → IsPermitted permitted id rows
      → Names id (map report_key (filter wanted rows))
  Names-wanted id [] e h = absurd h
  Names-wanted id (r ∷ rows) e h = elim (Bool-cases (wanted r)) [
    | inl kept ↦ rw kept (elim h [ inl here ↦ inl here.0 | inr k ↦ inr (Names-wanted id rows e k) ])
    | inr left_out ↦ rw left_out (elim h [
      | inl here ↦ absurd (ground (arith, left_out, here, e))
      | inr k ↦ Names-wanted id rows e k
    ])
  ]

elem-not_empty : (id : ℕ) (ids : List ℕ) → elem id ids ≡ true → is_empty ids ≡ false
elem-not_empty id [] h = absurd (ground (arith, h))
elem-not_empty id (x ∷ ids) h = refl

permitted-not_empty :
    (permitted : List ℕ) (id : ℕ) (rows : List ReportRow)
    → IsPermitted permitted id rows
    → is_empty permitted ≡ false
permitted-not_empty permitted id [] h = absurd h
permitted-not_empty permitted id (r ∷ rows) (inl h) = elem-not_empty r.property_id permitted h.1
permitted-not_empty permitted id (r ∷ rows) (inr h) = permitted-not_empty permitted id rows h

Names-existing_report_ids :
    (id : ℕ) (ids permitted : List ℕ) (w : World)
    → Names id ids
    → IsPermitted permitted id w.db.reports
    → Names id (existing_report_ids ids permitted w.db)
unfolding existing_report_ids
Names-existing_report_ids id ids permitted w named h =
    let asked = elem-Names id ids named in
    rw (elem-not_empty id ids asked) (
      rw (permitted-not_empty permitted id w.db.reports h)
        (Names-wanted ids permitted id w.db.reports asked h))

-- A permitted report that the answer names as `[report:id]`, anywhere and even
-- split between tokens, is among the valid citations.
pub citation-kept :
    (ports : SearchPorts) (permitted : List ℕ) (tokens : List Text) (w : World) (id : ℕ)
    (before after : Text)
    → ReadsAscii ports.decimal
    → join tokens ≡ before ++ (citation id ++ after)
    → IsPermitted permitted id w.db.reports
    → Names id (valid_citations ports permitted tokens w)
unfolding valid_citations
citation-kept ports permitted tokens w id before after ascii said h =
    let named : Names id (parse_citations ports.decimal (join tokens)) =
      subst (λ t. Names id (parse_citations ports.decimal t)) (sym said)
        (parse_citations-behind ports.decimal ascii id before (citation id ++ after)
          (parse_citations-here ports.decimal ascii id after)) in
    let cited = parse_citations ports.decimal (join tokens) in
    Names-sorted_set id (existing_report_ids cited permitted w.db)
      (Names-existing_report_ids id cited permitted w named h)
