-- ===== src/Search/Citations.antt =====
-- `_parse_citations` of app/services/search.py, and the order of the citations.
use report_insight.Base.{
  ℕ, ◌+◌, ◌*◌, ◌<◌, ◌==◌, Option, none, some, List, [], ◌∷◌, Text, codes, All, arith, ltb,
  if◌then◌else◌, Bool-cases, inl, inr, All-imp,
}
use report_insight.Base.Find.{strip_prefix}

-- `int(m)` of the digits, if there are any, in front of a `]`. `decimal` is the value of a character
-- that Unicode calls a decimal digit, which is what `\d` matches.
unfoldable pub digits : (ℕ → Option ℕ) → Option ℕ → Text → Option ℕ
digits decimal acc [] = none
digits decimal acc (c ∷ cs) = elim (decimal c) [
  | none ↦ if c == 93 then acc else none
  | some d ↦ digits decimal (elim acc [ none ↦ some d | some n ↦ some (n * 10 + d) ]) cs
]

abbrev pub digits_of : (ℕ → Option ℕ) → Option Text → Option ℕ
digits_of decimal none = none
digits_of decimal (some t) = digits decimal none t

abbrev pub with_match : Option ℕ → List ℕ → List ℕ
with_match none ids = ids
with_match (some id) ids = id ∷ ids

-- `findall`: a match begins with `[` and has no other, so that no two overlap, and every position
-- can be tried.
unfoldable pub parse_citations : (ℕ → Option ℕ) → Text → List ℕ
unfolding strip_prefix digits
parse_citations decimal [] = []
parse_citations decimal (c ∷ cs) =
    with_match (digits_of decimal (strip_prefix (codes "[report:") (c ∷ cs)))
      (parse_citations decimal cs)

-- `sorted` of a set
unfoldable pub insert_once : ℕ → List ℕ → List ℕ
insert_once a [] = a ∷ []
insert_once a (b ∷ bs) =
    if a == b then b ∷ bs else if ltb a b then a ∷ b ∷ bs else b ∷ insert_once a bs

unfoldable pub sorted_set : List ℕ → List ℕ
unfolding insert_once
sorted_set [] = []
sorted_set (a ∷ cs) = insert_once a (sorted_set cs)

All-insert_once : (P : ℕ → Type 0) (a : ℕ) (bs : List ℕ) → P a → All P bs → All P (insert_once a bs)
unfolding insert_once
All-insert_once P a [] p h = (p, tt)
All-insert_once P a (b ∷ bs) p h = elim (Bool-cases (a == b)) [
  | inl e ↦ rw e h
  | inr e ↦ elim (Bool-cases (ltb a b)) [
    | inl l ↦ rw (e, l) (p, h)
    | inr l ↦ rw (e, l) (h.0, All-insert_once P a bs p h.1)
  ]
]

pub All-sorted_set : (P : ℕ → Type 0) (cs : List ℕ) → All P cs → All P (sorted_set cs)
unfolding sorted_set
All-sorted_set P [] h = tt
All-sorted_set P (a ∷ cs) h = All-insert_once P a (sorted_set cs) h.0 (All-sorted_set P cs h.1)

-- Each number is below all behind it.
abbrev pub Ascends : List ℕ → Type 0
Ascends [] = Unit
Ascends (a ∷ cs) = All (λ b. a < b) cs × Ascends cs

Ascends-insert_once : (a : ℕ) (bs : List ℕ) → Ascends bs → Ascends (insert_once a bs)
unfolding insert_once
Ascends-insert_once a [] h = (tt, tt)
Ascends-insert_once a (b ∷ bs) h = elim (Bool-cases (a == b)) [
  | inl e ↦ rw e h
  | inr e ↦ elim (Bool-cases (ltb a b)) [
    | inl l ↦
        let below : a < b = ground arith in
        rw (e, l) ((below, All-imp (λ x. b < x) (λ x. a < x) bs (λ x k. omega arith) h.0), h)
    | inr l ↦
        let above : b < a = ground arith in
        rw (e, l) (All-insert_once (λ x. b < x) a bs above h.0, Ascends-insert_once a bs h.1)
  ]
]

pub Ascends-sorted_set : (cs : List ℕ) → Ascends (sorted_set cs)
unfolding sorted_set
Ascends-sorted_set [] = tt
Ascends-sorted_set (a ∷ cs) = Ascends-insert_once a (sorted_set cs) (Ascends-sorted_set cs)
