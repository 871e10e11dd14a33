-- ===== src/Base/Find.antt =====
-- `str.startswith`, `in` and `str.replace` on code points.
use report_insight.Base.Tests.{Text, ◌==◌, ==_eq, ==_refl, if◌then◌else◌, Bool-cases, Option-cases}
use report_insight.Base.Lists.{length, length-append, any}
use Prim.Native.Nat.{ℕ, zero, suc, ◌-◌, ◌≤◌}
use mathlib.Core.Path.{◌≡◌, refl, ap, sym, subst, ◌∙◌}
use mathlib.Core.Logic.{inl, inr}
use mathlib.Core.Bool.{Bool, true, false, ◌||◌}
use mathlib.Core.Option.{Option, none, some}
use mathlib.Core.List.{List, [], ◌∷◌, ◌++◌, append-nil}
use native.Mathlib.Omega.{arith}

-- The rest behind a prefix.
unfoldable pub strip_prefix : Text → Text → Option Text
strip_prefix [] t = some t
strip_prefix (p ∷ ps) [] = none
strip_prefix (p ∷ ps) (c ∷ cs) = if p == c then strip_prefix ps cs else none

abbrev is_some : Option Text → Bool
is_some none = false
is_some (some _) = true

-- `t.startswith(k)`
unfoldable pub starts_with : Text → Text → Bool
unfolding strip_prefix
starts_with k t = is_some (strip_prefix k t)

-- `k in t`
unfoldable pub contains : Text → Text → Bool
unfolding starts_with
contains k [] = starts_with k []
contains k (c ∷ t) = starts_with k (c ∷ t) || contains k t

-- `any(k in t for k in ks)`
unfoldable pub mentions : List Text → Text → Bool
unfolding contains
mentions ks t = any (λ k. contains k t) ks

-- `t.replace(old, new)` of an `old` that is not empty, with n characters left of an occurrence.
unfoldable pub replace : Text → Text → ℕ → Text → Text
unfolding strip_prefix
replace old new n [] = []
replace old new (suc n) (c ∷ t) = replace old new n t
replace old new zero (c ∷ t) =
    let found = new ++ replace old new (length old - 1) t in
    let passed = c ∷ replace old new 0 t in
    elim (strip_prefix old (c ∷ t)) [ none ↦ passed | some _ ↦ found ]

pub strip_prefix_sound : (k t r : Text) → strip_prefix k t ≡ some r → t ≡ k ++ r
unfolding strip_prefix
strip_prefix_sound [] t r h = ground (arith, h)
strip_prefix_sound (p ∷ ps) [] r h = absurd (ground (arith, h))
strip_prefix_sound (p ∷ ps) (c ∷ cs) r h = elim (Bool-cases (p == c)) [
  | inl e ↦
      let same : p ≡ c = ==_eq p c e in
      let rest : cs ≡ ps ++ r = strip_prefix_sound ps cs r (rw e at h) in
      ap (◌∷◌ c) rest ∙ ap (λ d. d ∷ ps ++ r) (sym same)
  | inr e ↦ absurd (ground (arith, h, e))
]

pub strip_prefix-append : (k r : Text) → strip_prefix k (k ++ r) ≡ some r
unfolding strip_prefix
strip_prefix-append [] r = refl
strip_prefix-append (p ∷ ps) r = rw (==_refl p) (strip_prefix-append ps r)

replace-none :
    (old new : Text) (c : ℕ) (t : Text)
    → strip_prefix old (c ∷ t) ≡ none
    → replace old new 0 (c ∷ t) ≡ c ∷ replace old new 0 t
unfolding replace
replace-none old new c t e = rw (replace, e) refl

replace-some :
    (old new : Text) (c : ℕ) (t r : Text)
    → strip_prefix old (c ∷ t) ≡ some r
    → replace old new 0 (c ∷ t) ≡ new ++ replace old new (length old - 1) t
unfolding replace
replace-some old new c t r e = rw (replace, e) refl

contains-here :
    (k : Text) (c : ℕ) (t : Text)
    → contains k (c ∷ t) ≡ false
    → (strip_prefix k (c ∷ t) ≡ none) × (contains k t ≡ false)
unfolding contains
contains-here k c t h = elim (Option-cases (strip_prefix k (c ∷ t))) [
  | inl e ↦ (e, ground (arith, h, e))
  | inr (r, e) ↦ absurd (ground (arith, h, e))
]

-- A text in which `old` does not occur stays as it is.
pub replace-absent : (old new t : Text) → contains old t ≡ false → replace old new 0 t ≡ t
replace-absent old new [] h = unfold replace in refl
replace-absent old new (c ∷ t) h =
    let here = contains-here old c t h in
    replace-none old new c t here.0 ∙ ap (◌∷◌ c) (replace-absent old new t here.1)

strip_prefix-short : (k t : Text) → suc (length t) ≤ length k → strip_prefix k t ≡ none
strip_prefix-short k t h = elim (Option-cases (strip_prefix k t)) [
  | inl e ↦ e
  | inr (r, e) ↦
      let whole : length t ≡ length (k ++ r) = ap length (strip_prefix_sound k t r e) in
      absurd (omega (arith, length-append k r, whole, h))
]

-- No text occurs in one that is shorter.
contains-short : (k t : Text) → suc (length t) ≤ length k → contains k t ≡ false
unfolding contains
contains-short k [] h = rw (strip_prefix-short k [] h) refl
contains-short k (c ∷ t) h =
    let shorter : suc (length t) ≤ length k = omega (arith, h) in
    rw (strip_prefix-short k (c ∷ t) h) (contains-short k t shorter)

prefix-whole : (k t r : Text) → strip_prefix k t ≡ some r → length t ≤ length k → t ≡ k
prefix-whole k t r e short = whole r (strip_prefix_sound k t r e)
  where
    whole : (r : Text) → t ≡ k ++ r → t ≡ k
    whole [] e = e ∙ append-nil k
    whole (c ∷ r) e = absurd (omega (arith, short, ap length e, length-append k (c ∷ r)))

-- A text that occurs in one that is no longer is this one.
pub contains-whole : (k t : Text) → contains k t ≡ true → length t ≤ length k → t ≡ k
unfolding contains
contains-whole k [] h short = elim (Option-cases (strip_prefix k [])) [
  | inl e ↦ absurd (ground (arith, h, e))
  | inr (r, e) ↦ prefix-whole k [] r e short
]
contains-whole k (c ∷ t) h short = elim (Option-cases (strip_prefix k (c ∷ t))) [
  | inl e ↦
      let shorter : suc (length t) ≤ length k = omega (arith, short) in
      absurd (ground (arith, h, e, contains-short k t shorter))
  | inr (r, e) ↦ prefix-whole k (c ∷ t) r e short
]

replace-rest : (old new t : Text) → replace old new (length t) t ≡ []
unfolding replace
replace-rest old new [] = refl
replace-rest old new (c ∷ t) = replace-rest old new t

-- A text that is `old` becomes `new`.
pub replace-whole : (old new : Text) → suc zero ≤ length old → replace old new 0 old ≡ new
replace-whole [] new h = absurd (omega (arith, h))
replace-whole (c ∷ old) new h =
    let count : length (c ∷ old) - 1 ≡ length old = omega arith in
    replace-some (c ∷ old) new c old [] found
    ∙ (ap (λ n. new ++ replace (c ∷ old) new n old) count
        ∙ (ap (λ z. new ++ z) (replace-rest (c ∷ old) new old) ∙ append-nil new))
  where
    found : strip_prefix (c ∷ old) (c ∷ old) ≡ some []
    found =
        subst (λ z. strip_prefix (c ∷ old) z ≡ some []) (append-nil (c ∷ old))
          (strip_prefix-append (c ∷ old) [])
