-- ===== src/Base/Dict.antt =====
-- Python's `dict` whose keys are texts, in the order of insertion, and the order of texts.
use report_insight.Base.Tests.{Text, ltb, ◌==◌, ==_eq, ==_refl, if◌then◌else◌, Bool-cases, &&-split}
use mathlib.Core.Path.{◌≡◌, refl, ap, ◌∙◌}
use mathlib.Core.Logic.{inl, inr}
use mathlib.Core.Bool.{Bool, true, false, ◌&&◌}
use mathlib.Core.Option.{Option, none, some}
use mathlib.Core.List.{List, [], ◌∷◌}
use native.Mathlib.Omega.{arith}
pub mod Entries

-- `s == t`
unfoldable pub text_eq : Text → Text → Bool
text_eq [] [] = true
text_eq [] (_ ∷ _) = false
text_eq (_ ∷ _) [] = false
text_eq (a ∷ s) (b ∷ t) = a == b && text_eq s t

-- `s < t`
unfoldable pub text_lt : Text → Text → Bool
text_lt _ [] = false
text_lt [] (_ ∷ _) = true
text_lt (a ∷ s) (b ∷ t) = let rest = text_lt s t in if a == b then rest else ltb a b

pub text_eq_sound : (s t : Text) → text_eq s t ≡ true → s ≡ t
unfolding text_eq
text_eq_sound [] [] h = refl
text_eq_sound [] (b ∷ t) h = absurd (ground (arith, h))
text_eq_sound (a ∷ s) [] h = absurd (ground (arith, h))
text_eq_sound (a ∷ s) (b ∷ t) h =
    let both = &&-split (a == b) (text_eq s t) h in
    ap (λ c. c ∷ s) (==_eq a b both.0) ∙ ap (◌∷◌ b) (text_eq_sound s t both.1)

pub text_eq_refl : (s : Text) → text_eq s s ≡ true
unfolding text_eq
text_eq_refl [] = refl
text_eq_refl (a ∷ s) = rw (==_refl a) (text_eq_refl s)

-- A text that is below another is not equal to it.
pub text_lt_irrefl : (s t : Text) → text_lt s t ≡ true → text_eq s t ≡ false
unfolding text_eq text_lt
text_lt_irrefl [] [] h = absurd (ground (arith, h))
text_lt_irrefl (a ∷ s) [] h = absurd (ground (arith, h))
text_lt_irrefl [] (b ∷ t) h = refl
text_lt_irrefl (a ∷ s) (b ∷ t) h = elim (Bool-cases (a == b)) [
  | inl e ↦ rw e (text_lt_irrefl s t (rw e at h))
  | inr e ↦ rw e refl
]

pub text_lt-total : (s t : Text) → text_eq s t ≡ false → text_lt s t ≡ false → text_lt t s ≡ true
unfolding text_eq text_lt
text_lt-total [] [] e h = absurd (ground (arith, e))
text_lt-total (a ∷ s) [] e h = refl
text_lt-total [] (b ∷ t) e h = absurd (ground (arith, h))
text_lt-total (a ∷ s) (b ∷ t) e h = elim (Bool-cases (a == b)) [
  | inl same ↦
      let back : (b == a) ≡ true = ground (arith, same) in
      rw back (text_lt-total s t (rw same at e) (rw same at h))
  | inr other ↦
      let back : (b == a) ≡ false = ground (arith, other) in rw back (ground (arith, other, h))
]

pub text_lt_trans : (s t u : Text) → text_lt s t ≡ true → text_lt t u ≡ true → text_lt s u ≡ true
unfolding text_lt
text_lt_trans s t [] h k = absurd (ground (arith, k))
text_lt_trans s [] (c ∷ u) h k = absurd (ground (arith, h))
text_lt_trans [] (b ∷ t) (c ∷ u) h k = refl
text_lt_trans (a ∷ s) (b ∷ t) (c ∷ u) h k = ground (arith, text_lt_trans s t u)

module _ {ℓ} {A : Type ℓ} where
  -- `d.get(k)`
  unfoldable pub get : Text → List (Text × A) → Option A
  unfolding text_eq
  get k [] = none
  get k ((j, v) ∷ d) = if text_eq j k then some v else get k d

  -- `d[k] = v`
  unfoldable pub set : Text → A → List (Text × A) → List (Text × A)
  unfolding text_eq
  set k v [] = (k, v) ∷ []
  set k v ((j, u) ∷ d) = if text_eq j k then (j, v) ∷ d else (j, u) ∷ set k v d

  -- `k in d`
  unfoldable pub has : Text → List (Text × A) → Bool
  unfolding text_eq
  has k [] = false
  has k ((j, v) ∷ d) = if text_eq j k then true else has k d
