-- ===== src/Base/Dict/Entries.antt =====
-- What an assignment does to a dictionary.
use report_insight.Base.Tests.{Text, if◌then◌else◌, Bool-cases}
use report_insight.Base.Lists.{length, All}
use report_insight.Base.Dict.{text_eq, text_eq_sound, text_eq_refl, get, set, has}
use Prim.Native.Nat.{suc}
use mathlib.Core.Path.{◌≡◌, refl, ap, sym, ◌∙◌}
use mathlib.Core.Logic.{inl, inr}
use mathlib.Core.Bool.{true, false}
use mathlib.Core.Option.{some}
use mathlib.Core.List.{List, [], ◌∷◌}
use native.Mathlib.Omega.{arith}

-- Equal texts compare alike with a third.
pub text_eq-same : (s t u : Text) → text_eq s t ≡ true → text_eq s u ≡ text_eq t u
text_eq-same s t u h = ap (λ z. text_eq z u) (text_eq_sound s t h)

text_eq-apart : (s t u : Text) → text_eq s t ≡ true → text_eq s u ≡ false → text_eq t u ≡ false
text_eq-apart s t u h k = sym (text_eq-same s t u h) ∙ k

pub text_eq-sym : (s t : Text) → text_eq s t ≡ false → text_eq t s ≡ false
text_eq-sym s t h = elim (Bool-cases (text_eq t s)) [
  | inl e ↦ absurd (ground (arith, h, text_eq_refl t, text_eq-same t s t e))
  | inr e ↦ e
]

module _ {ℓ} {A : Type ℓ} where
  -- No entry has the key.
  abbrev pub IsFresh : Text → List (Text × A) → Type 0
  IsFresh k = All (λ (e : Text × A). text_eq e.0 k ≡ false)

  abbrev pub IsDistinct : List (Text × A) → Type 0
  IsDistinct [] = Unit
  IsDistinct (e ∷ d) = IsFresh e.0 d × IsDistinct d

  pub get-set :
      (k j : Text) (v : A) (d : List (Text × A))
      → get k (set j v d) ≡ (if text_eq j k then some v else get k d)
  unfolding get set
  get-set k j v [] = refl
  get-set k j v ((i, u) ∷ d) = elim (Bool-cases (text_eq i j)) [
    | inl e ↦ rw e (rw (text_eq-same i j k e) (ground arith))
    | inr e ↦ rw e (elim (Bool-cases (text_eq i k)) [
      | inl same ↦ rw same (rw (text_eq-sym k j (text_eq-apart i k j same e)) refl)
      | inr other ↦ rw other (get-set k j v d)
    ])
  ]

  pub set-IsFresh :
      (i k : Text) (v : A) (d : List (Text × A))
      → text_eq k i ≡ false
      → IsFresh i d
      → IsFresh i (set k v d)
  unfolding set
  set-IsFresh i k v [] apart h = (apart, tt)
  set-IsFresh i k v ((j, u) ∷ d) apart h = elim (Bool-cases (text_eq j k)) [
    | inl e ↦ rw e h
    | inr e ↦ rw e (h.0, set-IsFresh i k v d apart h.1)
  ]

  pub set-IsDistinct :
      (k : Text) (v : A) (d : List (Text × A)) → IsDistinct d → IsDistinct (set k v d)
  unfolding set
  set-IsDistinct k v [] h = (tt, tt)
  set-IsDistinct k v ((j, u) ∷ d) h = elim (Bool-cases (text_eq j k)) [
    | inl e ↦ rw e h
    | inr e ↦ rw e (set-IsFresh j k v d (text_eq-sym j k e) h.0, set-IsDistinct k v d h.1)
  ]

  pub length-set :
      (k : Text) (v : A) (d : List (Text × A))
      → length (set k v d) ≡ (if has k d then length d else suc (length d))
  unfolding set has
  length-set k v [] = refl
  length-set k v ((j, u) ∷ d) = elim (Bool-cases (text_eq j k)) [
    | inl e ↦ rw e refl
    | inr e ↦ rw e (ap suc (length-set k v d) ∙ ground arith)
  ]
