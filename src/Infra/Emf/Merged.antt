-- ===== src/Infra/Emf/Merged.antt =====
-- What `{**d, **e}` holds under a key.
use report_insight.Base.{
  ◌≡◌, refl, sym, ap, ◌∙◌, true, Bool-cases, Option, none, some, inl, inr, List, [], ◌∷◌, Text,
  arith,
}
use report_insight.Base.Dict.{text_eq, text_eq_sound, get, set, has}
use report_insight.Base.Dict.Entries.{IsFresh, IsDistinct, get-set, set-IsDistinct, set-IsFresh}
use report_insight.Infra.Emf.{merge}

-- The first of the two that has a value.
abbrev pub or_else {ℓ} : {A : Type ℓ} → Option A → Option A → Option A
or_else none o = o
or_else (some v) o = some v

module _ {ℓ} {A : Type ℓ} where
  pub get-fresh : (k : Text) (d : List (Text × A)) → IsFresh k d → get k d ≡ none
  unfolding get
  get-fresh k [] h = refl
  get-fresh k (e ∷ d) h = rw (h.0) (get-fresh k d h.1)

  pub get-has : (k : Text) (d : List (Text × A)) → has k d ≡ true → (v : A) × (get k d ≡ some v)
  unfolding get has
  get-has k [] h = absurd (ground arith)
  get-has k ((j, v) ∷ d) h = elim (Bool-cases (text_eq j k)) [
    | inl e ↦ rw e (v, refl)
    | inr e ↦ rw e (get-has k d (ground arith))
  ]

  pub merge-IsDistinct : (d e : List (Text × A)) → IsDistinct d → IsDistinct (merge d e)
  unfolding merge
  merge-IsDistinct d [] h = h
  merge-IsDistinct d ((k, v) ∷ e) h = merge-IsDistinct (set k v d) e (set-IsDistinct k v d h)

  pub get-merge :
      (k : Text) (d e : List (Text × A))
      → IsDistinct e
      → get k (merge d e) ≡ or_else (get k e) (get k d)
  unfolding merge get
  get-merge k d [] h = refl
  get-merge k d ((j, v) ∷ e) h = elim (Bool-cases (text_eq j k)) [
    | inl same ↦
        let fresh : get k e ≡ none =
          ap (λ z. get z e) (sym (text_eq_sound j k same)) ∙ get-fresh j e h.0 in
        let put : get k (set j v d) ≡ some v = get-set k j v d ∙ rw same refl in
        rw same (get-merge k (set j v d) e h.1 ∙ rw (fresh, put) refl)
    | inr apart ↦
        let kept : get k (set j v d) ≡ get k d = get-set k j v d ∙ rw apart refl in
        rw apart (get-merge k (set j v d) e h.1 ∙ rw kept refl)
  ]

  pub merge-IsFresh :
      (k : Text) (d e : List (Text × A)) → IsFresh k d → IsFresh k e → IsFresh k (merge d e)
  unfolding merge
  merge-IsFresh k d [] h f = h
  merge-IsFresh k d ((j, v) ∷ e) h f = merge-IsFresh k (set j v d) e (set-IsFresh k j v d f.0 h) f.1
