-- ===== src/Scripts/Merge/Sorted.antt =====
-- Sorting the entries by their keys.
use report_insight.Base.{
  suc, ◌≡◌, refl, ap, sym, ◌∙◌, true, false, Bool-cases, inl, inr, none, some, List, [], ◌∷◌, Text,
  length, All, All-imp, if◌then◌else◌,
}
use report_insight.Base.Dict.{
  text_eq, text_lt, text_eq_sound, text_lt_irrefl, text_lt-total, text_lt_trans, get,
}
use report_insight.Base.Dict.Entries.{IsFresh, IsDistinct, text_eq-sym}
use report_insight.Scripts.Merge.{insert_sorted, sorted}

-- Each key is below all behind it.
abbrev pub Ascending : {A : Type 0} → (A → Text) → List A → Type 0
Ascending key [] = Unit
Ascending key (c ∷ cs) = All (λ b. text_lt (key c) (key b) ≡ true) cs × Ascending key cs

module _ {A : Type 0} where
  abbrev pub name : Text × A → Text
  name e = e.0

  All-insert_sorted :
      (P : Text × A → Type 0) (e : Text × A) (d : List (Text × A))
      → P e
      → All P d
      → All P (insert_sorted e d)
  unfolding insert_sorted
  All-insert_sorted P e [] p h = (p, tt)
  All-insert_sorted P e (f ∷ d) p h = elim (Bool-cases (text_lt f.0 e.0)) [
    | inl l ↦ rw l (h.0, All-insert_sorted P e d p h.1)
    | inr l ↦ rw l (p, h)
  ]

  pub All-sorted : (P : Text × A → Type 0) (d : List (Text × A)) → All P d → All P (sorted d)
  unfolding sorted
  All-sorted P [] h = tt
  All-sorted P (e ∷ d) h = All-insert_sorted P e (sorted d) h.0 (All-sorted P d h.1)

  insert_sorted-Ascending :
      (e : Text × A) (d : List (Text × A))
      → IsFresh e.0 d
      → Ascending name d
      → Ascending name (insert_sorted e d)
  unfolding insert_sorted
  insert_sorted-Ascending e [] fresh h = (tt, tt)
  insert_sorted-Ascending e (f ∷ d) fresh h = elim (Bool-cases (text_lt f.0 e.0)) [
    | inl l ↦ rw l (
      All-insert_sorted (λ g. text_lt f.0 g.0 ≡ true) e d l h.0,
      insert_sorted-Ascending e d fresh.1 h.1,
    )
    | inr l ↦
        let below : text_lt e.0 f.0 ≡ true = text_lt-total f.0 e.0 fresh.0 l in
        rw l (
          (
            below,
            All-imp (λ g. text_lt f.0 g.0 ≡ true) (λ g. text_lt e.0 g.0 ≡ true) d
                (λ g k. text_lt_trans e.0 f.0 g.0 below k) h.0,
          ),
          h,
        )
  ]

  pub sorted-Ascending : (d : List (Text × A)) → IsDistinct d → Ascending name (sorted d)
  unfolding sorted
  sorted-Ascending [] h = tt
  sorted-Ascending (e ∷ d) h =
      insert_sorted-Ascending e (sorted d) (All-sorted (λ f. text_eq f.0 e.0 ≡ false) d h.0)
        (sorted-Ascending d h.1)

  pub Ascending-IsDistinct : (d : List (Text × A)) → Ascending name d → IsDistinct d
  Ascending-IsDistinct [] h = tt
  Ascending-IsDistinct (e ∷ d) h = (
    All-imp (λ f. text_lt e.0 f.0 ≡ true) (λ f. text_eq f.0 e.0 ≡ false) d
        (λ f l. text_eq-sym e.0 f.0 (text_lt_irrefl e.0 f.0 l)) h.0,
    Ascending-IsDistinct d h.1,
  )

  get-insert_sorted :
      (k : Text) (e : Text × A) (d : List (Text × A))
      → get k (insert_sorted e d) ≡ (if text_eq e.0 k then some e.1 else get k d)
  unfolding get insert_sorted
  get-insert_sorted k e [] = refl
  get-insert_sorted k e (f ∷ d) = elim (Bool-cases (text_lt f.0 e.0)) [
    | inr l ↦ rw l refl
    | inl l ↦ rw l (elim (Bool-cases (text_eq f.0 k)) [
      | inl same ↦ rw same (
          rw
            (text_eq-sym k e.0
              (ap (λ z. text_eq z e.0) (sym (text_eq_sound f.0 k same)) ∙ text_lt_irrefl f.0 e.0 l))
            refl)
      | inr other ↦ rw other (get-insert_sorted k e d)
    ])
  ]

  pub get-sorted : (k : Text) (d : List (Text × A)) → get k (sorted d) ≡ get k d
  unfolding get sorted
  get-sorted k [] = refl
  get-sorted k (e ∷ d) =
      get-insert_sorted k e (sorted d)
      ∙ ap (λ o. if text_eq e.0 k then some e.1 else o) (get-sorted k d)

  length-insert_sorted :
      (e : Text × A) (d : List (Text × A)) → length (insert_sorted e d) ≡ suc (length d)
  unfolding insert_sorted
  length-insert_sorted e [] = refl
  length-insert_sorted e (f ∷ d) = elim (Bool-cases (text_lt f.0 e.0)) [
    | inl l ↦ rw l (ap suc (length-insert_sorted e d))
    | inr l ↦ rw l refl
  ]

  pub length-sorted : (d : List (Text × A)) → length (sorted d) ≡ length d
  unfolding sorted
  length-sorted [] = refl
  length-sorted (e ∷ d) = length-insert_sorted e (sorted d) ∙ ap suc (length-sorted d)

  pub get-fresh : (k : Text) (d : List (Text × A)) → IsFresh k d → get k d ≡ none
  unfolding get
  get-fresh k [] h = refl
  get-fresh k (e ∷ d) h = rw h.0 (get-fresh k d h.1)
