-- ===== src/Scripts/Merge/Refines.antt =====
-- Merging as the update of a map from keys to entries.
use report_insight.Base.{
  ℕ, suc, ◌+◌, ◌≡◌, refl, ap, sym, subst, true, ◌∙◌, Bool-cases, inl, inr, none, List, [], ◌∷◌, map,
  Text, length, All, arith,
}
use report_insight.Base.Dict.{text_eq, text_lt, text_eq_sound, get}
use report_insight.Base.Dict.Entries.{IsFresh, IsDistinct}
use report_insight.Scripts.Merge.{collect, take_in, sorted, merge}
use report_insight.Scripts.Merge.Sorted.{
  Ascending, name, sorted-Ascending, Ascending-IsDistinct, get-sorted, length-sorted, get-fresh,
  All-sorted,
}
use report_insight.Scripts.Merge.Loop.{
  or_else, or_else-none, latest, Keyed, collect-Keyed, collect-IsDistinct, get-collect,
  take_in-collect, length-take_in,
}

-- The result of a merge, as a map: an entry that comes in goes before one that exists. The keys of
-- the file ascend, and the numbers are right: the file has the added entries and those it had.
abbrev pub Refines : {A : Type 0} → (A → Text) → List A → List A → List A × (ℕ × ℕ) → Type 0
Refines key existing incoming result =
    ((k : Text) → latest key k result.0 ≡ or_else (latest key k incoming) (latest key k existing))
    × (Ascending key result.0
        × ((result.1.1 ≡ length result.0)
            × (result.1.1 ≡ result.1.0 + (merge key [] existing).1.1)))

module _ {A : Type 0} (key : A → Text) where
  latest-values :
      (k : Text) (d : List (Text × A))
      → IsDistinct d
      → Keyed key d
      → latest key k (map (λ (e : Text × A). e.1) d) ≡ get k d
  unfolding get latest
  latest-values k [] distinct keyed = refl
  latest-values k (e ∷ d) distinct keyed = rw (sym keyed.0) (
      rw (latest-values k d distinct.1 keyed.1) (elim (Bool-cases (text_eq e.0 k)) [
        | inl same ↦
            let other : get k d ≡ none =
              get-fresh k d (subst (λ z. IsFresh z d) (text_eq_sound e.0 k same) distinct.0) in
            rw same (rw other refl)
        | inr apart ↦ rw apart (or_else-none (get k d))
      ]))

  values-below :
      (j : Text) (d : List (Text × A))
      → Keyed key d
      → All (λ f. text_lt j f.0 ≡ true) d
      → All (λ b. text_lt j (key b) ≡ true) (map (λ (e : Text × A). e.1) d)
  values-below j [] keyed h = tt
  values-below j (f ∷ d) keyed h = (rw keyed.0 at h.0, values-below j d keyed.1 h.1)

  values-Ascending :
      (d : List (Text × A))
      → Keyed key d
      → Ascending name d
      → Ascending key (map (λ (e : Text × A). e.1) d)
  values-Ascending [] keyed h = tt
  values-Ascending (e ∷ d) keyed h =
      (rw keyed.0 at (values-below e.0 d keyed.1 h.0), values-Ascending d keyed.1 h.1)

  length-values : (d : List (Text × A)) → length (map (λ (e : Text × A). e.1) d) ≡ length d
  length-values [] = refl
  length-values (e ∷ d) = ap suc (length-values d)

  -- The number of all that a merge tells is that of the keys.
  total-merge :
      (existing incoming : List A)
      → (merge key existing incoming).1.1 ≡ length (collect key incoming (collect key existing []))
  unfolding merge
  total-merge existing incoming =
      let by_key = (take_in key incoming (collect key existing []) 0).0 in
      length-values (sorted by_key)
      ∙ (length-sorted by_key
          ∙ ap length (take_in-collect key incoming (collect key existing []) 0))

  entries-merge :
      (existing incoming : List A)
      → (merge key existing incoming).0
        ≡ map (λ (e : Text × A). e.1) (sorted (collect key incoming (collect key existing [])))
  unfolding merge
  entries-merge existing incoming =
      ap (λ d. map (λ (e : Text × A). e.1) (sorted d))
        (take_in-collect key incoming (collect key existing []) 0)

  sorted-merged :
      (existing incoming : List A)
      → let d = collect key incoming (collect key existing []) in
        Keyed key (sorted d) × Ascending name (sorted d)
  sorted-merged existing incoming =
      let d = collect key incoming (collect key existing []) in
      (
        All-sorted (λ e. e.0 ≡ key e.1) d
            (collect-Keyed key incoming (collect key existing [])
              (collect-Keyed key existing [] tt)),
        sorted-Ascending d (
            collect-IsDistinct key incoming (collect key existing [])
              (collect-IsDistinct key existing [] tt)),
      )

  latest-merge :
      (existing incoming : List A) (k : Text)
      → latest key k (merge key existing incoming).0
        ≡ or_else (latest key k incoming) (latest key k existing)
  unfolding get latest
  latest-merge existing incoming k =
      let old = collect key existing [] in
      let d = collect key incoming old in
      let ready = sorted-merged existing incoming in
      ap (latest key k) (entries-merge existing incoming)
      ∙ (latest-values k (sorted d) (Ascending-IsDistinct (sorted d) ready.1) ready.0
          ∙ (get-sorted k d
              ∙ (get-collect key k incoming old
                  ∙ ap (or_else (latest key k incoming))
                      (get-collect key k existing [] ∙ or_else-none (latest key k existing)))))

-- A merge implements the update of a map: an entry that comes in replaces one that exists, the last
-- of those with its key, and no other entry is lost or changed; the keys of the file ascend, so that
-- none is there twice; and the two numbers are right.
pub merge-Refines :
    {A : Type 0} (key : A → Text) (existing incoming : List A)
    → Refines key existing incoming (merge key existing incoming)
unfolding merge
merge-Refines key existing incoming =
    let old = collect key existing [] in
    let d = collect key incoming old in
    let ready = sorted-merged key existing incoming in
    (
      latest-merge key existing incoming,
      (
        subst (Ascending key) (sym (entries-merge key existing incoming))
            (values-Ascending key (sorted d) ready.0 ready.1),
        (
          refl,
          omega (
            arith,
            length-take_in key incoming old 0,
            total-merge key existing incoming,
            total-merge key [] existing,
          ),
        ),
      ),
    )
