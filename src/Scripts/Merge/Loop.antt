-- ===== src/Scripts/Merge/Loop.antt =====
-- The two loops of a merge over its dictionary.
use report_insight.Base.{
  ℕ, suc, ◌+◌, ◌≡◌, refl, ap, sym, ◌∙◌, Bool-cases, inl, inr, Option, none, some, List, [], ◌∷◌,
  Text, length, All, if◌then◌else◌, arith,
}
use report_insight.Base.Dict.{text_eq, text_eq_sound, get, set, has}
use report_insight.Base.Dict.Entries.{IsDistinct, get-set, set-IsDistinct, length-set}
use report_insight.Scripts.Merge.{collect, take_in}

abbrev pub or_else {ℓ} : {A : Type ℓ} → Option A → Option A → Option A
or_else none y = y
or_else (some x) y = some x

pub or_else-none {ℓ} : {A : Type ℓ} (x : Option A) → or_else x none ≡ x
or_else-none none = refl
or_else-none (some x) = refl

or_else_assoc {ℓ} :
    {A : Type ℓ} (x y z : Option A) → or_else (or_else x y) z ≡ or_else x (or_else y z)
or_else_assoc none y z = refl
or_else_assoc (some x) y z = refl

-- The last entry with the key: what a file says of it.
unfoldable pub latest : {A : Type 0} → (A → Text) → Text → List A → Option A
unfolding text_eq
latest key k [] = none
latest key k (c ∷ cs) = or_else (latest key k cs) (if text_eq (key c) k then some c else none)

module _ {A : Type 0} (key : A → Text) where
  abbrev pub Keyed : List (Text × A) → Type 0
  Keyed = All (λ e. e.0 ≡ key e.1)

  pub set-Keyed : (c : A) (d : List (Text × A)) → Keyed d → Keyed (set (key c) c d)
  unfolding set
  set-Keyed c [] h = (refl, tt)
  set-Keyed c ((j, u) ∷ d) h = elim (Bool-cases (text_eq j (key c))) [
    | inl e ↦ rw e (text_eq_sound j (key c) e, h.1)
    | inr e ↦ rw e (h.0, set-Keyed c d h.1)
  ]

  pub collect-Keyed : (cs : List A) (d : List (Text × A)) → Keyed d → Keyed (collect key cs d)
  unfolding collect
  collect-Keyed [] d h = h
  collect-Keyed (c ∷ cs) d h = collect-Keyed cs (set (key c) c d) (set-Keyed c d h)

  pub collect-IsDistinct :
      (cs : List A) (d : List (Text × A)) → IsDistinct d → IsDistinct (collect key cs d)
  unfolding collect
  collect-IsDistinct [] d h = h
  collect-IsDistinct (c ∷ cs) d h =
      collect-IsDistinct cs (set (key c) c d) (set-IsDistinct (key c) c d h)

  pub get-collect :
      (k : Text) (cs : List A) (d : List (Text × A))
      → get k (collect key cs d) ≡ or_else (latest key k cs) (get k d)
  unfolding collect latest
  get-collect k [] d = refl
  get-collect k (c ∷ cs) d =
      get-collect k cs (set (key c) c d)
      ∙ (ap (or_else (latest key k cs)) (get-set k (key c) c d ∙ one)
          ∙ sym (
              or_else_assoc (latest key k cs) (if text_eq (key c) k then some c else none)
                (get k d)))
    where
      one :
          (if text_eq (key c) k then some c else get k d)
          ≡ or_else (if text_eq (key c) k then some c else none) (get k d)
      one = elim (Bool-cases (text_eq (key c) k)) [ inl e ↦ rw e refl | inr e ↦ rw e refl ]

  pub take_in-collect :
      (cs : List A) (d : List (Text × A)) (added : ℕ)
      → (take_in key cs d added).0 ≡ collect key cs d
  unfolding take_in collect
  take_in-collect [] d added = refl
  take_in-collect (c ∷ cs) d added =
      take_in-collect cs (set (key c) c d) (if has (key c) d then added else suc added)

  -- The added are what the dictionary grows by.
  pub length-take_in :
      (cs : List A) (d : List (Text × A)) (added : ℕ)
      → length (collect key cs d) + added ≡ (take_in key cs d added).1 + length d
  unfolding take_in collect
  length-take_in [] d added = omega arith
  length-take_in (c ∷ cs) d added =
      let counted = if has (key c) d then added else suc added in
      let rest = length-take_in cs (set (key c) c d) counted in
      let more = length-set (key c) c d in
      elim (Bool-cases (has (key c) d)) [
        | inl e ↦
            let same : counted ≡ added = rw e refl in
            let size = rw e at more in omega (arith, rest, size, same)
        | inr e ↦
            let one_more : counted ≡ suc added = rw e refl in
            let size = rw e at more in omega (arith, rest, size, one_more)
      ]
