-- ===== src/Db/Paging.antt =====
-- Paging by a cursor over rows in descending order of a key.
use report_insight.Base.{
  ℕ, zero, suc, ◌<◌, ◌≤◌, ◌≡◌, ◌≢◌, refl, Bool, ◌&&◌, List, [], ◌∷◌, take, drop, filter, All,
  All-imp, arith, ltb, if◌then◌else◌, Bool-cases, inl, inr,
}
use report_insight.Db.Table.{insert_desc, order_by_desc}

-- Two filters in a row.
pub filter-filter {ℓ} :
    {A : Type ℓ} (p q : A → Bool) (xs : List A)
    → filter p (filter q xs) ≡ filter (λ a. q a && p a) xs
filter-filter p q [] = refl
filter-filter p q (x ∷ xs) = ground (arith, filter-filter p q xs)

pub filter-eq {ℓ} :
    {A : Type ℓ} (p q : A → Bool) (xs : List A)
    → All (λ a. p a ≡ q a) xs
    → filter p xs ≡ filter q xs
filter-eq p q [] h = refl
filter-eq p q (x ∷ xs) h = ground (arith, filter-eq p q xs h.1)

pub All-always {ℓ κ} : {A : Type ℓ} (P : A → Type κ) (xs : List A) → ((a : A) → P a) → All P xs
All-always P [] h = tt
All-always P (x ∷ xs) h = (h x, All-always P xs h)

module _ {A : Type 0} (key : A → ℕ) where
  -- Strictly descending.
  abbrev pub Descends : List A → Type 0
  Descends [] = Unit
  Descends (x ∷ xs) = All (λ y. key y < key x) xs × Descends xs

  -- No key twice.
  abbrev pub Distinct : List A → Type 0
  Distinct [] = Unit
  Distinct (x ∷ xs) = All (λ y. key y ≢ key x) xs × Distinct xs

  All-insert_desc :
      (P : A → Type 0) (r : A) (xs : List A) → P r → All P xs → All P (insert_desc key r xs)
  unfolding insert_desc
  All-insert_desc P r [] p h = (p, tt)
  All-insert_desc P r (x ∷ xs) p h = elim (Bool-cases (ltb (key r) (key x))) [
    | inl e ↦ rw e (h.0, All-insert_desc P r xs p h.1)
    | inr e ↦ rw e (p, h)
  ]

  pub All-order_by_desc : (P : A → Type 0) (xs : List A) → All P xs → All P (order_by_desc key xs)
  unfolding order_by_desc
  All-order_by_desc P [] h = tt
  All-order_by_desc P (x ∷ xs) h =
      All-insert_desc P x (order_by_desc key xs) h.0 (All-order_by_desc P xs h.1)

  Descends-insert_desc :
      (r : A) (xs : List A)
      → All (λ y. key y ≢ key r) xs
      → Descends xs
      → Descends (insert_desc key r xs)
  unfolding insert_desc
  Descends-insert_desc r [] ne d = (tt, tt)
  Descends-insert_desc r (x ∷ xs) ne d = elim (Bool-cases (ltb (key r) (key x))) [
    | inl e ↦ rw e (
      All-insert_desc (λ y. key y < key x) r xs (ground arith) d.0,
      Descends-insert_desc r xs ne.1 d.1,
    )
    | inr e ↦
        let below : key x < key r = let ne0 = ne.0 in ground arith in
        rw e (
          (below, All-imp (λ y. key y < key x) (λ y. key y < key r) xs (λ y h. omega arith) d.0),
          d,
        )
  ]

  -- With distinct keys the order is strict.
  pub Descends-order_by_desc : (xs : List A) → Distinct xs → Descends (order_by_desc key xs)
  unfolding order_by_desc
  Descends-order_by_desc [] h = tt
  Descends-order_by_desc (x ∷ xs) h =
      Descends-insert_desc x (order_by_desc key xs) (All-order_by_desc (λ y. key y ≢ key x) xs h.0)
        (Descends-order_by_desc xs h.1)

  -- A row above all others goes first.
  insert_desc-above :
      (r : A) (xs : List A) → All (λ y. key y ≤ key r) xs → insert_desc key r xs ≡ r ∷ xs
  unfolding insert_desc
  insert_desc-above r [] h = refl
  insert_desc-above r (x ∷ xs) h = ground arith

  All-filter_same : (P : A → Type 0) (p : A → Bool) (xs : List A) → All P xs → All P (filter p xs)
  All-filter_same P p [] h = tt
  All-filter_same P p (x ∷ xs) h = elim (Bool-cases (p x)) [
    | inl e ↦ rw e (h.0, All-filter_same P p xs h.1)
    | inr e ↦ rw e (All-filter_same P p xs h.1)
  ]

  filter-insert_desc :
      (p : A → Bool) (r : A) (xs : List A)
      → Descends xs
      → filter p (insert_desc key r xs)
        ≡ (if p r then insert_desc key r (filter p xs) else filter p xs)
  unfolding insert_desc
  filter-insert_desc p r [] d = ground arith
  filter-insert_desc p r (x ∷ xs) d = elim (Bool-cases (ltb (key r) (key x))) [
    | inl e ↦ ground (arith, filter-insert_desc p r xs d.1)
    | inr e ↦
        let above = insert_desc-above r (filter p xs) (
          All-filter_same (λ y. key y ≤ key r) p xs
            (All-imp (λ y. key y < key x) (λ y. key y ≤ key r) xs (λ y h. ground arith) d.0)) in
        ground (arith, above)
  ]

  Distinct-tail : (x : A) (xs : List A) → Distinct (x ∷ xs) → Distinct xs
  Distinct-tail x xs h = h.1

  -- `WHERE` and `ORDER BY` commute.
  pub filter-order_by_desc :
      (p : A → Bool) (xs : List A)
      → Distinct xs
      → order_by_desc key (filter p xs) ≡ filter p (order_by_desc key xs)
  unfolding order_by_desc
  filter-order_by_desc p [] h = refl
  filter-order_by_desc p (x ∷ xs) h = ground (
    arith,
    filter-insert_desc p x (order_by_desc key xs) (Descends-order_by_desc xs h.1),
    filter-order_by_desc p xs h.1,
  )

  pub Descends-filter : (p : A → Bool) (xs : List A) → Descends xs → Descends (filter p xs)
  Descends-filter p [] d = tt
  Descends-filter p (x ∷ xs) d = elim (Bool-cases (p x)) [
    | inl e ↦ rw e (All-filter_same (λ y. key y < key x) p xs d.0, Descends-filter p xs d.1)
    | inr e ↦ rw e (Descends-filter p xs d.1)
  ]

  -- The last row of a list that is not empty.
  abbrev pub last : A → List A → A
  last x [] = x
  last x (y ∷ ys) = last y ys

  pub last-le : (n : ℕ) (x : A) (xs : List A) → Descends (x ∷ xs) → key (last x (take n xs)) ≤ key x
  last-le zero x xs d = omega arith
  last-le (suc n) x [] d = omega arith
  last-le (suc n) x (y ∷ ys) d = let ih = last-le n y ys d.1 in let lt = d.0.0 in omega arith

  filter-below :
      (k : ℕ) (xs : List A) → All (λ y. key y < k) xs → filter (λ y. ltb (key y) k) xs ≡ xs
  filter-below k [] h = refl
  filter-below k (x ∷ xs) h = ground (arith, filter-below k xs h.1)

  -- The rows below the last one of a page are those behind the page.
  pub filter-after_page :
      (n : ℕ) (x : A) (xs : List A)
      → Descends (x ∷ xs)
      → filter (λ y. ltb (key y) (key (last x (take n xs)))) (x ∷ xs) ≡ drop n xs
  filter-after_page zero x xs d = ground (arith, filter-below (key x) xs d.0)
  filter-after_page (suc n) x [] d = ground arith
  filter-after_page (suc n) x (y ∷ ys) d =
      let lt = d.0.0 in ground (arith, last-le n y ys d.1, filter-after_page n y ys d.1)
