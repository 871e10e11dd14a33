-- ===== src/Db/Walk.antt =====
-- A client that asks for page after page, with the cursor that each page returns.
use report_insight.Base.{
  ℕ, zero, suc, ◌<◌, ◌≤◌, ◌≡◌, ◌≢◌, ◌∙◌, ap, sym, refl, subst, Bool, true, ◌&&◌, Option, none, some,
  List, [], ◌∷◌, ◌++◌, take, drop, filter, length, All, take-append-drop, append-nil, arith, ltb,
  ◌==◌, if◌then◌else◌, Bool-cases, inl, inr,
}
use report_insight.Db.Paging.{
  filter-filter, filter-eq, All-always, Descends, Descends-filter, last, last-le, filter-after_page,
}

pub length-drop-le {ℓ} : {A : Type ℓ} (n : ℕ) (xs : List A) → length (drop n xs) ≤ length xs
length-drop-le zero xs = omega arith
length-drop-le (suc n) [] = omega arith
length-drop-le (suc n) (x ∷ xs) = omega (arith, length-drop-le n xs)

-- A page that is not full is the last.
take-all {ℓ} : {A : Type ℓ} (n : ℕ) (xs : List A) → length (take n xs) ≢ n → take n xs ≡ xs
take-all zero xs h = absurd (h refl)
take-all (suc n) [] h = refl
take-all (suc n) (x ∷ xs) h = ap (◌∷◌ x) (take-all n xs (λ e. h (ap suc e)))

pub filter-always {ℓ} : {A : Type ℓ} (xs : List A) → filter (λ _. true) xs ≡ xs
filter-always [] = refl
filter-always (x ∷ xs) = ap (◌∷◌ x) (filter-always xs)

module _ {A : Type 0} (key : A → ℕ) where
  abbrev pub before : Option ℕ → A → Bool
  before none a = true
  before (some k) a = ltb (key a) k

  -- The cursor behind a page: the key of its last row, if the page is full.
  unfoldable pub cursor_after : ℕ → List A → Option ℕ
  cursor_after limit [] = none
  cursor_after limit (x ∷ xs) =
      if length (x ∷ xs) == limit then some (key (last key x xs)) else none

  -- The rows of all pages, from a cursor on.
  unfoldable pub walk : (Option ℕ → List A) → ℕ → ℕ → Option ℕ → List A
  unfolding cursor_after
  walk fetch limit zero c = []
  walk fetch limit (suc fuel) c =
      fetch c
      ++ elim (cursor_after limit (fetch c)) [ none ↦ [] | some k ↦ walk fetch limit fuel (some k) ]

  All-before : (k : ℕ) (xs : List A) → All (λ y. key y < k) (filter (before (some k)) xs)
  All-before k [] = tt
  All-before k (x ∷ xs) = ground (arith, All-before k xs)

  pub before-before :
      (c : Option ℕ) (k : ℕ) (x : A) (rest rows : List A)
      → filter (before c) rows ≡ x ∷ rest
      → k ≤ key x
      → filter (before (some k)) (filter (before c) rows) ≡ filter (before (some k)) rows
  before-before none k x rest rows e h = rw filter-always
  before-before (some j) k x rest rows e h =
      let below : key x < j = (subst (All (λ y. key y < j)) e (All-before j rows)).0 in
      filter-filter (before (some k)) (before (some j)) rows
      ∙ filter-eq (λ a. ltb (key a) j && ltb (key a) k) (before (some k)) rows
          (All-always (λ a. (ltb (key a) j && ltb (key a) k) ≡ ltb (key a) k) rows
            (λ a. ground arith))

  module _ (rows : List A) (descends : Descends key rows) (l : ℕ) (fetch : Option ℕ → List A)
      (fetches : (c : Option ℕ) → fetch c ≡ take (suc l) (filter (before c) rows)) where
    -- With enough fuel the walk returns every row behind the cursor, once, in order.
    pub walk-all :
        (fuel : ℕ) (c : Option ℕ)
        → length (filter (before c) rows) < fuel
        → walk fetch (suc l) fuel c ≡ filter (before c) rows
    unfolding walk
    walk-all zero c h = absurd (omega arith)
    walk-all (suc fuel) c h = step (filter (before c) rows) refl (λ k. walk-all fuel (some k))
      where
        step :
            (m : List A)
            → filter (before c) rows ≡ m
            → ((k : ℕ)
                → length (filter (before (some k)) rows) < fuel
                → walk fetch (suc l) fuel (some k) ≡ filter (before (some k)) rows)
            → walk fetch (suc l) (suc fuel) c ≡ filter (before c) rows
        step [] e ih =
            let page : fetch c ≡ [] = fetches c ∙ ap (take (suc l)) e in rw (page, e) refl
        step (x ∷ xs) e ih =
            let page : fetch c ≡ x ∷ take l xs = fetches c ∙ ap (take (suc l)) e in
            let k : ℕ = key (last key x (take l xs)) in
            let d : Descends key (x ∷ xs) =
              subst (Descends key) e (Descends-filter key (before c) rows descends) in
            let tail : filter (before (some k)) rows ≡ drop l xs =
              sym (before-before c k x xs rows e (last-le key l x xs d))
              ∙ (ap (filter (before (some k))) e ∙ filter-after_page key l x xs d) in
            let fits : length (x ∷ xs) < suc fuel = subst (λ m. length m < suc fuel) e h in
            let enough : length (filter (before (some k)) rows) < fuel =
              rw tail (omega (arith, length-drop-le l xs)) in
            elim (Bool-cases (length (x ∷ take l xs) == suc l)) [
              | inl full ↦
                  rw (page, full, e)
                    (ap (λ t. x ∷ (take l xs ++ t)) (ih k enough ∙ tail)
                      ∙ ap (◌∷◌ x) (take-append-drop l xs))
              | inr short ↦
                  rw (page, short, e, append-nil) (ap (◌∷◌ x) (take-all l xs (ground arith)))
            ]
