-- ===== src/Db/Table.antt =====
-- A table as the list of its rows, with the reads and writes by primary key that the repositories
-- use, `ORDER BY id DESC`, and their laws.
use report_insight.Base.{
  ℕ, ◌≡◌, Bool, false, ◌||◌, Option, none, some, List, [], ◌∷◌, arith, ◌==◌, ltb, if◌then◌else◌,
  All,
}

module _ {A : Type 0} (key : A → ℕ) where
  -- `SELECT … WHERE id = k`, `scalar_one_or_none`
  unfoldable pub find_by : ℕ → List A → Option A
  find_by k [] = none
  find_by k (r ∷ rows) = if key r == k then some r else find_by k rows

  -- `UPDATE … WHERE id = k`
  unfoldable pub update_by : ℕ → (A → A) → List A → List A
  update_by k f [] = []
  update_by k f (r ∷ rows) = (if key r == k then f r else r) ∷ update_by k f rows

  -- `ORDER BY id DESC`
  unfoldable pub insert_desc : A → List A → List A
  insert_desc r [] = r ∷ []
  insert_desc r (s ∷ rows) = if ltb (key r) (key s) then s ∷ insert_desc r rows else r ∷ s ∷ rows

  unfoldable pub order_by_desc : List A → List A
  unfolding insert_desc
  order_by_desc [] = []
  order_by_desc (r ∷ rows) = insert_desc r (order_by_desc rows)

  abbrev pub or_update : (A → A) → Option A → Option A
  or_update f none = none
  or_update f (some a) = some (f a)

  pub find_by-update_by :
      (j k : ℕ) (f : A → A) (rows : List A)
      → ((a : A) → key (f a) ≡ key a)
      → find_by j (update_by k f rows)
        ≡ (if k == j then or_update f (find_by j rows) else find_by j rows)
  unfolding find_by update_by
  find_by-update_by j k f [] keeps = ground arith
  find_by-update_by j k f (r ∷ rows) keeps =
      ground (arith, keeps r, find_by-update_by j k f rows keeps)

  pub find_by-key : (k : ℕ) (rows : List A) (r : A) → find_by k rows ≡ some r → key r ≡ k
  unfolding find_by
  find_by-key k [] r h = ground arith
  find_by-key k (s ∷ rows) r h = ground (arith, find_by-key k rows r)

  -- What all rows have, a row that is found has.
  pub find_by-All {κ} :
      (P : A → Type κ) (k : ℕ) (rows : List A) (r : A) → All P rows → find_by k rows ≡ some r → P r
  unfolding find_by
  find_by-All P k [] r all h = absurd (ground arith)
  find_by-All P k (s ∷ rows) r all h = ground (arith, find_by-All P k rows r all.1)

  -- A row of the table has this primary key.
  unfoldable pub contains : ℕ → List A → Bool
  contains k [] = false
  contains k (r ∷ rows) = key r == k || contains k rows
