-- ===== src/Infra/Schema/RoundTrip.antt =====
-- The first migration, up and down again, on any database that has none of its tables.
use report_insight.Base.{
  String, str_eq, ◌≡◌, refl, ap, false, ◌||◌, Option, Option-cases, inl, inr, some, List, [], ◌∷◌,
  ◌++◌, any, All, if◌then◌else◌, arith,
}
use mathlib.Core.Option.{bind}
use report_insight.Infra.Schema.{
  Table, Column, Op, create_extension, create_table, create_index, drop_table, drop_index, has,
  taken, any_taken, extensions, referred, lacks, add_index, index_table, remove, unindex, run_op,
  run,
}
use report_insight.Infra.Schema.Initial.{upgrade, downgrade}

-- The operation does not meet the tables.
abbrev pub Apart : List Table → Op → Type 0
Apart s (create_extension name) = Unit
Apart s (create_table t) =
    (taken t.name s ≡ false) × (any_taken t.uniques s ≡ false) × (any_taken t.indexes s ≡ false)
Apart s (create_index name n columns) = (has n s ≡ false) × (taken name s ≡ false)
Apart s (drop_table n) = (has n s ≡ false) × (referred n s ≡ false)
Apart s (drop_index name) = unindex name s ≡ s

has-append : (n : String) (t s : List Table) → has n (t ++ s) ≡ has n t || has n s
unfolding has
has-append n [] s = refl
has-append n (x ∷ t) s = ground (arith, has-append n t s)

taken-append : (n : String) (t s : List Table) → taken n (t ++ s) ≡ taken n t || taken n s
unfolding taken
taken-append n [] s = refl
taken-append n (x ∷ t) s = ground (arith, taken-append n t s)

any_taken-append :
    (names : List (String × List String)) (t s : List Table)
    → any_taken names t ≡ false
    → any_taken names s ≡ false
    → any_taken names (t ++ s) ≡ false
any_taken-append [] t s h k = refl
any_taken-append (i ∷ names) t s h k =
    ground (arith, taken-append i.0 t s, any_taken-append names t s)

referred-append :
    (n : String) (t s : List Table) → referred n (t ++ s) ≡ referred n t || referred n s
unfolding referred
referred-append n [] s = refl
referred-append n (x ∷ t) s = ground (arith, referred-append n t s)

lacks-append :
    (t s : List Table) (columns : List Column)
    → any (λ (c : Column). lacks t c.foreign_key) columns ≡ false
    → any (λ (c : Column). lacks (t ++ s) c.foreign_key) columns ≡ false
lacks-append t s [] h = refl
lacks-append t s (c ∷ columns) h = elim (Option-cases c.foreign_key) [
  | inl e ↦ ground (arith, lacks-append t s columns)
  | inr (m, e) ↦ ground (arith, has-append m t s, lacks-append t s columns)
]

index_table-absent :
    (n : String) (index : String × List String) (s : List Table)
    → has n s ≡ false
    → index_table n index s ≡ s
unfolding has index_table
index_table-absent n index [] h = refl
index_table-absent n index (x ∷ s) h = ground (arith, index_table-absent n index s)

index_table-append :
    (n : String) (index : String × List String) (t s : List Table)
    → has n s ≡ false
    → index_table n index (t ++ s) ≡ index_table n index t ++ s
unfolding index_table
index_table-append n index [] s h = index_table-absent n index s h
index_table-append n index (x ∷ t) s h =
    ap (◌∷◌ (if str_eq x.name n then add_index index x else x)) (index_table-append n index t s h)

remove-absent : (n : String) (s : List Table) → has n s ≡ false → remove n s ≡ s
unfolding has remove
remove-absent n [] h = refl
remove-absent n (x ∷ s) h = ground (arith, remove-absent n s)

remove-append :
    (n : String) (t s : List Table) → has n s ≡ false → remove n (t ++ s) ≡ remove n t ++ s
unfolding remove
remove-append n [] s h = remove-absent n s h
remove-append n (x ∷ t) s h = ground (arith, remove-append n t s)

unindex-append :
    (name : String) (t s : List Table)
    → unindex name s ≡ s
    → unindex name (t ++ s) ≡ unindex name t ++ s
unfolding unindex
unindex-append name [] s h = h
unindex-append name (x ∷ t) s h = ground (arith, unindex-append name t s)

run_op-append :
    (op : Op) (t t' s : List Table)
    → Apart s op
    → run_op op t ≡ some t'
    → run_op op (t ++ s) ≡ some (t' ++ s)
unfolding run_op
run_op-append (create_extension name) t t' s apart h = ground arith
run_op-append (create_table x) t t' s apart h = ground (
  arith,
  taken-append x.name t s,
  any_taken-append x.uniques t s,
  any_taken-append x.indexes t s,
  lacks-append t s x.columns,
)
run_op-append (create_index name n columns) t t' s apart h = ground (
  arith,
  has-append n t s,
  taken-append name t s,
  index_table-append n (name, columns) t s apart.0,
)
run_op-append (drop_table n) t t' s apart h =
    ground (arith, has-append n t s, referred-append n t s, remove-append n t s apart.0)
run_op-append (drop_index name) t t' s apart h = ground (arith, unindex-append name t s apart)

-- A migration does the same to its own tables, whatever other tables stand behind them.
run-append :
    (ops : List Op) (t t' s : List Table)
    → All (Apart s) ops
    → run ops t ≡ some t'
    → run ops (t ++ s) ≡ some (t' ++ s)
unfolding run bind
run-append [] t t' s apart h = ap (λ (o : Option (List Table)). bind o (λ x. some (x ++ s))) h
run-append (op ∷ ops) t t' s apart h = elim (Option-cases (run_op op t)) [
  | inl e ↦ absurd (ground arith)
  | inr (t1, e) ↦ ground (arith, run_op-append op t t1 s apart.0 e, run-append ops t1 t' s apart.1)
]

up_and_down : (t : List Table) × (run upgrade [] ≡ some t) × (run downgrade t ≡ some [])
unfolding run upgrade downgrade
up_and_down = (_, refl, refl)

-- Only the first operation of the upgrade is about an extension.
vector_stays : (es : List String) → extensions downgrade es ≡ es
unfolding extensions downgrade
vector_stays es = refl

vector_created :
    (es : List String)
    → extensions upgrade es ≡ (if any (λ e. str_eq e "vector") es then es else "vector" ∷ es)
unfolding extensions upgrade
vector_created es = refl

-- The tables of the migration can be undone: on a database whose tables, indexes and constraints have other
-- names than those it creates, whose tables are not referred to by these names and have no index of the
-- name that is dropped, it succeeds and puts its tables in front of the others, which it leaves as they
-- are; and the downgrade succeeds then, and leaves exactly the others. The extension for vectors is there
-- after the upgrade, and stays after the downgrade.
pub upgrade-downgrade :
    (s : List Table) (es : List String)
    → All (Apart s) upgrade
    → All (Apart s) downgrade
    → (t : List Table) × (run upgrade [] ≡ some t)
      × (run upgrade s ≡ some (t ++ s))
      × (run downgrade (t ++ s) ≡ some s)
      × (extensions upgrade es ≡ (if any (λ e. str_eq e "vector") es then es else "vector" ∷ es))
      × (extensions downgrade (extensions upgrade es) ≡ extensions upgrade es)
upgrade-downgrade s es up down =
    let (t, ran, back) = up_and_down in
    (
      t,
      ran,
      run-append upgrade [] t s up ran,
      run-append downgrade t [] s down back,
      vector_created es,
      vector_stays (extensions upgrade es),
    )
