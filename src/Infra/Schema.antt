-- ===== src/Infra/Schema.antt =====
-- Database schemas, and what the operations of a migration do to them. Tables, indexes and unique
-- constraints share one space of names; the names that the server chooses itself are left out.
use report_insight.Base.{
  ℕ, String, Bool, true, false, not, ◌&&◌, ◌||◌, Option, none, some, List, [], ◌∷◌, ◌++◌, any,
  filter, map, str_eq, if◌then◌else◌,
}
use Prim.Native.String.{◌++◌ as str_append}
use mathlib.Core.Option.{bind}
pub mod Initial
pub mod RoundTrip
pub mod Models
pub mod Agree

pub data ColumnType : Type 0 where
  big_integer text integer boolean timestamp date jsonb : ColumnType
  string : ℕ → ColumnType
  float : ℕ → ColumnType
  vector : ℕ → ColumnType

pub record Column : Type 0 where
  pub name : String
  pub type : ColumnType
  pub nullable : Bool
  pub primary_key : Bool
  pub unique : Bool
  -- the table whose `id` the column refers to, and if a deletion there is passed on
  pub foreign_key : Option String
  pub cascade : Bool
  pub server_default : Option String

abbrev pub required : String → ColumnType → Column
required name type = record {
  name = name;
  type = type;
  nullable = false;
  primary_key = false;
  unique = false;
  foreign_key = none;
  cascade = false;
  server_default = none;
}

abbrev pub optional : String → ColumnType → Column
optional name type = record (required name type) { nullable = true }

abbrev pub key : String → ColumnType → Column
key name type = record (required name type) { primary_key = true }

abbrev pub referring : String → Column → Column
referring table column = record column { foreign_key = some table }

abbrev pub cascading : String → Column → Column
cascading table column = record column { foreign_key = some table; cascade = true }

abbrev pub is_unique : Column → Column
is_unique column = record column { unique = true }

abbrev pub with_default : String → Column → Column
with_default value column = record column { server_default = some value }

-- A table, with its unique constraints and its indexes.
pub record Table : Type 0 where
  pub name : String
  pub columns : List Column
  pub uniques : List (String × List String)
  pub indexes : List (String × List String)

abbrev pub table : String → List Column → List (String × List String) → Table
table name columns uniques = record {
  name = name;
  columns = columns;
  uniques = uniques;
  indexes = [];
}

-- The index that `index=True` stands for.
abbrev pub index_of : String → String → String × List String
index_of table column = (str_append "ix_" (str_append table (str_append "_" column)), column ∷ [])

abbrev pub indexed : List String → Table → Table
indexed columns t = record t { indexes = map (index_of t.name) columns }

-- The operations of alembic's `op`; `create_extension` and `drop_index` are statements `IF [NOT] EXISTS`.
pub data Op : Type 0 where
  create_extension : String → Op
  create_table : Table → Op
  create_index : String → String → List String → Op
  drop_table : String → Op
  drop_index : String → Op

unfoldable pub has : String → List Table → Bool
has n [] = false
has n (t ∷ ts) = str_eq t.name n || has n ts

abbrev pub refers_by : String → Option String → Bool
refers_by n none = false
refers_by n (some m) = str_eq m n

abbrev pub named : String → List (String × List String) → Bool
named n = any (λ (i : String × List String). str_eq i.0 n)

-- A table, an index or a unique constraint has this name.
unfoldable pub taken : String → List Table → Bool
taken n [] = false
taken n (t ∷ ts) = (str_eq t.name n || (named n t.uniques || named n t.indexes)) || taken n ts

abbrev pub any_taken : List (String × List String) → List Table → Bool
any_taken names s = any (λ (i : String × List String). taken i.0 s) names

-- Another table refers to this one.
unfoldable pub referred : String → List Table → Bool
referred n [] = false
referred n (t ∷ ts) =
    not (str_eq t.name n) && any (λ (c : Column). refers_by n c.foreign_key) t.columns
    || referred n ts

abbrev pub lacks : List Table → Option String → Bool
lacks s none = false
lacks s (some m) = not (has m s)

abbrev pub add_index : String × List String → Table → Table
add_index index t = record t { indexes = index ∷ t.indexes }

unfoldable pub index_table : String → String × List String → List Table → List Table
index_table n index [] = []
index_table n index (t ∷ ts) =
    (if str_eq t.name n then add_index index t else t) ∷ index_table n index ts

unfoldable pub remove : String → List Table → List Table
remove n [] = []
remove n (t ∷ ts) = let rest = remove n ts in if str_eq t.name n then rest else t ∷ rest

unfoldable pub unindex : String → List Table → List Table
unindex name [] = []
unindex name (t ∷ ts) =
    record t { indexes = filter (λ (i : String × List String). not (str_eq i.0 name)) t.indexes }
    ∷ unindex name ts

-- One operation; none is an exception.
unfoldable pub run_op : Op → List Table → Option (List Table)
unfolding has taken referred index_table remove unindex
run_op (create_extension name) s = some s
run_op (create_table t) s =
    if (taken t.name s || (any_taken t.uniques s || any_taken t.indexes s))
      || any (λ (c : Column). lacks s c.foreign_key) t.columns
    then none
    else some (t ∷ s)
run_op (create_index name n columns) s =
    if has n s && not (taken name s) then some (index_table n (name, columns) s) else none
run_op (drop_table n) s = if has n s && not (referred n s) then some (remove n s) else none
run_op (drop_index name) s = some (unindex name s)

unfoldable pub run : List Op → List Table → Option (List Table)
unfolding run_op bind
run [] s = some s
run (op ∷ ops) s = bind (run_op op s) (run ops)

-- What an operation does to the extensions of the database: `CREATE EXTENSION IF NOT EXISTS`.
unfoldable pub run_extension : Op → List String → List String
run_extension (create_extension name) es = if any (λ e. str_eq e name) es then es else name ∷ es
run_extension _ es = es

unfoldable pub extensions : List Op → List String → List String
unfolding run_extension
extensions [] es = es
extensions (op ∷ ops) es = extensions ops (run_extension op es)
