-- ===== src/Infra/Schema/Agree.antt =====
-- The migration against the mapped classes.
use report_insight.Base.{
  String, Bool, true, false, ◌&&◌, any, str_eq, ◌≡◌, refl, none, some, List, [], ◌∷◌, map,
}
use mathlib.Core.List.{reverse}
use report_insight.Infra.Schema.{Table, Column, run}
use report_insight.Infra.Schema.Initial.{upgrade}
use report_insight.Infra.Schema.Models.{models}

-- A column but for its default in the database.
abbrev pub plain : Column → Column
plain c = record c { server_default = none }

-- A table but for the defaults and the indexes.
abbrev pub shape : Table → String × (List Column × List (String × List String))
shape t = (t.name, (map plain t.columns, t.uniques))

abbrev same_columns : List String → List String → Bool
same_columns [] [] = true
same_columns (a ∷ rest) (b ∷ others) = str_eq a b && same_columns rest others
same_columns _ _ = false

-- Every index of the first list is one of the second.
unfoldable pub listed : List (String × List String) → List (String × List String) → Bool
listed [] js = true
listed (i ∷ is) js =
    any (λ (j : String × List String). str_eq j.0 i.0 && same_columns j.1 i.1) js && listed is js

unfoldable pub all_indexed : List Table → List Table → Bool
unfolding listed
all_indexed [] [] = true
all_indexed (a ∷ rest) (b ∷ others) = listed a.indexes b.indexes && all_indexed rest others
all_indexed _ _ = false

-- The migration makes the tables of the mapped classes, the last first: with the same columns, types, keys,
-- references and constraints but for the defaults in the database, and with all their indexes.
pub upgrade-models :
    (t : List Table) × (run upgrade [] ≡ some t)
    × (map shape t ≡ map shape (reverse models))
    × (all_indexed (reverse models) t ≡ true)
unfolding run upgrade all_indexed
upgrade-models = (_, refl, refl, refl)
