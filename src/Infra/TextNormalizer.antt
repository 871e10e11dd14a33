-- ===== src/Infra/TextNormalizer.antt =====
-- app/infra/text/normalize.py. The dictionary's file is read outside.
use report_insight.Base.{ltb, if◌then◌else◌, List, [], ◌∷◌, Text, length, map}
use report_insight.Base.Find.{replace}
pub mod Canonical

pub record Correction : Type 0 where
  pub variant : Text
  pub canonical : Text
  pub source : Text

abbrev pub pair_of : Correction → Text × Text
pair_of c = (c.variant, c.canonical)

-- `sorted(pairs, key=lambda p: len(p[0]), reverse=True)`: equally long variants stay in order.
unfoldable pub insert_longest : Text × Text → List (Text × Text) → List (Text × Text)
insert_longest p [] = p ∷ []
insert_longest p (q ∷ qs) =
    if ltb (length p.0) (length q.0) then q ∷ insert_longest p qs else p ∷ q ∷ qs

unfoldable pub longest_first : List (Text × Text) → List (Text × Text)
unfolding insert_longest
longest_first [] = []
longest_first (p ∷ ps) = insert_longest p (longest_first ps)

-- `TextNormalizer(corrections)`
pub record TextNormalizer : Type 0 where
  pub ordered : List (Text × Text)

unfoldable pub text_normalizer : List Correction → TextNormalizer
unfolding longest_first
text_normalizer corrections = record { ordered = longest_first (map pair_of corrections) }

-- The step of the loop: an empty variant is skipped.
unfoldable pub correct : Text × Text → Text → Text
unfolding replace
correct ([], canonical) t = t
correct (c ∷ cs, canonical) t = replace (c ∷ cs) canonical 0 t

unfoldable pub normalize_by : List (Text × Text) → Text → Text
unfolding correct
normalize_by [] t = t
normalize_by (p ∷ ps) t = normalize_by ps (correct p t)

unfoldable pub normalize : TextNormalizer → Text → Text
unfolding normalize_by
normalize n t = normalize_by n.ordered t
