-- ===== src/Infra/Llm/Summaries.antt =====
-- app/infra/llm/summaries.py: the summary that a template has for its report.
use report_insight.Base.{
  ℕ, ◌+◌, ◌/◌, ◌==◌, Bool, false, not, ◌&&◌, leb, Option, none, some, List, [], ◌∷◌, Text, length,
  is_empty, filter, if◌then◌else◌,
}
use report_insight.Base.Str.{is_space, onto_first}
use report_insight.Base.Find.{strip_prefix, contains}
use report_insight.Base.Dict.{get, set}
use report_insight.Scripts.Templates.Shape.{Sample}

-- `_key`
unfoldable pub key : Text → Text
unfolding is_space
key t = filter (λ c. not (is_space c)) t

-- `_build`, behind the entries of the samples before.
unfoldable pub build : List Sample → List (Text × Text) → List (Text × Text)
unfolding key set
build [] table = table
build (s ∷ samples) table =
    let skipped = build samples table in
    let entered = build samples (set (key s.raw_text) s.summary table) in
    if is_empty s.summary then skipped else entered

-- `t.split(c)`
unfoldable pub split_on : ℕ → Text → List Text
split_on c [] = [] ∷ []
split_on c (d ∷ t) = let rest = split_on c t in if d == c then [] ∷ rest else onto_first d rest

-- `t.split(c, 1)[-1] if c in t else t`
unfoldable pub behind_first : ℕ → Text → Option Text
behind_first c [] = none
behind_first c (d ∷ t) = let later = behind_first c t in if d == c then some t else later

unfoldable pub tail_of : Text → Text
unfolding behind_first
tail_of chunk = elim (behind_first b']' chunk) [ none ↦ chunk | some t ↦ t ]

-- The text behind the first occurrence: `original_key[pos:]` for the next `pos`.
unfoldable pub find_behind : Text → Text → Option Text
unfolding strip_prefix
find_behind k [] = strip_prefix k []
find_behind k (c ∷ t) =
    let later = find_behind k t in elim (strip_prefix k (c ∷ t)) [ some r ↦ some r | none ↦ later ]

-- The loop of `_matches_masked`: what is left of the original, and the matched characters; none if
-- some tail is not found.
unfoldable pub matched_chars : List Text → Text → ℕ → Option ℕ
unfolding tail_of find_behind
matched_chars [] original n = some n
matched_chars (chunk ∷ chunks) original n =
    let skipped = matched_chars chunks original n in
    let tail = tail_of chunk in
    if is_empty tail then skipped else elim (find_behind tail original) [
      | none ↦ none
      | some rest ↦ matched_chars chunks rest (n + length tail)
    ]

-- `_matches_masked`
unfoldable pub matches_masked : Text → Text → Bool
unfolding contains split_on matched_chars
matches_masked masked original =
    contains (b'[' ∷ []) masked && elim (matched_chars (split_on b'[' masked) original 0) [
      | none ↦ false
      | some n ↦ leb (length original / 2) n
    ]

-- The loop over the table of `lookup`.
unfoldable pub first_match : Text → List (Text × Text) → Option Text
unfolding matches_masked
first_match masked [] = none
first_match masked ((original, summary) ∷ table) =
    let later = first_match masked table in
    if matches_masked masked original then some summary else later

abbrev pub hit_or : Option Text → Option Text → Option Text
hit_or none later = later
hit_or (some summary) later = some summary

-- `lookup`, with the table of the samples, which is empty if the scripts are not there.
unfoldable pub lookup : List Sample → Text → Option Text
unfolding build get first_match
lookup samples masked_text =
    let table = build samples [] in
    hit_or (get (key masked_text) table) (first_match (key masked_text) table)
