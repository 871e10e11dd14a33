-- ===== src/Infra/Emf.antt =====
-- `EmfMetrics` of app/infra/observability/emf.py, up to the document that `_write` serialises into a line.
use report_insight.Base.{
  ℕ, Bool, true, false, not, ◌&&◌, List, [], ◌∷◌, map, Text, codes, ℤ, pos, if◌then◌else◌,
}
use report_insight.Base.Dict.{text_eq, set, has}
pub mod Merged
pub mod Document

-- The only element of `CloudWatchMetrics`; a metric is its `Name` and its `Unit`.
pub record Directive : Type 0 where
  pub namespace : Text
  pub dimensions : List (List Text)
  pub metrics : List (Text × Text)

-- What a member of the document holds: `_aws` with its `Timestamp`, a dimension's or a metric's value.
pub data Value : Type 0 where
  header : ℕ → Directive → Value
  label : Text → Value
  number : ℤ → Value

pub record EmfMetrics : Type 0 where
  pub namespace : Text
  pub dims : List (Text × Text)

-- `{**d, **e}`
unfoldable pub merge {ℓ} : {A : Type ℓ} → List (Text × A) → List (Text × A) → List (Text × A)
unfolding set
merge d [] = d
merge d ((k, v) ∷ e) = merge (set k v d) e

abbrev pub keys {ℓ} : {A : Type ℓ} → List (Text × A) → List Text
keys = map (λ e. e.0)

-- A metric's name, value and unit.
abbrev pub Metric : Type 0
Metric = Text × (ℤ × Text)

abbrev pub unit_of : Metric → Text × Text
unit_of (n, (_, u)) = (n, u)

abbrev pub aws : Text
aws = codes "_aws"

abbrev pub env : Text
env = codes "Env"

abbrev pub count : Text
count = codes "Count"

abbrev pub labels : List (Text × Text) → List (Text × Value)
labels [] = []
labels ((k, v) ∷ d) = (k, label v) ∷ labels d

abbrev pub numbers : List Metric → List (Text × Value)
numbers [] = []
numbers ((n, (v, _)) ∷ ms) = (n, number v) ∷ numbers ms

-- `now` is `int(time.time() * 1000)`.
unfoldable pub write :
    EmfMetrics → ℕ → List Metric → List (List Text) → List (Text × Text) → List (Text × Value)
unfolding merge
write self now metrics dimension_sets dims =
    merge
      (merge
        ((
          aws,
          header now record {
            namespace = self.namespace;
            dimensions = dimension_sets;
            metrics = map unit_of metrics;
          },
        )
          ∷ [])
        (labels dims))
      (numbers metrics)

unfoldable pub incr : EmfMetrics → ℕ → Text → ℤ → List (Text × Text) → List (Text × Value)
unfolding merge write
incr self now name value dimensions =
    let dims = merge self.dims dimensions in
    write self now ((name, (value, count)) ∷ []) (keys dims ∷ []) dims

-- `ks == ["Env"]`
abbrev pub is_env_alone : List Text → Bool
is_env_alone (k ∷ []) = text_eq k env
is_env_alone _ = false

abbrev pub dim_sets : List (Text × Text) → List (List Text)
dim_sets dims =
    if has env dims && not (is_env_alone (keys dims))
    then keys dims ∷ (env ∷ []) ∷ []
    else keys dims ∷ []

abbrev pub tokens_input : Text
tokens_input = codes "tokens_input"

abbrev pub tokens_output : Text
tokens_output = codes "tokens_output"

unfoldable pub emit_tokens : EmfMetrics → ℕ → ℤ → ℤ → List (Text × Text) → List (Text × Value)
unfolding merge write has text_eq
emit_tokens self now input output dimensions =
    let dims = merge self.dims dimensions in
    write self now ((tokens_input, (input, count)) ∷ (tokens_output, (output, count)) ∷ [])
      (dim_sets dims) dims
