-- ===== src/Ingest/S3Event.antt =====
-- `parse_s3_event` of app/services/ingest.py. `json.loads` and `str` are the standard library's, and
-- parameters.
use report_insight.Base.{String, Option, none, some, List, [], ◌∷◌, if◌then◌else◌}
use report_insight.Domain.{
  Json, Items, Fields, null, obj, nil, cons, end, arr, get_field, truthy, external, Result, ok, err,
}

-- `d.get(key, {})`, where the value has to be a dictionary again: another value has no method `get`,
-- which is an `AttributeError`.
abbrev pub get_dict : String → Json → Result Json
get_dict key (obj fields) = elim (get_field key fields) [ none ↦ ok (obj end) | some v ↦ ok v ]
get_dict key _ = err external

-- `d.get(key)`
abbrev pub get_value : String → Json → Result Json
get_value key (obj fields) = elim (get_field key fields) [ none ↦ ok null | some v ↦ ok v ]
get_value key _ = err external

infixl 10 ◌>>=◌
abbrev ◌>>=◌ : {A B : Type 0} → Result A → (A → Result B) → Result B
ok a >>= f = f a
err e >>= f = err e

-- `record.get("s3", {}).get("object", {}).get("key")`
unfoldable pub record_key : Json → Result Json
record_key r = do s3 ← get_dict "s3" r; object ← get_dict "object" s3; get_value "key" object

module _ (to_str : Json → String) where
  unfoldable pub record_keys : Items → Result (List String)
  unfolding record_key
  record_keys nil = ok []
  record_keys (cons r rest) =
      let later = record_keys rest in
      record_key r >>= λ key. later >>= λ keys. ok (if truthy key then to_str key ∷ keys else keys)

  -- `for record in records`: the values of a list; a loop over another value that is not empty has
  -- texts or is an error, and `record.get` fails at the first.
  abbrev pub keys_of_records : Json → Result (List String)
  keys_of_records (arr records) = record_keys records
  keys_of_records _ = err external

  abbrev pub direct_key : Fields → List String
  direct_key fields = elim (get_field "source_key" fields) [ none ↦ [] | some v ↦ to_str v ∷ [] ]

  abbrev pub keys_of_payload : Json → Result (List String)
  keys_of_payload (obj fields) = elim (get_field "Records" fields) [
    | none ↦ ok (direct_key fields)
    | some records ↦ if truthy records then keys_of_records records else ok (direct_key fields)
  ]
  keys_of_payload _ = ok []

  -- `json.loads` returns no value where it raises `JSONDecodeError`.
  unfoldable pub parse_s3_event : (String → Option Json) → String → Result (List String)
  unfolding record_keys
  parse_s3_event json_loads body = elim (json_loads body) [
    | none ↦ ok (body ∷ [])
    | some payload ↦ keys_of_payload payload
  ]
