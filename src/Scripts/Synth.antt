-- ===== src/Scripts/Synth.antt =====
-- scripts/synth.py: the sample reports of the demonstration, with the noise of real ones. Python's `random`
-- and `isoformat` are parameters.
use report_insight.Base.{
  ℕ, zero, suc, ◌+◌, ◌-◌, ◌*◌, ◌/◌, ◌%◌, Bool, not, ltb, leb, Option, none, some, String, List, [],
  ◌∷◌, ◌++◌, Text, codes, length, take, filter, map, is_empty, get_elem?, if◌then◌else◌,
}
use report_insight.Base.Str.{decimal}
use report_insight.Base.Find.{replace}
use report_insight.Base.Dict.{text_eq}
use report_insight.Domain.{
  Datetime, Float, Fields, end, field, num, str, text, obj, Urgency, high, medium, low,
}
use report_insight.Domain.Calendar.{first_instant}
use report_insight.Db.{BranchRow, PropertyRow, UserRow}
use report_insight.Infra.Llm.Summaries.{split_on}
use report_insight.Scripts.Templates.Shape.{Sample}
use report_insight.Scripts.Templates.{templates}
pub mod Generate
pub mod Recovery
pub mod Total

-- `BRANCHES`, `PROPERTIES` and `USERS`, as the rows that the demonstration inserts of them
abbrev pub branches : List BranchRow
branches = record { id = 1; name = codes "東京支店" } ∷ record { id = 2; name = codes "大阪支店" } ∷ []

abbrev property : ℕ → ℕ → String → PropertyRow
property id branch_id name = record {
  id = id;
  branch_id = branch_id;
  name = codes name;
  address = none;
}

abbrev pub properties : List PropertyRow
properties =
    property 101 1 "第一グランドビル"
    ∷ property 102 1 "サンライズ集合住宅"
    ∷ property 103 1 "みどり台レジデンス"
    ∷ property 201 2 "なにわタワー"
    ∷ property 202 2 "堺筋テラス"
    ∷ []

abbrev user : ℕ → Option ℕ → String → String → UserRow
user id branch_id email role = record { id = id; branch_id = branch_id; email = email; role = role }

abbrev pub users : List UserRow
users =
    user 1 (some 1) "tokyo-mgr@example.com" "branch_manager"
    ∷ user 2 none "qa@example.com" "qa"
    ∷ user 3 (some 2) "osaka-mgr@example.com" "branch_manager"
    ∷ []

-- `_PROPERTY_IDS`
abbrev pub property_ids : List ℕ
property_ids = map (λ (p : PropertyRow). p.id) properties

abbrev drift_pair : String → String → Text × Text
drift_pair canonical variant = (codes canonical, codes variant)

unfoldable pub notation_drift : List (Text × Text)
notation_drift =
    drift_pair "漏水" "ろうすい"
    ∷ drift_pair "水漏れ" "みずもれ"
    ∷ drift_pair "故障" "こしょう"
    ∷ drift_pair "破損" "はそん"
    ∷ drift_pair "異音" "いおん"
    ∷ drift_pair "停止" "ていし"
    ∷ drift_pair "不具合" "ふぐあい"
    ∷ drift_pair "苦情" "くじょう"
    ∷ drift_pair "騒音" "そうおん"
    ∷ drift_pair "清掃" "せいそう"
    ∷ drift_pair "火災" "かさい"
    ∷ drift_pair "ガス" "がす"
    ∷ drift_pair "要望" "ようぼう"
    ∷ []

unfoldable pub drift_by : List (Text × Text) → Text → Text
unfolding replace
drift_by [] t = t
drift_by ((canonical, variant) ∷ pairs) t = drift_by pairs (replace canonical variant 0 t)

-- `_apply_notation_drift`
unfoldable pub apply_notation_drift : Text → Text × Bool
unfolding drift_by notation_drift text_eq
apply_notation_drift t =
    let drifted = drift_by notation_drift t in (drifted, not (text_eq drifted t))

-- `"。".join(parts)`
unfoldable pub join_stops : List Text → Text
join_stops [] = []
join_stops (p ∷ []) = p
join_stops (p ∷ q ∷ ps) = p ++ 0x3002 ∷ join_stops (q ∷ ps)

abbrev missing_suffix : Text
missing_suffix = codes "（詳細は後日確認）"

-- `_apply_missing_info`
unfoldable pub apply_missing_info : Text → Text
unfolding split_on join_stops
apply_missing_info t =
    let parts = filter (λ p. not (is_empty p)) (split_on 0x3002 t) in
    if ltb 1 (length parts)
    then join_stops (take (length parts - 1) parts) ++ (codes "。" ++ missing_suffix)
    else codes "状況不明。" ++ missing_suffix

-- `random.Random`, with the state of the generator made explicit.
pub record Random (S : Type 0) : Type 0 where
  pub seeded : ℕ → S
  pub randrange : ℕ → ℕ → S → ℕ × S
  pub choice : List ℕ → S → ℕ × S
  pub random : S → Float × S

pub record NoiseConfig : Type 0 where
  pub notation : Float
  pub missing : Float
  pub seed : ℕ

module _ {S : Type 0} (rng : Random S) where
  unfoldable pub hour_of : Urgency → S → ℕ × S
  hour_of high = rng.choice (1 ∷ 5 ∷ 7 ∷ 8 ∷ 9 ∷ 10 ∷ 11 ∷ 13 ∷ 14 ∷ 15 ∷ 16 ∷ 17 ∷ 19 ∷ 22 ∷ [])
  hour_of medium = rng.randrange 9 18
  hour_of low = rng.randrange 9 18

  -- `_time_of_day`: the hours and the minutes
  unfoldable pub time_of_day : Sample → S → (ℕ × ℕ) × S
  unfolding hour_of
  time_of_day sample s =
      let (hour, s1) = hour_of sample.label.urgency s in
      let (minutes, s2) = rng.choice (0 ∷ 10 ∷ 15 ∷ 20 ∷ 30 ∷ 40 ∷ 45 ∷ 50 ∷ []) s1 in
      ((hour, minutes), s2)

  -- `if noise_rng.random() < noise.notation`
  unfoldable pub with_drift : Float → Text → S → (Text × List String) × S
  unfolding apply_notation_drift
  with_drift rate t s =
      let (x, s1) = rng.random s in
      let (drifted, changed) = apply_notation_drift t in
      let applied : Text × List String = (drifted, if changed then "drift" ∷ [] else []) in
      (if ltb x rate then applied else (t, []), s1)

  -- `if noise_rng.random() < noise.missing`
  unfoldable pub with_missing : Float → Text × List String → S → (Text × List String) × S
  unfolding apply_missing_info
  with_missing rate (t, tags) s =
      let (x, s1) = rng.random s in
      let applied : Text × List String = (apply_missing_info t, tags ++ "missing" ∷ []) in
      (if ltb x rate then applied else (t, tags), s1)

  -- The text and the tags that the noise gives.
  unfoldable pub with_noise : Option NoiseConfig → Text → S → (Text × List String) × S
  unfolding with_drift with_missing
  with_noise none t s = ((t, []), s)
  with_noise (some noise) t s =
      let (drifted, s1) = with_drift noise.notation t s in with_missing noise.missing drifted s1
