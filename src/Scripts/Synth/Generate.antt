-- ===== src/Scripts/Synth/Generate.antt =====
-- `generate` of scripts/synth.py.
use report_insight.Base.{
  ℕ, zero, suc, ◌+◌, ◌-◌, ◌*◌, ◌/◌, ◌%◌, Option, none, some, String, List, [], ◌∷◌, ◌++◌, Text,
  codes, length, get_elem?,
}
use mathlib.Core.Option.{bind}
use report_insight.Base.Str.{decimal}
use report_insight.Domain.{Datetime, Fields, end, field, num, str, text, obj}
use report_insight.Domain.Calendar.{first_instant}
use report_insight.Scripts.Templates.Shape.{Sample}
use report_insight.Scripts.Templates.{templates}
use report_insight.Scripts.Synth.{property_ids, Random, NoiseConfig, time_of_day, with_noise}

abbrev zeros : ℕ → Text
zeros zero = []
zeros (suc n) = 48 ∷ zeros n

-- `f"{i:04d}"`
unfoldable pub four_digits : ℕ → Text
unfolding decimal
four_digits i = let t = decimal i in zeros (4 - length t) ++ t

unfoldable pub source_key_of : ℕ → Text
unfolding four_digits
source_key_of i = codes "reports/2026-06/" ++ (four_digits i ++ codes ".json")

-- `base + timedelta(days=i // _REPORTS_PER_DAY, hours=..., minutes=...)`
unfoldable pub reported_at_of : ℕ → ℕ × ℕ → Datetime
unfolding first_instant
reported_at_of i (hours, minutes) =
    first_instant 2026 6 + (i / 7 * 86400000000 + (hours * 3600000000 + minutes * 60000000))

-- The sample that is given out: without noise the template itself.
unfoldable pub emitted : Sample → Text → List String → Sample
emitted sample raw_text [] = sample
emitted sample raw_text (tag ∷ tags) = record {
  raw_text = raw_text;
  reporter_role = sample.reporter_role;
  label = sample.label;
  tags = sample.tags ++ tag ∷ tags;
  summary = [];
}

abbrev pub payload_of : Text → ℕ → String → String → Text → Fields
payload_of source_key property_id reported_at reporter_role raw_text =
    field "source_key" (text source_key) (
      field "property_id" (num property_id) (
        field "reported_at" (str reported_at) (
          field "reporter_role" (str reporter_role)
            (field "raw_text" (text raw_text) (field "photo_meta" (obj end) end)))))

module _ {S : Type 0} (rng : Random S) (isoformat : Datetime → String) where
  -- The body of the loop, behind the choice of the property.
  unfoldable pub item_of : Option NoiseConfig → ℕ → Sample → S × S → ℕ → (Fields × Sample) × (S × S)
  unfolding time_of_day with_noise source_key_of reported_at_of emitted
  item_of noise i sample (s, noise_s) property_id =
      let (time, s1) = time_of_day rng sample s in
      let (noisy, noise_s1) = with_noise rng noise sample.raw_text noise_s in
      (
        (
          payload_of (source_key_of i) property_id (isoformat (reported_at_of i time))
              sample.reporter_role noisy.0,
          emitted sample noisy.0 noisy.1,
        ),
        (s1, noise_s1),
      )

  abbrev pub item_with :
      Option NoiseConfig → ℕ → Sample → S × S → Option ℕ → Option ((Fields × Sample) × (S × S))
  item_with noise i sample states none = none
  item_with noise i sample states (some property_id) =
      some (item_of noise i sample states property_id)

  -- The body of the loop, for a template and the two generators.
  unfoldable pub generate_one :
      Option NoiseConfig → ℕ → Sample → S × S → Option ((Fields × Sample) × (S × S))
  unfolding item_of
  generate_one noise i sample (s, noise_s) =
      let (index, s1) = rng.randrange 0 (length property_ids) s in
      item_with noise i sample (s1, noise_s) (get_elem? property_ids index)

  -- The rounds from the i-th on; none is an IndexError.
  unfoldable pub rounds : Option NoiseConfig → ℕ → ℕ → S × S → Option (List (Fields × Sample))
  unfolding generate_one bind
  rounds noise zero i states = some []
  rounds noise (suc count) i states = bind (get_elem? templates (i % length templates)) λ sample.
      bind (generate_one noise i sample states)
        λ (item, states1). bind (rounds noise count (i + 1) states1) λ out. some (item ∷ out)

  abbrev noise_seed : Option NoiseConfig → ℕ
  noise_seed none = 0
  noise_seed (some noise) = noise.seed

  unfoldable pub generate : ℕ → ℕ → Option NoiseConfig → Option (List (Fields × Sample))
  unfolding rounds
  generate count seed noise = rounds noise count 0 (rng.seeded seed, rng.seeded (noise_seed noise))
