-- ===== src/Scripts/Synth/Total.antt =====
-- What every generation gives.
use report_insight.Base.{
  ℕ, zero, suc, ◌+◌, ◌%◌, ◌<◌, ◌≡◌, ap, refl, true, String, Option, some, List, [], ◌∷◌, Text,
  length, get_elem?, elem, arith,
}
use mathlib.Core.Option.{bind}
use report_insight.Domain.{Datetime, Fields, get_field, text, num}
use report_insight.Infra.TextNormalizer.{normalize}
use report_insight.Scripts.Templates.Shape.{Sample}
use report_insight.Scripts.Templates.{templates}
use report_insight.Scripts.Synth.{Random, NoiseConfig, with_noise, property_ids}
use report_insight.Scripts.Synth.Generate.{
  item_of, item_with, generate_one, rounds, generate, emitted,
}
use report_insight.Scripts.Synth.Recovery.{
  golden, Recovers, with_noise_undone, get_elem?-Recovers, templates_recover,
}

get_elem?-some :
    {A : Type 0} (xs : List A) (n : ℕ) → n < length xs → (x : A) × (get_elem? xs n ≡ some x)
get_elem?-some [] n h = absurd (omega (arith, h))
get_elem?-some (x ∷ xs) zero h = (x, refl)
get_elem?-some (x ∷ xs) (suc n) h = get_elem?-some xs n (omega (arith, h))

-- The template of the i-th round.
template_of : (i : ℕ) → (s : Sample) × (get_elem? templates (i % length templates) ≡ some s)
unfolding templates
template_of i = get_elem?-some templates (i % length templates) (ground arith)

property_ids-elem :
    (n : ℕ) → n < 5 → (p : ℕ) × (get_elem? property_ids n ≡ some p) × (elem p property_ids ≡ true)
property_ids-elem zero h = (101, refl, refl)
property_ids-elem (suc zero) h = (102, refl, refl)
property_ids-elem (suc (suc zero)) h = (103, refl, refl)
property_ids-elem (suc (suc (suc zero))) h = (201, refl, refl)
property_ids-elem (suc (suc (suc (suc zero)))) h = (202, refl, refl)
property_ids-elem (suc (suc (suc (suc (suc n))))) h = absurd (omega (arith, h))

-- What `randrange` promises of a range from 0.
abbrev pub InRange : {S : Type 0} → Random S → Type 0
InRange {S} rng = (n : ℕ) (s : S) → (rng.randrange 0 (suc n) s).0 < suc n

module _ (Q : ℕ → Fields × Sample → Type 0) where
  -- The items from the i-th round on.
  abbrev pub AllFrom : ℕ → List (Fields × Sample) → Type 0
  AllFrom i [] = Unit
  AllFrom i (item ∷ out) = Q i item × AllFrom (i + 1) out

  rounds-AllFrom :
      {S : Type 0} (rng : Random S) (isoformat : Datetime → String) (noise : Option NoiseConfig)
      → ((i : ℕ) (s : Sample) (states : S × S)
          → get_elem? templates (i % length templates) ≡ some s
          → (item : Fields × Sample) × (states' : S × S) × (generate_one rng isoformat noise i s
                states
              ≡ some (item, states'))
            × Q i item)
      → (count i : ℕ) (states : S × S)
      → (out : List (Fields × Sample)) × (rounds rng isoformat noise count i states ≡ some out)
        × (length out ≡ count)
        × AllFrom i out
  unfolding rounds bind
  rounds-AllFrom rng isoformat noise each zero i states = ([], refl, refl, tt)
  rounds-AllFrom rng isoformat noise each (suc count) i states =
      let (s, found) = template_of i in
      let (item, states', one, q) = each i s states found in
      let (out, ran, size, all) = rounds-AllFrom rng isoformat noise each count (i + 1) states' in
      (item ∷ out, rw (found, one, ran) refl, ground (arith, size), (q, all))

-- The item has the label of the template whose turn it is, a property of the demonstration, and a text
-- that the dictionary turns into the template's.
abbrev pub IsRecovered : ℕ → Fields × Sample → Type 0
IsRecovered i item =
    (s : Sample) × (get_elem? templates (i % length templates) ≡ some s)
    × (item.1.label ≡ s.label)
    × (p : ℕ) × (get_field "property_id" item.0 ≡ some (num p))
    × (elem p property_ids ≡ true)
    × (raw : Text) × (get_field "raw_text" item.0 ≡ some (text raw))
    × (normalize golden raw ≡ s.raw_text)

label-emitted : (s : Sample) (t : Text) (tags : List String) → (emitted s t tags).label ≡ s.label
unfolding emitted
label-emitted s t [] = refl
label-emitted s t (tag ∷ tags) = refl

generate_one-IsRecovered :
    {S : Type 0} (rng : Random S) (isoformat : Datetime → String) (noise : NoiseConfig)
    → InRange rng
    → noise.missing ≡ 0
    → (i : ℕ) (s : Sample) (states : S × S) → get_elem? templates (i % length templates) ≡ some s
    → (item : Fields × Sample) × (states' : S × S) × (generate_one rng isoformat
          (some noise)
          i
          s
          states
        ≡ some (item, states'))
      × IsRecovered i item
unfolding generate_one get_field item_of
generate_one-IsRecovered rng isoformat noise range keeps i s (state, noise_state) found =
    let (p, drawn, known) = property_ids-elem (rng.randrange 0 5 state).0 (range 4 state) in
    let noisy = with_noise rng (some noise) s.raw_text noise_state in
    let all : Recovers s =
      get_elem?-Recovers templates (i % length templates) s templates_recover found in
    let after = (rng.randrange 0 5 state).1 in
    let made = item_of rng isoformat (some noise) i s (after, noise_state) p in
    (
      made.0,
      made.1,
      ap (item_with rng isoformat (some noise) i s (after, noise_state)) drawn,
      (
        s,
        found,
        label-emitted s noisy.0.0 noisy.0.1,
        p,
        refl,
        known,
        noisy.0.0,
        refl,
        with_noise_undone rng noise s noise_state keeps all,
      ),
    )

-- However the random numbers fall, noise that leaves out nothing can be undone: the generator gives the
-- asked number of reports, and the i-th has the label of the i-th template, counted in circles, a property
-- of the demonstration, and a text that the dictionary turns into the template's text; if `randrange`
-- stays in its range.
pub generate-IsRecovered :
    {S : Type 0} (rng : Random S) (isoformat : Datetime → String) (noise : NoiseConfig)
    → InRange rng
    → noise.missing ≡ 0
    → (count seed : ℕ)
    → (out : List (Fields × Sample)) × (generate rng isoformat count seed (some noise) ≡ some out)
      × (length out ≡ count)
      × AllFrom IsRecovered 0 out
unfolding generate
generate-IsRecovered rng isoformat noise range keeps count seed =
    rounds-AllFrom IsRecovered rng isoformat (some noise)
      (generate_one-IsRecovered rng isoformat noise range keeps) count 0
      (rng.seeded seed, rng.seeded noise.seed)
