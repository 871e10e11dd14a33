-- ===== src/Scripts/Synth/Recovery.antt =====
-- The dictionary undoes the drift of the sample reports.
use report_insight.Base.{
  ℕ, zero, suc, ◌≡◌, refl, true, Bool, ◌&&◌, some, List, [], codes, ◌∷◌, Text, get_elem?, map,
  subst, &&-split, arith,
}
use mathlib.Core.Option.{some-injective}
use report_insight.Base.Dict.{text_eq, text_eq_sound}
use report_insight.Infra.TextNormalizer.{Correction, TextNormalizer, text_normalizer, normalize}
use report_insight.Scripts.Templates.Shape.{Sample}
use report_insight.Scripts.Templates.{templates}
use report_insight.Scripts.Synth.{
  Random, NoiseConfig, with_noise, with_drift, with_missing, notation_drift, drift_by,
  apply_notation_drift,
}

abbrev pub correction_of : Text × Text → Correction
correction_of (canonical, variant) = record {
  variant = variant;
  canonical = canonical;
  source = codes "human_verified";
}

-- tests/llm_eval/golden_corrections.json: what the drift does, backwards
abbrev pub golden : TextNormalizer
golden = text_normalizer (map correction_of notation_drift)

-- The dictionary leaves the template and undoes its drift.
unfoldable pub recovers : Sample → Bool
unfolding normalize drift_by text_eq
recovers s =
    text_eq (normalize golden s.raw_text) s.raw_text
    && text_eq (normalize golden (drift_by notation_drift s.raw_text)) s.raw_text

unfoldable pub all_recover : List Sample → Bool
unfolding recovers
all_recover [] = true
all_recover (s ∷ samples) = recovers s && all_recover samples

pub templates_recover : all_recover templates ≡ true
unfolding templates text_normalizer all_recover notation_drift
templates_recover = refl

-- What the Boolean test says of one sample.
abbrev pub Recovers : Sample → Type 0
Recovers s =
    (normalize golden s.raw_text ≡ s.raw_text)
    × (normalize golden (drift_by notation_drift s.raw_text) ≡ s.raw_text)

recovers_sound : (s : Sample) → recovers s ≡ true → Recovers s
unfolding recovers
recovers_sound s h =
    let plain = normalize golden s.raw_text in
    let drifted = normalize golden (drift_by notation_drift s.raw_text) in
    let both = &&-split (text_eq plain s.raw_text) (text_eq drifted s.raw_text) h in
    (text_eq_sound plain s.raw_text both.0, text_eq_sound drifted s.raw_text both.1)

pub get_elem?-Recovers :
    (samples : List Sample) (n : ℕ) (s : Sample)
    → all_recover samples ≡ true
    → get_elem? samples n ≡ some s
    → Recovers s
unfolding all_recover
get_elem?-Recovers [] n s h found = absurd (ground arith)
get_elem?-Recovers (x ∷ samples) zero s h found =
    subst Recovers (some-injective x s found)
      (recovers_sound x (&&-split (recovers x) (all_recover samples) h).0)
get_elem?-Recovers (x ∷ samples) (suc n) s h found =
    get_elem?-Recovers samples n s (&&-split (recovers x) (all_recover samples) h).1 found

-- Noise that leaves out nothing can be undone.
pub with_noise_undone :
    {S : Type 0} (rng : Random S) (noise : NoiseConfig) (s : Sample) (state : S)
    → noise.missing ≡ 0
    → Recovers s
    → normalize golden (with_noise rng (some noise) s.raw_text state).0.0 ≡ s.raw_text
unfolding with_noise with_drift with_missing apply_notation_drift
with_noise_undone rng noise s state h (plain, drifted) = ground (arith, h, plain, drifted)
