-- ===== src/Tests/Models.antt =====
-- The language model's clients, the dictionary and the merge at concrete inputs.
use report_insight.Base.{ℕ, ◌≡◌, refl, All, Any, inl, inr, none, List, [], ◌∷◌, Text, codes, arith}
use report_insight.Base.Find.{contains}
use report_insight.Domain.{SearchHit, Datetime}
use report_insight.Infra.TextNormalizer.{Correction, text_normalizer, normalize}
use report_insight.Infra.TextNormalizer.Canonical.{Leaves, normalize-canonical}
use report_insight.Infra.Llm.Anthropic.{
  AnthropicLlmClient, Prompt, replied, text_block, failed, connection, render_sources,
  classify_request, classify_report,
}
use report_insight.Infra.Llm.Forgery.{forged, forged_source}
use report_insight.Infra.Llm.Outcomes.{Outcome, classify_report-Outcome}
use report_insight.Infra.Llm.Fake as Fake
use report_insight.Infra.Llm.Fake.{FakeLlmClient}
use report_insight.Infra.Llm.Consistent.{IsConsistent, classify_report-IsConsistent}
use report_insight.Scripts.Templates.{templates}
use report_insight.Domain.{equipment_failure}
use report_insight.Scripts.Merge.{merge}
use report_insight.Scripts.Merge.Refines.{Refines, merge-Refines}

abbrev correction : Text → Text → Correction
correction variant canonical = record {
  variant = variant;
  canonical = canonical;
  source = codes "human_verified";
}

abbrev dictionary : List Correction
dictionary = correction (codes "がす") (codes "ガス") ∷ correction (codes "がすもれ") (codes "ガス漏れ") ∷ []

listed : Any (λ (c : Correction). c.variant ≡ codes "がすもれ") dictionary
listed = inr (inl refl)

agrees : All (λ (c : Correction). c.variant ≡ codes "がすもれ" → c.canonical ≡ codes "ガス漏れ") dictionary
agrees = (λ e. ground (arith, e), (λ e. refl, tt))

leaves : All (λ (c : Correction). Leaves (codes "ガス漏れ") c.variant) dictionary
unfolding contains
leaves = (inr refl, (inr refl, tt))

normalize-canonical_example : normalize (text_normalizer dictionary) (codes "がすもれ") ≡ codes "ガス漏れ"
normalize-canonical_example =
    normalize-canonical dictionary (codes "がすもれ") (codes "ガス漏れ") (ground arith) listed agrees leaves

abbrev hit : ℕ → SearchHit
hit id = record {
  report_id = id;
  property_id = 1;
  content = 97 ∷ [];
  summary = 115 ∷ [];
  reported_at = 100;
  similarity = 0;
}

abbrev iso_day : Datetime → Text
iso_day t = codes "2026-06-01"

forged_source_example :
    render_sources iso_day (forged iso_day (hit 3) (hit 5) ∷ [])
    ≡ render_sources iso_day (hit 3 ∷ hit 5 ∷ [])
forged_source_example = forged_source iso_day (hit 3) (hit 5)

abbrev prompt : Prompt
prompt = record { system = 115 ∷ []; version = "v1"; tool_name = "classify" }

-- A client that is answered with a text and no call of the tool.
abbrev client : AnthropicLlmClient
client = record {
  model_classify = "small";
  model_generate = "large";
  classify_prompt = prompt;
  answer_prompt = prompt;
  monthly_prompt = prompt;
  create = λ request. replied (record {
    content = text_block (97 ∷ []) ∷ [];
    usage = record { input_tokens = 3; output_tokens = 4 };
  });
  stream = λ request. ([], failed connection);
  model_validate = λ payload. none;
  iso_day = iso_day;
}

classify_report-Outcome_example :
    Outcome client
      (client.create (classify_request client (97 ∷ [])))
      (classify_report client (97 ∷ []))
classify_report-Outcome_example = classify_report-Outcome client (97 ∷ [])

abbrev fake : FakeLlmClient
fake = record {
  classify_version = "v1";
  answer_version = "v1";
  monthly_version = "v1";
  samples = templates;
}

classify_report-IsConsistent_example :
    IsConsistent fake (codes "3階で漏水") (Fake.classify_report fake (codes "3階で漏水"))
classify_report-IsConsistent_example = classify_report-IsConsistent fake (codes "3階で漏水")

abbrev by_variant : Correction → Text
by_variant c = c.variant

abbrev golden : List Correction
golden = correction (codes "b") (codes "B") ∷ correction (codes "c") (codes "C") ∷ []

abbrev reviewed : List Correction
reviewed = correction (codes "c") (codes "K") ∷ correction (codes "a") (codes "A") ∷ []

merges : merge by_variant golden reviewed ≡ (
  correction (codes "a") (codes "A")
      ∷ correction (codes "b") (codes "B")
      ∷ correction (codes "c") (codes "K")
      ∷ [],
  (1, 3),
)
unfolding merge
merges = refl

merge-Refines_example : Refines by_variant golden reviewed (merge by_variant golden reviewed)
merge-Refines_example = merge-Refines by_variant golden reviewed

-- The report of a loss of insulation is labelled as one that needs no action, and its text names
-- equipment.
abbrev insulation : Text
insulation = codes "受電設備の月次点検で、軽微な絶縁低下の指摘を受けました。"

misses_label : Fake.classify_category insulation ≡ equipment_failure
unfolding Fake.classify_category
misses_label = refl
