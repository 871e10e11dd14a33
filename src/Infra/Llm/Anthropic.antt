-- ===== src/Infra/Llm/Anthropic.antt =====
-- app/infra/llm/anthropic_client.py. The SDK, the prompts' files and the validation by pydantic are
-- parameters.
use report_insight.Base.{
  ℕ, String, str_eq, Option, none, some, List, [], ◌∷◌, ◌++◌, map, Text, codes, leb, if◌then◌else◌,
}
use report_insight.Base.Str.{decimal, join_lines, strip}
use report_insight.Domain.{
  Json, Category, Urgency, ClassificationResult, ClassificationEnvelope, LlmCallMeta, MonthlyStats,
  MonthlyNarration, SearchHit, Datetime, Error, retryable, external, value_error, Result, ok, err,
}
use report_insight.Domain.Labels.{category_jp, urgency_jp}

-- The exceptions of the SDK; `status` is another `APIStatusError`.
pub data ApiError : Type 0 where
  rate_limit connection internal_server : ApiError
  status : ℕ → ApiError
  unexpected : ApiError

-- `_to_retryable`
unfoldable pub to_retryable : ApiError → Error
to_retryable rate_limit = retryable
to_retryable connection = retryable
to_retryable internal_server = retryable
to_retryable (status code) = if leb 500 code then retryable else external
to_retryable unexpected = external

pub data Block : Type 0 where
  text_block : Text → Block
  tool_use : String → Json → Block
  other_block : Block

pub record Usage : Type 0 where
  pub input_tokens : ℕ
  pub output_tokens : ℕ

pub record Response : Type 0 where
  pub content : List Block
  pub usage : Usage

pub record Request : Type 0 where
  pub model : String
  pub max_tokens : ℕ
  pub system : Text
  pub tool : Option String
  pub content : Text

pub data Reply (A : Type 0) : Type 0 where
  replied : A → Reply A
  failed : ApiError → Reply A

pub record Prompt : Type 0 where
  pub system : Text
  pub version : String
  pub tool_name : String

pub record AnthropicLlmClient : Type 0 where
  pub model_classify : String
  pub model_generate : String
  pub classify_prompt : Prompt
  pub answer_prompt : Prompt
  pub monthly_prompt : Prompt
  -- `messages.create`, and `messages.stream` with the final message
  pub create : Request → Reply Response
  pub stream : Request → List Text × Reply Usage
  pub model_validate : Json → Option ClassificationResult
  pub iso_day : Datetime → Text

-- `_extract_tool_input`
unfoldable pub extract_tool_input : String → List Block → Result Json
extract_tool_input name [] = err retryable
extract_tool_input name (tool_use n input ∷ bs) =
    if str_eq n name then ok input else extract_tool_input name bs
extract_tool_input name (text_block _ ∷ bs) = extract_tool_input name bs
extract_tool_input name (other_block ∷ bs) = extract_tool_input name bs

abbrev pub meta_of : String → Prompt → Usage → LlmCallMeta
meta_of model prompt usage = record {
  model_id = model;
  prompt_version = prompt.version;
  input_tokens = usage.input_tokens;
  output_tokens = usage.output_tokens;
}

unfoldable pub classify_request : AnthropicLlmClient → Text → Request
classify_request client masked_text = record {
  model = client.model_classify;
  max_tokens = 1024;
  system = client.classify_prompt.system;
  tool = some client.classify_prompt.tool_name;
  content = codes "<report>\n" ++ (masked_text ++ codes "\n</report>");
}

abbrev pub validated :
    AnthropicLlmClient → Usage → Option ClassificationResult → Result ClassificationEnvelope
validated client usage none = err value_error
validated client usage (some result) =
    ok (record {
      result = result;
      meta = meta_of client.model_classify client.classify_prompt usage;
    })

abbrev pub read_payload : AnthropicLlmClient → Usage → Result Json → Result ClassificationEnvelope
read_payload client usage (err e) = err e
read_payload client usage (ok payload) = validated client usage (client.model_validate payload)

unfoldable pub read_reply : AnthropicLlmClient → Reply Response → Result ClassificationEnvelope
unfolding extract_tool_input to_retryable
read_reply client (failed e) = err (to_retryable e)
read_reply client (replied response) =
    read_payload client response.usage
      (extract_tool_input client.classify_prompt.tool_name response.content)

unfoldable pub classify_report : AnthropicLlmClient → Text → Result ClassificationEnvelope
unfolding read_reply classify_request
classify_report client masked_text =
    read_reply client (client.create (classify_request client masked_text))

unfoldable pub text_blocks : List Block → Text
text_blocks [] = []
text_blocks (text_block t ∷ bs) = t ++ text_blocks bs
text_blocks (tool_use _ _ ∷ bs) = text_blocks bs
text_blocks (other_block ∷ bs) = text_blocks bs

unfoldable pub render_stats : Text → MonthlyStats → Text
unfolding join_lines
render_stats property_name stats = join_lines (
    (codes "物件: " ++ property_name)
    ∷ (codes "対象月: "
        ++ (decimal stats.month.year ++ (codes "年" ++ (decimal stats.month.month ++ codes "月"))))
    ∷ (codes "総報告件数: " ++ decimal stats.total)
    ∷ (codes "要対応件数: " ++ decimal stats.action_required)
    ∷ codes "分類別:"
    ∷ (map (λ (e : Category × ℕ). codes "  - " ++ (category_jp e.0 ++ (codes ": " ++ decimal e.1)))
          stats.by_category
        ++ (codes "緊急度別:"
            ∷ map
                (λ (e : Urgency × ℕ).
                  codes "  - " ++ (urgency_jp e.0 ++ (codes ": " ++ decimal e.1)))
                stats.by_urgency)))

abbrev pub narration_of : AnthropicLlmClient → Reply Response → Result MonthlyNarration
unfolding to_retryable text_blocks strip
narration_of client (failed e) = err (to_retryable e)
narration_of client (replied response) = ok (record {
  body = strip (text_blocks response.content);
  meta = meta_of client.model_generate client.monthly_prompt response.usage;
})

unfoldable pub narrate_monthly : AnthropicLlmClient → Text → MonthlyStats → Result MonthlyNarration
unfolding narration_of render_stats
narrate_monthly client property_name stats = narration_of client (
    client.create (record {
      model = client.model_generate;
      max_tokens = 512;
      system = client.monthly_prompt.system;
      tool = none;
      content = codes "<stats>\n" ++ (render_stats property_name stats ++ codes "\n</stats>");
    }))

-- One line of `_render_sources`.
unfoldable pub source_line : (Datetime → Text) → SearchHit → Text
source_line iso_day hit =
    codes "  <report id=\""
    ++ (decimal hit.report_id
        ++ (codes "\" date=\""
            ++ (iso_day hit.reported_at ++ (codes "\">" ++ (hit.content ++ codes "</report>")))))

unfoldable pub render_sources : (Datetime → Text) → List SearchHit → Text
unfolding source_line join_lines
render_sources iso_day sources =
    join_lines (codes "<sources>" ∷ (map (source_line iso_day) sources ++ codes "</sources>" ∷ []))

abbrev pub usage_of : AnthropicLlmClient → Reply Usage → Result LlmCallMeta
unfolding to_retryable
usage_of client (failed e) = err (to_retryable e)
usage_of client (replied usage) = ok (meta_of client.model_generate client.answer_prompt usage)

-- `_AnthropicAnswerStream`: the tokens that arrive, and the usage or an exception behind them.
unfoldable pub stream_answer :
    AnthropicLlmClient → Text → List SearchHit → List Text × Result LlmCallMeta
unfolding usage_of render_sources
stream_answer client query sources =
    let (tokens, final) = client.stream (record {
      model = client.model_generate;
      max_tokens = 1024;
      system = client.answer_prompt.system;
      tool = none;
      content = render_sources client.iso_day sources ++ (codes "\n\n質問: " ++ query);
    }) in
    (tokens, usage_of client final)
