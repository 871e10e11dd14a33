-- ===== src/Infra/Llm/Outcomes.antt =====
-- Every outcome of a call for a classification.
use report_insight.Base.{
  String, str_eq, ◌≡◌, refl, ap, Bool-cases, false, Option-cases, inl, inr, none, some, List, [],
  ◌∷◌, ◌++◌, All, Text, ◌≤◌, arith, eq_iff, leb,
}
use report_insight.Domain.{
  Json, ClassificationResult, ClassificationEnvelope, retryable, external, value_error, Result, ok,
  err,
}
use report_insight.Infra.Llm.Anthropic.{
  ApiError, rate_limit, connection, internal_server, status, unexpected, Block, text_block,
  tool_use, other_block, Response, Reply, replied, failed, AnthropicLlmClient, to_retryable,
  extract_tool_input, meta_of, read_reply, read_payload, classify_request, classify_report,
}

-- What may pass when the call is made again.
abbrev pub Transient : ApiError → Type 0
Transient rate_limit = Unit
Transient connection = Unit
Transient internal_server = Unit
Transient (status code) = 500 ≤ code
Transient unexpected = ⊥

-- The block is no call of the tool.
abbrev pub IsOther : String → Block → Type 0
IsOther name (text_block _) = Unit
IsOther name (tool_use n _) = ¬ n ≡ name
IsOther name other_block = Unit

pub data Outcome (client : AnthropicLlmClient)
    : Reply Response → Result ClassificationEnvelope → Type 0 where
  again : {e : ApiError} → Transient e → Outcome client (failed e) (err retryable)
  final : {e : ApiError} → ¬ Transient e → Outcome client (failed e) (err external)
  no_call :
      {r : Response}
      → All (IsOther client.classify_prompt.tool_name) r.content
      → Outcome client (replied r) (err retryable)
  refused :
      {r : Response} (before after : List Block) (payload : Json)
      → r.content ≡ before ++ tool_use client.classify_prompt.tool_name payload ∷ after
      → All (IsOther client.classify_prompt.tool_name) before
      → client.model_validate payload ≡ none
      → Outcome client (replied r) (err value_error)
  accepted :
      {r : Response} (before after : List Block) (payload : Json) {result : ClassificationResult}
      → r.content ≡ before ++ tool_use client.classify_prompt.tool_name payload ∷ after
      → All (IsOther client.classify_prompt.tool_name) before
      → client.model_validate payload ≡ some result
      → Outcome client (replied r) (
          ok (record {
            result = result;
            meta = meta_of client.model_classify client.classify_prompt r.usage;
          }))

-- `extract_tool_input` finds the first call of the tool, or there is none.
abbrev Extracted : String → List Block → Result Json → Type 0
Extracted name bs (ok payload) =
    (before : List Block) × (after : List Block) × (bs ≡ before ++ tool_use name payload ∷ after)
    × All (IsOther name) before
Extracted name bs (err e) = (e ≡ retryable) × All (IsOther name) bs

behind :
    (name : String) (b : Block) (bs : List Block) (found : Result Json)
    → IsOther name b
    → Extracted name bs found
    → Extracted name (b ∷ bs) found
behind name b bs (ok payload) other (before, after, e, others) =
    (b ∷ before, after, ap (◌∷◌ b) e, (other, others))
behind name b bs (err e) other (same, others) = (same, (other, others))

extract_tool_input-Extracted :
    (name : String) (bs : List Block) → Extracted name bs (extract_tool_input name bs)
unfolding extract_tool_input
extract_tool_input-Extracted name [] = (refl, tt)
extract_tool_input-Extracted name (text_block t ∷ bs) =
    behind name (text_block t) bs (extract_tool_input name bs) tt
      (extract_tool_input-Extracted name bs)
extract_tool_input-Extracted name (other_block ∷ bs) =
    behind name other_block bs (extract_tool_input name bs) tt
      (extract_tool_input-Extracted name bs)
extract_tool_input-Extracted name (tool_use n input ∷ bs) = elim (Bool-cases (str_eq n name)) [
  | inl e ↦ rw e ([], bs, ap (λ m. tool_use m input ∷ bs) ((eq_iff n name).0 e), tt)
  | inr e ↦ rw e (
      behind name (tool_use n input) bs (extract_tool_input name bs) (differs e)
        (extract_tool_input-Extracted name bs))
]
  where
    differs : str_eq n name ≡ false → ¬ n ≡ name
    differs e same = ground (arith, (eq_iff n name).1 same, e)

module _ (client : AnthropicLlmClient) where
  failed-Outcome : (e : ApiError) → Outcome client (failed e) (err (to_retryable e))
  unfolding to_retryable
  failed-Outcome rate_limit = again tt
  failed-Outcome connection = again tt
  failed-Outcome internal_server = again tt
  failed-Outcome unexpected = final (λ h. h)
  failed-Outcome (status code) = elim (Bool-cases (leb 500 code)) [
    | inl e ↦ rw e (again (ground (arith, e)))
    | inr e ↦ rw e (final (λ h. ground (arith, e, h)))
  ]

  payload-Outcome :
      (r : Response) (found : Result Json)
      → Extracted client.classify_prompt.tool_name r.content found
      → Outcome client (replied r) (read_payload client r.usage found)
  payload-Outcome r (err e) (same, others) = rw same (no_call others)
  payload-Outcome r (ok payload) (before, after, e, others) =
      elim (Option-cases (client.model_validate payload)) [
        | inl v ↦ rw v (refused before after payload e others v)
        | inr (result, v) ↦ rw v (accepted before after payload e others v)
      ]

  -- A call for a classification has one of five outcomes. A transient failure of the interface and a
  -- reply without a call of the tool are retryable; any other failure is final; a payload that the
  -- validation refuses is a value error; and the result is the validated payload of the first call
  -- of the tool, with the tokens of the reply.
  pub classify_report-Outcome :
      (masked_text : Text)
      → Outcome client
          (client.create (classify_request client masked_text))
          (classify_report client masked_text)
  unfolding classify_report
  classify_report-Outcome masked_text = go (client.create (classify_request client masked_text))
    where
      go : (reply : Reply Response) → Outcome client reply (read_reply client reply)
      go (failed e) = unfold read_reply in failed-Outcome e
      go (replied r) =
          payload-Outcome r (extract_tool_input client.classify_prompt.tool_name r.content)
            (extract_tool_input-Extracted client.classify_prompt.tool_name r.content)
