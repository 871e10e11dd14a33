-- ===== src/Infra/Llm/Fake.antt =====
-- app/infra/llm/fake_client.py: the language model of the tests and the demonstration. The versions
-- of the prompts come from files.
use report_insight.Base.{
  ℕ, ◌+◌, ◌/◌, ◌==◌, String, Bool, true, false, not, ◌&&◌, ◌||◌, ltb, Option, none, some, List, [],
  ◌∷◌, ◌++◌, map, take, Text, codes, length, is_empty, if◌then◌else◌,
}
use report_insight.Base.Str.{decimal, strip}
use report_insight.Base.Find.{mentions}
use report_insight.Domain.{
  Category, equipment_failure, Urgency, high, medium, low, ClassificationEnvelope, LlmCallMeta,
  MonthlyStats, MonthlyNarration, SearchHit, Float,
}
use report_insight.Domain.Labels.{category_jp}
use report_insight.Scripts.Templates.Shape.{Sample}
use report_insight.Infra.Llm.Summaries.{lookup}
use report_insight.Search.Service.{join}

unfoldable pub high_urgency_keywords : List Text
high_urgency_keywords =
    map codes ("漏水" ∷ "水漏れ" ∷ "火災" ∷ "煙" ∷ "停電" ∷ "閉じ込め" ∷ "けが" ∷ "負傷" ∷ "防犯" ∷ "侵入" ∷ "ガス" ∷ [])

unfoldable pub equipment_keywords : List Text
equipment_keywords = map codes (
    "故障" ∷ "破損" ∷ "漏水" ∷ "水漏れ" ∷ "異音" ∷ "停止" ∷ "不具合" ∷ "設備" ∷ "閉じ込め" ∷ "発煙" ∷ "焦げ臭" ∷ "ぐらつき" ∷ "緩み"
    ∷ "劣化" ∷ "ずれ" ∷ "点滅" ∷ "浮き" ∷ "反応しない" ∷ "動かない" ∷ "開かない" ∷ "閉まりきらない" ∷ "閉まりにくい" ∷ "上がらず"
    ∷ "止まらない" ∷ "起動しない" ∷ "開きっぱなし" ∷ "エラー" ∷ [])

unfoldable pub no_issue_markers : List Text
no_issue_markers = map codes ("異常はありません" ∷ "異常なし" ∷ "指摘事項なし" ∷ [])

unfoldable pub cleaning_keywords : List Text
cleaning_keywords = map codes ("清掃" ∷ "ゴミ" ∷ "汚れ" ∷ "美観" ∷ "落ち葉" ∷ "清掃中" ∷ [])

unfoldable pub claim_keywords : List Text
claim_keywords = map codes ("苦情" ∷ "クレーム" ∷ "要望" ∷ "騒音" ∷ "トラブル" ∷ "不満" ∷ [])

unfoldable pub low_confidence_markers : List Text
low_confidence_markers = map codes ("曖昧" ∷ "不明" ∷ "判読不能" ∷ "？？" ∷ [])

-- `_estimate_tokens`
unfoldable pub estimate_tokens : Text → ℕ
estimate_tokens t = let n = length t / 4 in if ltb 1 n then n else 1

-- The literals 0.60 and 0.95
abbrev pub doubtful : Float
doubtful = 4603579539098121011

abbrev pub confident : Float
confident = 4606732058837280358

-- `_classify_category`
unfoldable pub classify_category : Text → Category
unfolding mentions no_issue_markers equipment_keywords claim_keywords cleaning_keywords
classify_category text =
    let no_issue = mentions no_issue_markers text in
    if not no_issue && mentions equipment_keywords text
    then equipment_failure
    else if mentions claim_keywords text
    then Category.claim
    else if mentions cleaning_keywords text
    then Category.cleaning
    else Category.other

-- `_classify_urgency`
unfoldable pub classify_urgency : Text → Urgency
unfolding mentions high_urgency_keywords no_issue_markers equipment_keywords
classify_urgency text =
    if mentions high_urgency_keywords text
    then high
    else if mentions no_issue_markers text
    then low
    else if mentions equipment_keywords text
    then medium
    else low

-- `_confidence`
unfoldable pub confidence_of : Text → Float
unfolding mentions low_confidence_markers strip
confidence_of text =
    if mentions low_confidence_markers text || ltb (length (strip text)) 8
    then doubtful
    else confident

abbrev pub is_high : Urgency → Bool
is_high high = true
is_high medium = false
is_high low = false

abbrev pub is_failure : Category → Bool
is_failure equipment_failure = true
is_failure Category.cleaning = false
is_failure Category.claim = false
is_failure Category.other = false

-- The text without breaks of lines, cut behind 78 characters if it has more than 80.
unfoldable pub shortened : Text → Text
unfolding strip
shortened text =
    let line = map (λ c. if c == 10 then 32 else c) (strip text) in
    if ltb 80 (length line) then take 78 line ++ codes "…" else line

abbrev pub summary_or : Option Text → Text → Text
summary_or none text = text
summary_or (some summary) text = summary

unfoldable pub summary_of : List Sample → Text → Text
unfolding lookup shortened
summary_of samples text =
    let summary = summary_or (lookup samples text) (shortened text) in
    if is_empty summary then codes "（本文なし）" else summary

-- The versions of the prompts, and the samples that the summaries are looked up in.
pub record FakeLlmClient : Type 0 where
  pub classify_version : String
  pub answer_version : String
  pub monthly_version : String
  pub samples : List Sample

unfoldable pub classify_report : FakeLlmClient → Text → ClassificationEnvelope
unfolding classify_category classify_urgency confidence_of summary_of estimate_tokens
classify_report client masked_text =
    let category = classify_category masked_text in
    let urgency = classify_urgency masked_text in
    record {
      result = record {
        category = category;
        urgency = urgency;
        action_required = is_high urgency || is_failure category;
        normalized_summary = summary_of client.samples masked_text;
        confidence = confidence_of masked_text;
      };
      meta = record {
        model_id = "fake-classify";
        prompt_version = client.classify_version;
        input_tokens = estimate_tokens masked_text;
        output_tokens = 16;
      };
    }

-- `max(items, key=lambda kv: kv[1])`: the first of the greatest.
unfoldable pub top_of : Category × ℕ → List (Category × ℕ) → Category × ℕ
top_of best [] = best
top_of best (e ∷ es) =
    let better = top_of e es in let same = top_of best es in if ltb best.1 e.1 then better else same

unfoldable pub top_sentence : List (Category × ℕ) → Text
unfolding top_of
top_sentence [] = []
top_sentence (e ∷ es) =
    let top = top_of e es in
    if ltb 0 top.1
    then codes "最多の分類は「" ++ (category_jp top.0 ++ (codes "」で" ++ (decimal top.1 ++ codes "件でした。")))
    else []

unfoldable pub narration : Text → MonthlyStats → Text
unfolding top_sentence
narration property_name stats =
    if stats.total == 0
    then property_name ++ codes "では対象月の報告はありませんでした。"
    else property_name
      ++ (codes "では当月"
          ++ (decimal stats.total
              ++ (codes "件の報告がありました。"
                  ++ (top_sentence stats.by_category
                      ++ (if ltb 0 stats.action_required
                          then codes "うち"
                            ++ (decimal stats.action_required ++ codes "件が要対応であり、優先的な確認が必要です。")
                          else [])))))

unfoldable pub narrate_monthly : FakeLlmClient → Text → MonthlyStats → MonthlyNarration
unfolding narration estimate_tokens
narrate_monthly client property_name stats =
    let body = narration property_name stats in
    record {
      body = body;
      meta = record {
        model_id = "fake-generate";
        prompt_version = client.monthly_version;
        input_tokens = estimate_tokens property_name + stats.total;
        output_tokens = estimate_tokens body;
      };
    }

-- `_FakeAnswerStream`, its tokens and its usage; none is the IndexError of `self._sources[0]`.
unfoldable pub stream_answer :
    FakeLlmClient → Text → List SearchHit → Option (List Text × LlmCallMeta)
unfolding estimate_tokens join
stream_answer client query [] = none
stream_answer client query (top ∷ sources) =
    let tokens =
      codes "検索結果によると、"
      ∷ (top.summary ++ codes " ")
      ∷ (codes "[report:" ++ (decimal top.report_id ++ codes "]"))
      ∷ codes " が該当します。"
      ∷ [] in
    some (
      tokens,
      record {
        model_id = "fake-generate";
        prompt_version = client.answer_version;
        input_tokens =
            estimate_tokens (query ++ join (map (λ (s : SearchHit). s.content) (top ∷ sources)));
        output_tokens = estimate_tokens (join tokens);
      },
    )
