-- ===== src/Search/Service.antt =====
-- `SearchService` of app/services/search.py and the handler of app/api/routers/search.py. A search is
-- a stream: the events that were sent, and how it ended.
use report_insight.Base.{
  if◌then◌else◌, ℕ, ◌+◌, Option, List, [], ◌∷◌, ◌++◌, map, length, Text, String,
}
use report_insight.Domain.{
  User, SearchFilters, SearchHit, LlmCallMeta, Float, Datetime, search_top_k, Result, ok, err,
  external, field, end, text, audit_action_value, AuditAction,
}
use report_insight.Db.{World, Server, incr, emit_tokens, stream_answer, unit_of_work}
use report_insight.Repositories.User.{permitted_property_ids}
use report_insight.Repositories.Audit.{record_action}
use report_insight.Search.Repository.{Vectors, hybrid_search, existing_report_ids, exceeds_int64}
use report_insight.Search.Citations.{parse_citations, sorted_set}

pub record SourceItem : Type 0 where
  pub id : ℕ
  pub reported_at : String
  pub summary : Text

pub record DoneEvent : Type 0 where
  pub citations : List ℕ
  pub latency_ms : ℕ
  pub first_token_ms : ℕ
  pub retrieval_ms : ℕ
  pub input_tokens : ℕ
  pub output_tokens : ℕ

pub data SearchEvent : Type 0 where
  sources : List SourceItem → SearchEvent
  token : Text → SearchEvent
  done : DoneEvent → SearchEvent
  no_results : SearchEvent

pub record SearchPorts : Type 0 where
  pub vectors : Vectors
  pub embed_query : Text → Result (List Float)
  -- the tokens that arrive, and the usage or an exception behind them
  pub stream_answer : Text → List SearchHit → List Text × Result LlmCallMeta
  -- `unicodedata.decimal` and `reported_at.date().isoformat()`
  pub decimal : ℕ → Option ℕ
  pub iso_day : Datetime → String
  -- the milliseconds since the start, when so many events have been sent
  pub elapsed_ms : ℕ → ℕ

-- The events that were sent, how the stream ended, and the world behind it.
abbrev pub Stream : Type 0
Stream = (List SearchEvent × Result (Unit {0})) × World

abbrev pub source_item : SearchPorts → SearchHit → SourceItem
source_item ports h = record {
  id = h.report_id;
  reported_at = ports.iso_day h.reported_at;
  summary = h.summary;
}

-- `"".join(parts)`
unfoldable pub join : List Text → Text
join [] = []
join (t ∷ ts) = t ++ join ts

abbrev pub first_token_ms : SearchPorts → List Text → ℕ
first_token_ms ports [] = 0
first_token_ms ports (t ∷ ts) = ports.elapsed_ms 1

abbrev pub done_event : SearchPorts → List ℕ → List Text → LlmCallMeta → DoneEvent
done_event ports valid tokens usage = record {
  citations = valid;
  latency_ms = ports.elapsed_ms (length tokens + 1);
  first_token_ms = first_token_ms ports tokens;
  retrieval_ms = ports.elapsed_ms 0;
  input_tokens = usage.input_tokens;
  output_tokens = usage.output_tokens;
}

-- The citations that are links: those of the answer that exist and are permitted.
unfoldable pub valid_citations : SearchPorts → List ℕ → List Text → World → List ℕ
unfolding parse_citations existing_report_ids sorted_set join
valid_citations ports permitted tokens w =
    sorted_set (existing_report_ids (parse_citations ports.decimal (join tokens)) permitted w.db)

-- The end of `search`, from the answer of the language model on.
unfoldable pub finish :
    SearchPorts → List ℕ → List SearchHit → List Text → Result LlmCallMeta → World → Stream
unfolding exceeds_int64 parse_citations join
finish ports permitted hits tokens (err e) w =
    ((sources (map (source_item ports) hits) ∷ map token tokens, err e), w)
finish ports permitted hits tokens (ok usage) w =
    if exceeds_int64 (parse_citations ports.decimal (join tokens)) permitted
    then ((sources (map (source_item ports) hits) ∷ map token tokens, err external), w)
    else (
      (
        sources (map (source_item ports) hits)
            ∷ (map token tokens
                ++ done (done_event ports (valid_citations ports permitted tokens w) tokens usage)
                  ∷ []),
        ok tt,
      ),
      record w { effects = emit_tokens usage.input_tokens usage.output_tokens ∷ w.effects },
    )

-- `search`, from the hits on.
unfoldable pub answer : SearchPorts → List ℕ → Text → List SearchHit → World → Stream
unfolding finish
answer ports permitted query [] w =
    ((no_results ∷ [], ok tt), record w { effects = incr "search_no_results" ∷ w.effects })
answer ports permitted query (h ∷ hs) w =
    let (tokens, usage) = ports.stream_answer query (h ∷ hs) in
    finish ports permitted (h ∷ hs) tokens usage
      (record w { effects = stream_answer query (h ∷ hs) ∷ w.effects })

unfoldable pub search : SearchPorts → User → Text → SearchFilters → World → Stream
unfolding answer hybrid_search permitted_property_ids
search ports user query filters w = elim (ports.embed_query query) [
  | err e ↦ (([], err e), w)
  | ok query_vec ↦
      answer ports (permitted_property_ids user w) query
        (hybrid_search ports.vectors query_vec filters (permitted_property_ids user w) search_top_k
          w.db)
        (record w { effects = incr "search_total" ∷ w.effects })
]

-- The handler: the search is written to the audit log in a unit of work of its own, then it runs.
unfoldable pub post_search : Server → SearchPorts → User → Text → SearchFilters → World → Stream
unfolding search record_action
post_search server ports user query filters w =
    let (r, w') =
      unit_of_work
        (record_action server user.id (audit_action_value AuditAction.search)
          (field "query" (text query) end))
        w in
    elim r [ err e ↦ (([], err e), w') | ok _ ↦ search ports user query filters w' ]
