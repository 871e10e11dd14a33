-- ===== src/Tests/Search.antt =====
-- A search at a concrete input: the answer names a report of the branch, one of another branch and
-- one that does not exist.
use report_insight.Base.{
  ◌-◌, ◌++◌, inl, inr, arith, ◌≡◌, ◌⊎◌, refl, none, some, List, [], ◌∷◌, All, Text, codes, leb,
  if◌then◌else◌, ◌&&◌,
}
use report_insight.Domain.{SearchFilters, ok}
use report_insight.Db.{World}
use report_insight.Repositories.User.{permitted_property_ids}
use report_insight.Search.Repository.{hybrid_search}
use report_insight.Search.Citations.{parse_citations}
use report_insight.Search.Service.{
  SearchPorts, sources, token, done, search, answer, finish, join, valid_citations,
}
use report_insight.Search.Sound.{IsSound, answer_text, search-IsSound}
use report_insight.Search.Protocol.{Unanswered, Answered, search_protocol}
use report_insight.Search.Authorised.{IsPermitted}
use report_insight.Search.Cited.{Names, ReadsAscii, citation}
use report_insight.Search.Linked.{search-citation, large_citation_fails}
use report_insight.Base.{false, map}
use report_insight.Base.Str.{decimal}
use report_insight.Domain.{SearchHit, LlmCallMeta, search_top_k, err, external}
use report_insight.Search.Repository.{exceeds_int64}
use report_insight.Search.Service.{source_item, DoneEvent}
use report_insight.Tests.{world, manager}

abbrev searched_world : World
searched_world = record world {
  db = record world.db {
    chunks =
        record { report_id = 4; chunk_index = 0; content = 97 ∷ []; embedding = 1 ∷ [] }
        ∷ record { report_id = 5; chunk_index = 0; content = 97 ∷ []; embedding = 2 ∷ [] }
        ∷ [];
  };
}

abbrev said : List Text
said = codes "[report:5] [rep" ∷ codes "ort:4][report:77] [report:x]" ∷ []

abbrev search_ports : SearchPorts
search_ports = record {
  vectors = record { cosine_distance = λ a b. 1; similarity = λ d. 0 };
  embed_query = λ q. ok (1 ∷ []);
  stream_answer = λ q hits. (
    said,
    ok (record { model_id = "model"; prompt_version = "v1"; input_tokens = 3; output_tokens = 4 }),
  );
  decimal = λ c. if leb 48 c && leb c 57 then some (c - 48) else none;
  iso_day = λ t. "2025-10-01";
  elapsed_ms = λ n. n;
}

abbrev no_filters : SearchFilters
no_filters = record { property_id = none; category = none; since = none; to = none }

cites :
    parse_citations search_ports.decimal (codes "[report:5] [report:40][report:x][report:]")
    ≡ 5 ∷ 40 ∷ []
unfolding parse_citations
cites = refl

searches : (search search_ports manager (113 ∷ []) no_filters searched_world).0 ≡ (
  sources (record { id = 5; reported_at = "2025-10-01"; summary = 115 ∷ [] } ∷ [])
      ∷ token (codes "[report:5] [rep")
      ∷ token (codes "ort:4][report:77] [report:x]")
      ∷ done (record {
        citations = 5 ∷ [];
        latency_ms = 3;
        first_token_ms = 1;
        retrieval_ms = 0;
        input_tokens = 3;
        output_tokens = 4;
      })
      ∷ [],
  ok tt,
)
unfolding search permitted_property_ids hybrid_search answer finish valid_citations
searches = refl

search-IsSound_example :
    All
      (IsSound search_ports.decimal
        (answer_text (search search_ports manager (113 ∷ []) no_filters searched_world).0.0)
        (permitted_property_ids manager searched_world)
        searched_world.db)
      (search search_ports manager (113 ∷ []) no_filters searched_world).0.0
search-IsSound_example = search-IsSound search_ports manager (113 ∷ []) no_filters searched_world

search_protocol_example :
    ((search search_ports manager (113 ∷ []) no_filters searched_world).1.db ≡ searched_world.db)
    × (Unanswered searched_world (search search_ports manager (113 ∷ []) no_filters searched_world)
        ⊎ Answered search_ports
            (113 ∷ [])
            (permitted_property_ids manager searched_world)
            searched_world
            (search search_ports manager (113 ∷ []) no_filters searched_world))
search_protocol_example = search_protocol search_ports manager (113 ∷ []) no_filters searched_world

ascii : ReadsAscii search_ports.decimal
ascii = (λ d below. ground arith, refl)

permits_5 : IsPermitted (permitted_property_ids manager searched_world) 5 searched_world.db.reports
unfolding permitted_property_ids
permits_5 = inr (inl (refl, refl))

says : join said ≡ [] ++ (citation 5 ++ codes " [report:4][report:77] [report:x]")
unfolding join citation
says = refl

abbrev hit : SearchHit
hit = record {
  report_id = 5;
  property_id = 1;
  content = 97 ∷ [];
  summary = 115 ∷ [];
  reported_at = 100;
  similarity = 0;
}

abbrev usage : LlmCallMeta
usage = record { model_id = "model"; prompt_version = "v1"; input_tokens = 3; output_tokens = 4 }

finds :
    hybrid_search search_ports.vectors
      (1 ∷ [])
      no_filters
      (permitted_property_ids manager searched_world)
      search_top_k
      searched_world.db
    ≡ hit ∷ []
unfolding hybrid_search permitted_property_ids
finds = refl

fits :
    exceeds_int64
      (parse_citations search_ports.decimal (join said))
      (permitted_property_ids manager searched_world)
    ≡ false
unfolding exceeds_int64 parse_citations join permitted_property_ids
fits = refl

search-citation_example :
    (d : DoneEvent) × ((search search_ports manager (113 ∷ []) no_filters searched_world).0 ≡ (
      sources (map (source_item search_ports) (hit ∷ [])) ∷ (map token said ++ done d ∷ []),
      ok tt,
    ))
    × Names 5 d.citations
search-citation_example =
    search-citation search_ports manager (113 ∷ []) no_filters searched_world (1 ∷ []) hit [] said
      usage 5 [] (codes " [report:4][report:77] [report:x]") ascii refl finds refl fits says
      permits_5

-- An answer that cites report 5 and one that is invented.
abbrev invented : List Text
invented = codes "[report:5][report:9223372036854775808]" ∷ []

abbrev inventing : SearchPorts
inventing = record search_ports { stream_answer = λ q hits. (invented, ok usage) }

says_large : join invented ≡ codes "[report:5]" ++ (citation 9223372036854775808 ++ [])
unfolding join citation decimal
says_large = refl

large_citation_fails_example :
    (search inventing manager (113 ∷ []) no_filters searched_world).0
    ≡ (sources (map (source_item inventing) (hit ∷ [])) ∷ map token invented, err external)
large_citation_fails_example =
    large_citation_fails inventing manager (113 ∷ []) no_filters searched_world (1 ∷ []) hit []
      invented usage 9223372036854775808 (codes "[report:5]") [] ascii refl finds refl (omega arith)
      says_large
