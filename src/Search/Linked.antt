-- ===== src/Search/Linked.antt =====
-- Which citations of an answer a search sends as links, and what one of them can do to its end.
use report_insight.Base.{
  ℕ, ◌≡◌, ◌≤◌, ◌∙◌, sym, ap, subst, true, false, Bool-cases, any, is_empty, leb, refl, inl, inr,
  List, [], ◌∷◌, ◌++◌, map, Text, arith,
}
use report_insight.Domain.{
  User, SearchFilters, SearchHit, LlmCallMeta, Float, search_top_k, Result, ok, err, external,
}
use report_insight.Db.{World, Effect}
use report_insight.Repositories.User.{permitted_property_ids}
use report_insight.Search.Repository.{hybrid_search, exceeds_int64}
use report_insight.Search.Citations.{parse_citations}
use report_insight.Search.Service.{
  SearchPorts, SearchEvent, DoneEvent, sources, token, done, join, valid_citations, source_item,
  finish, answer, search, done_event,
}
use report_insight.Search.Authorised.{IsPermitted}
use report_insight.Search.Sound.{search-ok}
use report_insight.Search.Cited.{
  Names, ReadsAscii, citation, parse_citations-here, parse_citations-behind, citation-kept,
}

-- The world when the answer has arrived.
abbrev at_end : Text → List SearchHit → World → World
at_end query hits w = record w {
  effects = Effect.stream_answer query hits ∷ Effect.incr "search_total" ∷ w.effects;
}

module _ (ports : SearchPorts) (user : User) (query : Text) (filters : SearchFilters) (w : World)
    (vec : List Float) (h : SearchHit) (hs : List SearchHit) (tokens : List Text)
    (usage : LlmCallMeta) where
  search-finish :
      ports.embed_query query ≡ ok vec
      → hybrid_search ports.vectors vec filters (permitted_property_ids user w) search_top_k w.db
        ≡ h ∷ hs
      → ports.stream_answer query (h ∷ hs) ≡ (tokens, ok usage)
      → search ports user query filters w
        ≡ finish ports
            (permitted_property_ids user w)
            (h ∷ hs)
            tokens
            (ok usage)
            (at_end query (h ∷ hs) w)
  unfolding answer
  search-finish embedded found answered =
      search-ok ports user query filters w vec embedded ∙ rw (found, answered) refl

said_named :
    (ports : SearchPorts) (tokens : List Text) (id : ℕ) (before after : Text)
    → ReadsAscii ports.decimal
    → join tokens ≡ before ++ (citation id ++ after)
    → Names id (parse_citations ports.decimal (join tokens))
said_named ports tokens id before after ascii said =
    subst (λ t. Names id (parse_citations ports.decimal t)) (sym said)
      (parse_citations-behind ports.decimal ascii id before (citation id ++ after)
        (parse_citations-here ports.decimal ascii id after))

any-large :
    (id : ℕ) (ids : List ℕ)
    → 9223372036854775808 ≤ id
    → Names id ids
    → any (λ i. leb 9223372036854775808 i) ids ≡ true
any-large id [] large h = absurd h
any-large id (x ∷ ids) large (inl e) = ground arith
any-large id (x ∷ ids) large (inr h) = ground (arith, any-large id ids large h)

found-permits :
    (ports : SearchPorts) (vec : List Float) (filters : SearchFilters) (permitted : List ℕ)
    (w : World) (h : SearchHit) (hs : List SearchHit)
    → hybrid_search ports.vectors vec filters permitted search_top_k w.db ≡ h ∷ hs
    → is_empty permitted ≡ false
unfolding hybrid_search
found-permits ports vec filters permitted w h hs found = elim (Bool-cases (is_empty permitted)) [
  | inl e ↦ absurd (ground arith)
  | inr e ↦ e
]

-- No citation is lost: if a search has found reports and the language model has answered, and the answer
-- names no id beyond 64 bits, then the search ends with `done`, and every permitted report that the answer
-- names as `[report:id]`, anywhere and even split between tokens, is among the citations that it sends.
pub search-citation :
    (ports : SearchPorts) (user : User) (query : Text) (filters : SearchFilters) (w : World)
    (vec : List Float) (h : SearchHit) (hs : List SearchHit) (tokens : List Text)
    (usage : LlmCallMeta) (id : ℕ) (before after : Text)
    → ReadsAscii ports.decimal
    → ports.embed_query query ≡ ok vec
    → hybrid_search ports.vectors vec filters (permitted_property_ids user w) search_top_k w.db
      ≡ h ∷ hs
    → ports.stream_answer query (h ∷ hs) ≡ (tokens, ok usage)
    → exceeds_int64 (parse_citations ports.decimal (join tokens)) (permitted_property_ids user w)
      ≡ false
    → join tokens ≡ before ++ (citation id ++ after)
    → IsPermitted (permitted_property_ids user w) id w.db.reports
    → (d : DoneEvent) × ((search ports user query filters w).0
        ≡ (sources (map (source_item ports) (h ∷ hs)) ∷ (map token tokens ++ done d ∷ []), ok tt))
      × Names id d.citations
unfolding finish
search-citation ports user query filters w vec h hs tokens usage id before after ascii embedded
      found answered fits said may =
    let permitted = permitted_property_ids user w in
    let v = at_end query (h ∷ hs) w in
    (
      done_event ports (valid_citations ports permitted tokens v) tokens usage,
      ap (λ (s : (List SearchEvent × Result (Unit {0})) × World). s.0)
            (search-finish ports user query filters w vec h hs tokens usage embedded found answered)
          ∙ rw fits refl,
      citation-kept ports permitted tokens v id before after ascii said may,
    )

-- One invented citation can cost all of them: if the answer names an id of 2 ^ 63 or more as `[report:id]`,
-- the statement that looks for the cited reports is refused, and the search ends with an exception behind
-- the tokens and sends no citation, whatever else the answer cites.
pub large_citation_fails :
    (ports : SearchPorts) (user : User) (query : Text) (filters : SearchFilters) (w : World)
    (vec : List Float) (h : SearchHit) (hs : List SearchHit) (tokens : List Text)
    (usage : LlmCallMeta) (id : ℕ) (before after : Text)
    → ReadsAscii ports.decimal
    → ports.embed_query query ≡ ok vec
    → hybrid_search ports.vectors vec filters (permitted_property_ids user w) search_top_k w.db
      ≡ h ∷ hs
    → ports.stream_answer query (h ∷ hs) ≡ (tokens, ok usage)
    → 9223372036854775808 ≤ id
    → join tokens ≡ before ++ (citation id ++ after)
    → (search ports user query filters w).0
      ≡ (sources (map (source_item ports) (h ∷ hs)) ∷ map token tokens, err external)
unfolding finish exceeds_int64
large_citation_fails ports user query filters w vec h hs tokens usage id before after ascii embedded
      found answered large said =
    let permitted = permitted_property_ids user w in
    let cited = parse_citations ports.decimal (join tokens) in
    let some_permitted = found-permits ports vec filters permitted w h hs found in
    let named = any-large id cited large (said_named ports tokens id before after ascii said) in
    ap (λ (s : (List SearchEvent × Result (Unit {0})) × World). s.0)
      (search-finish ports user query filters w vec h hs tokens usage embedded found answered)
    ∙ rw (some_permitted, named) refl
