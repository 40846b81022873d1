-- ===== src/Store/Traces.antt =====
-- Query traces and author display inputs: storage/mock/store.py, `save_query` to
-- `get_answer_trace_for_query`, and the two `author_display_input` methods.
use diary_memory_service.Base.{
  ℕ, Bool, Option, none, some, List, [], keep, ltb, nat_beq, ◌==◌, text_eq, message_key_eq,
  if◌then◌else◌,
}
use diary_memory_service.Base.Text.{Text}
use diary_memory_service.Base.Dict.{lookup, insert, contains, values}
use diary_memory_service.Base.Sort.{sort_by}
use diary_memory_service.Exec.{Exec, ok, raised, value_error, gets, for_each, ◌>>◌}
use diary_memory_service.Models.{
  Query, RetrievalHit, RetrievalLeg, dense, merged, sparse, AnswerTrace,
}
use diary_memory_service.Store.{MessageKey, MockDomainStore, require_community}

unfoldable pub save_query : Query → Exec MockDomainStore (Unit {0})
save_query q s =
    if contains q.query_id s.queries
    then (raised value_error, s)
    else (ok tt, record s { queries = insert q.query_id q s.queries })

unfoldable pub save_retrieval_hit : RetrievalHit → Exec MockDomainStore (Unit {0})
save_retrieval_hit h s =
    if contains h.retrieval_hit_id s.retrieval_hits
    then (raised value_error, s)
    else (ok tt, record s { retrieval_hits = insert h.retrieval_hit_id h s.retrieval_hits })

unfoldable pub save_retrieval_hits : List RetrievalHit → Exec MockDomainStore (Unit {0})
save_retrieval_hits = for_each save_retrieval_hit

abbrev pub owned_query : Text → Option Query → Option Query
owned_query community_id none = none
owned_query community_id (some q) = if q.community_id == community_id then some q else none

unfoldable pub get_query : Text → Text → Exec MockDomainStore (Option Query)
get_query query_id community_id = do
  require_community community_id
  gets (λ s. owned_query community_id (lookup query_id s.queries))

-- The places of the leg values "dense" < "merged" < "sparse".
abbrev pub leg_place : RetrievalLeg → ℕ
leg_place dense = 0
leg_place merged = 1
leg_place sparse = 2

unfoldable pub hit_before : RetrievalHit → RetrievalHit → Bool
hit_before a b =
    if nat_beq (leg_place a.leg) (leg_place b.leg)
    then ltb a.rank b.rank
    else ltb (leg_place a.leg) (leg_place b.leg)

abbrev pub hits_of_query : Text → Option Query → List RetrievalHit → List RetrievalHit
hits_of_query query_id none hits = []
hits_of_query query_id (some q) hits = sort_by hit_before (keep (λ h. h.query_id == query_id) hits)

unfoldable pub get_retrieval_hits_for_query : Text → Text → Exec MockDomainStore (List RetrievalHit)
get_retrieval_hits_for_query query_id community_id = do
  require_community community_id
  gets (λ s.
      hits_of_query query_id (owned_query community_id (lookup query_id s.queries))
        (values s.retrieval_hits))

unfoldable pub save_answer_trace : AnswerTrace → Exec MockDomainStore (Unit {0})
save_answer_trace t s =
    if contains t.query_id s.answer_traces
    then (raised value_error, s)
    else (ok tt, record s { answer_traces = insert t.query_id t s.answer_traces })

abbrev pub trace_of_query : Option Query → Option AnswerTrace → Option AnswerTrace
trace_of_query none trace = none
trace_of_query (some q) trace = trace

unfoldable pub get_answer_trace_for_query : Text → Text → Exec MockDomainStore (Option AnswerTrace)
get_answer_trace_for_query query_id community_id = do
  require_community community_id
  gets (λ s.
      trace_of_query (owned_query community_id (lookup query_id s.queries))
        (lookup query_id s.answer_traces))

unfoldable pub save_author_display_input :
    MessageKey → Option Text → Option Text → MockDomainStore → MockDomainStore
save_author_display_input key username first_name s =
    if contains key s.author_display_inputs then s else record s {
      author_display_inputs = insert key (username, first_name) s.author_display_inputs;
    }

unfoldable pub get_author_display_input :
    MessageKey → MockDomainStore → Option (Option Text × Option Text)
get_author_display_input key s = lookup key s.author_display_inputs
