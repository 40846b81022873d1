-- ===== src/QueryService/Trace.antt =====
-- The rows that an `/ask` call writes, services/query_service.py.
use diary_memory_service.Base.{
  ◌≡◌, ◌⊎◌, refl, Option, some, List, [], ◌∷◌, text_eq, inl, inr, Bool-cases, arith,
}
use diary_memory_service.Base.Text.{Text, is_empty}
use diary_memory_service.Base.Dict.{lookup, insert, contains, lookup-insert_self}
use diary_memory_service.Exec.{
  Result, ok, raised, value_error, Exec, outcome_then, for_each, pure, ◌>>=◌,
}
use diary_memory_service.Exec.Laws.{Returns-ok}
use diary_memory_service.Models.{
  InboundMessage, DateRange, FallbackMode, AnswerContext, AnswerResult, Query, AnswerTrace,
  RetrievalHit,
}
use diary_memory_service.Store.{MockDomainStore}
use diary_memory_service.Store.Traces.{
  save_query, save_retrieval_hit, save_retrieval_hits, save_answer_trace,
}
use diary_memory_service.Retrieval.{RetrievedCandidates, assemble_answer_context}
use diary_memory_service.QueryService.{
  QueryService, AskDraws, Contour, trace_row, persist_trace, persist_answer_trace, query_row,
  answer_result, finalize, answer_candidates, answer_question, normalize_query, answer, retrieve,
  contour_of,
}

-- The rows of the call: the query with the result's fallback, and the trace of the query with the
-- same fallback.
pub record IsTraced (draws : AskDraws) (community_id : Text) (r : AnswerResult)
    (s : MockDomainStore) : Type 0 where
  pub query : Query
  pub trace : AnswerTrace
  pub query_stored : lookup draws.query_id s.queries ≡ some query
  pub trace_stored : lookup draws.query_id s.answer_traces ≡ some trace
  pub query_community : query.community_id ≡ community_id
  pub query_fallback : query.fallback ≡ r.fallback
  pub trace_fallback : trace.fallback_mode ≡ r.fallback

-- A call that returns has left the rows behind.
abbrev pub Traced : AskDraws → Text → Result AnswerResult × MockDomainStore → Type 0
Traced draws community_id (raised e, s) = Unit
Traced draws community_id (ok r, s) = IsTraced draws community_id r s

save_retrieval_hit-queries :
    (h : RetrievalHit) (s : MockDomainStore) → (save_retrieval_hit h s).1.queries ≡ s.queries
unfolding save_retrieval_hit
save_retrieval_hit-queries h s = ground arith

save_retrieval_hits-queries :
    (hits : List RetrievalHit) (s : MockDomainStore)
    → (for_each save_retrieval_hit hits s).1.queries ≡ s.queries
save_retrieval_hits-queries [] s = refl
save_retrieval_hits-queries (h ∷ hs) s = ground (
  arith,
  save_retrieval_hit-queries h s,
  save_retrieval_hits-queries hs (save_retrieval_hit h s).1,
)

-- An action that returns has left the query stored.
abbrev StoresQuery : Query → Result (Unit {0}) × MockDomainStore → Type 0
StoresQuery query (raised e, s) = Unit
StoresQuery query (ok u, s) = lookup query.query_id s.queries ≡ some query

StoresQuery-of :
    (query : Query) (x : Result (Unit {0}) × MockDomainStore)
    → lookup query.query_id x.1.queries ≡ some query
    → StoresQuery query x
StoresQuery-of query (raised e, s) h = tt
StoresQuery-of query (ok u, s) h = h

persist_trace-StoresQuery :
    (q : QueryService) (draws : AskDraws) (query : Query) (candidates : RetrievedCandidates)
    (s : MockDomainStore)
    → StoresQuery query (persist_trace q draws query candidates s)
unfolding persist_trace save_query save_retrieval_hits
persist_trace-StoresQuery q draws query candidates s =
    elim (Bool-cases (contains query.query_id s.queries)) [
      | inl known ↦ rw known tt
      | inr new ↦ rw new (
          StoresQuery-of query (for_each save_retrieval_hit _ _)
            (rw (save_retrieval_hits-queries) (lookup-insert_self query.query_id query s.queries)))
    ]

persist_answer_trace-cases :
    (draws : AskDraws) (c : Contour) (s : MockDomainStore)
    → ((persist_answer_trace draws c s) ≡ (raised value_error, s))
      ⊎ ((trace : AnswerTrace) × (persist_answer_trace draws c s
            ≡ (ok tt, record s { answer_traces = insert draws.query_id trace s.answer_traces }))
          × (trace.fallback_mode ≡ c.fallback))
unfolding persist_answer_trace save_answer_trace
persist_answer_trace-cases draws c s = elim (Bool-cases (contains draws.query_id s.answer_traces)) [
  | inl known ↦ inl (rw known)
  | inr new ↦ inr (trace_row draws c, rw new, refl)
]

-- The rest of `finalize`, once the query is stored.
module _ (q : QueryService) (draws : AskDraws) (community_id query_text : Text)
    (subject_scope : Option Text) (candidates : RetrievedCandidates) (context : AnswerContext)
    (c : Contour) where
  abbrev result : AnswerResult
  result = answer_result query_text candidates context c

  abbrev row : Query
  row = query_row q draws community_id query_text c.fallback subject_scope

  abbrev rest : Unit {0} → Exec MockDomainStore AnswerResult
  rest _ = persist_answer_trace draws c >>= λ _. pure result

  rest-Traced :
      (s : MockDomainStore)
      → lookup draws.query_id s.queries ≡ some row
      → Traced draws community_id (rest tt s)
  rest-Traced s stored = elim (persist_answer_trace-cases draws c s) [
    | inl known ↦ rw known tt
    | inr (trace, new, same) ↦ rw new (record {
      query = row;
      trace = trace;
      query_stored = stored;
      trace_stored = lookup-insert_self draws.query_id trace s.answer_traces;
      query_community = refl;
      query_fallback = refl;
      trace_fallback = same;
    })
  ]

  after_query :
      (x : Result (Unit {0}) × MockDomainStore)
      → StoresQuery row x
      → Traced draws community_id (outcome_then x.0 rest x.1)
  after_query (raised e, s) h = tt
  after_query (ok tt, s) h = rest-Traced s h

  finalize-Traced :
      (s : MockDomainStore)
      → Traced draws community_id
          (finalize q draws community_id query_text subject_scope candidates context c s)
  unfolding finalize
  finalize-Traced s =
      after_query (persist_trace q draws row candidates s)
        (persist_trace-StoresQuery q draws row candidates s)

module _ (q : QueryService) (draws : AskDraws) (community_id query_text : Text) where
  answer_candidates-Traced :
      (subject_scope : Option Text) (candidates : RetrievedCandidates) (s : MockDomainStore)
      → Traced draws community_id
          (answer_candidates q draws community_id query_text subject_scope candidates s)
  unfolding answer_candidates
  answer_candidates-Traced subject_scope candidates s =
      go (contour_of q context context.ordered_chunks)
    where
      context : AnswerContext
      context =
          assemble_answer_context
            (query_row q draws community_id query_text FallbackMode.none subject_scope)
            candidates.merged

      go :
          (contour : Result Contour)
          → Traced draws community_id (
              outcome_then contour
                (finalize q draws community_id query_text subject_scope candidates context)
                s)
      go (raised e) = tt
      go (ok c) =
          finalize-Traced q draws community_id query_text subject_scope candidates context c s

  then_answer-Traced :
      (subject_scope : Option Text) (x : Result RetrievedCandidates × MockDomainStore)
      → Traced draws community_id
          (outcome_then x.0 (answer_candidates q draws community_id query_text subject_scope) x.1)
  then_answer-Traced subject_scope (raised e, s) = tt
  then_answer-Traced subject_scope (ok candidates, s) =
      answer_candidates-Traced subject_scope candidates s

  answer_question-Traced :
      (date_range : Option DateRange) (subject_scope : Option Text) (s : MockDomainStore)
      → Traced draws community_id
          (answer_question q draws community_id query_text date_range subject_scope s)
  unfolding answer_question
  answer_question-Traced date_range subject_scope s = elim (Bool-cases (is_empty query_text)) [
    | inl e ↦ rw e (finalize-Traced q draws community_id query_text subject_scope _ _ _ s)
    | inr e ↦ rw e (
        then_answer-Traced subject_scope
          (retrieve q community_id query_text date_range subject_scope s))
  ]

Traced-ok :
    (draws : AskDraws) (community_id : Text) (x : Result AnswerResult × MockDomainStore)
    (r : AnswerResult)
    → Traced draws community_id x
    → x.0 ≡ ok r
    → IsTraced draws community_id r x.1
Traced-ok draws community_id (raised e, s) r h p = absurd cc
Traced-ok draws community_id (ok a, s) r h p =
    Returns-ok (λ r. IsTraced draws community_id r s) (ok a) r h p

answer-Traced :
    (q : QueryService) (draws : AskDraws) (message : InboundMessage) (date_range : Option DateRange)
    (subject_scope : Option Text) (s : MockDomainStore)
    → Traced draws message.community_id (answer q draws message date_range subject_scope s)
unfolding answer
answer-Traced q draws message date_range subject_scope s =
    elim (Bool-cases (is_empty message.community_id)) [
      | inl e ↦ rw e tt
      | inr e ↦ rw e (
          answer_question-Traced q draws message.community_id (normalize_query message.payload)
            date_range subject_scope s)
    ]

-- When `answer` returns a result, the store holds a query of the message's community and the answer
-- trace of that query, both with the fallback of the result.
pub answer-IsTraced :
    (q : QueryService) (draws : AskDraws) (message : InboundMessage) (date_range : Option DateRange)
    (subject_scope : Option Text) (s : MockDomainStore) (r : AnswerResult)
    → (answer q draws message date_range subject_scope s).0 ≡ ok r
    → IsTraced draws message.community_id r (answer q draws message date_range subject_scope s).1
answer-IsTraced q draws message date_range subject_scope s r =
    Traced-ok draws message.community_id (answer q draws message date_range subject_scope s) r
      (answer-Traced q draws message date_range subject_scope s)
