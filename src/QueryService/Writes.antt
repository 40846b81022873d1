-- ===== src/QueryService/Writes.antt =====
-- An `/ask` call writes traces only: services/query_service.py.
use diary_memory_service.Base.{Option, List, [], ◌∷◌, Bool-cases, inl, inr}
use diary_memory_service.Base.Text.{Text, is_empty}
use diary_memory_service.Exec.{value_error, lift, pure, ◌>>=◌}
use diary_memory_service.Exec.Invariants.{
  Preserves, bind-Preserves, for_each-Preserves, reads-Preserves, raise_if-Preserves,
}
use diary_memory_service.Models.{
  Query, RetrievalHit, AnswerTrace, EventChunk, DateRange, InboundMessage, AnswerContext, Float,
  FallbackMode,
}
use diary_memory_service.Store.{MockDomainStore, require_community}
use diary_memory_service.Store.Traces.{
  save_query, save_retrieval_hit, save_retrieval_hits, save_answer_trace,
}
use diary_memory_service.Store.Search.{dense_candidates, sparse_candidates}
use diary_memory_service.Store.Search.Laws.{dense_candidates-IsLeg, sparse_candidates-IsLeg}
use diary_memory_service.Retrieval.{
  RetrievedCandidates, build_retrieval_hits, assemble_answer_context,
}
use diary_memory_service.QueryService.{
  QueryService, AskDraws, Contour, first_vector, retrieve_fused, retrieve_sparse, retrieve_dense,
  retrieve, persist_trace, trace_row, persist_answer_trace, query_row, answer_result, finalize,
  contour_of, answer_candidates, answer_question, answer, normalize_query, empty_candidates,
  empty_context, unanswered,
}

-- What the three kinds of trace rows leave alone.
pub record IgnoresTraces (P : MockDomainStore → Type 0) : Type 0 where
  pub query_row_saved : (q : Query) → Preserves P (save_query q)
  pub hit_row_saved : (h : RetrievalHit) → Preserves P (save_retrieval_hit h)
  pub trace_row_saved : (t : AnswerTrace) → Preserves P (save_answer_trace t)

module _ (P : MockDomainStore → Type 0) (w : IgnoresTraces P) (q : QueryService)
    (draws : AskDraws) where
  pub persist_trace-Preserves :
      (row : Query) (candidates : RetrievedCandidates)
      → Preserves P (persist_trace q draws row candidates)
  unfolding persist_trace save_retrieval_hits
  persist_trace-Preserves row candidates =
      let hits =
        build_retrieval_hits q.scores draws.retrieval_hit_id row.query_id row.created_at
          row.model_name candidates in
      bind-Preserves P (save_query row) (λ u. save_retrieval_hits hits) (w.query_row_saved row)
        (λ u. for_each-Preserves P save_retrieval_hit hits w.hit_row_saved)

  finalize-Preserves :
      (c query_text : Text) (scope : Option Text) (candidates : RetrievedCandidates)
      (context : AnswerContext) (contour : Contour)
      → Preserves P (finalize q draws c query_text scope candidates context contour)
  unfolding finalize persist_answer_trace
  finalize-Preserves c query_text scope candidates context contour =
      let row = query_row q draws c query_text contour.fallback scope in
      let result = answer_result query_text candidates context contour in
      bind-Preserves P (persist_trace q draws row candidates)
        (λ u. persist_answer_trace draws contour >>= λ v. pure result)
        (persist_trace-Preserves row candidates)
        (λ u.
          bind-Preserves P (persist_answer_trace draws contour) (λ v. pure result)
            (w.trace_row_saved (trace_row draws contour)) (λ v s h. h))

  answer_candidates-Preserves :
      (c query_text : Text) (scope : Option Text) (candidates : RetrievedCandidates)
      → Preserves P (answer_candidates q draws c query_text scope candidates)
  unfolding answer_candidates
  answer_candidates-Preserves c query_text scope candidates =
      let context =
        assemble_answer_context (query_row q draws c query_text FallbackMode.none scope)
          candidates.merged in
      bind-Preserves P (lift (contour_of q context context.ordered_chunks))
        (finalize q draws c query_text scope candidates context) (λ s h. h)
        (finalize-Preserves c query_text scope candidates context)

  module _ (c query_text : Text) (range : Option DateRange) (scope : Option Text) where
    retrieve_sparse-Preserves :
        (hits : List EventChunk) → Preserves P (retrieve_sparse q c query_text range scope hits)
    retrieve_sparse-Preserves hits =
        let leg = sparse_candidates q.unicode c query_text q.candidate_k range scope in
        bind-Preserves P leg (λ found. lift (retrieve_fused q hits found))
          (reads-Preserves P leg
            (λ s. (sparse_candidates-IsLeg q.unicode c query_text q.candidate_k range scope s).0))
          (λ found s h. h)

    retrieve_dense-Preserves :
        (v : List Float) → Preserves P (retrieve_dense q c query_text range scope v)
    retrieve_dense-Preserves v =
        let leg = dense_candidates q.floats c v q.embed.model_name q.candidate_k range scope in
        bind-Preserves P leg (retrieve_sparse q c query_text range scope)
          (reads-Preserves P leg (λ s.
            (dense_candidates-IsLeg q.floats c v q.embed.model_name q.candidate_k range scope s).0))
          retrieve_sparse-Preserves

    pub retrieve-Preserves : Preserves P (retrieve q c query_text range scope)
    unfolding retrieve
    retrieve-Preserves =
        bind-Preserves P (require_community c)
          (λ u.
            lift (first_vector (q.embed.embed (query_text ∷ [])))
            >>= retrieve_dense q c query_text range scope)
          (raise_if-Preserves P (is_empty c) value_error)
          (λ u.
            bind-Preserves P (lift (first_vector (q.embed.embed (query_text ∷ []))))
              (retrieve_dense q c query_text range scope) (λ s h. h) retrieve_dense-Preserves)

    answer_question-Preserves : Preserves P (answer_question q draws c query_text range scope)
    unfolding answer_question
    answer_question-Preserves = elim (Bool-cases (is_empty query_text)) [
      | inl blank ↦ rw blank (
          finalize-Preserves c query_text scope (empty_candidates q)
            (empty_context q draws query_text) (unanswered q FallbackMode.no_evidence []))
      | inr asked ↦ rw asked (
          bind-Preserves P (retrieve q c query_text range scope)
            (answer_candidates q draws c query_text scope) retrieve-Preserves
            (answer_candidates-Preserves c query_text scope))
    ]

  -- An invariant that the trace rows leave alone, `/ask` keeps.
  pub answer-Preserves :
      (message : InboundMessage) (range : Option DateRange) (scope : Option Text)
      → Preserves P (answer q draws message range scope)
  unfolding answer
  answer-Preserves message range scope =
      bind-Preserves P (require_community message.community_id)
        (λ u.
          answer_question q draws message.community_id (normalize_query message.payload) range
            scope)
        (raise_if-Preserves P (is_empty message.community_id) value_error)
        (λ u.
          answer_question-Preserves message.community_id (normalize_query message.payload) range
            scope)
