-- ===== src/QueryService/Scope.antt =====
-- The candidates and the citations of an `/ask` call, services/query_service.py.
use diary_memory_service.Base.{
  ◌≤◌, true, false, ◌≡◌, refl, Option, List, [], ◌∷◌, All, ◌==◌, text_eq, eq_of_beq, All-map,
  length, inl, inr, Bool-cases, arith,
}
use diary_memory_service.Base.Text.{Text, is_empty}
use diary_memory_service.Base.Int.{ℤ, pos, pos_part}
use diary_memory_service.Exec.{
  Exception, Result, ok, raised, outcome_then, lift, value_error, key_error, runtime_error,
  assertion_error, type_error, index_error, malformed_answer_json, answer_schema_mismatch,
  fabricated_citation, cross_community_context, chat_provider_unavailable, provider_error,
}
use diary_memory_service.Exec.Laws.{Returns, Returns-ok, Returns-bind, Returns-map}
use diary_memory_service.Models.{DateRange, EventChunk, AnswerContext, Float}
use diary_memory_service.Store.{MockDomainStore}
use diary_memory_service.Store.Search.{is_in_scope, dense_candidates, sparse_candidates}
use diary_memory_service.Store.Search.Laws.{dense_candidates-IsLeg, sparse_candidates-IsLeg}
use diary_memory_service.Answers.{
  StructuredAnswer, all_of_community, span_communities, AnswerPrompt, build_answer_prompt,
  parse_structured_answer, is_in, chunk_ids_of,
}
use diary_memory_service.Answers.Grounding.{IsGrounded, parse_structured_answer-Returns}
use diary_memory_service.Retrieval.{
  RetrievedCandidates, FusedHit, reciprocal_rank_fusion, merged_chunks,
}
use diary_memory_service.Retrieval.Fusion.{reciprocal_rank_fusion-All}
use diary_memory_service.QueryService.{
  QueryService, candidates_of, retrieve_fused, retrieve_sparse, retrieve_dense, ChatResponse,
  Contour, first_vector, retrieve, contour_of_answer, contour_of_response, contour_of_prompt,
  contour_of,
}

module _ (community_id : Text) (date_range : Option DateRange) (subject_scope : Option Text) where
  abbrev pub InScope : EventChunk → Type 0
  InScope c = is_in_scope community_id date_range subject_scope c ≡ true

  -- At most `top_k` merged chunks, and all of them in scope.
  abbrev pub ScopedCandidates : ℤ → RetrievedCandidates → Type 0
  ScopedCandidates top_k r =
      All InScope (merged_chunks r.merged) × (length r.merged ≤ pos_part top_k)

  retrieve_fused-Scoped :
      (q : QueryService) (dense_hits sparse_hits : List EventChunk)
      → All InScope dense_hits
      → All InScope sparse_hits
      → Returns (ScopedCandidates q.top_k) (retrieve_fused q dense_hits sparse_hits)
  retrieve_fused-Scoped q dense_hits sparse_hits d p =
      go (reciprocal_rank_fusion q.scores (dense_hits ∷ sparse_hits ∷ []) q.top_k (pos 60)) (
        reciprocal_rank_fusion-All InScope q.scores (dense_hits ∷ sparse_hits ∷ []) q.top_k (pos 60)
          (d, (p, tt)))
    where
      go :
          (r : Result (List FusedHit))
          → Returns (λ hits. All InScope (merged_chunks hits) × (length hits ≤ pos_part q.top_k)) r
          → Returns (ScopedCandidates q.top_k) (elim r [
            | raised e ↦ raised e
            | ok merged ↦ ok (candidates_of q dense_hits sparse_hits merged)
          ])
      go (raised e) h = tt
      go (ok hits) h = h

  retrieve_sparse-Scoped :
      (q : QueryService) (query_text : Text) (dense_hits : List EventChunk) (s : MockDomainStore)
      → All InScope dense_hits
      → Returns
          (ScopedCandidates q.top_k)
          (retrieve_sparse q community_id query_text date_range subject_scope dense_hits s).0
  retrieve_sparse-Scoped q query_text dense_hits s d =
      let leg =
        sparse_candidates q.unicode community_id query_text q.candidate_k date_range
          subject_scope in
      Returns-bind (All InScope) (ScopedCandidates q.top_k) leg
        (λ sparse_hits. lift (retrieve_fused q dense_hits sparse_hits)) s
        (Returns-map _ (All InScope) (leg s).0 (λ cs h. All-map _ InScope cs (λ c hit. hit.0) h.0)
          (sparse_candidates-IsLeg q.unicode community_id query_text q.candidate_k date_range
            subject_scope s).1)
        (λ sparse_hits t p. retrieve_fused-Scoped q dense_hits sparse_hits d p)

  retrieve_dense-Scoped :
      (q : QueryService) (query_text : Text) (v : List Float) (s : MockDomainStore)
      → Returns
          (ScopedCandidates q.top_k)
          (retrieve_dense q community_id query_text date_range subject_scope v s).0
  retrieve_dense-Scoped q query_text v s =
      let leg =
        dense_candidates q.floats community_id v q.embed.model_name q.candidate_k date_range
          subject_scope in
      Returns-bind (All InScope) (ScopedCandidates q.top_k) leg
        (retrieve_sparse q community_id query_text date_range subject_scope) s
        (Returns-map _ (All InScope) (leg s).0 (λ cs h. All-map _ InScope cs (λ c hit. hit.0) h.0)
          (dense_candidates-IsLeg q.floats community_id v q.embed.model_name q.candidate_k
            date_range subject_scope s).1)
        (λ dense_hits t d. retrieve_sparse-Scoped q query_text dense_hits t d)

  pub retrieve-Scoped :
      (q : QueryService) (query_text : Text) (s : MockDomainStore)
      → Returns
          (ScopedCandidates q.top_k)
          (retrieve q community_id query_text date_range subject_scope s).0
  unfolding retrieve
  retrieve-Scoped q query_text s = elim (Bool-cases (is_empty community_id)) [
    | inl e ↦ rw e tt
    | inr e ↦ rw e (go (first_vector (q.embed.embed (query_text ∷ []))))
  ]
    where
      go :
          (r : Result (List Float))
          → Returns
              (ScopedCandidates q.top_k)
              (outcome_then r
                (retrieve_dense q community_id query_text date_range subject_scope)
                s).0
      go (raised e) = tt
      go (ok v) = retrieve_dense-Scoped q query_text v s

  pub InScope-community : (c : EventChunk) → InScope c → (c.community_id == community_id) ≡ true
  unfolding is_in_scope
  InScope-community c h = ground arith

  all_of_community-InScope :
      (d : Text) (cs : List EventChunk)
      → d ≡ community_id
      → All InScope cs
      → all_of_community d cs ≡ true
  unfolding all_of_community
  all_of_community-InScope d [] e h = refl
  all_of_community-InScope d (c ∷ cs) e h =
      ground (arith, e, InScope-community c h.0, all_of_community-InScope d cs e h.1)

  one_community-span : (cs : List EventChunk) → All InScope cs → span_communities cs ≡ false
  unfolding span_communities
  one_community-span [] h = refl
  one_community-span (c ∷ cs) h = rw (
      all_of_community-InScope c.community_id cs
        (eq_of_beq c.community_id community_id (InScope-community c h.0)) h.1)

  -- The candidates that `retrieve` returns are at most `top_k` merged chunks, all of the community,
  -- active, and in the date range and the subject scope; no prompt built of them mixes communities.
  pub retrieve-IsScoped :
      (q : QueryService) (query_text : Text) (s : MockDomainStore) (r : RetrievedCandidates)
      → (retrieve q community_id query_text date_range subject_scope s).0 ≡ ok r
      → ScopedCandidates q.top_k r × (span_communities (merged_chunks r.merged) ≡ false)
  retrieve-IsScoped q query_text s r h =
      let scoped =
        Returns-ok (ScopedCandidates q.top_k)
          (retrieve q community_id query_text date_range subject_scope s).0 r
          (retrieve-Scoped q query_text s) h in
      (scoped, one_community-span (merged_chunks r.merged) scoped.0)

-- The citations of a contour are among the ids.
abbrev pub CitesAmong : List Text → Contour → Type 0
CitesAmong ids c = All (λ cited. is_in cited ids ≡ true) c.cited_chunk_ids

contour_of_answer-Cites :
    (response : ChatResponse) (ids : List Text) (r : Result StructuredAnswer)
    → Returns (IsGrounded ids) r
    → Returns (CitesAmong ids) (contour_of_answer response ids r)
contour_of_answer-Cites response ids (ok a) h = h.0
contour_of_answer-Cites response ids (raised e) h = unparsed-Cites e
  where
    unparsed-Cites :
        (e : Exception) → Returns (CitesAmong ids) (contour_of_answer response ids (raised e))
    unparsed-Cites malformed_answer_json = tt
    unparsed-Cites answer_schema_mismatch = tt
    unparsed-Cites fabricated_citation = tt
    unparsed-Cites value_error = tt
    unparsed-Cites key_error = tt
    unparsed-Cites runtime_error = tt
    unparsed-Cites assertion_error = tt
    unparsed-Cites type_error = tt
    unparsed-Cites index_error = tt
    unparsed-Cites cross_community_context = tt
    unparsed-Cites chat_provider_unavailable = tt
    unparsed-Cites (provider_error name) = tt

module _ (q : QueryService) (context : AnswerContext) where
  abbrev ids : List Text
  ids = chunk_ids_of context.ordered_chunks

  contour_of_response-Cites :
      (r : Result ChatResponse) → Returns (CitesAmong ids) (contour_of_response q context ids r)
  contour_of_response-Cites (ok response) =
      contour_of_answer-Cites response ids
        (parse_structured_answer q.loads response.raw_text context)
        (parse_structured_answer-Returns q.loads response.raw_text context)
  contour_of_response-Cites (raised e) = failed e
    where
      failed :
          (e : Exception) → Returns (CitesAmong ids) (contour_of_response q context ids (raised e))
      failed malformed_answer_json = tt
      failed answer_schema_mismatch = tt
      failed fabricated_citation = tt
      failed value_error = tt
      failed key_error = tt
      failed runtime_error = tt
      failed assertion_error = tt
      failed type_error = tt
      failed index_error = tt
      failed cross_community_context = tt
      failed chat_provider_unavailable = tt
      failed (provider_error name) = tt

  contour_of_prompt-Cites :
      (r : Result AnswerPrompt) → Returns (CitesAmong ids) (contour_of_prompt q context ids r)
  contour_of_prompt-Cites (raised e) = tt
  contour_of_prompt-Cites (ok prompt) = contour_of_response-Cites (q.chat.complete prompt)

  pub contour_of-Cites : Returns (CitesAmong ids) (contour_of q context context.ordered_chunks)
  unfolding contour_of
  contour_of-Cites = go context.ordered_chunks refl
    where
      go :
          (cs : List EventChunk)
          → chunk_ids_of cs ≡ ids
          → Returns (CitesAmong ids) (contour_of q context cs)
      go [] e = tt
      go (c ∷ cs) e = rw e (contour_of_prompt-Cites (build_answer_prompt context))
