-- ===== src/QueryService/Shown.antt =====
-- The result of `answer`, services/query_service.py.
use diary_memory_service.Base.{
  subst, ◌≤◌, true, ◌≡◌, refl, Option, some, List, [], ◌∷◌, All, length, inl, inr, Bool-cases,
  arith,
}
use diary_memory_service.Base.Text.{Text, is_empty}
use diary_memory_service.Base.Int.{ℤ, pos_part}
use diary_memory_service.Exec.{Result, ok, raised, outcome_then, pure, ◌>>=◌}
use diary_memory_service.Exec.Laws.{Returns, Returns-ok}
use diary_memory_service.Models.{
  InboundMessage, DateRange, FallbackMode, AnswerContext, AnswerResult,
}
use diary_memory_service.Store.{MockDomainStore}
use diary_memory_service.Answers.{chunk_ids_of, is_in}
use diary_memory_service.Retrieval.{
  FusedHit, RetrievedCandidates, merged_chunks, assemble_answer_context,
}
use diary_memory_service.QueryService.{
  QueryService, AskDraws, Contour, retrieve, contour_of, query_row, answer_result, persist_trace,
  persist_answer_trace, finalize, answer_candidates, empty_candidates, empty_context, unanswered,
  answer_question, normalize_query, answer,
}
use diary_memory_service.QueryService.Scope.{
  InScope, ScopedCandidates, CitesAmong, retrieve-Scoped, contour_of-Cites,
}

length-merged_chunks : (hits : List FusedHit) → length (merged_chunks hits) ≡ length hits
length-merged_chunks [] = refl
length-merged_chunks (h ∷ hs) = omega (arith, length-merged_chunks hs)

module _ (community_id : Text) (date_range : Option DateRange) (subject_scope : Option Text)
    (top_k : ℤ) where
  -- The result has a context of at most `top_k` chunks, all in scope, and cites only these.
  pub record IsShown (r : AnswerResult) : Type 0 where
    pub shown : AnswerContext
    pub context_shown : r.context ≡ some shown
    pub in_scope : All (InScope community_id date_range subject_scope) shown.ordered_chunks
    pub few : length shown.ordered_chunks ≤ pos_part top_k
    pub cited : All (λ c. is_in c (chunk_ids_of shown.ordered_chunks) ≡ true) r.cited_chunk_ids

  abbrev Shown : Result AnswerResult × MockDomainStore → Type 0
  Shown x = Returns IsShown x.0

  module _ (q : QueryService) (draws : AskDraws) (query_text : Text) where
    finalize-Shown :
        (candidates : RetrievedCandidates) (context : AnswerContext) (c : Contour)
        (s : MockDomainStore)
        → IsShown (answer_result query_text candidates context c)
        → Shown (finalize q draws community_id query_text subject_scope candidates context c s)
    unfolding finalize
    finalize-Shown candidates context c s h = go (
        persist_trace q draws (query_row q draws community_id query_text c.fallback subject_scope)
          candidates s)
      where
        last :
            (x : Result (Unit {0}) × MockDomainStore)
            → Shown
                (outcome_then x.0 (λ _. pure (answer_result query_text candidates context c)) x.1)
        last (raised e, t) = tt
        last (ok u, t) = h

        go :
            (x : Result (Unit {0}) × MockDomainStore)
            → Shown (
                outcome_then x.0
                  (λ _. persist_answer_trace draws c >>= λ _.
                    pure (answer_result query_text candidates context c))
                  x.1)
        go (raised e, t) = tt
        go (ok u, t) = last (persist_answer_trace draws c t)

    answer_candidates-Shown :
        (candidates : RetrievedCandidates) (s : MockDomainStore)
        → ScopedCandidates community_id date_range subject_scope top_k candidates
        → Shown (answer_candidates q draws community_id query_text subject_scope candidates s)
    unfolding answer_candidates assemble_answer_context
    answer_candidates-Shown candidates s h =
        go (contour_of q context context.ordered_chunks) (contour_of-Cites q context)
      where
        context : AnswerContext
        context =
            assemble_answer_context
              (query_row q draws community_id query_text FallbackMode.none subject_scope)
              candidates.merged

        go :
            (contour : Result Contour)
            → Returns (CitesAmong (chunk_ids_of context.ordered_chunks)) contour
            → Shown (
                outcome_then contour
                  (finalize q draws community_id query_text subject_scope candidates context)
                  s)
        go (raised e) k = tt
        go (ok c) k = finalize-Shown candidates context c s (record {
          shown = context;
          context_shown = refl;
          in_scope = h.0;
          few = omega (arith, h.1, length-merged_chunks candidates.merged);
          cited = k;
        })

    answer_question-Shown :
        (s : MockDomainStore)
        → q.top_k ≡ top_k
        → Shown (answer_question q draws community_id query_text date_range subject_scope s)
    unfolding answer_question
    answer_question-Shown s e = elim (Bool-cases (is_empty query_text)) [
      | inl blank ↦ rw blank (
          finalize-Shown (empty_candidates q) (empty_context q draws query_text)
            (unanswered q FallbackMode.no_evidence []) s
            (record {
              shown = empty_context q draws query_text;
              context_shown = refl;
              in_scope = tt;
              few = omega arith;
              cited = tt;
            }))
      | inr asked ↦ rw asked (
          go (retrieve q community_id query_text date_range subject_scope s) (
            subst
              (λ k.
                Returns (ScopedCandidates community_id date_range subject_scope k)
                  (retrieve q community_id query_text date_range subject_scope s).0)
              e (retrieve-Scoped community_id date_range subject_scope q query_text s)))
    ]
      where
        go :
            (x : Result RetrievedCandidates × MockDomainStore)
            → Returns (ScopedCandidates community_id date_range subject_scope top_k) x.0
            → Shown (
                outcome_then x.0
                  (answer_candidates q draws community_id query_text subject_scope)
                  x.1)
        go (raised e, t) k = tt
        go (ok candidates, t) k = answer_candidates-Shown candidates t k

pub answer-Shown :
    (q : QueryService) (draws : AskDraws) (message : InboundMessage) (date_range : Option DateRange)
    (subject_scope : Option Text) (s : MockDomainStore)
    → Returns
        (IsShown message.community_id date_range subject_scope q.top_k)
        (answer q draws message date_range subject_scope s).0
unfolding answer
answer-Shown q draws message date_range subject_scope s =
    elim (Bool-cases (is_empty message.community_id)) [
      | inl e ↦ rw e tt
      | inr e ↦ rw e (
          answer_question-Shown message.community_id date_range subject_scope q.top_k q draws
            (normalize_query message.payload) s refl)
    ]

-- When `answer` returns a result, its context holds at most `top_k` chunks, all active, of the
-- message's community, and in the date range and the subject scope; and every citation is of a
-- chunk of that context.
pub answer-IsShown :
    (q : QueryService) (draws : AskDraws) (message : InboundMessage) (date_range : Option DateRange)
    (subject_scope : Option Text) (s : MockDomainStore) (r : AnswerResult)
    → (answer q draws message date_range subject_scope s).0 ≡ ok r
    → IsShown message.community_id date_range subject_scope q.top_k r
answer-IsShown q draws message date_range subject_scope s r =
    Returns-ok (IsShown message.community_id date_range subject_scope q.top_k)
      (answer q draws message date_range subject_scope s).0 r
      (answer-Shown q draws message date_range subject_scope s)
