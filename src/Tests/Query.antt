-- ===== src/Tests/Query.antt =====
-- The query service on the store of one note, with whole numbers for floats.
use diary_memory_service.Base.{
  arith, nat_eq, eq_of_beq, All, List, ◌≡◌, refl, false, none, [], ◌∷◌, text_eq, text_pair_eq,
}
use diary_memory_service.Base.Text.{codes}
use diary_memory_service.Base.Int.{pos}
use diary_memory_service.Base.Dict.{lookup}
use diary_memory_service.Exec.{ok}
use diary_memory_service.Models.{EventChunk}
use diary_memory_service.Exec.Laws.{Returns}
use diary_memory_service.Store.Search.{is_in_scope, tokenize, dense_candidates, sparse_candidates}
use diary_memory_service.Store.Search.Laws.{
  IsLeg, DenseHit, SparseHit, dense_candidates-IsLeg, sparse_candidates-IsLeg,
}
use diary_memory_service.Answers.{
  StructuredAnswer, confident, parse_structured_answer, span_communities,
}
use diary_memory_service.Answers.Grounding.{IsGrounded, parse_structured_answer-IsGrounded}
use diary_memory_service.Retrieval.{merged_chunks, reciprocal_rank_fusion, RetrievedCandidates}
use diary_memory_service.Retrieval.Ranked.{
  Comparable, IsDescending, scored_before, rankings_score, reciprocal_rank_fusion-IsDescending,
}
use diary_memory_service.Retrieval.Distinct.{AllApart, reciprocal_rank_fusion-AllApart}
use diary_memory_service.QueryService.{retrieve, answer}
use diary_memory_service.QueryService.Trace.{IsTraced, answer-IsTraced}
use diary_memory_service.QueryService.Scope.{ScopedCandidates, retrieve-IsScoped}
use diary_memory_service.QueryService.Shown.{IsShown, answer-IsShown}
use diary_memory_service.Running.{running}
use diary_memory_service.Samples.Service.{
  whole_floats, whole_scores, plain_text, chunk_one_id, loads_answer, sample_service, ask_draws,
  question, chunk_one, context_one, answered, ask_one, asking,
}
use diary_memory_service.Samples.{store_one}

answer_one : (answer sample_service ask_draws ask_one none none store_one).0 ≡ ok answered
unfolding running asking
answer_one = refl

answer-IsTraced_example :
    IsTraced ask_draws
      (codes "chat")
      answered
      (answer sample_service ask_draws ask_one none none store_one).1
answer-IsTraced_example =
    answer-IsTraced sample_service ask_draws ask_one none none store_one answered answer_one

answer-IsShown_example : IsShown (codes "chat") none none (pos 5) answered
answer-IsShown_example =
    answer-IsShown sample_service ask_draws ask_one none none store_one answered answer_one

abbrev candidates_one : RetrievedCandidates
candidates_one = record {
  dense = chunk_one ∷ [];
  sparse = chunk_one ∷ [];
  merged = record { chunk = chunk_one; score = 32 } ∷ [];
  embedding_model_name = codes "mock";
}

retrieve_one :
    (retrieve sample_service (codes "chat") (codes "walked when") none none store_one).0
    ≡ ok candidates_one
unfolding running asking
retrieve_one = refl

retrieve-IsScoped_example :
    ScopedCandidates (codes "chat") none none (pos 5) candidates_one
    × (span_communities (chunk_one ∷ []) ≡ false)
retrieve-IsScoped_example =
    retrieve-IsScoped (codes "chat") none none sample_service (codes "walked when") store_one
      candidates_one retrieve_one

dense_candidates-IsLeg_example :
    let r =
      dense_candidates whole_floats
        (codes "chat")
        (1 ∷ [])
        (codes "mock")
        (pos 20)
        none
        none
        store_one in
    (r.1 ≡ store_one)
    × Returns
        (IsLeg
          (DenseHit whole_floats
            (is_in_scope (codes "chat") none none)
            (λ c. lookup (c.chunk_id, codes "mock") store_one.embeddings)
            (1 ∷ []))
          (pos 20))
        r.0
dense_candidates-IsLeg_example =
    dense_candidates-IsLeg whole_floats (codes "chat") (1 ∷ []) (codes "mock") (pos 20) none none
      store_one

sparse_candidates-IsLeg_example :
    let r = sparse_candidates plain_text (codes "chat") question (pos 20) none none store_one in
    (r.1 ≡ store_one)
    × Returns
        (IsLeg
          (SparseHit plain_text
            (is_in_scope (codes "chat") none none)
            (tokenize plain_text question))
          (pos 20))
        r.0
sparse_candidates-IsLeg_example =
    sparse_candidates-IsLeg plain_text (codes "chat") question (pos 20) none none store_one

abbrev two_rankings : List (List EventChunk)
two_rankings = (chunk_one ∷ []) ∷ (chunk_one ∷ []) ∷ []

whole_scores-Comparable : Comparable whole_scores
whole_scores-Comparable = record {
  same_symmetric = λ a b. ground (arith, nat_eq.equals_iff a b, nat_eq.equals_iff b a);
  more_asymmetric = λ a b h. ground (arith, h);
  same_not_more = λ a b h. ground (arith, eq_of_beq a b h);
}

reciprocal_rank_fusion-IsDescending_example :
    Returns
      (λ hits.
        IsDescending (scored_before whole_scores) hits
        × All (λ h. h.score ≡ rankings_score whole_scores 60 h.chunk.chunk_id two_rankings 0) hits)
      (reciprocal_rank_fusion whole_scores two_rankings (pos 5) (pos 60))
reciprocal_rank_fusion-IsDescending_example =
    reciprocal_rank_fusion-IsDescending whole_scores two_rankings (pos 5) (pos 60)
      whole_scores-Comparable

reciprocal_rank_fusion-AllApart_example :
    Returns
      (λ hits. AllApart (λ c. c.chunk_id) (merged_chunks hits))
      (reciprocal_rank_fusion whole_scores
        ((chunk_one ∷ []) ∷ (chunk_one ∷ []) ∷ [])
        (pos 5)
        (pos 60))
reciprocal_rank_fusion-AllApart_example =
    reciprocal_rank_fusion-AllApart whole_scores ((chunk_one ∷ []) ∷ (chunk_one ∷ []) ∷ []) (pos 5)
      (pos 60)

abbrev structured_one : StructuredAnswer
structured_one = record {
  answer_text = codes "You walked.";
  cited_chunk_ids = chunk_one_id ∷ [];
  uncertainty = confident;
}

parse_one : parse_structured_answer loads_answer (codes "{}") context_one ≡ ok structured_one
unfolding asking
parse_one = refl

parse_structured_answer-IsGrounded_example : IsGrounded (chunk_one_id ∷ []) structured_one
parse_structured_answer-IsGrounded_example =
    parse_structured_answer-IsGrounded loads_answer (codes "{}") context_one structured_one
      parse_one
