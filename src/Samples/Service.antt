-- ===== src/Samples/Service.antt =====
-- Test data: a query service with whole numbers for floats, and the names that an `/ask` unfolds.
use Prim.Native.Nat.{◌/◌}
use diary_memory_service.Base.{
  ℕ, ◌+◌, ◌-◌, ◌*◌, not, none, some, [], ◌∷◌, ltb, leb, nat_beq, text_eq, text_pair_eq,
}
use diary_memory_service.Base.Text.{Text, codes, is_space}
use diary_memory_service.Base.Int.{pos}
use diary_memory_service.Exec.{ok}
use diary_memory_service.Models.{
  date_isoformat, padded, RouteKind, InboundMessage, FallbackMode, ready, active, EventChunk,
  AnswerContext, AnswerResult, RetrievalLeg, dense, sparse, merged,
}
use diary_memory_service.Store.Search.{FloatOps, UnicodeTables}
use diary_memory_service.Answers.{
  JsonLoads, string, array, object, no_items, item, no_fields, field, parse_structured_answer,
  build_answer_prompt, chunk_line, all_of_community, span_communities, uncertainty_of, all_in,
  grounded_answer,
}
use diary_memory_service.Retrieval.{
  Scores, reciprocal_rank_fusion, build_retrieval_hits, leg_hits, merged_hits, rrf_leg_score,
  assemble_answer_context, fuse_chunk, fuse_ranking, fuse_rankings, fused_before,
}
use diary_memory_service.QueryService.{
  QueryService, AskDraws, fallback_of_marker, is_query_punct, normalize_query, retrieve,
  persist_trace, persist_answer_trace, finalize, contour_of, answer_candidates, answer_question,
  answer,
}
use diary_memory_service.Samples.{working_client, message_of}

abbrev pub whole_floats : FloatOps
whole_floats = record {
  zero_point = 0;
  one = 1;
  half = 1;
  of_nat = λ n. n;
  add = λ a b. a + b;
  sub = λ a b. a - b;
  mul = λ a b. a * b;
  div = λ a b. a / b;
  sqrt = λ a. a;
  less = ltb;
  at_least = λ a b. leb b a;
  same = nat_beq;
}

abbrev pub whole_scores : Scores
whole_scores = record {
  zero_point = 0;
  plus = λ a b. a + b;
  contribution = λ k rank. 1000 / (k + rank);
  more = λ a b. ltb b a;
  same = nat_beq;
}

abbrev pub plain_text : UnicodeTables
plain_text = record { lower = λ t. t; is_word = λ c. not (is_space c) }

-- The id of the sample note's chunk.
abbrev pub chunk_one_id : Text
chunk_one_id = b'c' ∷ 1 ∷ []

abbrev pub loads_answer : JsonLoads
loads_answer raw = ok (
    some (
      object (
        field (codes "answer_text") (string (codes "You walked.")) (
          field (codes "cited_chunk_ids") (array (item (string chunk_one_id) no_items))
            (field (codes "uncertainty") (string (codes "confident")) no_fields)))))

abbrev pub sample_service : QueryService
sample_service = record {
  embed = working_client;
  chat = record {
    model_name = codes "chat-mock";
    complete = λ prompt. ok (record {
      raw_text = codes "{}";
      model_name = codes "chat-mock";
      token_counts = [];
      latency_ms = 5;
    });
  };
  top_k = pos 5;
  candidate_k = pos 20;
  floats = whole_floats;
  scores = whole_scores;
  unicode = plain_text;
  loads = loads_answer;
}

abbrev pub leg_digit : RetrievalLeg → ℕ
leg_digit dense = 0
leg_digit sparse = 1
leg_digit merged = 2

abbrev pub ask_draws : AskDraws
ask_draws = record {
  created_at = 9;
  query_id = codes "q1";
  retrieval_hit_id = λ leg rank. b'h' ∷ leg_digit leg ∷ rank ∷ [];
  answer_trace_id = codes "t1";
  trace_created_at = 9;
}

abbrev pub question : Text
question = codes "walked when?"

abbrev pub chunk_one : EventChunk
chunk_one = record {
  chunk_id = chunk_one_id;
  note_id = b'n' ∷ 1 ∷ [];
  source_message_id = b's' ∷ 1 ∷ [];
  community_id = codes "chat";
  author_user_id = codes "ann";
  note_date = record { year = 2026; month = 5; day = 9 };
  event_index = 0;
  chunk_text = codes "walked today";
  created_at = 1;
  embedding_status = ready;
  subject_id = none;
  lifecycle_state = active;
  supersedes_chunk_id = none;
}

abbrev pub context_one : AnswerContext
context_one = record {
  query_id = codes "q1";
  query_text = codes "walked when";
  ordered_chunks = chunk_one ∷ [];
  model_name = codes "mock";
  created_at = 9;
}

abbrev pub answered : AnswerResult
answered = record {
  fallback = FallbackMode.none;
  query_text = codes "walked when";
  evidence =
      record {
        chunk_id = chunk_one_id;
        note_date = record { year = 2026; month = 5; day = 9 };
        chunk_text = codes "walked today";
      }
      ∷ [];
  context = some context_one;
  answer_text = some (codes "You walked.");
  cited_chunk_ids = chunk_one_id ∷ [];
  model_text = none;
  knowledge_text = none;
  knowledge_refs = [];
}

abbrev pub ask_one : InboundMessage
ask_one = message_of RouteKind.ask 0 question

-- A name for the definitions of the query side.
unfoldable pub asking : Unit {0}
unfolding fallback_of_marker is_query_punct normalize_query retrieve persist_trace
    persist_answer_trace finalize contour_of answer_candidates answer_question answer
    reciprocal_rank_fusion build_retrieval_hits leg_hits merged_hits rrf_leg_score
    assemble_answer_context fuse_chunk fuse_ranking fuse_rankings fused_before
    parse_structured_answer build_answer_prompt chunk_line date_isoformat padded all_of_community
    span_communities uncertainty_of all_in grounded_answer
asking = tt
