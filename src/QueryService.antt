-- ===== src/QueryService.antt =====
-- The query service, src/memory_rag/services/query_service.py: one `/ask` call, from the question to
-- the rows that record it.
pub mod Trace
pub mod Scope
pub mod Shown
pub mod Writes
use diary_memory_service.Base.{
  ℕ, Bool, true, false, not, ◌&&◌, ◌||◌, Option, none, some, List, [], ◌∷◌, length, leb, nat_beq,
  if◌then◌else◌,
}
use diary_memory_service.Base.Text.{Text, codes, is_empty, strip, rstrip_by}
use diary_memory_service.Base.Int.{ℤ, pos, is_below_one, int_ltb}
use diary_memory_service.Exec.{
  Exception, Result, ok, raised, Exec, value_error, index_error, malformed_answer_json,
  answer_schema_mismatch, fabricated_citation, chat_provider_unavailable, pure, raise, lift,
  raise_if, ◌>>=◌, ◌>>◌,
}
use diary_memory_service.Models.{
  DateTime, Float, InboundMessage, EventChunk, DateRange, FallbackMode, weak_evidence,
  provider_unavailable, parse_failure, Evidence, AnswerContext, AnswerResult, RetrievalLeg, Query,
  AnswerTrace,
}
use diary_memory_service.Store.{MockDomainStore, require_community}
use diary_memory_service.Store.Search.{FloatOps, UnicodeTables, dense_candidates, sparse_candidates}
use diary_memory_service.Store.Traces.{save_query, save_retrieval_hits, save_answer_trace}
use diary_memory_service.DomainService.{EmbeddingClient}
use diary_memory_service.Answers.{
  JsonLoads, AnswerPrompt, answer_prompt_version, build_answer_prompt, Json, UncertaintyMarker,
  confident, uncertain, StructuredAnswer, parse_structured_answer, chunk_ids_of,
}
use diary_memory_service.Retrieval.{
  Scores, FusedHit, reciprocal_rank_fusion, RetrievedCandidates, build_retrieval_hits,
  assemble_answer_context,
}

unfoldable pub fallback_of_marker : UncertaintyMarker → FallbackMode
fallback_of_marker confident = FallbackMode.none
fallback_of_marker uncertain = weak_evidence
fallback_of_marker UncertaintyMarker.no_evidence = FallbackMode.no_evidence
fallback_of_marker UncertaintyMarker.ambiguous = FallbackMode.ambiguous

-- The characters of "?.!,;:".
unfoldable pub is_query_punct : ℕ → Bool
is_query_punct c =
    nat_beq c b'?'
    || nat_beq c b'.'
    || nat_beq c b'!'
    || nat_beq c b','
    || nat_beq c b';'
    || nat_beq c b':'

unfoldable pub normalize_query : Text → Text
normalize_query payload = strip (rstrip_by is_query_punct (strip payload))

-- core/answers/client.py
pub record ChatResponse : Type 0 where
  pub raw_text : Text
  pub model_name : Text
  pub token_counts : List (Text × ℕ)
  pub latency_ms : ℕ

pub record ChatClient : Type 0 where
  pub model_name : Text
  pub complete : AnswerPrompt → Result ChatResponse

-- The service's fields, and what lies outside the program: floats, Unicode, JSON.
pub record QueryService : Type 0 where
  pub embed : EmbeddingClient
  pub chat : ChatClient
  pub top_k : ℤ
  pub candidate_k : ℤ
  pub floats : FloatOps
  pub scores : Scores
  pub unicode : UnicodeTables
  pub loads : JsonLoads

-- The checks of `QueryService.__init__`.
unfoldable pub new_query_service : QueryService → Result QueryService
new_query_service q =
    if is_below_one q.top_k
    then raised value_error
    else if int_ltb q.candidate_k q.top_k
    then raised value_error
    else ok q

-- What one call reads from the clock and from `uuid4`.
pub record AskDraws : Type 0 where
  pub created_at : DateTime
  pub query_id : Text
  pub retrieval_hit_id : RetrievalLeg → ℕ → Text
  pub answer_trace_id : Text
  pub trace_created_at : DateTime

abbrev pub first_vector : Result (List (List Float)) → Result (List Float)
first_vector (raised e) = raised e
first_vector (ok []) = raised index_error
first_vector (ok (v ∷ vs)) = ok v

abbrev pub candidates_of :
    QueryService → List EventChunk → List EventChunk → List FusedHit → RetrievedCandidates
candidates_of q dense_hits sparse_hits merged = record {
  dense = dense_hits;
  sparse = sparse_hits;
  merged = merged;
  embedding_model_name = q.embed.model_name;
}

-- `retrieve` from the fusion on, from the sparse leg on, and from the dense leg on.
abbrev pub retrieve_fused :
    QueryService → List EventChunk → List EventChunk → Result RetrievedCandidates
retrieve_fused q dense_hits sparse_hits =
    elim (reciprocal_rank_fusion q.scores (dense_hits ∷ sparse_hits ∷ []) q.top_k (pos 60)) [
      | raised e ↦ raised e
      | ok merged ↦ ok (candidates_of q dense_hits sparse_hits merged)
    ]

abbrev pub retrieve_sparse :
    QueryService
    → Text
    → Text
    → Option DateRange
    → Option Text
    → List EventChunk
    → Exec MockDomainStore RetrievedCandidates
retrieve_sparse q community_id query_text date_range subject_scope dense_hits = do
  sparse_hits ←
      sparse_candidates q.unicode community_id query_text q.candidate_k date_range subject_scope
  lift (retrieve_fused q dense_hits sparse_hits)

abbrev pub retrieve_dense :
    QueryService
    → Text
    → Text
    → Option DateRange
    → Option Text
    → List Float
    → Exec MockDomainStore RetrievedCandidates
retrieve_dense q community_id query_text date_range subject_scope query_embedding = do
  dense_hits ←
      dense_candidates q.floats community_id query_embedding q.embed.model_name q.candidate_k
        date_range subject_scope
  retrieve_sparse q community_id query_text date_range subject_scope dense_hits

unfoldable pub retrieve :
    QueryService
    → Text
    → Text
    → Option DateRange
    → Option Text
    → Exec MockDomainStore RetrievedCandidates
retrieve q community_id query_text date_range subject_scope = do
  require_community community_id
  query_embedding ← lift (first_vector (q.embed.embed (query_text ∷ [])))
  retrieve_dense q community_id query_text date_range subject_scope query_embedding

-- The fields of a trace that the contours differ in.
pub record Contour : Type 0 where
  pub fallback : FallbackMode
  pub trace_answer_text : Text
  pub trace_model_name : Text
  pub trace_token_counts : List (Text × ℕ)
  pub trace_latency_ms : ℕ
  pub trace_context_chunk_ids : List Text
  pub answer_text : Option Text
  pub cited_chunk_ids : List Text

-- `if hits: save_retrieval_hits(hits)`: an empty loop writes nothing either.
unfoldable pub persist_trace :
    QueryService → AskDraws → Query → RetrievedCandidates → Exec MockDomainStore (Unit {0})
persist_trace q draws query candidates = do
  save_query query
  save_retrieval_hits (
      build_retrieval_hits q.scores draws.retrieval_hit_id query.query_id query.created_at
        query.model_name candidates)

abbrev pub trace_row : AskDraws → Contour → AnswerTrace
trace_row draws c = record {
  answer_trace_id = draws.answer_trace_id;
  query_id = draws.query_id;
  prompt_version = answer_prompt_version;
  context_chunk_ids = c.trace_context_chunk_ids;
  answer_text = c.trace_answer_text;
  fallback_mode = c.fallback;
  model_name = c.trace_model_name;
  token_counts = c.trace_token_counts;
  latency_ms = c.trace_latency_ms;
  created_at = draws.trace_created_at;
}

unfoldable pub persist_answer_trace : AskDraws → Contour → Exec MockDomainStore (Unit {0})
persist_answer_trace draws c = save_answer_trace (trace_row draws c)

abbrev pub query_row : QueryService → AskDraws → Text → Text → FallbackMode → Option Text → Query
query_row q draws community_id query_text fallback subject_scope = record {
  query_id = draws.query_id;
  community_id = community_id;
  query_text = query_text;
  model_name = q.embed.model_name;
  fallback = fallback;
  created_at = draws.created_at;
  subject_scope = subject_scope;
}

abbrev pub evidence_of : List FusedHit → List Evidence
evidence_of [] = []
evidence_of (h ∷ hs) =
    record {
      chunk_id = h.chunk.chunk_id;
      note_date = h.chunk.note_date;
      chunk_text = h.chunk.chunk_text;
    }
    ∷ evidence_of hs

abbrev pub answer_result : Text → RetrievedCandidates → AnswerContext → Contour → AnswerResult
answer_result query_text candidates context c = record {
  fallback = c.fallback;
  query_text = query_text;
  evidence = evidence_of candidates.merged;
  context = some context;
  answer_text = c.answer_text;
  cited_chunk_ids = c.cited_chunk_ids;
  model_text = none;
  knowledge_text = none;
  knowledge_refs = [];
}

unfoldable pub finalize :
    QueryService
    → AskDraws
    → Text
    → Text
    → Option Text
    → RetrievedCandidates
    → AnswerContext
    → Contour
    → Exec MockDomainStore AnswerResult
finalize q draws community_id query_text subject_scope candidates context c = do
  persist_trace q draws (query_row q draws community_id query_text c.fallback subject_scope)
      candidates
  persist_answer_trace draws c
  pure (answer_result query_text candidates context c)

-- A contour that no response of the chat provider reached.
abbrev pub unanswered : QueryService → FallbackMode → List Text → Contour
unanswered q fallback context_chunk_ids = record {
  fallback = fallback;
  trace_answer_text = [];
  trace_model_name = q.chat.model_name;
  trace_token_counts = [];
  trace_latency_ms = 0;
  trace_context_chunk_ids = context_chunk_ids;
  answer_text = none;
  cited_chunk_ids = [];
}

abbrev pub unparsed : ChatResponse → List Text → Contour
unparsed response context_chunk_ids = record {
  fallback = parse_failure;
  trace_answer_text = response.raw_text;
  trace_model_name = response.model_name;
  trace_token_counts = response.token_counts;
  trace_latency_ms = response.latency_ms;
  trace_context_chunk_ids = context_chunk_ids;
  answer_text = none;
  cited_chunk_ids = [];
}

abbrev pub graded : ChatResponse → List Text → StructuredAnswer → Contour
graded response context_chunk_ids structured = record {
  fallback = fallback_of_marker structured.uncertainty;
  trace_answer_text = structured.answer_text;
  trace_model_name = response.model_name;
  trace_token_counts = response.token_counts;
  trace_latency_ms = response.latency_ms;
  trace_context_chunk_ids = context_chunk_ids;
  answer_text = some structured.answer_text;
  cited_chunk_ids = structured.cited_chunk_ids;
}

-- `except StructuredAnswerError`: the three classes below; any other exception goes through.
abbrev pub contour_of_answer : ChatResponse → List Text → Result StructuredAnswer → Result Contour
contour_of_answer response ids (ok structured) = ok (graded response ids structured)
contour_of_answer response ids (raised malformed_answer_json) = ok (unparsed response ids)
contour_of_answer response ids (raised answer_schema_mismatch) = ok (unparsed response ids)
contour_of_answer response ids (raised fabricated_citation) = ok (unparsed response ids)
contour_of_answer response ids (raised e) = raised e

-- `except ChatProviderUnavailableError`
abbrev pub contour_of_response :
    QueryService → AnswerContext → List Text → Result ChatResponse → Result Contour
contour_of_response q context ids (ok response) =
    contour_of_answer response ids (parse_structured_answer q.loads response.raw_text context)
contour_of_response q context ids (raised chat_provider_unavailable) =
    ok (unanswered q provider_unavailable ids)
contour_of_response q context ids (raised e) = raised e

abbrev pub contour_of_prompt :
    QueryService → AnswerContext → List Text → Result AnswerPrompt → Result Contour
contour_of_prompt q context ids (raised e) = raised e
contour_of_prompt q context ids (ok prompt) =
    contour_of_response q context ids (q.chat.complete prompt)

-- The decision on a context: no chunk, or the answer of the provider.
unfoldable pub contour_of : QueryService → AnswerContext → List EventChunk → Result Contour
contour_of q context [] = ok (unanswered q FallbackMode.no_evidence [])
contour_of q context (c ∷ cs) =
    contour_of_prompt q context (chunk_ids_of (c ∷ cs)) (build_answer_prompt context)

unfoldable pub answer_candidates :
    QueryService
    → AskDraws
    → Text
    → Text
    → Option Text
    → RetrievedCandidates
    → Exec MockDomainStore AnswerResult
answer_candidates q draws community_id query_text subject_scope candidates = do
  let context =
      assemble_answer_context
        (query_row q draws community_id query_text FallbackMode.none subject_scope)
        candidates.merged
  contour ← lift (contour_of q context context.ordered_chunks)
  finalize q draws community_id query_text subject_scope candidates context contour

abbrev pub empty_candidates : QueryService → RetrievedCandidates
empty_candidates q = record {
  dense = [];
  sparse = [];
  merged = [];
  embedding_model_name = q.embed.model_name;
}

abbrev pub empty_context : QueryService → AskDraws → Text → AnswerContext
empty_context q draws query_text = record {
  query_id = draws.query_id;
  query_text = query_text;
  ordered_chunks = [];
  model_name = q.embed.model_name;
  created_at = draws.created_at;
}

unfoldable pub answer_question :
    QueryService
    → AskDraws
    → Text
    → Text
    → Option DateRange
    → Option Text
    → Exec MockDomainStore AnswerResult
answer_question q draws community_id query_text date_range subject_scope =
    if is_empty query_text
    then finalize q draws community_id query_text subject_scope (empty_candidates q)
        (empty_context q draws query_text) (unanswered q FallbackMode.no_evidence [])
    else (do
      candidates ← retrieve q community_id query_text date_range subject_scope
      answer_candidates q draws community_id query_text subject_scope candidates)

unfoldable pub answer :
    QueryService
    → AskDraws
    → InboundMessage
    → Option DateRange
    → Option Text
    → Exec MockDomainStore AnswerResult
answer q draws message date_range subject_scope = do
  require_community message.community_id
  answer_question q draws message.community_id (normalize_query message.payload) date_range
      subject_scope
