-- ===== src/RoutedChat/Answering.antt =====
-- services/routed_chat.py: `_answer_model_only`, `_answer_notes_plus_model` and
-- `_answer_notes_plus_knowledge`.
use diary_memory_service.Base.{Option, none, some, List, [], map, text_eq}
use diary_memory_service.Base.Text.{Text}
use diary_memory_service.Exec.{
  Exec, Result, ok, raised, runtime_error, pure, raise, lift, ◌>>=◌, ◌>>◌,
}
use diary_memory_service.Models.{
  InboundMessage, FallbackMode, AnswerContext, AnswerResult, Query, AnswerTrace,
}
use diary_memory_service.Store.{MockDomainStore}
use diary_memory_service.Store.Traces.{save_query, save_answer_trace}
use diary_memory_service.Answers.{chunk_ids_of, AnswerPrompt}
use diary_memory_service.Retrieval.{RetrievedCandidates, assemble_answer_context}
use diary_memory_service.QueryService.{ChatResponse, retrieve, persist_trace, evidence_of}
use diary_memory_service.RoutedChat.Providers.{KnowledgeSource}
use diary_memory_service.RoutedChat.Prompts.{
  model_only_prompt_version, notes_plus_model_prompt_version, notes_plus_knowledge_prompt_version,
  build_model_only_prompt, build_notes_plus_model_prompt, build_notes_plus_knowledge_prompt,
  refs_of,
}
use diary_memory_service.RoutedChat.Rewriting.{
  RoutedChatService, ChatDraws, RewriteCapture, rewrite, retrieval_query, rewrite_outward,
  searched_query, searched, KnowledgeCapture, capture_of,
}
use diary_memory_service.RoutedChat.Generating.{
  Generation, generate_model_only, generate_notes_plus_model, generate_notes_plus_knowledge,
}

-- What a pipeline returns: the answer, the id of its query row, and the captures for the traces.
pub record Answered : Type 0 where
  pub answer : AnswerResult
  pub query_id : Option Text
  pub rewrite : Option RewriteCapture
  pub knowledge : Option KnowledgeCapture

abbrev pub question_row :
    ChatDraws → InboundMessage → Text → Text → FallbackMode → Option Text → Query
question_row draws message question model_name fallback scope = record {
  query_id = draws.ask_draws.query_id;
  community_id = message.community_id;
  query_text = question;
  model_name = model_name;
  fallback = fallback;
  created_at = draws.ask_draws.created_at;
  subject_scope = scope;
}

abbrev pub generation_trace :
    RoutedChatService → ChatDraws → Text → List Text → Generation → AnswerTrace
generation_trace svc draws version context_ids g = record {
  answer_trace_id = draws.ask_draws.answer_trace_id;
  query_id = draws.ask_draws.query_id;
  prompt_version = version;
  context_chunk_ids = context_ids;
  answer_text = g.trace_answer_text;
  fallback_mode = g.fallback;
  model_name = svc.chat_client.model_name;
  token_counts = g.token_counts;
  latency_ms = g.latency_ms;
  created_at = draws.ask_draws.created_at;
}

abbrev pub plain_answer : Text → Generation → AnswerResult
plain_answer question g = record {
  fallback = g.fallback;
  query_text = question;
  evidence = [];
  context = none;
  answer_text = g.answer_text;
  cited_chunk_ids = [];
  model_text = none;
  knowledge_text = none;
  knowledge_refs = [];
}

unfoldable pub answer_model_only :
    RoutedChatService → ChatDraws → InboundMessage → Text → Exec MockDomainStore Answered
answer_model_only svc draws message question = do
  g ← lift (generate_model_only svc (svc.chat_client.complete (build_model_only_prompt question)))
  save_query (question_row draws message question svc.chat_client.model_name g.fallback none)
  save_answer_trace (generation_trace svc draws model_only_prompt_version [] g)
  pure (record {
    answer = plain_answer question g;
    query_id = some draws.ask_draws.query_id;
    rewrite = none;
    knowledge = none;
  })

abbrev pub mixed_answer : Text → RetrievedCandidates → AnswerContext → Generation → AnswerResult
mixed_answer question candidates context g = record {
  fallback = g.fallback;
  query_text = question;
  evidence = evidence_of candidates.merged;
  context = some context;
  answer_text = g.answer_text;
  cited_chunk_ids = g.cited_chunk_ids;
  model_text = g.model_text;
  knowledge_text = g.knowledge_text;
  knowledge_refs = g.knowledge_refs;
}

-- The rows of a mixed answer, and the answer.
unfoldable pub finish_mixed :
    RoutedChatService
    → ChatDraws
    → InboundMessage
    → Text
    → Option Text
    → Text
    → RetrievedCandidates
    → AnswerContext
    → Generation
    → Exec MockDomainStore AnswerResult
finish_mixed svc draws message question scope version candidates context g = do
  persist_trace svc.query draws.ask_draws
      (question_row draws message question candidates.embedding_model_name g.fallback scope)
      candidates
  save_answer_trace (generation_trace svc draws version (chunk_ids_of context.ordered_chunks) g)
  pure (mixed_answer question candidates context g)

abbrev pub mixed_context :
    ChatDraws → InboundMessage → Text → Option Text → RetrievedCandidates → AnswerContext
mixed_context draws message question scope candidates =
    assemble_answer_context
      (question_row draws message question candidates.embedding_model_name FallbackMode.none scope)
      candidates.merged

abbrev pub prompted : RoutedChatService → AnswerPrompt → Result ChatResponse
prompted svc prompt = svc.chat_client.complete prompt

abbrev pub with_prompt {ℓ} :
    {A : Type ℓ} → Result AnswerPrompt → (AnswerPrompt → Result A) → Result A
with_prompt (raised e) k = raised e
with_prompt (ok prompt) k = k prompt

unfoldable pub answer_notes_plus_model :
    RoutedChatService
    → ChatDraws
    → InboundMessage
    → Text
    → Option Text
    → Exec MockDomainStore Answered
answer_notes_plus_model svc draws message question scope = do
  capture ← lift (rewrite svc.rewriter draws.today question)
  candidates ←
      retrieve svc.query message.community_id (retrieval_query question capture) capture.date_range
        scope
  let context = mixed_context draws message question scope candidates
  g ← lift (
      with_prompt (build_notes_plus_model_prompt context)
        (λ prompt. generate_notes_plus_model svc context (prompted svc prompt)))
  a ←
      finish_mixed svc draws message question scope notes_plus_model_prompt_version candidates
        context g
  pure (record {
    answer = a;
    query_id = some draws.ask_draws.query_id;
    rewrite = some capture;
    knowledge = none;
  })

-- The search and the generation, after the retrieval.
unfoldable pub answer_with_knowledge :
    RoutedChatService
    → ChatDraws
    → InboundMessage
    → Text
    → Option Text
    → KnowledgeSource
    → RewriteCapture
    → RetrievedCandidates
    → Exec MockDomainStore Answered
answer_with_knowledge svc draws message question scope source capture candidates = do
  let context = mixed_context draws message question scope candidates
  outward ← lift (
      rewrite_outward svc.outward_rewriter question
        (map (λ c. c.chunk_text) context.ordered_chunks))
  found ← lift (searched (source.search (searched_query question outward)))
  g ← lift (
      with_prompt (build_notes_plus_knowledge_prompt context found.excerpts) (λ prompt.
        generate_notes_plus_knowledge svc context (refs_of found.excerpts) (prompted svc prompt)))
  a ←
      finish_mixed svc draws message question scope notes_plus_knowledge_prompt_version candidates
        context g
  pure (record {
    answer = a;
    query_id = some draws.ask_draws.query_id;
    rewrite = some capture;
    knowledge = some (capture_of question outward found);
  })

abbrev pub knowledge_route :
    RoutedChatService
    → ChatDraws
    → InboundMessage
    → Text
    → Option Text
    → Option KnowledgeSource
    → Exec MockDomainStore Answered
knowledge_route svc draws message question scope none = raise runtime_error
knowledge_route svc draws message question scope (some source) = do
  capture ← lift (rewrite svc.rewriter draws.today question)
  candidates ←
      retrieve svc.query message.community_id (retrieval_query question capture) capture.date_range
        scope
  answer_with_knowledge svc draws message question scope source capture candidates

unfoldable pub answer_notes_plus_knowledge :
    RoutedChatService
    → ChatDraws
    → InboundMessage
    → Text
    → Option Text
    → Exec MockDomainStore Answered
answer_notes_plus_knowledge svc draws message question scope =
    knowledge_route svc draws message question scope svc.knowledge_source
