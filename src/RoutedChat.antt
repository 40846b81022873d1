-- ===== src/RoutedChat.antt =====
-- The routed chat, src/memory_rag/services/routed_chat.py.
pub mod Providers
pub mod Prompts
pub mod Parsers
pub mod Rewriting
pub mod Generating
pub mod Answering
pub mod Grounding
pub mod Writes
pub mod Recorded
pub mod Alone
use diary_memory_service.Base.{
  ℕ, Bool, true, false, Option, none, some, List, [], ◌==◌, text_eq, if◌then◌else◌,
}
use diary_memory_service.Base.Text.{Text, codes, is_empty, strip}
use diary_memory_service.Exec.{
  Exception, Exec, Result, ok, raised, class_name, pure, raise, lift, try_except, ◌>>=◌, ◌>>◌,
}
use diary_memory_service.Models.{
  DateTime, Date, DateRange, InboundMessage, FallbackMode, AnswerContext, AnswerResult, ChatRoute,
  notes_lookup, notes_plus_model, notes_plus_knowledge, model_only, RouteClassification,
  ChatRouteDecision, ChatQueryRewrite, ChatKnowledgeSearch, RoutedChatResult,
}
use diary_memory_service.Store.{MockDomainStore, require_community}
use diary_memory_service.Store.ChatTraces.{
  save_chat_route_decision, save_chat_query_rewrite, save_chat_knowledge_search,
}
use diary_memory_service.QueryService.{answer}
use diary_memory_service.RoutedChat.Providers.{
  Call, returned, output_error, unavailable, failed, KnowledgeSource,
}
use diary_memory_service.RoutedChat.Rewriting.{
  RoutedChatService, ChatDraws, RewriteCapture, KnowledgeCapture,
}
use diary_memory_service.RoutedChat.Answering.{
  Answered, answer_model_only, answer_notes_plus_model, answer_notes_plus_knowledge,
}

-- What the classification gave, for the decision row.
pub record Classified : Type 0 where
  pub requested : Option ChatRoute
  pub raw_output : Text
  pub latency_ms : ℕ

abbrev unclassified : Text → Classified
unclassified raw = record { requested = none; raw_output = raw; latency_ms = 0 }

abbrev pub classified_as : Call RouteClassification → Result Classified
classified_as (returned c) =
    ok (record { requested = some c.route; raw_output = c.raw_output; latency_ms = c.latency_ms })
classified_as (output_error raw) = ok (unclassified raw)
classified_as unavailable = ok (unclassified [])
classified_as (failed e) = raised e

-- An empty question is not classified.
unfoldable pub classify : RoutedChatService → Text → Result Classified
classify svc question =
    if is_empty question
    then ok (unclassified [])
    else classified_as (svc.classifier.classify question)

-- A route that cannot be served falls back to the notes.
unfoldable pub effective_route : Option KnowledgeSource → Option ChatRoute → ChatRoute
effective_route source none = notes_lookup
effective_route source (some notes_lookup) = notes_lookup
effective_route source (some model_only) = model_only
effective_route source (some notes_plus_model) = notes_plus_model
effective_route none (some notes_plus_knowledge) = notes_lookup
effective_route (some source) (some notes_plus_knowledge) = notes_plus_knowledge

-- `AnswerResult(fallback=NO_EVIDENCE, query_text=question)`, without rows.
abbrev pub unavailable_result : Text → AnswerResult
unavailable_result question = record {
  fallback = FallbackMode.no_evidence;
  query_text = question;
  evidence = [];
  context = none;
  answer_text = none;
  cited_chunk_ids = [];
  model_text = none;
  knowledge_text = none;
  knowledge_refs = [];
}

abbrev pub bare : AnswerResult → Option Text → Answered
bare a query_id = record { answer = a; query_id = query_id; rewrite = none; knowledge = none }

-- `except NotImplementedError`
abbrev pub on_not_implemented : Text → Exception → Exec MockDomainStore Answered
on_not_implemented question e =
    if class_name e == codes "NotImplementedError"
    then pure (bare (unavailable_result question) none)
    else raise e

-- `answer.context.query_id if answer.context else None`
abbrev context_query_id : Option AnswerContext → Option Text
context_query_id none = none
context_query_id (some c) = some c.query_id

abbrev pub looked_up :
    RoutedChatService → ChatDraws → InboundMessage → Option Text → Exec MockDomainStore Answered
looked_up svc draws message scope = do
  a ← answer svc.query draws.ask_draws message none scope
  pure (bare a (context_query_id a.context))

-- The pipeline of a route.
unfoldable pub answer_route :
    RoutedChatService
    → ChatDraws
    → InboundMessage
    → Text
    → Option Text
    → ChatRoute
    → Exec MockDomainStore Answered
answer_route svc draws message question scope model_only =
    answer_model_only svc draws message question
answer_route svc draws message question scope notes_plus_model =
    try_except (answer_notes_plus_model svc draws message question scope)
      (on_not_implemented question)
answer_route svc draws message question scope notes_plus_knowledge =
    try_except (answer_notes_plus_knowledge svc draws message question scope)
      (on_not_implemented question)
answer_route svc draws message question scope notes_lookup =
    try_except (looked_up svc draws message scope) (on_not_implemented question)

abbrev pub decision_row :
    RoutedChatService
    → ChatDraws
    → InboundMessage
    → Text
    → Classified
    → ChatRoute
    → Option Text
    → ChatRouteDecision
decision_row svc draws message question c route query_id = record {
  decision_id = draws.decision_id;
  community_id = message.community_id;
  question_text = question;
  requested_route = c.requested;
  effective_route = route;
  classifier_model_name = svc.classifier.model_name;
  classifier_raw_output = c.raw_output;
  classifier_latency_ms = c.latency_ms;
  query_id = query_id;
  created_at = draws.decided_at;
}

abbrev start_of : Option DateRange → Option Date
start_of none = none
start_of (some r) = r.start

abbrev stop_of : Option DateRange → Option Date
stop_of none = none
stop_of (some r) = r.stop

unfoldable pub save_rewrite :
    ChatDraws → InboundMessage → Option RewriteCapture → Exec MockDomainStore (Unit {0})
save_rewrite draws message none = pure tt
save_rewrite draws message (some c) = save_chat_query_rewrite (record {
  rewrite_id = draws.rewrite_id;
  decision_id = draws.decision_id;
  community_id = message.community_id;
  rewritten_query = c.rewritten_query;
  date_start = start_of c.date_range;
  date_end = stop_of c.date_range;
  subject_scope = c.subject_scope;
  rewriter_model_name = c.model_name;
  rewriter_raw_output = c.raw_output;
  rewriter_latency_ms = c.latency_ms;
  created_at = draws.rewrite_at;
})

abbrev provider_of : Option KnowledgeSource → Text
provider_of none = []
provider_of (some source) = source.provider_name

unfoldable pub save_knowledge :
    RoutedChatService
    → ChatDraws
    → InboundMessage
    → Option KnowledgeCapture
    → Exec MockDomainStore (Unit {0})
save_knowledge svc draws message none = pure tt
save_knowledge svc draws message (some c) = save_chat_knowledge_search (record {
  search_id = draws.search_id;
  decision_id = draws.decision_id;
  community_id = message.community_id;
  outward_query = c.outward_query;
  outward_rewriter_model_name = c.outward_model_name;
  outward_rewriter_raw_output = c.outward_raw_output;
  outward_rewriter_latency_ms = c.outward_latency_ms;
  provider_name = provider_of svc.knowledge_source;
  result_count = c.result_count;
  raw_output = c.raw_output;
  latency_ms = c.latency_ms;
  created_at = draws.search_at;
})

abbrev pub routed_result : ChatDraws → Classified → ChatRoute → AnswerResult → RoutedChatResult
routed_result draws c route a = record {
  requested_route = c.requested;
  effective_route = route;
  answer = a;
  decision_id = draws.decision_id;
}

-- The rows of a call, the decision first, and its result.
unfoldable pub record_decision :
    RoutedChatService
    → ChatDraws
    → InboundMessage
    → Text
    → Classified
    → ChatRoute
    → Answered
    → Exec MockDomainStore RoutedChatResult
record_decision svc draws message question c route a = do
  save_chat_route_decision (decision_row svc draws message question c route a.query_id)
  save_rewrite draws message a.rewrite
  save_knowledge svc draws message a.knowledge
  pure (routed_result draws c route a.answer)

abbrev pub chat_classified :
    RoutedChatService
    → ChatDraws
    → InboundMessage
    → Option Text
    → Classified
    → Exec MockDomainStore RoutedChatResult
chat_classified svc draws message scope c = do
  a ←
      answer_route svc draws message (strip message.payload) scope
        (effective_route svc.knowledge_source c.requested)
  record_decision svc draws message (strip message.payload) c
      (effective_route svc.knowledge_source c.requested) a

unfoldable pub chat :
    RoutedChatService
    → ChatDraws
    → InboundMessage
    → Option Text
    → Exec MockDomainStore RoutedChatResult
chat svc draws message scope = do
  require_community message.community_id
  c ← lift (classify svc (strip message.payload))
  chat_classified svc draws message scope c
