-- ===== src/Tests/RoutedChat.antt =====
-- A routed-chat call on the sample services.
use diary_memory_service.Base.{◌≡◌, refl, Option, none, some, List, [], ◌∷◌, text_eq}
use diary_memory_service.Base.Text.{Text, codes, strip}
use diary_memory_service.Exec.{Result, ok, raised}
use diary_memory_service.Exec.Invariants.{Leaves}
use diary_memory_service.Models.{
  InboundMessage, RouteKind, AnswerContext, RoutedChatResult, FallbackMode, model_only,
}
use diary_memory_service.Store.{MockDomainStore}
use diary_memory_service.Store.ChatTraces.{
  save_chat_route_decision, save_chat_query_rewrite, save_chat_knowledge_search,
}
use diary_memory_service.RoutedChat.Prompts.{build_notes_plus_knowledge_prompt}
use diary_memory_service.RoutedChat.Parsers.{
  NotesPlusKnowledgeAnswer, confident, notes_uncertainty_of, notes_consistent, grounded_knowledge,
  parse_notes_plus_knowledge_answer,
}
use diary_memory_service.RoutedChat.Rewriting.{
  RoutedChatService, rewrite, retrieval_query, rewrite_outward, searched_query, searched,
}
use diary_memory_service.RoutedChat.Generating.{
  Generation, fallback_of_notes, generate_notes_plus_knowledge,
}
use diary_memory_service.RoutedChat.Answering.{
  plain_answer, finish_mixed, answer_notes_plus_knowledge, answer_with_knowledge,
}
use diary_memory_service.RoutedChat.{
  Classified, routed_result, classify, effective_route, answer_route, save_rewrite, save_knowledge,
  record_decision, chat,
}
use diary_memory_service.RoutedChat.Providers.{returned}
use diary_memory_service.RoutedChat.Alone.{chat-Answers}
use diary_memory_service.RoutedChat.Recorded.{IsRecorded, chat-IsRecorded}
use diary_memory_service.Running.{running}
use diary_memory_service.Samples.{message_of, first_note}
use diary_memory_service.Dispatcher.{State, dispatch}
use diary_memory_service.Dispatcher.Cache.{here, served}
use diary_memory_service.Dispatcher.Links.{IsLinked, served-IsLinked}
use diary_memory_service.Samples.Service.{asking, chunk_one_id, chunk_one}
use diary_memory_service.Samples.Chat.{sample_chat, chat_draws}
use diary_memory_service.Samples.Bot.{sample_dispatcher, dispatch_draws, state_one, serving}

abbrev asked_chat : InboundMessage
asked_chat = message_of RouteKind.chat 0 (codes "walked when?")

abbrev chatted : Result RoutedChatResult × MockDomainStore
chatted = chat sample_chat chat_draws asked_chat none state_one.store

abbrev fallback_of : Result RoutedChatResult → Option (FallbackMode × List Text × List Text)
fallback_of (ok r) = some (r.answer.fallback, r.answer.cited_chunk_ids, r.answer.knowledge_refs)
fallback_of (raised e) = none

-- The call returns an answer of three planes, with a citation and a ref.
chat_returns : fallback_of chatted.0 ≡ some (FallbackMode.none, chunk_one_id ∷ [], codes "w1" ∷ [])
unfolding running asking serving save_chat_route_decision save_chat_query_rewrite
    save_chat_knowledge_search build_notes_plus_knowledge_prompt notes_uncertainty_of
    notes_consistent grounded_knowledge parse_notes_plus_knowledge_answer rewrite retrieval_query
    rewrite_outward searched_query searched fallback_of_notes generate_notes_plus_knowledge
    finish_mixed answer_notes_plus_knowledge answer_with_knowledge classify effective_route
    answer_route save_rewrite save_knowledge record_decision chat
chat_returns = refl

chat-IsRecorded_example : Leaves (IsRecorded sample_chat asked_chat) chatted
chat-IsRecorded_example = chat-IsRecorded sample_chat chat_draws asked_chat none state_one.store

abbrev sample_answer : NotesPlusKnowledgeAnswer
sample_answer = record {
  notes_text = codes "You walked.";
  cited_chunk_ids = chunk_one_id ∷ [];
  knowledge_text = codes "Walking helps.";
  cited_knowledge_refs = codes "w1" ∷ [];
  model_text = codes "Keep on.";
  notes_uncertainty = confident;
}

abbrev context_one : AnswerContext
context_one = record {
  query_id = codes "q1";
  query_text = codes "walked when?";
  ordered_chunks = chunk_one ∷ [];
  model_name = codes "m";
  created_at = 9;
}

-- A note, and then a question to the routed chat.
abbrev state_chatted : State
state_chatted = (dispatch sample_dispatcher (dispatch_draws 2) asked_chat state_one).1

served-IsLinked_example : IsLinked state_chatted.store
served-IsLinked_example =
    served-IsLinked sample_dispatcher state_chatted
      (served (served here (dispatch_draws 1) first_note) (dispatch_draws 2) asked_chat)

-- A classifier that sends every question to the model alone.
abbrev chat_alone : RoutedChatService
chat_alone = record sample_chat {
  classifier = record {
    model_name = codes "router";
    classify = λ question. returned (record {
      route = model_only;
      raw_output = codes "2";
      model_name = codes "router";
      latency_ms = 2;
    });
  };
}

abbrev alone : Classified
alone = record { requested = some model_only; raw_output = codes "2"; latency_ms = 2 }

alone_classified : classify chat_alone (strip asked_chat.payload) ≡ ok alone
unfolding running asking serving classify
alone_classified = refl

chat-Answers_example :
    (g : Generation) × ((chat chat_alone chat_draws asked_chat none state_one.store).0
      ≡ ok (routed_result chat_draws alone model_only (plain_answer (strip asked_chat.payload) g)))
unfolding running asking serving
chat-Answers_example =
    chat-Answers chat_alone chat_draws asked_chat state_one.store none alone refl alone_classified
      refl tt tt (refl, (refl, refl))
