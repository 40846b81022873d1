-- ===== src/RoutedChat/Alone.antt =====
-- A question that goes to the model alone: services/routed_chat.py and core/chat/model_prompt.py.
use diary_memory_service.Base.{false, ◌≡◌, refl, Option, none, some, text_eq}
use diary_memory_service.Base.Text.{Text, codes, is_empty, strip}
use diary_memory_service.Base.Dict.{contains}
use diary_memory_service.Exec.{Result, ok, raised, class_name, chat_provider_unavailable}
use diary_memory_service.Models.{InboundMessage, model_only}
use diary_memory_service.Store.{MockDomainStore}
use diary_memory_service.Store.Traces.{save_query, save_answer_trace}
use diary_memory_service.Store.ChatTraces.{save_chat_route_decision}
use diary_memory_service.Answers.{
  Decodes, with_payload, Json, null, number, boolean, string, array, object, field_of,
}
use diary_memory_service.QueryService.{ChatResponse}
use diary_memory_service.RoutedChat.Prompts.{build_model_only_prompt}
use diary_memory_service.RoutedChat.Parsers.{
  model_only_answer_error, text_or, model_only_payload, parse_model_only_answer,
}
use diary_memory_service.RoutedChat.Rewriting.{RoutedChatService, ChatDraws}
use diary_memory_service.RoutedChat.Generating.{Generation, model_only_parsed, generate_model_only}
use diary_memory_service.RoutedChat.Answering.{plain_answer, answer_model_only}
use diary_memory_service.RoutedChat.{
  Classified, classify, effective_route, answer_route, save_rewrite, save_knowledge,
  record_decision, routed_result, chat,
}

-- The chat client returns, or it is unavailable.
abbrev pub Completes : Result ChatResponse → Type 0
Completes (ok r) = Unit
Completes (raised e) = e ≡ chat_provider_unavailable

-- The parser raises its own error, and no other.
abbrev Parses : Result Text → Type 0
Parses (ok t) = Unit
Parses (raised e) = e ≡ model_only_answer_error

text_or-Parses : (j : Option Json) → Parses (text_or model_only_answer_error j)
text_or-Parses none = refl
text_or-Parses (some null) = refl
text_or-Parses (some number) = refl
text_or-Parses (some (boolean b)) = refl
text_or-Parses (some (string t)) = tt
text_or-Parses (some (array xs)) = refl
text_or-Parses (some (object fs)) = refl

model_only_payload-Parses : (j : Option Json) → Parses (model_only_payload j)
model_only_payload-Parses none = refl
model_only_payload-Parses (some null) = refl
model_only_payload-Parses (some number) = refl
model_only_payload-Parses (some (boolean b)) = refl
model_only_payload-Parses (some (string t)) = refl
model_only_payload-Parses (some (array xs)) = refl
model_only_payload-Parses (some (object fs)) = text_or-Parses (field_of (codes "answer_text") fs)

abbrev Generates : Result Generation → Type 0
Generates r = (g : Generation) × (r ≡ ok g)

model_only_parsed-Generates :
    (response : ChatResponse) (r : Result Text)
    → Parses r
    → Generates (model_only_parsed response r)
unfolding class_name
model_only_parsed-Generates response (ok t) h = (_, refl)
model_only_parsed-Generates response (raised e) h = rw h (_, refl)

-- `json.loads` decodes the response, or raises JSONDecodeError.
abbrev pub ReadsResponse : RoutedChatService → Result ChatResponse → Type 0
ReadsResponse svc (ok r) = Decodes (svc.query.loads r.raw_text)
ReadsResponse svc (raised e) = Unit

with_payload-Parses :
    (r : Result (Option Json)) → Decodes r → Parses (with_payload r model_only_payload)
with_payload-Parses (ok payload) h = model_only_payload-Parses payload
with_payload-Parses (raised e) h = absurd h

generate_model_only-Generates :
    (svc : RoutedChatService) (r : Result ChatResponse)
    → Completes r
    → ReadsResponse svc r
    → Generates (generate_model_only svc r)
unfolding generate_model_only parse_model_only_answer class_name
generate_model_only-Generates svc (ok response) h reads =
    model_only_parsed-Generates response
      (with_payload (svc.query.loads response.raw_text) model_only_payload)
      (with_payload-Parses (svc.query.loads response.raw_text) reads)
generate_model_only-Generates svc (raised e) h reads = rw h (_, refl)

module _ (svc : RoutedChatService) (draws : ChatDraws) (message : InboundMessage)
    (s : MockDomainStore) where
  -- The ids that the call draws are new to the store.
  abbrev pub IsFresh : Type 0
  IsFresh =
      (contains draws.ask_draws.query_id s.queries ≡ false)
      × ((contains draws.ask_draws.query_id s.answer_traces ≡ false)
          × (contains draws.decision_id s.chat_route_decisions ≡ false))

  -- A question of a named community that the classifier sends to the model alone is answered, where
  -- the drawn ids are new, the chat client returns or is unavailable, and `json.loads` decodes what it
  -- returns or raises JSONDecodeError: the call returns, with the route `model_only`, without
  -- evidence, context and citations.
  pub chat-Answers :
      (scope : Option Text) (c : Classified)
      → is_empty message.community_id ≡ false
      → classify svc (strip message.payload) ≡ ok c
      → c.requested ≡ some model_only
      → Completes (svc.chat_client.complete (build_model_only_prompt (strip message.payload)))
      → ReadsResponse svc
          (svc.chat_client.complete (build_model_only_prompt (strip message.payload)))
      → IsFresh
      → (g : Generation) × ((chat svc draws message scope s).0
          ≡ ok (routed_result draws c model_only (plain_answer (strip message.payload) g)))
  unfolding chat effective_route answer_route answer_model_only save_query save_answer_trace
      save_chat_route_decision record_decision save_rewrite save_knowledge
  chat-Answers scope c named classified alone completes reads fresh =
      let response = svc.chat_client.complete (build_model_only_prompt (strip message.payload)) in
      let generated = generate_model_only-Generates svc response completes reads in
      (generated.0, rw (named, classified, alone, generated.1, fresh.0, fresh.1.0, fresh.1.1) refl)
