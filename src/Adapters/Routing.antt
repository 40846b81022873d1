-- ===== src/Adapters/Routing.antt =====
-- The OpenAI route classifier: adapters/chat_routing/openai_client.py.
use diary_memory_service.Base.{ℕ, Option, none, some, [], ◌∷◌, ◌++◌, ◌==◌, text_eq, if◌then◌else◌}
use diary_memory_service.Base.Text.{Text, codes, is_empty}
use diary_memory_service.Exec.{Result, ok, raised, value_error}
use diary_memory_service.Models.{
  ChatRoute, notes_lookup, notes_plus_model, notes_plus_knowledge, model_only, chat_route_value,
  RouteClassification,
}
use diary_memory_service.Answers.{JsonLoads, Json, string}
use diary_memory_service.RoutedChat.Providers.{Call, returned, output_error, ChatRouteClassifier}
use diary_memory_service.Adapters.{
  Sdk, sdk_call, answered_by, call_then, ToolRequest, Completion, tool_arguments, loaded, get_of,
}

abbrev classifier_system_text : Text
classifier_system_text =
    codes "You classify a user's question into exactly one answer route for a "
    ++ codes "shared-notes memory service. Routes: "
    ++ codes "\"notes_lookup\" — the answer is a fact recorded in the user's saved "
    ++ codes "notes (who/what/when about their own records); "
    ++ codes "\"notes_plus_model\" — the answer needs general model knowledge "
    ++ codes "combined with the user's personal context from their notes "
    ++ codes "(advice or suggestions tailored to their situation); "
    ++ codes "\"notes_plus_knowledge\" — the answer needs external knowledge sources "
    ++ codes "combined with the user's personal context (explanations of outside "
    ++ codes "facts applied to their situation); "
    ++ codes "\"model_only\" — the answer is general knowledge with no connection to "
    ++ codes "the user's notes (definitions, general explanations). "
    ++ codes "Call select_route with the single best route."

unfoldable pub classifier_request : Text → Text → ToolRequest
unfolding chat_route_value
classifier_request model_name question = record {
  model = model_name;
  system_text = classifier_system_text;
  user_text = question;
  tool_name = codes "select_route";
  tool_description = codes "Select the answer route for the user's question.";
  properties =
      (record {
        name = codes "route";
        description = none;
        enumeration =
            chat_route_value notes_lookup
            ∷ chat_route_value notes_plus_model
            ∷ chat_route_value notes_plus_knowledge
            ∷ chat_route_value model_only
            ∷ [];
      })
      ∷ [];
  required = codes "route" ∷ [];
}

-- `ChatRoute(text)`, where `none` is a ValueError.
unfoldable pub chat_route_of : Text → Option ChatRoute
unfolding chat_route_value
chat_route_of t =
    if t == chat_route_value notes_lookup
    then some notes_lookup
    else if t == chat_route_value notes_plus_model
    then some notes_plus_model
    else if t == chat_route_value notes_plus_knowledge
    then some notes_plus_knowledge
    else if t == chat_route_value model_only
    then some model_only
    else none

abbrev pub known_route : Text → Option ChatRoute → Call ChatRoute
known_route raw none = output_error raw
known_route raw (some route) = returned route

abbrev pub named_route : Text → Option Json → Call ChatRoute
named_route raw (some (string t)) = known_route raw (chat_route_of t)
named_route raw _ = output_error raw

abbrev pub classification_of : Text → ℕ → Text → ChatRoute → RouteClassification
classification_of model_name latency_ms raw route = record {
  route = route;
  raw_output = raw;
  model_name = model_name;
  latency_ms = latency_ms;
}

-- What the completion names.
unfoldable pub classified_by : JsonLoads → Text → ℕ → Completion → Call RouteClassification
classified_by loads model_name latency_ms response =
    call_then (tool_arguments response.choices) λ arguments.
      call_then (loaded arguments (loads arguments)) λ payload.
        call_then (named_route arguments (get_of (codes "route") payload))
          λ route. returned (classification_of model_name latency_ms arguments route)

unfoldable pub open_ai_classify :
    Sdk ToolRequest Completion → JsonLoads → Text → Text → Call RouteClassification
open_ai_classify sdk loads model_name question =
    answered_by (sdk_call sdk (classifier_request model_name question))
      (classified_by loads model_name sdk.latency_ms)

-- `OpenAIRouteClassifier(api_key, model_name=...)`
unfoldable pub open_ai_route_classifier :
    Sdk ToolRequest Completion → JsonLoads → Text → Text → Result ChatRouteClassifier
open_ai_route_classifier sdk loads api_key model_name =
    if is_empty api_key
    then raised value_error
    else if is_empty model_name
    then raised value_error
    else ok (record { model_name = model_name; classify = open_ai_classify sdk loads model_name })
