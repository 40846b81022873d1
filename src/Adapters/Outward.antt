-- ===== src/Adapters/Outward.antt =====
-- The OpenAI outward rewriter: adapters/chat_routing/outward_openai.py.
use diary_memory_service.Base.{ℕ, none, List, [], ◌∷◌, ◌++◌, map, if◌then◌else◌}
use diary_memory_service.Base.Text.{Text, codes, is_empty, join}
use diary_memory_service.Exec.{Result, ok, raised, value_error}
use diary_memory_service.Answers.{JsonLoads}
use diary_memory_service.RoutedChat.Providers.{Call, returned, OutwardRewrite, OutwardQueryRewriter}
use diary_memory_service.Adapters.{
  Sdk, sdk_call, answered_by, call_then, ToolRequest, Completion, tool_arguments, loaded, get_of,
}
use diary_memory_service.Adapters.Rewriting.{usable_text, dict_of}

abbrev outward_system_text : Text
outward_system_text =
    codes "You rewrite a user's question into one self-contained query for an "
    ++ codes "external web search. The user also has personal notes; relevant "
    ++ codes "note excerpts are provided as context lines beneath the question. "
    ++ codes "Call rewrite_outward_query with search_query — the question "
    ++ codes "rephrased for a general search engine, folding in only the "
    ++ codes "specific facts from the context that sharpen the search (ages, "
    ++ codes "names of activities, concrete circumstances). Never copy note "
    ++ codes "text wholesale, never include names of people, and never address "
    ++ codes "the notes themselves — the query must stand alone."

abbrev note_context : List Text → Text
note_context [] = codes "(none)"
note_context (t ∷ ts) = join (codes "\n") (map (λ line. codes "- " ++ line) (t ∷ ts))

unfoldable pub outward_user_text : Text → List Text → Text
outward_user_text question notes_context =
    codes "Question: " ++ (question ++ (codes "\n\nNote context:\n" ++ note_context notes_context))

unfoldable pub outward_request : Text → Text → List Text → ToolRequest
outward_request model_name question notes_context = record {
  model = model_name;
  system_text = outward_system_text;
  user_text = outward_user_text question notes_context;
  tool_name = codes "rewrite_outward_query";
  tool_description = codes "Rewrite the question into one self-contained external search query.";
  properties = (record { name = codes "search_query"; description = none; enumeration = [] }) ∷ [];
  required = codes "search_query" ∷ [];
}

abbrev outward_of : Text → ℕ → Text → Text → OutwardRewrite
outward_of model_name latency_ms raw query = record {
  search_query = query;
  raw_output = raw;
  model_name = model_name;
  latency_ms = latency_ms;
}

unfoldable pub outward_by : JsonLoads → Text → ℕ → Completion → Call OutwardRewrite
outward_by loads model_name latency_ms response =
    call_then (tool_arguments response.choices) λ arguments.
      call_then (loaded arguments (loads arguments)) λ payload.
        call_then (dict_of arguments payload) λ dict.
          call_then (usable_text arguments (get_of (codes "search_query") dict))
            λ query. returned (outward_of model_name latency_ms arguments query)

unfoldable pub open_ai_rewrite_outward :
    Sdk ToolRequest Completion → JsonLoads → Text → Text → List Text → Call OutwardRewrite
open_ai_rewrite_outward sdk loads model_name question notes_context =
    answered_by (sdk_call sdk (outward_request model_name question notes_context))
      (outward_by loads model_name sdk.latency_ms)

-- `OpenAIOutwardRewriter(api_key, model_name=...)`
unfoldable pub open_ai_outward_rewriter :
    Sdk ToolRequest Completion → JsonLoads → Text → Text → Result OutwardQueryRewriter
open_ai_outward_rewriter sdk loads api_key model_name =
    if is_empty api_key
    then raised value_error
    else if is_empty model_name
    then raised value_error
    else ok (record {
      model_name = model_name;
      rewrite_outward = open_ai_rewrite_outward sdk loads model_name;
    })
