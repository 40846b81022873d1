-- ===== src/Adapters/Rewriting.antt =====
-- The OpenAI query rewriter: adapters/chat_routing/rewrite_openai.py.
use diary_memory_service.Base.{ℕ, Option, none, some, [], ◌∷◌, ◌++◌, if◌then◌else◌}
use diary_memory_service.Base.Text.{Text, codes, is_empty, strip}
use diary_memory_service.Exec.{Result, ok, raised, value_error}
use diary_memory_service.Models.{Date, DateRange, new_date_range, date_isoformat}
use diary_memory_service.Answers.{JsonLoads, Json, null, string}
use diary_memory_service.RoutedChat.Providers.{
  Call, returned, output_error, QueryRewrite, QueryRewriter,
}
use diary_memory_service.Adapters.{
  Sdk, sdk_call, answered_by, call_then, ToolRequest, Completion, tool_arguments, loaded, get_of,
}
use diary_memory_service.Answers.{object}

unfoldable pub rewriter_system_text : Date → Text
rewriter_system_text today =
    codes "You rewrite a user's question into a search query over their "
    ++ (codes "saved notes for a shared-notes memory service. "
        ++ (codes "Call rewrite_query with retrieval_query — the words most likely "
            ++ (codes "to appear in the relevant notes (drop filler, keep names and "
                ++ (codes "concrete terms) — and, only when the question names or clearly "
                    ++ (codes "implies a time period, date_from and/or date_to as inclusive "
                        ++ (codes "ISO dates (YYYY-MM-DD). Today is "
                            ++ (date_isoformat today
                                ++ (codes "; resolve relative expressions "
                                    ++ (codes
                                          "like 'last month' against it. Omit date_from/date_to when the "
                                        ++ codes "question carries no time constraint.")))))))))

abbrev iso_date_text : Option Text
iso_date_text = some (codes "Inclusive ISO date (YYYY-MM-DD).")

unfoldable pub rewriter_request : Text → Text → Date → ToolRequest
rewriter_request model_name question today = record {
  model = model_name;
  system_text = rewriter_system_text today;
  user_text = question;
  tool_name = codes "rewrite_query";
  tool_description =
      codes "Rewrite the question into a retrieval query with optional inclusive date bounds.";
  properties =
      (record { name = codes "retrieval_query"; description = none; enumeration = [] })
      ∷ (record { name = codes "date_from"; description = iso_date_text; enumeration = [] })
      ∷ (record { name = codes "date_to"; description = iso_date_text; enumeration = [] })
      ∷ [];
  required = codes "retrieval_query" ∷ [];
}

abbrev iso_date : Text → Option Date → Call (Option Date)
iso_date raw none = output_error raw
iso_date raw (some d) = returned (some d)

-- `_parse_iso_date(value)`; a missing value and null are both None.
abbrev pub parse_iso_date : (Text → Option Date) → Text → Option Json → Call (Option Date)
parse_iso_date fromisoformat raw none = returned none
parse_iso_date fromisoformat raw (some null) = returned none
parse_iso_date fromisoformat raw (some (string t)) = iso_date raw (fromisoformat t)
parse_iso_date fromisoformat raw _ = output_error raw

abbrev pub ranged : Text → Result DateRange → Call (Option DateRange)
ranged raw (raised e) = output_error raw
ranged raw (ok r) = returned (some r)

-- No range without a bound; `except ValueError` is the only exception of `DateRange(...)`.
abbrev pub bounds_of : Text → Option Date → Option Date → Call (Option DateRange)
bounds_of raw none none = returned none
bounds_of raw (some from) to = ranged raw (new_date_range (some from) to)
bounds_of raw none (some to) = ranged raw (new_date_range none (some to))

-- A string that is not blank.
abbrev pub usable_text : Text → Option Json → Call Text
usable_text raw (some (string t)) =
    if is_empty (strip t) then output_error raw else returned (strip t)
usable_text raw _ = output_error raw

-- `isinstance(payload, dict)`
abbrev pub dict_of : Text → Json → Call Json
dict_of raw (object fs) = returned (object fs)
dict_of raw _ = output_error raw

abbrev pub rewrite_of : Text → ℕ → Text → Text → Option DateRange → QueryRewrite
rewrite_of model_name latency_ms raw query range = record {
  retrieval_query = query;
  date_range = range;
  subject_scope = none;
  raw_output = raw;
  model_name = model_name;
  latency_ms = latency_ms;
}

-- The payload of the tool call.
unfoldable pub rewritten_from : (Text → Option Date) → Text → ℕ → Text → Json → Call QueryRewrite
rewritten_from fromisoformat model_name latency_ms raw payload =
    call_then (usable_text raw (get_of (codes "retrieval_query") payload)) λ query.
      call_then (parse_iso_date fromisoformat raw (get_of (codes "date_from") payload)) λ from.
        call_then (parse_iso_date fromisoformat raw (get_of (codes "date_to") payload)) λ to.
          call_then (bounds_of raw from to)
            λ range. returned (rewrite_of model_name latency_ms raw query range)

unfoldable pub rewritten_by :
    JsonLoads → (Text → Option Date) → Text → ℕ → Completion → Call QueryRewrite
rewritten_by loads fromisoformat model_name latency_ms response =
    call_then (tool_arguments response.choices) λ arguments.
      call_then (loaded arguments (loads arguments)) λ payload.
        call_then (dict_of arguments payload)
          λ dict. rewritten_from fromisoformat model_name latency_ms arguments dict

unfoldable pub open_ai_rewrite :
    Sdk ToolRequest Completion
    → JsonLoads
    → (Text → Option Date)
    → Text
    → Text
    → Date
    → Call QueryRewrite
open_ai_rewrite sdk loads fromisoformat model_name question today =
    answered_by (sdk_call sdk (rewriter_request model_name question today))
      (rewritten_by loads fromisoformat model_name sdk.latency_ms)

-- `OpenAIQueryRewriter(api_key, model_name=...)`
unfoldable pub open_ai_query_rewriter :
    Sdk ToolRequest Completion
    → JsonLoads
    → (Text → Option Date)
    → Text
    → Text
    → Result QueryRewriter
open_ai_query_rewriter sdk loads fromisoformat api_key model_name =
    if is_empty api_key
    then raised value_error
    else if is_empty model_name
    then raised value_error
    else ok (record {
      model_name = model_name;
      rewrite = open_ai_rewrite sdk loads fromisoformat model_name;
    })
