-- ===== src/Adapters.antt =====
-- What the provider adapters under src/memory_rag/adapters share: the errors of the OpenAI SDK, their
-- classification and their `Retry-After` (adapters/resilience.py), a call under the bounded retries,
-- and the tool call that a completion carries. The SDK, `float` of a text and `json.loads` are
-- parameters.
pub mod Routing
pub mod Rewriting
pub mod Outward
pub mod Knowledge
pub mod Completing
pub mod Mock
pub mod MockRouting
pub mod Usable
pub mod Bounded
pub mod Handled
pub mod MockRoundTrip
use diary_memory_service.Base.{
  ℕ, Bool, true, false, Option, none, some, List, [], ◌∷◌, if◌then◌else◌,
}
use diary_memory_service.Base.Text.{Text, codes}
use diary_memory_service.Exec.{
  Result, ok, raised, Exception, provider_error, assertion_error, index_error,
}
use diary_memory_service.Answers.{Json, object, field_of}
use diary_memory_service.Resilience.{
  OutcomeClass, retryable_failure, non_retryable_failure, Seconds, RetryPolicy, Attempt, Ended,
  value, reraised, no_attempt, run_with_retries,
}
use diary_memory_service.RoutedChat.Providers.{Call, returned, output_error, unavailable, failed}

-- What a call of the SDK raises: the builtin TimeoutError, the classes of the SDK that the code
-- names, its other errors by their class, and anything else. A rate limit has the headers of its
-- response, where it has one.
pub data SdkError : Type 0 where
  timeout_error api_timeout_error api_connection_error internal_server_error : SdkError
  rate_limit_error : Option (Text → Option Text) → SdkError
  other_openai_error : Text → SdkError
  foreign_error : Exception → SdkError

unfoldable pub classify_openai_error : SdkError → OutcomeClass
classify_openai_error timeout_error = retryable_failure
classify_openai_error api_timeout_error = retryable_failure
classify_openai_error api_connection_error = retryable_failure
classify_openai_error internal_server_error = retryable_failure
classify_openai_error (rate_limit_error headers) = retryable_failure
classify_openai_error (other_openai_error name) = non_retryable_failure
classify_openai_error (foreign_error e) = non_retryable_failure

-- `except (openai.OpenAIError, TimeoutError)`
abbrev pub is_translated : SdkError → Bool
is_translated (foreign_error e) = false
is_translated _ = true

abbrev pub exception_of : SdkError → Exception
exception_of timeout_error = provider_error (codes "TimeoutError")
exception_of api_timeout_error = provider_error (codes "APITimeoutError")
exception_of api_connection_error = provider_error (codes "APIConnectionError")
exception_of internal_server_error = provider_error (codes "InternalServerError")
exception_of (rate_limit_error headers) = provider_error (codes "RateLimitError")
exception_of (other_openai_error name) = provider_error name
exception_of (foreign_error e) = e

-- `float(text)`, where `none` is a ValueError; `value / 1000.0`; and `value >= 0`.
pub record FloatText (F : Type 0) : Type 0 where
  pub float_of : Text → Option F
  pub thousandth : F → F
  pub is_non_negative : F → Bool

module _ {F : Type 0} (x : FloatText F) where
  abbrev pub non_negative : Option F → Option F
  non_negative none = none
  non_negative (some v) = if x.is_non_negative v then some v else none

  abbrev milliseconds : Option F → Option F
  milliseconds none = none
  milliseconds (some v) = some (x.thousandth v)

  abbrev delay_in : Option Text → Option Text → Option F
  delay_in (some raw_ms) raw_seconds = non_negative (milliseconds (x.float_of raw_ms))
  delay_in none (some raw_seconds) = non_negative (x.float_of raw_seconds)
  delay_in none none = none

  unfoldable pub extract_retry_after_seconds : SdkError → Option F
  extract_retry_after_seconds (rate_limit_error (some headers)) =
      delay_in (headers (codes "retry-after-ms")) (headers (codes "retry-after"))
  extract_retry_after_seconds _ = none

-- A client of the SDK, with what one call of it meets: the answers to the attempts, the draws of the
-- jitter, and the measured time.
pub record Sdk (Q R : Type 0) : Type 1 where
  pub seconds : Seconds
  pub floats : FloatText seconds.F
  pub policy : RetryPolicy seconds
  pub draw : ℕ → seconds.F
  pub create : Q → ℕ → Attempt R SdkError
  pub latency_ms : ℕ

-- `run_with_retries(_call, ...)`
abbrev pub sdk_call : {Q R : Type 0} → Sdk Q R → Q → Ended R SdkError
sdk_call sdk request =
    (run_with_retries sdk.seconds sdk.policy classify_openai_error
      (some (extract_retry_after_seconds sdk.floats)) sdk.draw (sdk.create request)).ended

-- The call of an adapter whose errors are translated.
abbrev pub answered_by : {R A : Type 0} → Ended R SdkError → (R → Call A) → Call A
answered_by (value r) k = k r
answered_by (reraised e) k = if is_translated e then unavailable else failed (exception_of e)
answered_by no_attempt k = failed assertion_error

abbrev pub call_then : {A B : Type 0} → Call A → (A → Call B) → Call B
call_then (returned a) k = k a
call_then (output_error raw) k = output_error raw
call_then unavailable k = unavailable
call_then (failed e) k = failed e

-- The request of a tool call. What is the same in all of them is left out: the types `function`,
-- `object` and `string`, `tool_choice` with the tool's name, and the temperature 0.
pub record Property : Type 0 where
  pub name : Text
  pub description : Option Text
  pub enumeration : List Text

pub record ToolRequest : Type 0 where
  pub model : Text
  pub system_text : Text
  pub user_text : Text
  pub tool_name : Text
  pub tool_description : Text
  pub properties : List Property
  pub required : List Text

-- A tool call; one of another kind has no function payload.
pub data ToolCall : Type 0 where
  function : Option Text → ToolCall
  custom : ToolCall

pub record Message : Type 0 where
  pub content : Option Text
  pub tool_calls : List ToolCall

pub record Completion : Type 0 where
  pub choices : List Message
  pub usage : Option (ℕ × ℕ)

-- `text or ""`
abbrev pub or_empty : Option Text → Text
or_empty none = []
or_empty (some t) = t

abbrev pub first_tool : Option Text → List ToolCall → Call Text
first_tool content [] = output_error (or_empty content)
first_tool content (custom ∷ ts) = output_error (or_empty content)
first_tool content (function arguments ∷ ts) = returned (or_empty arguments)

-- The arguments of the first tool call.
unfoldable pub tool_arguments : List Message → Call Text
tool_arguments [] = failed index_error
tool_arguments (m ∷ ms) = first_tool m.content m.tool_calls

-- `json.loads(arguments)`, of which the `except` names JSONDecodeError alone.
abbrev pub loaded : Text → Result (Option Json) → Call Json
loaded raw (ok none) = output_error raw
loaded raw (ok (some j)) = returned j
loaded raw (raised e) = failed e

-- `payload.get(key)` on a dict, None on anything else.
abbrev pub get_of : Text → Json → Option Json
get_of key (object fs) = field_of key fs
get_of key _ = none
