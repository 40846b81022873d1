-- ===== src/Adapters/Knowledge.antt =====
-- The Tavily search: adapters/knowledge/tavily.py. The HTTP client is a parameter.
use diary_memory_service.Base.{
  ℕ, ◌||◌, Option, none, some, List, [], ◌∷◌, take, ltb, leb, nat_beq, if◌then◌else◌,
}
use diary_memory_service.Base.Text.{Text, codes, is_empty}
use diary_memory_service.Exec.{Exception, Result, ok, raised, value_error, assertion_error}
use diary_memory_service.Answers.{JsonLoads, Json, string, array, object, Items, no_items, item}
use diary_memory_service.Resilience.{
  OutcomeClass, retryable_failure, non_retryable_failure, Seconds, RetryPolicy, Attempt, Ended,
  value, reraised, no_attempt, run_with_retries,
}
use diary_memory_service.RoutedChat.Providers.{
  Call, returned, output_error, unavailable, failed, KnowledgeExcerpt, KnowledgeResult,
  KnowledgeSource,
}
use diary_memory_service.Adapters.{FloatText, non_negative, call_then, loaded, get_of}

-- What a call of the HTTP client raises: the builtin TimeoutError, the classes of httpx that the code
-- names, its other errors, and anything else.
pub data HttpError : Type 0 where
  timeout_error timeout_exception transport_error : HttpError
  http_status_error : ℕ → (Text → Option Text) → HttpError
  other_http_error : HttpError
  foreign_error : Exception → HttpError

unfoldable pub classify_httpx_error : HttpError → OutcomeClass
classify_httpx_error timeout_error = retryable_failure
classify_httpx_error timeout_exception = retryable_failure
classify_httpx_error transport_error = retryable_failure
classify_httpx_error (http_status_error status headers) =
    if leb 500 status || nat_beq status 429 then retryable_failure else non_retryable_failure
classify_httpx_error other_http_error = non_retryable_failure
classify_httpx_error (foreign_error e) = non_retryable_failure

abbrev parsed_header : {F : Type 0} → FloatText F → Option Text → Option F
parsed_header x none = none
parsed_header x (some raw) = non_negative x (x.float_of raw)

unfoldable pub http_retry_after : {F : Type 0} → FloatText F → HttpError → Option F
http_retry_after x (http_status_error status headers) =
    if nat_beq status 429 then parsed_header x (headers (codes "retry-after")) else none
http_retry_after x _ = none

pub record SearchRequest : Type 0 where
  pub query : Text
  pub max_results : ℕ

-- The HTTP client, with what one call of it meets: the body of a 2xx response, or an error.
pub record HttpClient : Type 1 where
  pub seconds : Seconds
  pub floats : FloatText seconds.F
  pub policy : RetryPolicy seconds
  pub draw : ℕ → seconds.F
  pub post : SearchRequest → ℕ → Attempt Text HttpError
  pub latency_ms : ℕ

abbrev pub post_call : HttpClient → SearchRequest → Ended Text HttpError
post_call client request =
    (run_with_retries client.seconds client.policy classify_httpx_error
      (some (http_retry_after client.floats)) client.draw (client.post request)).ended

-- `except (httpx.HTTPError, TimeoutError)`
abbrev pub answered_over : {A : Type 0} → Ended Text HttpError → (Text → Call A) → Call A
answered_over (value body) k = k body
answered_over (reraised (foreign_error e)) k = failed e
answered_over (reraised timeout_error) k = unavailable
answered_over (reraised timeout_exception) k = unavailable
answered_over (reraised transport_error) k = unavailable
answered_over (reraised (http_status_error status headers)) k = unavailable
answered_over (reraised other_http_error) k = unavailable
answered_over no_attempt k = failed assertion_error

abbrev json_items : Items → List Json
json_items no_items = []
json_items (item j js) = j ∷ json_items js

abbrev pub results_of : Text → Option Json → Call (List Json)
results_of body (some (array items)) = returned (json_items items)
results_of body _ = output_error body

-- `isinstance(value, str)`
abbrev pub string_in : Option Json → Option Text
string_in (some (string t)) = some t
string_in _ = none

abbrev pub typed_excerpt : Text → Option Text → Option Text → Option Text → Call KnowledgeExcerpt
typed_excerpt body (some url) (some title) (some content) =
    if is_empty url
    then output_error body
    else returned (record { ref = url; title = title; excerpt_text = content })
typed_excerpt body _ _ _ = output_error body

-- One entry of the results.
abbrev pub excerpt_of : Text → Json → Call KnowledgeExcerpt
excerpt_of body (object fs) =
    typed_excerpt body (string_in (get_of (codes "url") (object fs)))
      (string_in (get_of (codes "title") (object fs)))
      (string_in (get_of (codes "content") (object fs)))
excerpt_of body _ = output_error body

-- `for entry in ...: ... excerpts.append(...)`
unfoldable pub excerpts_of : Text → List Json → Call (List KnowledgeExcerpt)
excerpts_of body [] = returned []
excerpts_of body (entry ∷ entries) =
    let rest = excerpts_of body entries in
    call_then (excerpt_of body entry) λ e. call_then rest λ es. returned (e ∷ es)

abbrev knowledge_of : ℕ → Text → List KnowledgeExcerpt → KnowledgeResult
knowledge_of latency_ms body excerpts = record {
  excerpts = excerpts;
  raw_output = body;
  latency_ms = latency_ms;
}

abbrev pub dict_results : Text → Json → Call (List Json)
dict_results body (object fs) = results_of body (get_of (codes "results") (object fs))
dict_results body _ = output_error body

-- The body of the response.
unfoldable pub found_in : JsonLoads → ℕ → ℕ → Text → Call KnowledgeResult
found_in loads max_results latency_ms body = call_then (loaded body (loads body)) λ payload.
    call_then (dict_results body payload) λ raw_results.
      call_then (excerpts_of body (take max_results raw_results))
        λ excerpts. returned (knowledge_of latency_ms body excerpts)

unfoldable pub tavily_search : HttpClient → JsonLoads → ℕ → Text → Call KnowledgeResult
tavily_search client loads max_results query =
    answered_over (post_call client (record { query = query; max_results = max_results }))
      (found_in loads max_results client.latency_ms)

-- `TavilyKnowledgeSource(api_key, max_results=...)`
unfoldable pub tavily_knowledge_source : HttpClient → JsonLoads → Text → ℕ → Result KnowledgeSource
tavily_knowledge_source client loads api_key max_results =
    if is_empty api_key
    then raised value_error
    else if ltb max_results 1
    then raised value_error
    else ok
        (record { provider_name = codes "tavily"; search = tavily_search client loads max_results })
