-- ===== src/Samples/Providers.antt =====
-- Test data: providers behind the adapters, with whole seconds for floats.
use diary_memory_service.Base.{
  ℕ, zero, suc, ◌*◌, ◌/◌, ◌^◌, true, Option, none, some, List, [], ◌∷◌, ltb,
}
use diary_memory_service.Base.Text.{Text, codes}
use diary_memory_service.Exec.{ok}
use diary_memory_service.Models.{Date, Float}
use diary_memory_service.Answers.{
  JsonLoads, string, array, object, no_items, item, no_fields, field,
}
use diary_memory_service.Resilience.{Seconds, RetryPolicy, Attempt}
use diary_memory_service.Adapters.{
  SdkError, rate_limit_error, FloatText, Sdk, ToolRequest, function, Completion,
}
use diary_memory_service.Adapters.Knowledge.{HttpError, transport_error, HttpClient}
use diary_memory_service.Adapters.Completing.{ChatRequest, EmbeddingRequest}
use diary_memory_service.Boot.{Outside, Settings, memory, mock, openai, tavily}
use diary_memory_service.Samples.{number_of}

abbrev pub whole_seconds : Seconds
whole_seconds = record { F = ℕ; less = ltb; times = λ a b. a * b; two_to_the = λ n. 2 ^ n }

abbrev pub three_attempts : RetryPolicy whole_seconds
three_attempts = record {
  timeout_seconds = 9;
  max_attempts = 3;
  backoff_base_seconds = 2;
  backoff_cap_seconds = 3;
}

abbrev pub whole_text : FloatText ℕ
whole_text = record {
  float_of = number_of 0;
  thousandth = λ n. n / 1000;
  is_non_negative = λ n. true;
}

-- A rate limit at the first attempt, and then a tool call.
abbrev tool_answer : ToolRequest → ℕ → Attempt Completion SdkError
tool_answer request zero = Attempt.raised (rate_limit_error none)
tool_answer request (suc zero) = Attempt.raised (rate_limit_error none)
tool_answer request (suc (suc n)) = Attempt.returned (record {
  choices = record { content = none; tool_calls = function (some (codes "{}")) ∷ [] } ∷ [];
  usage = none;
})

abbrev pub tools_under : RetryPolicy whole_seconds → Sdk ToolRequest Completion
tools_under policy = record {
  seconds = whole_seconds;
  floats = whole_text;
  policy = policy;
  draw = λ n. 1;
  create = tool_answer;
  latency_ms = 7;
}

abbrev pub chats_under : RetryPolicy whole_seconds → Sdk ChatRequest Completion
chats_under policy = record {
  seconds = whole_seconds;
  floats = whole_text;
  policy = policy;
  draw = λ n. 1;
  create = λ request n. Attempt.returned (record { choices = []; usage = none });
  latency_ms = 7;
}

abbrev pub embeddings_under : RetryPolicy whole_seconds → Sdk EmbeddingRequest (List (List Float))
embeddings_under policy = record {
  seconds = whole_seconds;
  floats = whole_text;
  policy = policy;
  draw = λ n. 1;
  create = λ request n. Attempt.returned [];
  latency_ms = 7;
}

abbrev post_answer : ℕ → Attempt Text HttpError
post_answer zero = Attempt.raised transport_error
post_answer (suc zero) = Attempt.raised transport_error
post_answer (suc (suc n)) = Attempt.returned (codes "{}")

abbrev pub http_under : RetryPolicy whole_seconds → HttpClient
http_under policy = record {
  seconds = whole_seconds;
  floats = whole_text;
  policy = policy;
  draw = λ n. 1;
  post = λ request. post_answer;
  latency_ms = 7;
}

-- A payload with all the fields that the tools and the search read.
abbrev pub loads_tool : JsonLoads
loads_tool raw = ok (
    some (
      object (
        field (codes "retrieval_query") (string (codes " walk ")) (
          field (codes "date_from") (string (codes "2024-01-02")) (
            field (codes "route") (string (codes "model_only")) (
              field (codes "results")
                (array (
                  item
                    (object (
                      field (codes "url") (string (codes "u1")) (
                        field (codes "title") (string [])
                          (field (codes "content") (string (codes "Walking helps.")) no_fields))))
                    no_items))
                no_fields))))))

abbrev pub sample_day : Text → Option Date
sample_day t = some (record { year = 2024; month = 1; day = 2 })

abbrev pub outside : Outside
outside = record {
  seconds = whole_seconds;
  tools = tools_under;
  chats = chats_under;
  embeddings = embeddings_under;
  http = http_under;
  loads = loads_tool;
  fromisoformat = sample_day;
  lower = λ t. t;
  seeded = record { sha256 = λ bytes. bytes; uniform = λ seed n. 0 };
  vector_extension = ok none;
}

abbrev pub sample_settings : Settings whole_seconds
sample_settings = record {
  app_env = codes "local";
  openai_api_key = codes "key";
  storage_backend = memory;
  embedding_backend = mock;
  embedding_model = codes "text-embedding-3-large";
  embedding_dimension = 3072;
  chat_backend = openai;
  chat_model = codes "gpt-4.1";
  classifier_backend = openai;
  classifier_model = codes "gpt-4.1-mini";
  knowledge_backend = tavily;
  tavily_api_key = codes "key";
  knowledge_max_results = 5;
  provider_timeout_seconds = 30;
  provider_max_attempts = 3;
  provider_backoff_base_seconds = 1;
  provider_backoff_cap_seconds = 8;
}
