-- ===== src/Adapters/Completing.antt =====
-- The OpenAI chat client and embedding client: adapters/answers/openai_client.py and
-- adapters/embeddings/openai_client.py.
use diary_memory_service.Base.{
  ℕ, Bool, true, ◌&&◌, not, Option, none, some, List, [], ◌∷◌, length, nat_beq, if◌then◌else◌,
}
use diary_memory_service.Base.Text.{Text, codes, is_empty}
use diary_memory_service.Exec.{
  Result, ok, raised, value_error, runtime_error, index_error, assertion_error,
  chat_provider_unavailable,
}
use diary_memory_service.Models.{Float}
use diary_memory_service.Answers.{AnswerPrompt}
use diary_memory_service.Resilience.{Ended, value, reraised, no_attempt}
use diary_memory_service.DomainService.{EmbeddingClient}
use diary_memory_service.QueryService.{ChatResponse, ChatClient}
use diary_memory_service.Adapters.{
  SdkError, is_translated, exception_of, Sdk, sdk_call, Message, Completion, or_empty,
}

-- The request of a chat completion; `response_format` and the temperature 0 are left out.
pub record ChatRequest : Type 0 where
  pub model : Text
  pub system_text : Text
  pub user_text : Text

abbrev usage_counts : Option (ℕ × ℕ) → List (Text × ℕ)
usage_counts none = []
usage_counts (some (prompt, completion)) =
    (codes "prompt", prompt) ∷ (codes "completion", completion) ∷ []

unfoldable pub completed_by : Text → ℕ → Option (ℕ × ℕ) → List Message → Result ChatResponse
completed_by model_name latency_ms usage [] = raised index_error
completed_by model_name latency_ms usage (m ∷ ms) = ok (record {
  raw_text = or_empty m.content;
  model_name = model_name;
  token_counts = usage_counts usage;
  latency_ms = latency_ms;
})

abbrev completed : Text → ℕ → Ended Completion SdkError → Result ChatResponse
completed model_name latency_ms (value r) = completed_by model_name latency_ms r.usage r.choices
completed model_name latency_ms (reraised e) =
    raised (if is_translated e then chat_provider_unavailable else exception_of e)
completed model_name latency_ms no_attempt = raised assertion_error

unfoldable pub open_ai_complete :
    Sdk ChatRequest Completion → Text → AnswerPrompt → Result ChatResponse
open_ai_complete sdk model_name prompt = completed model_name sdk.latency_ms (
    sdk_call sdk (record {
      model = model_name;
      system_text = prompt.system_text;
      user_text = prompt.user_text;
    }))

-- `OpenAIChatClient(api_key, model_name=...)`
unfoldable pub open_ai_chat_client : Sdk ChatRequest Completion → Text → Text → Result ChatClient
open_ai_chat_client sdk api_key model_name =
    if is_empty api_key
    then raised value_error
    else if is_empty model_name
    then raised value_error
    else ok (record { model_name = model_name; complete = open_ai_complete sdk model_name })

pub record EmbeddingRequest : Type 0 where
  pub model : Text
  pub input : List Text
  pub dimensions : ℕ

-- No vector of another dimension.
unfoldable pub all_of_dimension : ℕ → List (List Float) → Bool
all_of_dimension dimension [] = true
all_of_dimension dimension (v ∷ vs) = nat_beq (length v) dimension && all_of_dimension dimension vs

-- The shape of the vectors is checked; an error of the SDK is raised again as it is.
unfoldable pub checked_vectors :
    ℕ → ℕ → Ended (List (List Float)) SdkError → Result (List (List Float))
checked_vectors count dimension (value vectors) =
    if not (nat_beq (length vectors) count)
    then raised runtime_error
    else if not (all_of_dimension dimension vectors)
    then raised runtime_error
    else ok vectors
checked_vectors count dimension (reraised e) = raised (exception_of e)
checked_vectors count dimension no_attempt = raised assertion_error

unfoldable pub open_ai_embed :
    Sdk EmbeddingRequest (List (List Float)) → Text → ℕ → List Text → Result (List (List Float))
open_ai_embed sdk model_name dimension [] = ok []
open_ai_embed sdk model_name dimension (t ∷ ts) =
    checked_vectors (length (t ∷ ts)) dimension
      (sdk_call sdk (record { model = model_name; input = t ∷ ts; dimensions = dimension }))

-- `OpenAIEmbeddingClient(api_key, model_name=..., dimension=...)`
unfoldable pub open_ai_embedding_client :
    Sdk EmbeddingRequest (List (List Float)) → Text → Text → ℕ → Result EmbeddingClient
open_ai_embedding_client sdk api_key model_name dimension =
    if is_empty api_key
    then raised value_error
    else if nat_beq dimension 0
    then raised value_error
    else ok (record {
      embed = open_ai_embed sdk model_name dimension;
      model_name = model_name;
      dimension = dimension;
    })
