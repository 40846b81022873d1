-- ===== src/Boot.antt =====
-- The settings, the factories of the providers and the gates that the service passes before it starts:
-- src/memory_rag/config.py, adapters/answers/factory.py, adapters/embeddings/factory.py,
-- adapters/chat_routing/factory.py, adapters/knowledge/factory.py and app.py. The SDKs and the probe
-- of Postgres are parameters.
pub mod Gates
pub mod Sound
use diary_memory_service.Base.{
  ℕ, Bool, true, false, not, ◌&&◌, ◌||◌, Option, none, some, List, [], nat_beq, ◌==◌, text_eq,
  if◌then◌else◌,
}
use diary_memory_service.Base.Text.{Text, codes, is_empty}
use diary_memory_service.Exec.{
  Exception, Result, ok, raised, provider_error, value_error, class_name,
}
use diary_memory_service.Models.{Date, Float, notes_lookup}
use diary_memory_service.Answers.{JsonLoads, Json}
use diary_memory_service.Resilience.{Seconds, RetryPolicy}
use diary_memory_service.DomainService.{EmbeddingClient}
use diary_memory_service.QueryService.{ChatClient}
use diary_memory_service.RoutedChat.Providers.{
  ChatRouteClassifier, QueryRewriter, OutwardQueryRewriter, KnowledgeSource,
}
use diary_memory_service.Adapters.{Sdk, ToolRequest, Completion}
use diary_memory_service.Adapters.Routing.{open_ai_route_classifier}
use diary_memory_service.Adapters.Rewriting.{open_ai_query_rewriter}
use diary_memory_service.Adapters.Outward.{open_ai_outward_rewriter}
use diary_memory_service.Adapters.Knowledge.{HttpClient, tavily_knowledge_source}
use diary_memory_service.Adapters.Completing.{
  ChatRequest, EmbeddingRequest, open_ai_chat_client, open_ai_embedding_client,
}
use diary_memory_service.Adapters.Mock.{mock_chat_client}
use diary_memory_service.Adapters.MockRouting.{
  Seeded, mock_embedding_client, mock_route_classifier, mock_query_rewriter, mock_outward_rewriter,
  mock_knowledge_source,
}

pub data StorageBackend : Type 0 where
  memory sqlite postgres : StorageBackend

pub data ProviderBackend : Type 0 where
  mock openai : ProviderBackend

pub data KnowledgeBackend : Type 0 where
  mock_knowledge tavily : KnowledgeBackend

module _ (t : Seconds) where
  -- The settings that the gates and the factories read.
  pub record Settings : Type 0 where
    pub app_env : Text
    pub openai_api_key : Text
    pub storage_backend : StorageBackend
    pub embedding_backend : ProviderBackend
    pub embedding_model : Text
    pub embedding_dimension : ℕ
    pub chat_backend : ProviderBackend
    pub chat_model : Text
    pub classifier_backend : ProviderBackend
    pub classifier_model : Text
    pub knowledge_backend : KnowledgeBackend
    pub tavily_api_key : Text
    pub knowledge_max_results : ℕ
    pub provider_timeout_seconds : t.F
    pub provider_max_attempts : ℕ
    pub provider_backoff_base_seconds : t.F
    pub provider_backoff_cap_seconds : t.F

-- What lies outside the program: the SDKs under a policy, `json.loads`, `date.fromisoformat`, the
-- lower case, the generator of the mock, and `SELECT 1 FROM pg_extension`, where `raised` is a
-- psycopg error and `ok none` no row.
pub record Outside : Type 1 where
  pub seconds : Seconds
  pub tools : RetryPolicy seconds → Sdk ToolRequest Completion
  pub chats : RetryPolicy seconds → Sdk ChatRequest Completion
  pub embeddings : RetryPolicy seconds → Sdk EmbeddingRequest (List (List Float))
  pub http : RetryPolicy seconds → HttpClient
  pub loads : JsonLoads
  pub fromisoformat : Text → Option Date
  pub lower : Text → Text
  pub seeded : Seeded
  pub vector_extension : Result (Option ℕ)

module _ (o : Outside) (s : Settings o.seconds) where
  unfoldable pub retry_policy : RetryPolicy o.seconds
  retry_policy = record {
    timeout_seconds = s.provider_timeout_seconds;
    max_attempts = s.provider_max_attempts;
    backoff_base_seconds = s.provider_backoff_base_seconds;
    backoff_cap_seconds = s.provider_backoff_cap_seconds;
  }

  abbrev embedding_client_of : ProviderBackend → Result EmbeddingClient
  embedding_client_of openai =
      open_ai_embedding_client (o.embeddings retry_policy) s.openai_api_key s.embedding_model
        s.embedding_dimension
  embedding_client_of mock = mock_embedding_client o.seeded s.embedding_dimension

  unfoldable pub build_embedding_client : Result EmbeddingClient
  build_embedding_client = embedding_client_of s.embedding_backend

  abbrev chat_client_of : ProviderBackend → Result ChatClient
  chat_client_of openai = open_ai_chat_client (o.chats retry_policy) s.openai_api_key s.chat_model
  chat_client_of mock = ok (mock_chat_client (codes "mock"))

  unfoldable pub build_chat_client : Result ChatClient
  build_chat_client = chat_client_of s.chat_backend

  abbrev classifier_of : ProviderBackend → Result ChatRouteClassifier
  classifier_of openai =
      open_ai_route_classifier (o.tools retry_policy) o.loads s.openai_api_key s.classifier_model
  classifier_of mock = ok (mock_route_classifier o.lower (codes "mock") notes_lookup)

  unfoldable pub build_route_classifier : Result ChatRouteClassifier
  build_route_classifier = classifier_of s.classifier_backend

  abbrev rewriter_of : ProviderBackend → Result QueryRewriter
  rewriter_of openai =
      open_ai_query_rewriter (o.tools retry_policy) o.loads o.fromisoformat s.openai_api_key
        s.classifier_model
  rewriter_of mock = ok (mock_query_rewriter (codes "mock") none none)

  unfoldable pub build_query_rewriter : Result QueryRewriter
  build_query_rewriter = rewriter_of s.classifier_backend

  abbrev outward_of : ProviderBackend → Result OutwardQueryRewriter
  outward_of openai =
      open_ai_outward_rewriter (o.tools retry_policy) o.loads s.openai_api_key s.classifier_model
  outward_of mock = ok (mock_outward_rewriter (codes "mock") none)

  unfoldable pub build_outward_rewriter : Result OutwardQueryRewriter
  build_outward_rewriter = outward_of s.classifier_backend

  abbrev source_of : KnowledgeBackend → Result KnowledgeSource
  source_of tavily =
      tavily_knowledge_source (o.http retry_policy) o.loads s.tavily_api_key s.knowledge_max_results
  source_of mock_knowledge = ok (mock_knowledge_source (codes "mock") [])

  unfoldable pub build_knowledge_source : Result KnowledgeSource
  build_knowledge_source = source_of s.knowledge_backend
