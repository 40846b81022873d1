-- ===== src/RoutedChat/Providers.antt =====
-- The routed chat's providers: core/chat/classifier.py, core/chat/rewrite.py, core/chat/outward.py and
-- core/chat/knowledge.py.
use diary_memory_service.Base.{ℕ, Option, List}
use diary_memory_service.Base.Text.{Text}
use diary_memory_service.Exec.{Exception}
use diary_memory_service.Models.{Date, DateRange, RouteClassification}

-- How a call of a provider ends: a value, the output error with its `raw_output`, the unavailable
-- error, or any other exception.
pub data Call {ℓ} (A : Type ℓ) : Type ℓ where
  returned : A → Call A
  output_error : Text → Call A
  unavailable : Call A
  failed : Exception → Call A

pub record ChatRouteClassifier : Type 0 where
  pub model_name : Text
  pub classify : Text → Call RouteClassification

pub record QueryRewrite : Type 0 where
  pub retrieval_query : Text
  pub date_range : Option DateRange
  pub subject_scope : Option Text
  pub raw_output : Text
  pub model_name : Text
  pub latency_ms : ℕ

pub record QueryRewriter : Type 0 where
  pub model_name : Text
  pub rewrite : Text → Date → Call QueryRewrite

pub record OutwardRewrite : Type 0 where
  pub search_query : Text
  pub raw_output : Text
  pub model_name : Text
  pub latency_ms : ℕ

pub record OutwardQueryRewriter : Type 0 where
  pub model_name : Text
  pub rewrite_outward : Text → List Text → Call OutwardRewrite

pub record KnowledgeExcerpt : Type 0 where
  pub ref : Text
  pub title : Text
  pub excerpt_text : Text

pub record KnowledgeResult : Type 0 where
  pub excerpts : List KnowledgeExcerpt
  pub raw_output : Text
  pub latency_ms : ℕ

pub record KnowledgeSource : Type 0 where
  pub provider_name : Text
  pub search : Text → Call KnowledgeResult
