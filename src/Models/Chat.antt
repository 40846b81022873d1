-- ===== src/Models/Chat.antt =====
-- core/chat/models.py: the routed chat's routes, and its traces.
use diary_memory_service.Base.{ℕ, Option}
use diary_memory_service.Base.Text.{Text, codes}
use diary_memory_service.Models.Routing.{DateTime}
use diary_memory_service.Models.Notes.{Date}
use diary_memory_service.Models.Answers.{AnswerResult}

pub data ChatRoute : Type 0 where
  notes_lookup notes_plus_model notes_plus_knowledge model_only : ChatRoute

pub record RouteClassification : Type 0 where
  pub route : ChatRoute
  pub raw_output : Text
  pub model_name : Text
  pub latency_ms : ℕ

pub record ChatRouteDecision : Type 0 where
  pub decision_id : Text
  pub community_id : Text
  pub question_text : Text
  pub requested_route : Option ChatRoute
  pub effective_route : ChatRoute
  pub classifier_model_name : Text
  pub classifier_raw_output : Text
  pub classifier_latency_ms : ℕ
  pub query_id : Option Text
  pub created_at : DateTime

pub record ChatQueryRewrite : Type 0 where
  pub rewrite_id : Text
  pub decision_id : Text
  pub community_id : Text
  pub rewritten_query : Option Text
  pub date_start : Option Date
  pub date_end : Option Date
  pub subject_scope : Option Text
  pub rewriter_model_name : Text
  pub rewriter_raw_output : Text
  pub rewriter_latency_ms : ℕ
  pub created_at : DateTime

pub record ChatKnowledgeSearch : Type 0 where
  pub search_id : Text
  pub decision_id : Text
  pub community_id : Text
  pub outward_query : Text
  pub outward_rewriter_model_name : Text
  pub outward_rewriter_raw_output : Text
  pub outward_rewriter_latency_ms : ℕ
  pub provider_name : Text
  pub result_count : ℕ
  pub raw_output : Text
  pub latency_ms : ℕ
  pub created_at : DateTime

pub record RoutedChatResult : Type 0 where
  pub requested_route : Option ChatRoute
  pub effective_route : ChatRoute
  pub answer : AnswerResult
  pub decision_id : Text

-- `route.value`
unfoldable pub chat_route_value : ChatRoute → Text
chat_route_value notes_lookup = codes "notes_lookup"
chat_route_value notes_plus_model = codes "notes_plus_model"
chat_route_value notes_plus_knowledge = codes "notes_plus_knowledge"
chat_route_value model_only = codes "model_only"
