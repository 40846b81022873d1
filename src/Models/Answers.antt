-- ===== src/Models/Answers.antt =====
-- core/domain/models.py: the query side, from queries and retrieval hits to answers and traces.
use diary_memory_service.Base.{ℕ, Option, List}
use diary_memory_service.Base.Text.{Text}
use diary_memory_service.Models.Routing.{DateTime}
use diary_memory_service.Models.Notes.{Float, Date, FallbackMode, EventChunk}

pub record Evidence : Type 0 where
  pub chunk_id : Text
  pub note_date : Date
  pub chunk_text : Text

pub record AnswerContext : Type 0 where
  pub query_id : Text
  pub query_text : Text
  pub ordered_chunks : List EventChunk
  pub model_name : Text
  pub created_at : DateTime

pub record AnswerResult : Type 0 where
  pub fallback : FallbackMode
  pub query_text : Text
  pub evidence : List Evidence
  pub context : Option AnswerContext
  pub answer_text : Option Text
  pub cited_chunk_ids : List Text
  pub model_text : Option Text
  pub knowledge_text : Option Text
  pub knowledge_refs : List Text

pub data RetrievalLeg : Type 0 where
  dense sparse merged : RetrievalLeg

pub record Query : Type 0 where
  pub query_id : Text
  pub community_id : Text
  pub query_text : Text
  pub model_name : Text
  pub fallback : FallbackMode
  pub created_at : DateTime
  pub subject_scope : Option Text

pub record AnswerTrace : Type 0 where
  pub answer_trace_id : Text
  pub query_id : Text
  pub prompt_version : Text
  pub context_chunk_ids : List Text
  pub answer_text : Text
  pub fallback_mode : FallbackMode
  pub model_name : Text
  pub token_counts : List (Text × ℕ)
  pub latency_ms : ℕ
  pub created_at : DateTime

pub record RetrievalHit : Type 0 where
  pub retrieval_hit_id : Text
  pub query_id : Text
  pub chunk_id : Text
  pub leg : RetrievalLeg
  pub rank : ℕ
  pub score : Float
  pub model_name : Text
  pub created_at : DateTime
