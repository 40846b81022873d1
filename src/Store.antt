-- ===== src/Store.antt =====
-- The in-memory store, src/memory_rag/storage/mock/store.py: the state of `MockDomainStore` and the
-- tests that its methods share. The methods stand in the modules below, by the data they are about.
pub mod Sources
pub mod Notes
pub mod Chunks
pub mod Search
pub mod Traces
pub mod Active
pub mod Frame
pub mod Heads
pub mod ChatTraces
pub mod Removal
use diary_memory_service.Base.{ℕ, Bool, Option, [], ltb, nat_beq, text_ltb, if◌then◌else◌}
use diary_memory_service.Base.Text.{Text, is_empty}
use diary_memory_service.Base.Dict.{Dict}
use diary_memory_service.Exec.{Exec, value_error, raise_if}
use diary_memory_service.Models.{
  DateTime, SourceMessage, Note, EventChunk, EmbeddingRecord, Query, RetrievalHit, AnswerTrace,
  IndexingDeadLetter, ChatRouteDecision, ChatQueryRewrite, ChatKnowledgeSearch,
}

-- (external_chat_id, external_message_id, edit_seq)
abbrev pub MessageKey : Type 0
MessageKey = Text × Text × ℕ

pub record MockDomainStore : Type 0 where
  pub sources : Dict Text SourceMessage
  pub idempotency : Dict MessageKey Text
  pub notes : Dict Text Note
  pub chunks : Dict Text EventChunk
  pub embeddings : Dict (Text × Text) EmbeddingRecord
  pub queries : Dict Text Query
  pub retrieval_hits : Dict Text RetrievalHit
  pub answer_traces : Dict Text AnswerTrace
  pub chat_route_decisions : Dict Text ChatRouteDecision
  pub chat_query_rewrites : Dict Text ChatQueryRewrite
  pub chat_knowledge_searches : Dict Text ChatKnowledgeSearch
  pub dead_letters : Dict Text IndexingDeadLetter
  pub author_display_inputs : Dict MessageKey (Option Text × Option Text)

abbrev pub empty_store : MockDomainStore
empty_store = record {
  sources = [];
  idempotency = [];
  notes = [];
  chunks = [];
  embeddings = [];
  queries = [];
  retrieval_hits = [];
  answer_traces = [];
  chat_route_decisions = [];
  chat_query_rewrites = [];
  chat_knowledge_searches = [];
  dead_letters = [];
  author_display_inputs = [];
}

-- `if not community_id: raise ValueError(...)`
abbrev pub require_community : Text → Exec MockDomainStore (Unit {0})
require_community community_id = raise_if (is_empty community_id) value_error

-- The order of the pairs (created_at, id).
unfoldable pub stamp_ltb : DateTime → Text → DateTime → Text → Bool
stamp_ltb t i u j = if nat_beq t u then text_ltb i j else ltb t u
