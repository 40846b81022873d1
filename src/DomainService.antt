-- ===== src/DomainService.antt =====
-- The ingestion service, src/memory_rag/services/domain_service.py. Its methods stand in the modules
-- below; here is what they draw from outside: the embedding provider, the clock and `uuid4`.
pub mod Embedding
pub mod Deletion
pub mod Ingest
pub mod Rows
pub mod Writes
pub mod Keys
pub mod Erasure
pub mod Delivered
use diary_memory_service.Base.{ℕ, Option, List}
use diary_memory_service.Base.Text.{Text}
use diary_memory_service.Exec.{Result}
use diary_memory_service.Models.{DateTime, Float}

-- core/embeddings/client.py: the provider's client raises or returns vectors.
pub record EmbeddingClient : Type 0 where
  pub embed : List Text → Result (List (List Float))
  pub model_name : Text
  pub dimension : ℕ

-- What one call reads from the clock and from `uuid4`.
pub record Draws : Type 0 where
  pub now : DateTime
  pub candidate_id : Text
  pub note_id : Text
  pub chunk_id : Text
  pub embedding_record_id : ℕ → Text
  pub dead_letter_id : Text
