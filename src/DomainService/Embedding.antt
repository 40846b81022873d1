-- ===== src/DomainService/Embedding.antt =====
-- services/domain_service.py, `_embed_chunks`.
use diary_memory_service.Base.{ℕ, suc, List, [], ◌∷◌, map, length, nat_beq, if◌then◌else◌}
use diary_memory_service.Base.Text.{Text}
use diary_memory_service.Exec.{
  Exception, value_error, class_name, Exec, Result, ok, raised, raise, pure, for_each, try_except,
  ◌>>◌,
}
use diary_memory_service.Models.{DateTime, Float, EventChunk, EmbeddingRecord, ready, failed}
use diary_memory_service.Store.{MockDomainStore}
use diary_memory_service.Store.Chunks.{
  save_embedding_records, set_chunk_embedding_status, save_indexing_dead_letter,
}
use diary_memory_service.DomainService.{EmbeddingClient, Draws}

-- The records of a batch, one for each pair of the zip; the number counts the ids drawn so far.
unfoldable pub embedding_records :
    EmbeddingClient
    → (ℕ → Text)
    → DateTime
    → Text
    → Text
    → ℕ
    → List EventChunk
    → List (List Float)
    → List EmbeddingRecord
embedding_records client ids now source_message_id community_id i [] vectors = []
embedding_records client ids now source_message_id community_id i (c ∷ cs) [] = []
embedding_records client ids now source_message_id community_id i (c ∷ cs) (v ∷ vs) =
    record {
      embedding_record_id = ids i;
      chunk_id = c.chunk_id;
      source_message_id = source_message_id;
      community_id = community_id;
      model_name = client.model_name;
      dimension = client.dimension;
      embedding = v;
      created_at = now;
    }
    ∷ embedding_records client ids now source_message_id community_id (suc i) cs vs

abbrev pub chunk_ids : List EventChunk → List Text
chunk_ids = map (λ c. c.chunk_id)

-- The branch after the provider has raised `exc`.
unfoldable pub embedding_failed :
    EmbeddingClient
    → Draws
    → List EventChunk
    → Text
    → Text
    → Exception
    → Exec MockDomainStore (Unit {0})
embedding_failed client draws chunks source_message_id community_id exc = do
  for_each (λ c. set_chunk_embedding_status c.chunk_id failed) chunks
  try_except
      (save_indexing_dead_letter (record {
        dead_letter_id = draws.dead_letter_id;
        source_message_id = source_message_id;
        community_id = community_id;
        chunk_ids = chunk_ids chunks;
        model_name = client.model_name;
        error_class = class_name exc;
        created_at = draws.now;
      }))
      (λ _. pure tt)

-- The branch with vectors; `zip(..., strict=True)` raises where the lengths differ.
unfoldable pub embedding_ok :
    EmbeddingClient
    → Draws
    → List EventChunk
    → Text
    → Text
    → List (List Float)
    → Exec MockDomainStore (Unit {0})
embedding_ok client draws chunks source_message_id community_id vectors =
    if nat_beq (length chunks) (length vectors)
    then (do
      save_embedding_records (
          embedding_records client draws.embedding_record_id draws.now source_message_id
            community_id 0 chunks vectors)
      for_each (λ c. set_chunk_embedding_status c.chunk_id ready) chunks)
    else raise value_error

-- What follows the provider's call, by how it ended.
abbrev pub embedding_ended :
    EmbeddingClient
    → Draws
    → List EventChunk
    → Text
    → Text
    → Result (List (List Float))
    → Exec MockDomainStore (Unit {0})
embedding_ended client draws chunks source_message_id community_id (raised exc) =
    embedding_failed client draws chunks source_message_id community_id exc
embedding_ended client draws chunks source_message_id community_id (ok vectors) =
    embedding_ok client draws chunks source_message_id community_id vectors

unfoldable pub embed_chunks :
    EmbeddingClient → Draws → List EventChunk → Text → Text → Exec MockDomainStore (Unit {0})
embed_chunks client draws chunks source_message_id community_id =
    embedding_ended client draws chunks source_message_id community_id
      (client.embed (map (λ c. c.chunk_text) chunks))
