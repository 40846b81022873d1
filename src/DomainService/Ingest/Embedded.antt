-- ===== src/DomainService/Ingest/Embedded.antt =====
-- What the embedding of the new chunks writes: services/domain_service.py, `_embed_chunks`.
use diary_memory_service.Base.{
  length, nat_beq, Option, none, some, List, [], ◌∷◌, map, Bool-cases, inl, inr,
}
use diary_memory_service.Base.Text.{Text}
use diary_memory_service.Exec.{
  Exception, Exec, Result, ok, raised, class_name, pure, for_each, try_except, ◌>>=◌,
}
use diary_memory_service.Exec.Invariants.{
  Preserves, bind-Preserves, for_each-Preserves, try_except-Preserves,
}
use diary_memory_service.Models.{
  EventChunk, EmbeddingRecord, EmbeddingStatus, IndexingDeadLetter, IngestResult, ready, failed,
  Float,
}
use diary_memory_service.Parser.{ParsedNote}
use diary_memory_service.Store.{MockDomainStore}
use diary_memory_service.Base.{text_eq, message_key_eq}
use diary_memory_service.DomainService.Ingest.Heads.{stored_result}
use diary_memory_service.Store.Chunks.{
  save_embedding_record, save_embedding_records, set_chunk_embedding_status,
  save_indexing_dead_letter,
}
use diary_memory_service.DomainService.{EmbeddingClient, Draws}
use diary_memory_service.DomainService.Embedding.{
  embedding_failed, embedding_ok, embedding_ended, embed_chunks, embedding_records, chunk_ids,
}
use diary_memory_service.DomainService.Ingest.{embed_new}

-- The writes of the embedding.
pub record KeepsEmbeddings (P : MockDomainStore → Type 0) : Type 0 where
  pub embedding_saved : (r : EmbeddingRecord) → Preserves P (save_embedding_record r)
  pub status_set :
      (id : Text) (status : EmbeddingStatus) → Preserves P (set_chunk_embedding_status id status)
  pub letter_saved : (d : IndexingDeadLetter) → Preserves P (save_indexing_dead_letter d)

module _ (P : MockDomainStore → Type 0) (r : KeepsEmbeddings P) where
  statuses-Preserves :
      (status : EmbeddingStatus) (chunks : List EventChunk)
      → Preserves P
          (for_each (λ (c : EventChunk). set_chunk_embedding_status c.chunk_id status) chunks)
  statuses-Preserves status chunks =
      for_each-Preserves P (λ c. set_chunk_embedding_status c.chunk_id status) chunks
        (λ c. r.status_set c.chunk_id status)

  module _ (client : EmbeddingClient) (draws : Draws) (chunks : List EventChunk) (id c : Text) where
    abbrev letter : Exception → IndexingDeadLetter
    letter e = record {
      dead_letter_id = draws.dead_letter_id;
      source_message_id = id;
      community_id = c;
      chunk_ids = chunk_ids chunks;
      model_name = client.model_name;
      error_class = class_name e;
      created_at = draws.now;
    }

    abbrev records : List (List Float) → List EmbeddingRecord
    records vectors =
        embedding_records client draws.embedding_record_id draws.now id c 0 chunks vectors

    embedding_ended-Preserves :
        (x : Result (List (List Float))) → Preserves P (embedding_ended client draws chunks id c x)
    unfolding embedding_failed embedding_ok save_embedding_records
    embedding_ended-Preserves (raised e) =
        let flip : Exec MockDomainStore (Unit {0}) =
          for_each (λ (k : EventChunk). set_chunk_embedding_status k.chunk_id failed) chunks in
        let save : Exec MockDomainStore (Unit {0}) =
          try_except (save_indexing_dead_letter (letter e)) (λ x. pure tt) in
        bind-Preserves P flip (λ u. save) (statuses-Preserves failed chunks)
          (λ u.
            try_except-Preserves P (save_indexing_dead_letter (letter e)) (λ x. pure tt)
              (r.letter_saved (letter e)) (λ x s h. h))
    embedding_ended-Preserves (ok vectors) =
        elim (Bool-cases (nat_beq (length chunks) (length vectors))) [
          | inl same ↦ rw same (
              bind-Preserves P (for_each save_embedding_record (records vectors))
                (λ u.
                  for_each (λ (k : EventChunk). set_chunk_embedding_status k.chunk_id ready) chunks)
                (for_each-Preserves P save_embedding_record (records vectors) r.embedding_saved)
                (λ u. statuses-Preserves ready chunks))
          | inr other ↦ rw other (λ s h. h)
        ]

  pub embed_new-Preserves :
      (client : Option EmbeddingClient) (draws : Draws) (chunks : List EventChunk) (id c : Text)
      → Preserves P (embed_new client draws chunks id c)
  unfolding embed_new embed_chunks
  embed_new-Preserves none draws chunks id c = λ s h. h
  embed_new-Preserves (some client) draws [] id c = λ s h. h
  embed_new-Preserves (some client) draws (k ∷ ks) id c =
      embedding_ended-Preserves client draws (k ∷ ks) id c
        (client.embed (map (λ x. x.chunk_text) (k ∷ ks)))

module _ (client : Option EmbeddingClient) (draws : Draws) (c id : Text) (parsed : ParsedNote) where
  -- The embedding of the new chunks, and the outcome.
  abbrev pub embedded : List EventChunk → Exec MockDomainStore IngestResult
  embedded chunks =
      embed_new client draws chunks id c >>= λ u. pure (stored_result id parsed (length chunks))

module _ (P : MockDomainStore → Type 0) (r : KeepsEmbeddings P) (client : Option EmbeddingClient)
    (draws : Draws) (c id : Text) (parsed : ParsedNote) where
  pub embedded-Preserves :
      (chunks : List EventChunk) → Preserves P (embedded client draws c id parsed chunks)
  embedded-Preserves chunks =
      bind-Preserves P (embed_new client draws chunks id c)
        (λ u. pure (stored_result id parsed (length chunks)))
        (embed_new-Preserves P r client draws chunks id c) (λ u s h. h)
