-- ===== src/Store/Removal/Purged.antt =====
-- What a hard deletion leaves of the store, storage/mock/store.py.
use diary_memory_service.Base.{
  false, ◌≡◌, some, List, length, ◌==◌, ==-refl, text_eq, text_pair_eq, message_key_eq,
}
use diary_memory_service.Base.Text.{Text, is_empty}
use diary_memory_service.Base.Dict.{lookup, erase}
use diary_memory_service.Exec.{ok}
use diary_memory_service.Models.{SourceMessage, HardDeleteOutcome}
use diary_memory_service.Store.{MockDomainStore}
use diary_memory_service.Store.Sources.{source_key}
use diary_memory_service.Store.Removal.{
  keys_where, is_member, del_each, chunk_ids_of, hit_ids_of, embedding_keys_of, note_ids_of,
  hard_delete_source_message,
}
use diary_memory_service.Store.Removal.Erased.{
  Distinct, Keyed, discard, del_each-discard, keys_where-ids, distinct-keys_where,
}

-- The rows of the dictionaries stand under their own ids, each once.
abbrev pub IsWellKeyed : MockDomainStore → Type 0
IsWellKeyed s =
    Distinct s.notes
    × Keyed (λ n. n.note_id) s.notes
    × Distinct s.chunks
    × Keyed (λ c. c.chunk_id) s.chunks
    × Distinct s.retrieval_hits
    × Keyed (λ h. h.retrieval_hit_id) s.retrieval_hits
    × Distinct s.embeddings

-- The store without a source message and all that was derived from it.
abbrev pub purged : Text → SourceMessage → MockDomainStore → MockDomainStore
purged id source s = record s {
  sources = erase id s.sources;
  idempotency = erase (source_key source) s.idempotency;
  notes = discard (λ n. n.source_message_id == id) s.notes;
  chunks = discard (λ c. c.source_message_id == id) s.chunks;
  embeddings = discard (λ r. r.source_message_id == id) s.embeddings;
  retrieval_hits = discard (λ h. is_member h.chunk_id (chunk_ids_of id s)) s.retrieval_hits;
}

abbrev pub purge_counts : Text → MockDomainStore → HardDeleteOutcome
purge_counts id s = record {
  source_messages = 1;
  notes = length (note_ids_of id s);
  event_chunks = length (chunk_ids_of id s);
  embedding_records = length (embedding_keys_of id s);
  retrieval_hits = length (hit_ids_of (chunk_ids_of id s) s);
}

module _ (id community_id : Text) (source : SourceMessage) (s : MockDomainStore) where
  note_ids_where :
      Keyed (λ n. n.note_id) s.notes
      → note_ids_of id s ≡ keys_where (λ n. n.source_message_id == id) s.notes
  unfolding note_ids_of
  note_ids_where h = keys_where-ids (λ n. n.note_id) (λ n. n.source_message_id == id) s.notes h

  chunk_ids_where :
      Distinct s.chunks
      → Keyed (λ c. c.chunk_id) s.chunks
      → chunk_ids_of id s ≡ keys_where (λ c. c.source_message_id == id) s.chunks
  unfolding chunk_ids_of
  chunk_ids_where d h = rw (
    keys_where-ids (λ c. c.chunk_id) (λ c. c.source_message_id == id) s.chunks h,
    distinct-keys_where (λ c. c.source_message_id == id) s.chunks d,
  )

  hit_ids_where :
      (ids : List Text)
      → Keyed (λ h. h.retrieval_hit_id) s.retrieval_hits
      → hit_ids_of ids s ≡ keys_where (λ h. is_member h.chunk_id ids) s.retrieval_hits
  unfolding hit_ids_of
  hit_ids_where ids h =
      keys_where-ids (λ x. x.retrieval_hit_id) (λ x. is_member x.chunk_id ids) s.retrieval_hits h

  deleted_notes :
      IsWellKeyed s
      → del_each (note_ids_of id s) s.notes
        ≡ (ok tt, discard (λ n. n.source_message_id == id) s.notes)
  deleted_notes h = rw (note_ids_where h.1) (del_each-discard _ s.notes h.0)

  deleted_chunks :
      IsWellKeyed s
      → del_each (chunk_ids_of id s) s.chunks
        ≡ (ok tt, discard (λ c. c.source_message_id == id) s.chunks)
  deleted_chunks h = rw (chunk_ids_where h.2 h.3) (del_each-discard _ s.chunks h.2)

  deleted_hits :
      IsWellKeyed s
      → del_each (hit_ids_of (chunk_ids_of id s) s) s.retrieval_hits
        ≡ (ok tt, discard (λ h. is_member h.chunk_id (chunk_ids_of id s)) s.retrieval_hits)
  deleted_hits h =
      rw (hit_ids_where (chunk_ids_of id s) h.5) (del_each-discard _ s.retrieval_hits h.4)

  deleted_embeddings :
      IsWellKeyed s
      → del_each (embedding_keys_of id s) s.embeddings
        ≡ (ok tt, discard (λ r. r.source_message_id == id) s.embeddings)
  unfolding embedding_keys_of
  deleted_embeddings h = del_each-discard _ s.embeddings h.6

  -- Where the rows stand under their ids, the hard deletion of a stored message of the community
  -- raises nothing, removes exactly the message, its key and the notes, chunks, embeddings and hits
  -- derived from it, and reports how many.
  pub hard_delete_purges :
      is_empty community_id ≡ false
      → IsWellKeyed s
      → lookup id s.sources ≡ some source
      → source.community_id ≡ community_id
      → hard_delete_source_message id community_id s ≡ (ok (purge_counts id s), purged id source s)
  unfolding hard_delete_source_message embedding_keys_of note_ids_of chunk_ids_of hit_ids_of
  hard_delete_purges named keyed found owned = rw (
    named,
    found,
    owned,
    ==-refl community_id,
    deleted_hits keyed,
    deleted_embeddings keyed,
    deleted_notes keyed,
    deleted_chunks keyed,
    found,
  )
