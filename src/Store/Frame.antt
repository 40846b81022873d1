-- ===== src/Store/Frame.antt =====
-- The frame of the methods of the store, storage/mock/store.py.
use diary_memory_service.Base.{◌≡◌, refl, List, [], ◌∷◌, arith}
use diary_memory_service.Base.Text.{Text}
use diary_memory_service.Exec.{Result, for_each}
use diary_memory_service.Models.{
  Note, EventChunk, EmbeddingRecord, EmbeddingStatus, LifecycleState, IndexingDeadLetter,
}
use diary_memory_service.Store.{MockDomainStore}
use diary_memory_service.Store.Notes.{save_note, get_active_note_for_external_message, mark_note}
use diary_memory_service.Store.Chunks.{
  save_event_chunk, save_embedding_record, save_event_chunks, get_active_chunk_for_note,
  save_embedding_records, set_chunk_embedding_status, mark_chunk, save_indexing_dead_letter,
}

-- The stored messages and their index are untouched.
abbrev pub SameSources : MockDomainStore → MockDomainStore → Type 0
SameSources s t = (t.sources ≡ s.sources) × (t.idempotency ≡ s.idempotency)

pub SameSources-trans :
    (s t u : MockDomainStore) → SameSources s t → SameSources t u → SameSources s u
SameSources-trans s t u h k = ground arith

-- A loop leaves alone what each of its rounds does.
pub for_each-SameSources :
    {A : Type 0} (body : A → MockDomainStore → Result (Unit {0}) × MockDomainStore) (xs : List A)
    (s : MockDomainStore)
    → ((x : A) (t : MockDomainStore) → SameSources t (body x t).1)
    → SameSources s (for_each body xs s).1
for_each-SameSources body [] s h = (refl, refl)
for_each-SameSources body (x ∷ xs) s h =
    ground (arith, h x s, for_each-SameSources body xs (body x s).1 h)

module _ (s : MockDomainStore) where
  pub save_note-SameSources : (note : Note) → SameSources s (save_note note s).1
  unfolding save_note
  save_note-SameSources note = (refl, refl)

  pub mark_note-SameSources :
      (state : LifecycleState) (id c : Text) → SameSources s (mark_note state id c s).1
  unfolding mark_note
  mark_note-SameSources state id c = ground arith

  pub mark_chunk-SameSources :
      (state : LifecycleState) (id c : Text) → SameSources s (mark_chunk state id c s).1
  unfolding mark_chunk
  mark_chunk-SameSources state id c = ground arith

  pub set_chunk_embedding_status-SameSources :
      (id : Text) (status : EmbeddingStatus)
      → SameSources s (set_chunk_embedding_status id status s).1
  unfolding set_chunk_embedding_status
  set_chunk_embedding_status-SameSources id status = ground arith

  pub save_indexing_dead_letter-SameSources :
      (r : IndexingDeadLetter) → SameSources s (save_indexing_dead_letter r s).1
  unfolding save_indexing_dead_letter
  save_indexing_dead_letter-SameSources r = ground arith

  pub save_event_chunks-SameSources :
      (chunks : List EventChunk) → SameSources s (save_event_chunks chunks s).1
  unfolding save_event_chunks
  save_event_chunks-SameSources chunks =
      for_each-SameSources save_event_chunk chunks s (λ x t. (refl, refl))

  pub save_embedding_records-SameSources :
      (records : List EmbeddingRecord) → SameSources s (save_embedding_records records s).1
  unfolding save_embedding_records
  save_embedding_records-SameSources records =
      for_each-SameSources save_embedding_record records s (λ x t. ground arith)

  -- The two lookups only read.
  pub get_active_note-state :
      (chat message c : Text) → (get_active_note_for_external_message chat message c s).1 ≡ s
  unfolding get_active_note_for_external_message
  get_active_note-state chat message c = ground arith

  pub get_active_chunk-state : (id c : Text) → (get_active_chunk_for_note id c s).1 ≡ s
  unfolding get_active_chunk_for_note
  get_active_chunk-state id c = ground arith
