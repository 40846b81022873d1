-- ===== src/DomainService/Ingest/Single.antt =====
-- A message has one active note at most under `ingest` and the deletion, services/domain_service.py.
use diary_memory_service.Base.{
  ◌≤◌, false, ◌≡◌, length, ◌==◌, text_eq, message_key_eq, inl, inr, Bool-cases, Option-cases, arith,
}
use diary_memory_service.Base.Text.{Text, is_empty}
use diary_memory_service.Base.Dict.{lookup}
use diary_memory_service.Exec.Invariants.{Preserves}
use diary_memory_service.Models.{LifecycleState, is_active}
use diary_memory_service.Store.{MockDomainStore}
use diary_memory_service.Store.Notes.{active_notes_for, is_active_note_for, mark_note}
use diary_memory_service.Store.Chunks.{
  save_embedding_record, mark_chunk, set_chunk_embedding_status, save_indexing_dead_letter,
}
use diary_memory_service.Store.Active.{length-keep-insert_outside, inactive-fails}
use diary_memory_service.DomainService.Writes.{KeepsFlips}
use diary_memory_service.DomainService.Ingest.Embedded.{KeepsEmbeddings}
use diary_memory_service.DomainService.Ingest.Prior.{SameNotes}

module _ (chat message c : Text) where
  -- The message has at most one active note.
  abbrev pub IsSingle : MockDomainStore → Type 0
  IsSingle s = length (active_notes_for chat message c s) ≤ 1

  pub IsSingle-same : (s t : MockDomainStore) → SameNotes s t → IsSingle s → IsSingle t
  unfolding active_notes_for
  IsSingle-same s t same h = rw (same.0, same.1) h

  -- No flip activates a note.
  mark_note-IsSingle :
      (state : LifecycleState) (id o : Text)
      → is_active state ≡ false
      → Preserves IsSingle (mark_note state id o)
  unfolding mark_note active_notes_for
  mark_note-IsSingle state id o off s h = elim (Bool-cases (is_empty o)) [
    | inl nobody ↦ rw nobody h
    | inr named ↦ elim (Option-cases (lookup id s.notes)) [
      | inl missing ↦ rw (named, missing) h
      | inr (note, found) ↦ elim (Bool-cases (note.community_id == o)) [
        | inl owned ↦
            rw (named, found, owned)
              (omega (
                arith,
                length-keep-insert_outside (is_active_note_for s.sources chat message c) id
                    (record note { lifecycle_state = state }) s.notes
                    (inactive-fails chat message c s note state off),
              ))
        | inr other ↦ rw (named, found, other) h
      ]
    ]
  ]

  pub IsSingle-flips : KeepsFlips IsSingle
  unfolding mark_chunk
  IsSingle-flips = record {
    note_marked = λ state id o off. mark_note-IsSingle state id o off;
    chunk_marked = λ state id o s h. IsSingle-same s (mark_chunk state id o s).1 (ground arith) h;
  }

  pub IsSingle-embeddings : KeepsEmbeddings IsSingle
  unfolding set_chunk_embedding_status save_indexing_dead_letter
  IsSingle-embeddings = record {
    embedding_saved = λ r s h. IsSingle-same s (save_embedding_record r s).1 (ground arith) h;
    status_set = λ id status s h.
        IsSingle-same s (set_chunk_embedding_status id status s).1 (ground arith) h;
    letter_saved = λ d s h. IsSingle-same s (save_indexing_dead_letter d s).1 (ground arith) h;
  }
