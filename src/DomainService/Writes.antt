-- ===== src/DomainService/Writes.antt =====
-- What the calls of services/domain_service.py write: an invariant that their single writes keep,
-- they keep.
use diary_memory_service.Base.{false, ◌≡◌, refl, Option, none, some}
use diary_memory_service.Base.Text.{Text}
use diary_memory_service.Exec.{Exec, pure, ◌>>=◌}
use diary_memory_service.Exec.Invariants.{Preserves, bind-Preserves, reads-Preserves}
use diary_memory_service.Models.{
  InboundMessage, Note, EventChunk, LifecycleState, is_active, tombstoned,
}
use diary_memory_service.Store.{MockDomainStore}
use diary_memory_service.Store.Notes.{
  get_active_note_for_external_message, mark_note, mark_note_tombstoned,
}
use diary_memory_service.Store.Chunks.{get_active_chunk_for_note, mark_chunk, mark_chunk_tombstoned}
use diary_memory_service.Store.Frame.{get_active_note-state, get_active_chunk-state}
use diary_memory_service.DomainService.Deletion.{
  tombstone_chunk, tombstone_note, tombstone_active_note_for_external_message, delete_outcome,
  delete_note_for_external_message,
}
use diary_memory_service.DomainService.Ingest.{plain_result, ingest_draft}

-- The flips of lifecycle states.
pub record KeepsFlips (P : MockDomainStore → Type 0) : Type 0 where
  pub note_marked :
      (state : LifecycleState) (id c : Text)
      → is_active state ≡ false
      → Preserves P (mark_note state id c)
  pub chunk_marked : (state : LifecycleState) (id c : Text) → Preserves P (mark_chunk state id c)

module _ (P : MockDomainStore → Type 0) (f : KeepsFlips P) where
  tombstone_chunk-Preserves :
      (c : Text) (chunk : Option EventChunk) → Preserves P (tombstone_chunk c chunk)
  unfolding tombstone_chunk mark_chunk_tombstoned
  tombstone_chunk-Preserves c none = λ s h. h
  tombstone_chunk-Preserves c (some chunk) = f.chunk_marked tombstoned chunk.chunk_id c

  marked_note-Preserves :
      (c : Text) (note : Note)
      → Preserves P (mark_note_tombstoned note.note_id c >>= λ u. pure (some note))
  unfolding mark_note_tombstoned
  marked_note-Preserves c note =
      bind-Preserves P (mark_note tombstoned note.note_id c) (λ u. pure (some note))
        (f.note_marked tombstoned note.note_id c refl) (λ u s h. h)

  tombstone_note-Preserves : (c : Text) (note : Option Note) → Preserves P (tombstone_note c note)
  unfolding tombstone_note
  tombstone_note-Preserves c none = λ s h. h
  tombstone_note-Preserves c (some note) =
      let last : Exec MockDomainStore (Option Note) =
        mark_note_tombstoned note.note_id c >>= λ u. pure (some note) in
      bind-Preserves P (get_active_chunk_for_note note.note_id c)
        (λ chunk. tombstone_chunk c chunk >>= λ u. last)
        (reads-Preserves P (get_active_chunk_for_note note.note_id c)
          (λ s. get_active_chunk-state s note.note_id c))
        (λ chunk.
          bind-Preserves P (tombstone_chunk c chunk) (λ u. last) (tombstone_chunk-Preserves c chunk)
            (λ u. marked_note-Preserves c note))

  pub tombstone_active-Preserves :
      (chat message c : Text)
      → Preserves P (tombstone_active_note_for_external_message chat message c)
  unfolding tombstone_active_note_for_external_message
  tombstone_active-Preserves chat message c =
      bind-Preserves P (get_active_note_for_external_message chat message c) (tombstone_note c)
        (reads-Preserves P (get_active_note_for_external_message chat message c)
          (λ s. get_active_note-state s chat message c))
        (tombstone_note-Preserves c)

  -- An invariant that the flips keep, `/delete` keeps.
  pub delete-Preserves :
      (chat target c : Text) → Preserves P (delete_note_for_external_message chat target c)
  unfolding delete_note_for_external_message
  delete-Preserves chat target c =
      bind-Preserves P (tombstone_active_note_for_external_message chat target c)
        (λ note. pure (delete_outcome note)) (tombstone_active-Preserves chat target c)
        (λ note s h. h)

  pub ingest_draft-Preserves :
      (message : InboundMessage) (id : Text) → Preserves P (ingest_draft message id)
  unfolding ingest_draft
  ingest_draft-Preserves message id =
      bind-Preserves P
        (tombstone_active_note_for_external_message message.external_chat_id
          message.external_message_id message.community_id)
        (λ note. pure (plain_result id false))
        (tombstone_active-Preserves message.external_chat_id message.external_message_id
          message.community_id)
        (λ note s h. h)
