-- ===== src/DomainService/Deletion.antt =====
-- services/domain_service.py, `_tombstone_active_note_for_external_message` and
-- `delete_note_for_external_message`.
pub mod Again
use diary_memory_service.Base.{true, false, Option, none, some}
use diary_memory_service.Base.Text.{Text}
use diary_memory_service.Exec.{Exec, pure, ◌>>=◌, ◌>>◌}
use diary_memory_service.Models.{Note, EventChunk, DeleteOutcome}
use diary_memory_service.Store.{MockDomainStore}
use diary_memory_service.Store.Notes.{get_active_note_for_external_message, mark_note_tombstoned}
use diary_memory_service.Store.Chunks.{get_active_chunk_for_note, mark_chunk_tombstoned}

-- `if prior_chunk is not None: mark_chunk_tombstoned(...)`
unfoldable pub tombstone_chunk : Text → Option EventChunk → Exec MockDomainStore (Unit {0})
tombstone_chunk community_id none = pure tt
tombstone_chunk community_id (some c) = mark_chunk_tombstoned c.chunk_id community_id

-- Chunk first, then the note.
unfoldable pub tombstone_note : Text → Option Note → Exec MockDomainStore (Option Note)
tombstone_note community_id none = pure none
tombstone_note community_id (some note) = do
  prior_chunk ← get_active_chunk_for_note note.note_id community_id
  tombstone_chunk community_id prior_chunk
  mark_note_tombstoned note.note_id community_id
  pure (some note)

unfoldable pub tombstone_active_note_for_external_message :
    Text → Text → Text → Exec MockDomainStore (Option Note)
tombstone_active_note_for_external_message chat message community_id = do
  prior_note ← get_active_note_for_external_message chat message community_id
  tombstone_note community_id prior_note

abbrev pub delete_outcome : Option Note → DeleteOutcome
delete_outcome none = record { deleted = false; note_date = none }
delete_outcome (some note) = record { deleted = true; note_date = some note.note_date }

unfoldable pub delete_note_for_external_message :
    Text → Text → Text → Exec MockDomainStore DeleteOutcome
delete_note_for_external_message chat target community_id = do
  tombstoned ← tombstone_active_note_for_external_message chat target community_id
  pure (delete_outcome tombstoned)
