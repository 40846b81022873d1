-- ===== src/Store/Notes.antt =====
-- Notes: storage/mock/store.py, `save_note`, the two lookups of a note and the lifecycle marks.
use diary_memory_service.Base.{
  Bool, false, ◌&&◌, Option, none, some, List, keep, find?, head?, ◌==◌, text_eq, text_pair_eq,
  message_key_eq, nat_eq, if◌then◌else◌,
}
use diary_memory_service.Base.Text.{Text}
use diary_memory_service.Base.Dict.{Dict, lookup, insert, values}
use diary_memory_service.Base.Sort.{sort_by}
use diary_memory_service.Exec.{Exec, ok, raised, key_error, gets, modify, ◌>>=◌, ◌>>◌}
use diary_memory_service.Models.{
  SourceMessage, Note, LifecycleState, superseded, tombstoned, is_active,
}
use diary_memory_service.Store.{MockDomainStore, require_community, stamp_ltb}

unfoldable pub save_note : Note → Exec MockDomainStore (Unit {0})
save_note note = modify λ s. record s { notes = insert note.note_id note s.notes }

unfoldable pub get_note_by_source_message_id : Text → MockDomainStore → Option Note
get_note_by_source_message_id source_message_id s =
    find? (λ n. n.source_message_id == source_message_id) (values s.notes)

-- The note's source exists and is the given message of the given chat.
abbrev pub is_of_message : Text → Text → Option SourceMessage → Bool
is_of_message chat message none = false
is_of_message chat message (some source) =
    source.external_chat_id == chat && source.external_message_id == message

-- The tests of the loop in `get_active_note_for_external_message`.
unfoldable pub is_active_note_for : Dict Text SourceMessage → Text → Text → Text → Note → Bool
is_active_note_for sources chat message community_id note =
    note.community_id == community_id
    && (is_active note.lifecycle_state
        && is_of_message chat message (lookup note.source_message_id sources))

unfoldable pub active_notes_for : Text → Text → Text → MockDomainStore → List Note
active_notes_for chat message community_id s =
    keep (is_active_note_for s.sources chat message community_id) (values s.notes)

-- Most recent first.
unfoldable pub note_after : Note → Note → Bool
note_after a b = stamp_ltb b.created_at b.note_id a.created_at a.note_id

unfoldable pub get_active_note_for_external_message :
    Text → Text → Text → Exec MockDomainStore (Option Note)
get_active_note_for_external_message chat message community_id = do
  require_community community_id
  gets (λ s. head? (sort_by note_after (active_notes_for chat message community_id s)))

-- `self._notes[note_id] = replace(existing, lifecycle_state=state)`, of an owned note.
abbrev pub set_note_state :
    LifecycleState → Text → Text → Option Note → Exec MockDomainStore (Unit {0})
set_note_state state note_id community_id none s = (raised key_error, s)
set_note_state state note_id community_id (some existing) s =
    if existing.community_id == community_id
    then (
      ok tt,
      record s { notes = insert note_id (record existing { lifecycle_state = state }) s.notes },
    )
    else (raised key_error, s)

unfoldable pub mark_note : LifecycleState → Text → Text → Exec MockDomainStore (Unit {0})
mark_note state note_id community_id = do
  require_community community_id
  existing ← gets (λ s. lookup note_id s.notes)
  set_note_state state note_id community_id existing

unfoldable pub mark_note_superseded : Text → Text → Exec MockDomainStore (Unit {0})
mark_note_superseded = mark_note superseded

unfoldable pub mark_note_tombstoned : Text → Text → Exec MockDomainStore (Unit {0})
mark_note_tombstoned = mark_note tombstoned
