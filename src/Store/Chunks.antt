-- ===== src/Store/Chunks.antt =====
-- Event chunks and embedding records: storage/mock/store.py, from `save_event_chunks` to
-- `list_failed_event_chunks`, and the dead letters.
use diary_memory_service.Base.{
  ℕ, Bool, false, ◌&&◌, Option, none, some, List, keep, head?, length, take, ◌==◌, text_eq,
  text_pair_eq, message_key_eq, nat_eq, if◌then◌else◌,
}
use diary_memory_service.Base.Text.{Text}
use diary_memory_service.Base.Int.{ℤ, is_negative, pos_part}
use diary_memory_service.Base.Dict.{lookup, insert, contains, values}
use diary_memory_service.Base.Sort.{sort_by}
use diary_memory_service.Exec.{
  Exec, ok, raised, value_error, key_error, gets, raise_if, for_each, ◌>>=◌, ◌>>◌,
}
use diary_memory_service.Models.{
  EventChunk, EmbeddingRecord, EmbeddingStatus, LifecycleState, superseded, tombstoned, is_active,
  is_failed, IndexingDeadLetter,
}
use diary_memory_service.Store.{MockDomainStore, require_community, stamp_ltb}

abbrev pub save_event_chunk : EventChunk → Exec MockDomainStore (Unit {0})
save_event_chunk chunk s = (ok tt, record s { chunks = insert chunk.chunk_id chunk s.chunks })

unfoldable pub save_event_chunks : List EventChunk → Exec MockDomainStore (Unit {0})
save_event_chunks = for_each save_event_chunk

unfoldable pub count_event_chunks_for_source : Text → MockDomainStore → ℕ
count_event_chunks_for_source source_message_id s =
    length (keep (λ c. c.source_message_id == source_message_id) (values s.chunks))

abbrev pub owned_chunk : Text → Option EventChunk → Option EventChunk
owned_chunk community_id none = none
owned_chunk community_id (some chunk) =
    if chunk.community_id == community_id then some chunk else none

unfoldable pub get_event_chunk : Text → Text → Exec MockDomainStore (Option EventChunk)
get_event_chunk chunk_id community_id = do
  require_community community_id
  gets (λ s. owned_chunk community_id (lookup chunk_id s.chunks))

unfoldable pub chunk_before : EventChunk → EventChunk → Bool
chunk_before a b = stamp_ltb a.created_at a.chunk_id b.created_at b.chunk_id

unfoldable pub chunk_after : EventChunk → EventChunk → Bool
chunk_after a b = chunk_before b a

unfoldable pub is_active_chunk_of : Text → Text → EventChunk → Bool
is_active_chunk_of note_id community_id c =
    c.note_id == note_id && (c.community_id == community_id && is_active c.lifecycle_state)

unfoldable pub get_active_chunk_for_note : Text → Text → Exec MockDomainStore (Option EventChunk)
get_active_chunk_for_note note_id community_id = do
  require_community community_id
  gets (λ s.
      head?
        (sort_by chunk_after (keep (is_active_chunk_of note_id community_id) (values s.chunks))))

abbrev pub save_embedding_record : EmbeddingRecord → Exec MockDomainStore (Unit {0})
save_embedding_record r s =
    if contains (r.chunk_id, r.model_name) s.embeddings
    then (raised value_error, s)
    else (ok tt, record s { embeddings = insert (r.chunk_id, r.model_name) r s.embeddings })

unfoldable pub save_embedding_records : List EmbeddingRecord → Exec MockDomainStore (Unit {0})
save_embedding_records = for_each save_embedding_record

unfoldable pub count_embedding_records_for_source : Text → MockDomainStore → ℕ
count_embedding_records_for_source source_message_id s =
    length (keep (λ r. r.source_message_id == source_message_id) (values s.embeddings))

unfoldable pub set_chunk_embedding_status : Text → EmbeddingStatus → Exec MockDomainStore (Unit {0})
set_chunk_embedding_status chunk_id status s = elim (lookup chunk_id s.chunks) [
  | none ↦ (raised key_error, s)
  | some existing ↦ (
    ok tt,
    record s { chunks = insert chunk_id (record existing { embedding_status = status }) s.chunks },
  )
]

abbrev pub set_chunk_state :
    LifecycleState → Text → Text → Option EventChunk → Exec MockDomainStore (Unit {0})
set_chunk_state state chunk_id community_id none s = (raised key_error, s)
set_chunk_state state chunk_id community_id (some existing) s =
    if existing.community_id == community_id
    then (
      ok tt,
      record s { chunks = insert chunk_id (record existing { lifecycle_state = state }) s.chunks },
    )
    else (raised key_error, s)

unfoldable pub mark_chunk : LifecycleState → Text → Text → Exec MockDomainStore (Unit {0})
mark_chunk state chunk_id community_id = do
  require_community community_id
  existing ← gets (λ s. lookup chunk_id s.chunks)
  set_chunk_state state chunk_id community_id existing

unfoldable pub mark_chunk_superseded : Text → Text → Exec MockDomainStore (Unit {0})
mark_chunk_superseded = mark_chunk superseded

unfoldable pub mark_chunk_tombstoned : Text → Text → Exec MockDomainStore (Unit {0})
mark_chunk_tombstoned = mark_chunk tombstoned

-- `limit is not None and limit < 0`
abbrev pub is_negative_limit : Option ℤ → Bool
is_negative_limit none = false
is_negative_limit (some limit) = is_negative limit

-- `rows if limit is None else rows[:limit]`
abbrev pub limited {ℓ} : {A : Type ℓ} → List A → Option ℤ → List A
limited rows none = rows
limited rows (some limit) = take (pos_part limit) rows

unfoldable pub list_failed_event_chunks : Text → Option ℤ → Exec MockDomainStore (List EventChunk)
list_failed_event_chunks community_id limit = do
  require_community community_id
  raise_if (is_negative_limit limit) value_error
  gets (λ s.
      limited
        (sort_by chunk_before (
          keep (λ c. c.community_id == community_id && is_failed c.embedding_status)
            (values s.chunks)))
        limit)

unfoldable pub save_indexing_dead_letter : IndexingDeadLetter → Exec MockDomainStore (Unit {0})
save_indexing_dead_letter r s =
    if contains r.dead_letter_id s.dead_letters
    then (raised value_error, s)
    else (ok tt, record s { dead_letters = insert r.dead_letter_id r s.dead_letters })

unfoldable pub dead_letter_after : IndexingDeadLetter → IndexingDeadLetter → Bool
dead_letter_after a b = stamp_ltb b.created_at b.dead_letter_id a.created_at a.dead_letter_id

unfoldable pub list_indexing_dead_letters :
    Text → Option ℤ → Exec MockDomainStore (List IndexingDeadLetter)
list_indexing_dead_letters community_id limit = do
  require_community community_id
  raise_if (is_negative_limit limit) value_error
  gets (λ s.
      limited
        (sort_by dead_letter_after
          (keep (λ d. d.community_id == community_id) (values s.dead_letters)))
        limit)

unfoldable pub get_indexing_dead_letter : Text → MockDomainStore → Option IndexingDeadLetter
get_indexing_dead_letter dead_letter_id s = lookup dead_letter_id s.dead_letters
