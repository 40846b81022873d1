-- ===== src/DomainService/Ingest/Prior.antt =====
-- The flips of the prior revision in services/domain_service.py, `ingest`: where its lookups found
-- the rows, the flips raise nothing.
use diary_memory_service.Base.{
  true, false, ◌≡◌, refl, sym, Option, none, some, keep, head?, ◌==◌, text_eq, inl, inr, Bool-cases,
  arith,
}
use diary_memory_service.Base.Text.{Text, is_empty}
use diary_memory_service.Base.Dict.{lookup, insert, values, lookup-insert_fresh}
use diary_memory_service.Base.Sort.{sort_by}
use diary_memory_service.Exec.{ok, for_each}
use diary_memory_service.Models.{InboundMessage, Note, EventChunk, superseded}
use diary_memory_service.Parser.{ParsedNote}
use diary_memory_service.Store.{MockDomainStore}
use diary_memory_service.Store.Notes.{is_active_note_for, mark_note, mark_note_superseded}
use diary_memory_service.Store.Chunks.{
  save_event_chunk, is_active_chunk_of, chunk_after, get_active_chunk_for_note, mark_chunk,
  mark_chunk_superseded,
}
use diary_memory_service.Store.Removal.Purged.{IsWellKeyed}
use diary_memory_service.Store.Active.{IsChosen, chosen, lookups-Keyed, active-community}
use diary_memory_service.DomainService.{Draws}
use diary_memory_service.DomainService.Ingest.{
  prior_chunk_of, new_chunks, supersede_chunk, supersede_note,
}

-- A chunk to flip stands under its id, in the community.
abbrev pub IsOwned : Text → MockDomainStore → Option EventChunk → Type 0
IsOwned c s none = Unit
IsOwned c s (some chunk) =
    (lookup chunk.chunk_id s.chunks ≡ some chunk) × ((chunk.community_id == c) ≡ true)

-- The notes and the sources are untouched.
abbrev pub SameNotes : MockDomainStore → MockDomainStore → Type 0
SameNotes s t = (t.notes ≡ s.notes) × (t.sources ≡ s.sources)

IsChosen-IsOwned :
    (id c : Text) (s : MockDomainStore) (chunk : Option EventChunk)
    → IsChosen (λ (x : EventChunk). x.chunk_id) s.chunks (is_active_chunk_of id c) chunk_after chunk
    → IsOwned c s chunk
unfolding is_active_chunk_of
IsChosen-IsOwned id c s none h = tt
IsChosen-IsOwned id c s (some chunk) h = (h.1, ground (arith, h.0))

get_active_chunk-found :
    (id c : Text) (s : MockDomainStore) (chunk : Option EventChunk)
    → get_active_chunk_for_note id c s ≡ (ok chunk, s)
    → head? (sort_by chunk_after (keep (is_active_chunk_of id c) (values s.chunks))) ≡ chunk
unfolding get_active_chunk_for_note
get_active_chunk-found id c s chunk h = ground arith

pub prior_chunk-IsOwned :
    (c : Text) (note : Option Note) (s : MockDomainStore) (chunk : Option EventChunk)
    → IsWellKeyed s
    → prior_chunk_of c note s ≡ (ok chunk, s)
    → IsOwned c s chunk
unfolding prior_chunk_of
prior_chunk-IsOwned c none s none keyed h = tt
prior_chunk-IsOwned c none s (some chunk) keyed h = absurd cc
prior_chunk-IsOwned c (some note) s chunk keyed h = IsChosen-IsOwned note.note_id c s chunk (
    rw (sym (get_active_chunk-found note.note_id c s chunk h)) (
      chosen (λ (x : EventChunk). x.chunk_id) s.chunks (is_active_chunk_of note.note_id c)
        chunk_after (lookups-Keyed (λ (x : EventChunk). x.chunk_id) s.chunks keyed.2 keyed.3)))

saved_chunk-IsOwned :
    (c : Text) (new : EventChunk) (s : MockDomainStore) (chunk : Option EventChunk)
    → lookup new.chunk_id s.chunks ≡ none
    → IsOwned c s chunk
    → IsOwned c (record s { chunks = insert new.chunk_id new s.chunks }) chunk
saved_chunk-IsOwned c new s none fresh h = tt
saved_chunk-IsOwned c new s (some chunk) fresh h =
    (lookup-insert_fresh new.chunk_id chunk.chunk_id new chunk s.chunks fresh h.0, h.1)

-- Storing the new chunks returns.
pub chunks_saved :
    (draws : Draws) (message : InboundMessage) (id : Text) (parsed : ParsedNote)
    (prior chunk : Option EventChunk) (c : Text) (s : MockDomainStore)
    → lookup draws.chunk_id s.chunks ≡ none
    → IsOwned c s chunk
    → (t : MockDomainStore) × (for_each save_event_chunk
          (new_chunks draws message id parsed prior)
          s
        ≡ (ok tt, t))
      × SameNotes s t
      × IsOwned c t chunk
unfolding new_chunks
chunks_saved draws message id parsed prior chunk c s fresh owned =
    elim (Bool-cases (is_empty parsed.body)) [
      | inl e ↦ rw e (s, refl, (refl, refl), owned)
      | inr e ↦ rw e (_, refl, (refl, refl), saved_chunk-IsOwned c _ s chunk fresh owned)
    ]

pub chunk_superseded :
    (c : Text) (chunk : Option EventChunk) (s : MockDomainStore)
    → is_empty c ≡ false
    → IsOwned c s chunk
    → (t : MockDomainStore) × (supersede_chunk c chunk s ≡ (ok tt, t)) × SameNotes s t
unfolding supersede_chunk mark_chunk_superseded mark_chunk
chunk_superseded c none s named owned = (s, refl, (refl, refl))
chunk_superseded c (some chunk) s named owned = rw (named, owned.0, owned.1) (_, refl, (refl, refl))

-- The prior note's flip returns, and writes the note as superseded.
pub note_superseded :
    (chat message c : Text) (note : Note) (s : MockDomainStore)
    → is_empty c ≡ false
    → is_active_note_for s.sources chat message c note ≡ true
    → lookup note.note_id s.notes ≡ some note
    → supersede_note c (some note) s ≡ (
      ok tt,
      record s {
        notes = insert note.note_id (record note { lifecycle_state = superseded }) s.notes;
      },
    )
unfolding supersede_note mark_note_superseded mark_note
note_superseded chat message c note s named active stored =
    rw (named, stored, active-community chat message c s note active)
