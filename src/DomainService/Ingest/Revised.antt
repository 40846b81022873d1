-- ===== src/DomainService/Ingest/Revised.antt =====
-- The active notes of the messages after a new revision: services/domain_service.py, `ingest`.
use diary_memory_service.Base.{
  false, ◌≡◌, refl, ap, ◌∙◌, Option, none, some, length, text_eq, message_key_eq, arith,
}
use diary_memory_service.Base.Text.{Text, is_empty}
use diary_memory_service.Base.Dict.{lookup, insert, lookup-insert_fresh}
use diary_memory_service.Exec.{Exec, for_each, ◌>>=◌}
use diary_memory_service.Exec.Invariants.{
  Preserves, returned-then, bind-Preserves, for_each-Preserves,
}
use diary_memory_service.Models.{InboundMessage, Note, EventChunk, IngestResult, superseded}
use diary_memory_service.Parser.{ParsedNote}
use diary_memory_service.Store.{MockDomainStore}
use diary_memory_service.Store.Notes.{active_notes_for, is_active_note_for, save_note}
use diary_memory_service.Store.Chunks.{save_event_chunk, save_event_chunks}
use diary_memory_service.Store.Active.{
  IsFound, length-keep-insert, length-keep-insert_outside, length-keep-insert_any, inactive-fails,
}
use diary_memory_service.DomainService.{EmbeddingClient, Draws}
use diary_memory_service.DomainService.Ingest.{
  new_note, new_chunks, supersede_chunk, supersede_note, ingest_revision,
}
use diary_memory_service.DomainService.Ingest.Writes.{after_note-Preserves}
use diary_memory_service.DomainService.Ingest.Embedded.{
  KeepsEmbeddings, embedded, embedded-Preserves,
}
use diary_memory_service.DomainService.Ingest.Prior.{
  IsOwned, chunks_saved, chunk_superseded, note_superseded,
}
use diary_memory_service.DomainService.Ingest.Single.{IsSingle, IsSingle-flips, IsSingle-embeddings}

module _ (client : Option EmbeddingClient) (draws : Draws) (message : InboundMessage) (id : Text)
    (parsed : ParsedNote) (s : MockDomainStore) where
  -- The call leaves the message of a chat of a community with one active note at most.
  abbrev LeavesSingle : Text → Text → Text → Exec MockDomainStore IngestResult → Type 0
  LeavesSingle chat m c call = IsSingle chat m c (call s).1

  abbrev revision : Option Note → Option EventChunk → Exec MockDomainStore IngestResult
  revision note chunk = ingest_revision client draws message id parsed note chunk

  module _ (chat m c : Text) where
    -- What follows the note's row keeps the message so.
    rest-IsSingle :
        (note : Option Note) (chunk : Option EventChunk)
        → IsSingle chat m c (save_note (new_note draws message id parsed note) s).1
        → IsSingle chat m c (revision note chunk s).1
    unfolding ingest_revision save_event_chunks active_notes_for save_note new_note
    rest-IsSingle note chunk few =
        after_note-Preserves (IsSingle chat m c) (IsSingle-embeddings chat m c) client draws
          message.community_id id parsed (IsSingle-flips chat m c) (λ x t h. h)
          (new_chunks draws message id parsed chunk) note chunk
          (record s {
            notes = insert draws.note_id (new_note draws message id parsed note) s.notes;
          })
          few

    -- A new note that is not the message's leaves the message as it was.
    pub revision_other :
        (note : Option Note) (chunk : Option EventChunk)
        → is_active_note_for s.sources chat m c (new_note draws message id parsed note) ≡ false
        → IsSingle chat m c s
        → IsSingle chat m c (revision note chunk s).1
    unfolding active_notes_for save_note
    revision_other note chunk other few = rest-IsSingle note chunk (
        omega (
          arith,
          few,
          length-keep-insert_outside (is_active_note_for s.sources chat m c)
              (new_note draws message id parsed note).note_id
              (new_note draws message id parsed note) s.notes other,
        ))

    -- Where the message has no active note, it has one at most after the new note.
    pub revision_first :
        (chunk : Option EventChunk)
        → length (active_notes_for chat m c s) ≡ 0
        → IsSingle chat m c (revision none chunk s).1
    unfolding active_notes_for save_note
    revision_first chunk empty = rest-IsSingle none chunk (
        omega (
          arith,
          empty,
          length-keep-insert_any (is_active_note_for s.sources chat m c)
              (new_note draws message id parsed none).note_id
              (new_note draws message id parsed none) s.notes,
        ))

  abbrev IsOwnSingle : MockDomainStore → Type 0
  IsOwnSingle = IsSingle message.external_chat_id message.external_message_id message.community_id

  -- Where there was no active note, what holds with the new rows holds in the end.
  pub revision_first-ends :
      (P : MockDomainStore → Type 0)
      → KeepsEmbeddings P
      → ((x : EventChunk) → Preserves P (save_event_chunk x))
      → P (save_note (new_note draws message id parsed none) s).1
      → P (revision none none s).1
  unfolding ingest_revision save_event_chunks supersede_chunk supersede_note save_note new_chunks
  revision_first-ends P r saved p =
      let chunks = new_chunks draws message id parsed none in
      bind-Preserves P (for_each save_event_chunk chunks)
        (λ u. embedded client draws message.community_id id parsed chunks)
        (for_each-Preserves P save_event_chunk chunks saved)
        (λ u. embedded-Preserves P r client draws message.community_id id parsed chunks)
        (save_note (new_note draws message id parsed none) s).1 p

  module _ (named : is_empty message.community_id ≡ false)
      (fresh_note : lookup draws.note_id s.notes ≡ none)
      (fresh_chunk : lookup draws.chunk_id s.chunks ≡ none) (note : Note)
      (found : IsFound message.external_chat_id message.external_message_id message.community_id s
        (some note)) where
    abbrev new_row : Note
    new_row = new_note draws message id parsed (some note)

    abbrev flipped_row : Note
    flipped_row = record note { lifecycle_state = superseded }

    prior_kept : lookup note.note_id (insert draws.note_id new_row s.notes) ≡ some note
    prior_kept =
        lookup-insert_fresh draws.note_id note.note_id new_row note s.notes fresh_note found.1

    -- The writes up to the embedding return, and leave the new note's row and the flipped prior one:
    -- what holds then, holds in the end.
    pub revision_next-ends :
        (P : MockDomainStore → Type 0) (chunk : Option EventChunk)
        → KeepsEmbeddings P
        → IsOwned message.community_id s chunk
        → ((t : MockDomainStore)
            → t.notes ≡ insert note.note_id flipped_row (insert draws.note_id new_row s.notes)
            → t.sources ≡ s.sources
            → P t)
        → P (revision (some note) chunk s).1
    unfolding ingest_revision save_event_chunks save_note new_note
    revision_next-ends P chunk r owned p =
        let c = message.community_id in
        let chunks = new_chunks draws message id parsed chunk in
        let u : MockDomainStore = record s { notes = insert draws.note_id new_row s.notes } in
        let saved = chunks_saved draws message id parsed chunk chunk c u fresh_chunk owned in
        let flipped = chunk_superseded c chunk saved.0 named saved.3 in
        let t = flipped.0 in
        let notes : t.notes ≡ u.notes = flipped.2.0 ∙ saved.2.0 in
        let sources : t.sources ≡ s.sources = flipped.2.1 ∙ saved.2.1 in
        let after : MockDomainStore = record t {
          notes = insert note.note_id flipped_row t.notes;
        } in
        let last : Exec MockDomainStore IngestResult = embedded client draws c id parsed chunks in
        let finish : Exec MockDomainStore IngestResult =
          supersede_note c (some note) >>= λ u. last in
        returned-then P (for_each save_event_chunk chunks)
          (λ u. supersede_chunk c chunk >>= λ u. finish) u tt saved.0 saved.1
          (returned-then P (supersede_chunk c chunk) (λ u. finish) saved.0 tt t flipped.1
            (returned-then P (supersede_note c (some note)) (λ u. last) t tt after
              (note_superseded message.external_chat_id message.external_message_id c note t named
                (rw sources (found.0)) (rw notes (prior_kept)))
              (embedded-Preserves P r client draws c id parsed chunks after
                (p after (ap (insert note.note_id flipped_row) notes) sources))))

    -- Where the message has one active note, the new one takes its place.
    pub revision_next :
        (chunk : Option EventChunk)
        → IsOwned message.community_id s chunk
        → IsOwnSingle s
        → IsOwnSingle (revision (some note) chunk s).1
    unfolding active_notes_for
    revision_next chunk owned few =
        let test =
          is_active_note_for s.sources message.external_chat_id message.external_message_id
            message.community_id in
        revision_next-ends IsOwnSingle chunk
          (IsSingle-embeddings message.external_chat_id message.external_message_id
            message.community_id)
          owned
          (λ t notes sources.
            rw (notes, sources)
              (omega (
                arith,
                few,
                length-keep-insert_any test draws.note_id new_row s.notes,
                length-keep-insert test note.note_id note flipped_row
                    (insert draws.note_id new_row s.notes) prior_kept found.0
                    (inactive-fails message.external_chat_id message.external_message_id
                      message.community_id s note superseded refl),
              )))
