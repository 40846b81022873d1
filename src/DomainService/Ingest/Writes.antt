-- ===== src/DomainService/Ingest/Writes.antt =====
-- An invariant that the single writes keep, an ingest keeps: services/domain_service.py, `ingest`.
use diary_memory_service.Base.{
  Bool, true, false, ◌≡◌, refl, Option, none, some, List, Bool-cases, inl, inr, if◌then◌else◌,
}
use diary_memory_service.Base.Text.{Text}
use diary_memory_service.Exec.{Exec, Result, ok, raised, key_error, for_each, ◌>>=◌}
use diary_memory_service.Exec.Invariants.{
  Preserves, bind-Preserves, for_each-Preserves, reads-Preserves,
}
use diary_memory_service.Models.{
  InboundMessage, SourceMessage, Note, EventChunk, IngestResult, superseded, is_draft,
}
use diary_memory_service.Parser.{ParsedNote, DateSyntax, parse_note}
use diary_memory_service.Store.{MockDomainStore}
use diary_memory_service.Base.{text_eq, message_key_eq}
use diary_memory_service.Base.Dict.{lookup}
use diary_memory_service.Store.Sources.{put_source, source_key, get_or_create_source_message}
use diary_memory_service.Store.Notes.{
  save_note, get_active_note_for_external_message, mark_note_superseded,
}
use diary_memory_service.Store.Chunks.{save_event_chunk, save_event_chunks, mark_chunk_superseded}
use diary_memory_service.Store.Frame.{get_active_note-state}
use diary_memory_service.DomainService.{EmbeddingClient, Draws}
use diary_memory_service.DomainService.Ingest.{
  candidate_source, reconstruct_result, prior_chunk_of, new_note, new_chunks, supersede_chunk,
  supersede_note, ingest_revision, ingest_parsed, ingest_if_parsed, ingest_fresh, ingest,
}
use diary_memory_service.DomainService.Ingest.Frame.{prior_chunk_of-state}
use diary_memory_service.DomainService.Writes.{KeepsFlips, ingest_draft-Preserves}
use diary_memory_service.DomainService.Ingest.Embedded.{
  KeepsEmbeddings, embedded, embedded-Preserves,
}

-- The writes of an ingest, apart from the flips.
pub record KeepsRows (P : MockDomainStore → Type 0) : Type 0 where
  pub note_saved : (n : Note) → Preserves P (save_note n)
  pub chunk_saved : (c : EventChunk) → Preserves P (save_event_chunk c)
  pub embeddings : KeepsEmbeddings P

module _ (P : MockDomainStore → Type 0) (f : KeepsFlips P) where
  supersede_chunk-Preserves :
      (c : Text) (chunk : Option EventChunk) → Preserves P (supersede_chunk c chunk)
  unfolding supersede_chunk mark_chunk_superseded
  supersede_chunk-Preserves c none = λ s h. h
  supersede_chunk-Preserves c (some chunk) = f.chunk_marked superseded chunk.chunk_id c

  supersede_note-Preserves : (c : Text) (note : Option Note) → Preserves P (supersede_note c note)
  unfolding supersede_note mark_note_superseded
  supersede_note-Preserves c none = λ s h. h
  supersede_note-Preserves c (some note) = f.note_marked superseded note.note_id c refl

module _ (client : Option EmbeddingClient) (draws : Draws) (c id : Text) (parsed : ParsedNote) where
  -- What follows the note's row.
  abbrev pub after_note :
      List EventChunk → Option Note → Option EventChunk → Exec MockDomainStore IngestResult
  after_note chunks note chunk = for_each save_event_chunk chunks >>= λ u.
      (supersede_chunk c chunk >>= λ u.
      (supersede_note c note >>= λ u. embedded client draws c id parsed chunks))

module _ (P : MockDomainStore → Type 0) (r : KeepsEmbeddings P) (client : Option EmbeddingClient)
    (draws : Draws) (c id : Text) (parsed : ParsedNote) where
  pub after_note-Preserves :
      KeepsFlips P
      → ((x : EventChunk) → Preserves P (save_event_chunk x))
      → (chunks : List EventChunk) (note : Option Note) (chunk : Option EventChunk)
      → Preserves P (after_note client draws c id parsed chunks note chunk)
  after_note-Preserves f saved chunks note chunk =
      let flipped : Exec MockDomainStore IngestResult =
        supersede_note c note >>= λ u. embedded client draws c id parsed chunks in
      bind-Preserves P (for_each save_event_chunk chunks)
        (λ u. supersede_chunk c chunk >>= λ u. flipped)
        (for_each-Preserves P save_event_chunk chunks saved)
        (λ u.
          bind-Preserves P (supersede_chunk c chunk) (λ u. flipped)
            (supersede_chunk-Preserves P f c chunk)
            (λ u.
              bind-Preserves P (supersede_note c note)
                (λ u. embedded client draws c id parsed chunks)
                (supersede_note-Preserves P f c note)
                (λ u. embedded-Preserves P r client draws c id parsed chunks)))

module _ (P : MockDomainStore → Type 0) (f : KeepsFlips P) (r : KeepsRows P)
    (client : Option EmbeddingClient) (draws : Draws) (message : InboundMessage) (id : Text) where
  abbrev c : Text
  c = message.community_id

  ingest_revision-Preserves :
      (parsed : ParsedNote) (note : Option Note) (chunk : Option EventChunk)
      → Preserves P (ingest_revision client draws message id parsed note chunk)
  unfolding ingest_revision save_event_chunks
  ingest_revision-Preserves parsed note chunk =
      let chunks = new_chunks draws message id parsed chunk in
      bind-Preserves P (save_note (new_note draws message id parsed note))
        (λ u. after_note client draws c id parsed chunks note chunk)
        (r.note_saved (new_note draws message id parsed note))
        (λ u.
          after_note-Preserves P r.embeddings client draws c id parsed f r.chunk_saved chunks note
            chunk)

  ingest_parsed-Preserves :
      (parsed : ParsedNote) → Preserves P (ingest_parsed client draws message id parsed)
  unfolding ingest_parsed
  ingest_parsed-Preserves parsed =
      let look =
        get_active_note_for_external_message message.external_chat_id message.external_message_id
          c in
      bind-Preserves P look
        (λ note. prior_chunk_of c note >>= ingest_revision client draws message id parsed note)
        (reads-Preserves P look
          (λ s. get_active_note-state s message.external_chat_id message.external_message_id c))
        (λ note.
          bind-Preserves P (prior_chunk_of c note)
            (ingest_revision client draws message id parsed note)
            (reads-Preserves P (prior_chunk_of c note) (λ s. prior_chunk_of-state s c note))
            (ingest_revision-Preserves parsed note))

  ingest_if_parsed-Preserves :
      (parsed : Option ParsedNote) → Preserves P (ingest_if_parsed client draws message id parsed)
  ingest_if_parsed-Preserves none = λ s h. h
  ingest_if_parsed-Preserves (some parsed) = ingest_parsed-Preserves parsed

  ingest_fresh-Preserves : (ds : DateSyntax) → Preserves P (ingest_fresh ds client draws message id)
  unfolding ingest_fresh
  ingest_fresh-Preserves ds = elim (Bool-cases (is_draft message.route)) [
    | inl draft ↦ rw draft (ingest_draft-Preserves P f message id)
    | inr note ↦ rw note (ingest_if_parsed-Preserves (parse_note ds message.payload))
  ]

reconstruct_result-state :
    (source : SourceMessage) (s : MockDomainStore) → (reconstruct_result source s).1 ≡ s
unfolding reconstruct_result
reconstruct_result-state source s = elim (Bool-cases (is_draft source.detected_route)) [
  | inl draft ↦ rw draft
  | inr note ↦ rw note
]

get_or_create-Preserves :
    (P : MockDomainStore → Type 0) (source : SourceMessage)
    → ((s : MockDomainStore) → P s → P (put_source source s))
    → Preserves P (get_or_create_source_message source)
unfolding get_or_create_source_message
get_or_create-Preserves P source put s h = go (lookup (source_key source) s.idempotency)
  where
    found :
        (o : Option SourceMessage)
        → P
            (elim o as (λ x. Result (SourceMessage × Bool) × MockDomainStore) [
              | none ↦ (raised key_error, s)
              | some existing ↦ (ok (existing, true), s)
            ]).1
    found none = h
    found (some existing) = h

    go :
        (o : Option Text)
        → P
            (elim o as (λ x. Result (SourceMessage × Bool) × MockDomainStore) [
              | none ↦ (ok (source, false), put_source source s)
              | some existing_id ↦
                  elim (lookup existing_id s.sources)
                    as (λ x. Result (SourceMessage × Bool) × MockDomainStore) [
                      | none ↦ (raised key_error, s)
                      | some existing ↦ (ok (existing, true), s)
                    ]
            ]).1
    go none = put s h
    go (some existing_id) = found (lookup existing_id s.sources)

module _ (P : MockDomainStore → Type 0) (f : KeepsFlips P)
    (put : (source : SourceMessage) (s : MockDomainStore) → P s → P (put_source source s)) where
  ingest_after-Preserves :
      (ds : DateSyntax) (client : Option EmbeddingClient) (draws : Draws) (message : InboundMessage)
      → ((id : Text) → Preserves P (ingest_fresh ds client draws message id))
      → Preserves P (ingest ds client draws message)
  unfolding ingest
  ingest_after-Preserves ds client draws message fresh =
      bind-Preserves P (get_or_create_source_message (candidate_source draws message))
        (λ stored.
          if stored.1
          then reconstruct_result stored.0
          else ingest_fresh ds client draws message stored.0.source_message_id)
        (get_or_create-Preserves P (candidate_source draws message)
          (put (candidate_source draws message)))
        (λ stored. elim (Bool-cases stored.1) [
          | inl replayed ↦
              rw replayed (
                reads-Preserves P (reconstruct_result stored.0) (reconstruct_result-state stored.0))
          | inr new ↦ rw new (fresh stored.0.source_message_id)
        ])

  -- An invariant that the rows and the flips keep, an ingest keeps.
  pub ingest-Preserves :
      KeepsRows P
      → (ds : DateSyntax) (client : Option EmbeddingClient) (draws : Draws)
        (message : InboundMessage)
      → Preserves P (ingest ds client draws message)
  ingest-Preserves r ds client draws message =
      ingest_after-Preserves ds client draws message
        (λ id. ingest_fresh-Preserves P f r client draws message id ds)

  draft_fresh-Preserves :
      (ds : DateSyntax) (client : Option EmbeddingClient) (draws : Draws) (message : InboundMessage)
      (id : Text)
      → is_draft message.route ≡ true
      → Preserves P (ingest_fresh ds client draws message id)
  unfolding ingest_fresh
  draft_fresh-Preserves ds client draws message id draft =
      rw draft (ingest_draft-Preserves P f message id)

  -- For a draft the flips alone matter.
  pub ingest-Preserves_draft :
      (ds : DateSyntax) (client : Option EmbeddingClient) (draws : Draws) (message : InboundMessage)
      → is_draft message.route ≡ true
      → Preserves P (ingest ds client draws message)
  ingest-Preserves_draft ds client draws message draft =
      ingest_after-Preserves ds client draws message
        (λ id. draft_fresh-Preserves ds client draws message id draft)
