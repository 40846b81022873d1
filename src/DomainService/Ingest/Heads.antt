-- ===== src/DomainService/Ingest/Heads.antt =====
-- The notes and the chunks that a replay reads, under `ingest`: services/domain_service.py.
use mathlib.Core.List.{map-append}
use diary_memory_service.Base.{
  ℕ, false, ◌≡◌, refl, sym, ◌∙◌, ap, Option, none, some, List, [], ◌∷◌, ◌++◌, map, append-nil, inl,
  inr, length, Bool-cases, arith, text_eq,
}
use diary_memory_service.Base.Text.{Text, is_empty}
use diary_memory_service.Base.Dict.{lookup, values, values-insert_new}
use diary_memory_service.Exec.{Exception, Result, ok, raised}
use diary_memory_service.Models.{
  InboundMessage, Note, EventChunk, superseded, ready, failed, Float, FallbackMode, IngestResult,
}
use diary_memory_service.Parser.{ParsedNote}
use diary_memory_service.Store.{MockDomainStore}
use diary_memory_service.Store.Notes.{save_note, mark_note_superseded}
use diary_memory_service.Store.Chunks.{
  save_event_chunks, mark_chunk_superseded, set_chunk_embedding_status,
}
use diary_memory_service.Store.Heads.{
  SameHeads, note_heads, chunk_heads, chunk_head, for_each-SameHeads, mark_note-SameHeads,
  mark_chunk-SameHeads, set_chunk_embedding_status-SameHeads, save_indexing_dead_letter-SameHeads,
  save_embedding_records-SameHeads, save_note-heads,
}
use diary_memory_service.DomainService.{EmbeddingClient, Draws}
use diary_memory_service.DomainService.Embedding.{
  embedding_failed, embedding_ok, embedding_ended, embed_chunks,
}
use diary_memory_service.DomainService.Ingest.{
  new_note, new_chunks, supersede_chunk, supersede_note, embed_new, ingest_revision, ingest_parsed,
}
use diary_memory_service.DomainService.Ingest.Frame.{ingest_parsed-cases}

module _ (s : MockDomainStore) where
  supersede_chunk-SameHeads :
      (c : Text) (chunk : Option EventChunk) → SameHeads s (supersede_chunk c chunk s).1
  unfolding supersede_chunk mark_chunk_superseded
  supersede_chunk-SameHeads c none = (refl, refl)
  supersede_chunk-SameHeads c (some chunk) = mark_chunk-SameHeads s superseded chunk.chunk_id c

  supersede_note-SameHeads :
      (c : Text) (note : Option Note) → SameHeads s (supersede_note c note s).1
  unfolding supersede_note mark_note_superseded
  supersede_note-SameHeads c none = (refl, refl)
  supersede_note-SameHeads c (some note) = mark_note-SameHeads s superseded note.note_id c

module _ (client : EmbeddingClient) (draws : Draws) (chunks : List EventChunk) (i c : Text)
    (s : MockDomainStore) where
  embedding_failed-SameHeads :
      (e : Exception) → SameHeads s (embedding_failed client draws chunks i c e s).1
  unfolding embedding_failed
  embedding_failed-SameHeads e = grind (
    arith,
    save_indexing_dead_letter-SameHeads,
    for_each-SameHeads (λ (k : EventChunk). set_chunk_embedding_status k.chunk_id failed) chunks s
        (λ k t. set_chunk_embedding_status-SameHeads t k.chunk_id failed),
  )

  embedding_ok-SameHeads :
      (vectors : List (List Float)) → SameHeads s (embedding_ok client draws chunks i c vectors s).1
  unfolding embedding_ok
  embedding_ok-SameHeads vectors = grind (
    arith,
    save_embedding_records-SameHeads,
    λ (t : MockDomainStore).
        for_each-SameHeads (λ (k : EventChunk). set_chunk_embedding_status k.chunk_id ready) chunks
          t (λ k u. set_chunk_embedding_status-SameHeads u k.chunk_id ready),
  )

  embedding_ended-SameHeads :
      (r : Result (List (List Float))) → SameHeads s (embedding_ended client draws chunks i c r s).1
  embedding_ended-SameHeads (raised e) = embedding_failed-SameHeads e
  embedding_ended-SameHeads (ok vectors) = embedding_ok-SameHeads vectors

embed_new-SameHeads :
    (client : Option EmbeddingClient) (draws : Draws) (chunks : List EventChunk) (i c : Text)
    (s : MockDomainStore)
    → SameHeads s (embed_new client draws chunks i c s).1
unfolding embed_new embed_chunks
embed_new-SameHeads none draws chunks i c s = (refl, refl)
embed_new-SameHeads (some client) draws [] i c s = (refl, refl)
embed_new-SameHeads (some client) draws (k ∷ ks) i c s =
    embedding_ended-SameHeads client draws (k ∷ ks) i c s
      (client.embed (map (λ j. j.chunk_text) (k ∷ ks)))

-- Saving the new chunks under a fresh id puts their heads last.
save_new_chunks-heads :
    (draws : Draws) (message : InboundMessage) (i : Text) (parsed : ParsedNote)
    (prior : Option EventChunk) (s : MockDomainStore)
    → lookup draws.chunk_id s.chunks ≡ none
    → (note_heads (save_event_chunks (new_chunks draws message i parsed prior) s).1 ≡ note_heads s)
      × (chunk_heads (save_event_chunks (new_chunks draws message i parsed prior) s).1
          ≡ chunk_heads s ++ map chunk_head (new_chunks draws message i parsed prior))
      × ((save_event_chunks (new_chunks draws message i parsed prior) s).0 ≡ ok tt)
unfolding save_event_chunks new_chunks note_heads chunk_heads
save_new_chunks-heads draws message i parsed prior s fresh =
    elim (Bool-cases (is_empty parsed.body)) [
      | inl e ↦ rw e (refl, sym (append-nil _), refl)
      | inr e ↦ rw e (
        refl,
        ap (map chunk_head) (values-insert_new draws.chunk_id _ s.chunks fresh)
            ∙ map-append chunk_head (values s.chunks) _,
        refl,
      )
    ]

save_new_note-heads :
    (draws : Draws) (message : InboundMessage) (i : Text) (parsed : ParsedNote)
    (prior : Option Note) (s : MockDomainStore)
    → lookup draws.note_id s.notes ≡ none
    → (note_heads (save_note (new_note draws message i parsed prior) s).1
        ≡ note_heads s ++ (i, parsed.note_date) ∷ [])
      × (chunk_heads (save_note (new_note draws message i parsed prior) s).1 ≡ chunk_heads s)
unfolding new_note
save_new_note-heads draws message i parsed prior s fresh =
    save_note-heads s (new_note draws message i parsed prior) fresh

chunks-save_note : (note : Note) (s : MockDomainStore) → (save_note note s).1.chunks ≡ s.chunks
unfolding save_note
chunks-save_note note s = refl

-- The outcome of a revision that was stored.
abbrev pub stored_result : Text → ParsedNote → ℕ → IngestResult
stored_result i parsed n = record {
  fallback = FallbackMode.none;
  source_message_id = i;
  note_date = some parsed.note_date;
  events_count = n;
  invalid_first_line = none;
  replayed = false;
}

module _ (client : Option EmbeddingClient) (draws : Draws) (message : InboundMessage) (i : Text)
    (parsed : ParsedNote) (s : MockDomainStore) (fresh_note : lookup draws.note_id s.notes ≡ none)
    (fresh_chunk : lookup draws.chunk_id s.chunks ≡ none) where
  ingest_revision-heads :
      (prior_note : Option Note) (prior_chunk : Option EventChunk) {r : IngestResult}
      → (ingest_revision client draws message i parsed prior_note prior_chunk s).0 ≡ ok r
      → (r ≡ stored_result i parsed (length (new_chunks draws message i parsed prior_chunk)))
        × (note_heads (ingest_revision client draws message i parsed prior_note prior_chunk s).1
            ≡ note_heads s ++ (i, parsed.note_date) ∷ [])
        × (chunk_heads (ingest_revision client draws message i parsed prior_note prior_chunk s).1
            ≡ chunk_heads s ++ map chunk_head (new_chunks draws message i parsed prior_chunk))
  unfolding ingest_revision
  ingest_revision-heads prior_note prior_chunk h = grind (
    arith,
    save_new_note-heads draws message i parsed prior_note s fresh_note,
    save_new_chunks-heads draws message i parsed prior_chunk
        (save_note (new_note draws message i parsed prior_note) s).1
        (rw (chunks-save_note (new_note draws message i parsed prior_note) s) fresh_chunk),
    supersede_chunk-SameHeads,
    supersede_note-SameHeads,
    embed_new-SameHeads,
  )

  pub ingest_parsed-heads :
      {r : IngestResult}
      → (ingest_parsed client draws message i parsed s).0 ≡ ok r
      → (prior : Option EventChunk) × (r
          ≡ stored_result i parsed (length (new_chunks draws message i parsed prior)))
        × (note_heads (ingest_parsed client draws message i parsed s).1
            ≡ note_heads s ++ (i, parsed.note_date) ∷ [])
        × (chunk_heads (ingest_parsed client draws message i parsed s).1
            ≡ chunk_heads s ++ map chunk_head (new_chunks draws message i parsed prior))
  ingest_parsed-heads {r} h = elim (ingest_parsed-cases client draws message i parsed s) [
    | inl (e, p) ↦ cc (p, h)
    | inr (n, c, _, _, p) ↦
        (let heads = ingest_revision-heads n c {r = r} (ap (λ x. x.0) (sym p) ∙ h) in
          (c, heads.0, rw p heads.1, rw p heads.2))
  ]
