-- ===== src/DomainService/Ingest/Frame.antt =====
-- The messages and their index, after the source row is stored: services/domain_service.py.
use diary_memory_service.Base.{
  ◌≡◌, refl, ◌∙◌, Option, none, some, List, [], ◌∷◌, map, inl, inr, ◌⊎◌, Bool-cases, arith,
}
use diary_memory_service.Base.Text.{Text}
use diary_memory_service.Exec.Laws.{read-bind}
use diary_memory_service.Exec.{◌>>=◌, Exception, Result, ok, raised}
use diary_memory_service.Models.{
  InboundMessage, Note, EventChunk, superseded, tombstoned, ready, failed, Float, is_draft,
}
use diary_memory_service.Parser.{ParsedNote, DateSyntax, parse_note}
use diary_memory_service.Store.{MockDomainStore}
use diary_memory_service.Store.Notes.{
  get_active_note_for_external_message, mark_note_superseded, mark_note_tombstoned,
}
use diary_memory_service.Store.Chunks.{
  mark_chunk_superseded, mark_chunk_tombstoned, set_chunk_embedding_status,
}
use diary_memory_service.Store.Frame.{
  SameSources, for_each-SameSources, save_note-SameSources, mark_note-SameSources,
  mark_chunk-SameSources, set_chunk_embedding_status-SameSources,
  save_indexing_dead_letter-SameSources, save_event_chunks-SameSources,
  save_embedding_records-SameSources, get_active_note-state, get_active_chunk-state,
}
use diary_memory_service.DomainService.{EmbeddingClient, Draws}
use diary_memory_service.DomainService.Embedding.{
  embedding_failed, embedding_ok, embedding_ended, embed_chunks,
}
use diary_memory_service.DomainService.Deletion.{
  tombstone_chunk, tombstone_note, tombstone_active_note_for_external_message,
}
use diary_memory_service.DomainService.Ingest.{
  ingest_draft, prior_chunk_of, supersede_chunk, supersede_note, embed_new, ingest_revision,
  ingest_parsed, ingest_if_parsed, ingest_fresh,
}

module _ (s : MockDomainStore) where
  tombstone_chunk-SameSources :
      (c : Text) (chunk : Option EventChunk) → SameSources s (tombstone_chunk c chunk s).1
  unfolding tombstone_chunk mark_chunk_tombstoned
  tombstone_chunk-SameSources c none = (refl, refl)
  tombstone_chunk-SameSources c (some chunk) = mark_chunk-SameSources s tombstoned chunk.chunk_id c

  supersede_chunk-SameSources :
      (c : Text) (chunk : Option EventChunk) → SameSources s (supersede_chunk c chunk s).1
  unfolding supersede_chunk mark_chunk_superseded
  supersede_chunk-SameSources c none = (refl, refl)
  supersede_chunk-SameSources c (some chunk) = mark_chunk-SameSources s superseded chunk.chunk_id c

  supersede_note-SameSources :
      (c : Text) (note : Option Note) → SameSources s (supersede_note c note s).1
  unfolding supersede_note mark_note_superseded
  supersede_note-SameSources c none = (refl, refl)
  supersede_note-SameSources c (some note) = mark_note-SameSources s superseded note.note_id c

  pub prior_chunk_of-state : (c : Text) (note : Option Note) → (prior_chunk_of c note s).1 ≡ s
  unfolding prior_chunk_of
  prior_chunk_of-state c none = refl
  prior_chunk_of-state c (some note) = get_active_chunk-state s note.note_id c

  mark_note_tombstoned-SameSources : (id c : Text) → SameSources s (mark_note_tombstoned id c s).1
  unfolding mark_note_tombstoned
  mark_note_tombstoned-SameSources id c = mark_note-SameSources s tombstoned id c

pub tombstone_note-SameSources :
    (c : Text) (note : Option Note) (s : MockDomainStore)
    → SameSources s (tombstone_note c note s).1
unfolding tombstone_note
tombstone_note-SameSources c none s = (refl, refl)
tombstone_note-SameSources c (some note) s =
    grind
      (arith, get_active_chunk-state, tombstone_chunk-SameSources, mark_note_tombstoned-SameSources)

pub tombstone_active-SameSources :
    (chat message c : Text) (s : MockDomainStore)
    → SameSources s (tombstone_active_note_for_external_message chat message c s).1
unfolding tombstone_active_note_for_external_message
tombstone_active-SameSources chat message c s =
    grind (arith, get_active_note-state, tombstone_note-SameSources)

module _ (client : EmbeddingClient) (draws : Draws) (chunks : List EventChunk) (i c : Text)
    (s : MockDomainStore) where
  embedding_failed-SameSources :
      (e : Exception) → SameSources s (embedding_failed client draws chunks i c e s).1
  unfolding embedding_failed
  embedding_failed-SameSources e = grind (
    arith,
    save_indexing_dead_letter-SameSources,
    for_each-SameSources (λ (k : EventChunk). set_chunk_embedding_status k.chunk_id failed) chunks s
        (λ k t. set_chunk_embedding_status-SameSources t k.chunk_id failed),
  )

  embedding_ok-SameSources :
      (vectors : List (List Float))
      → SameSources s (embedding_ok client draws chunks i c vectors s).1
  unfolding embedding_ok
  embedding_ok-SameSources vectors = grind (
    arith,
    save_embedding_records-SameSources,
    λ (t : MockDomainStore).
        for_each-SameSources (λ (k : EventChunk). set_chunk_embedding_status k.chunk_id ready)
          chunks t (λ k u. set_chunk_embedding_status-SameSources u k.chunk_id ready),
  )

  embedding_ended-SameSources :
      (r : Result (List (List Float)))
      → SameSources s (embedding_ended client draws chunks i c r s).1
  embedding_ended-SameSources (raised e) = embedding_failed-SameSources e
  embedding_ended-SameSources (ok vectors) = embedding_ok-SameSources vectors

  embed_chunks-SameSources : SameSources s (embed_chunks client draws chunks i c s).1
  unfolding embed_chunks
  embed_chunks-SameSources =
      embedding_ended-SameSources (client.embed (map (λ k. k.chunk_text) chunks))

embed_new-SameSources :
    (client : Option EmbeddingClient) (draws : Draws) (chunks : List EventChunk) (i c : Text)
    (s : MockDomainStore)
    → SameSources s (embed_new client draws chunks i c s).1
unfolding embed_new
embed_new-SameSources none draws chunks i c s = (refl, refl)
embed_new-SameSources (some client) draws [] i c s = (refl, refl)
embed_new-SameSources (some client) draws (k ∷ ks) i c s =
    embed_chunks-SameSources client draws (k ∷ ks) i c s

pub ingest_revision-SameSources :
    (client : Option EmbeddingClient) (draws : Draws) (message : InboundMessage) (i : Text)
    (parsed : ParsedNote) (prior_note : Option Note) (prior_chunk : Option EventChunk)
    (s : MockDomainStore)
    → SameSources s (ingest_revision client draws message i parsed prior_note prior_chunk s).1
unfolding ingest_revision
ingest_revision-SameSources client draws message i parsed prior_note prior_chunk s = grind (
  arith, save_note-SameSources, save_event_chunks-SameSources, supersede_chunk-SameSources,
  supersede_note-SameSources, embed_new-SameSources,
)

pub ingest_parsed-SameSources :
    (client : Option EmbeddingClient) (draws : Draws) (message : InboundMessage) (i : Text)
    (parsed : ParsedNote) (s : MockDomainStore)
    → SameSources s (ingest_parsed client draws message i parsed s).1
unfolding ingest_parsed
ingest_parsed-SameSources client draws message i parsed s =
    grind (arith, get_active_note-state, prior_chunk_of-state, ingest_revision-SameSources)

pub ingest_if_parsed-SameSources :
    (client : Option EmbeddingClient) (draws : Draws) (message : InboundMessage) (i : Text)
    (parsed : Option ParsedNote) (s : MockDomainStore)
    → SameSources s (ingest_if_parsed client draws message i parsed s).1
ingest_if_parsed-SameSources client draws message i none s = (refl, refl)
ingest_if_parsed-SameSources client draws message i (some parsed) s =
    ingest_parsed-SameSources client draws message i parsed s

pub ingest_draft-SameSources :
    (message : InboundMessage) (i : Text) (s : MockDomainStore)
    → SameSources s (ingest_draft message i s).1
unfolding ingest_draft
ingest_draft-SameSources message i s = grind (arith, tombstone_active-SameSources)

pub ingest_fresh-SameSources :
    (ds : DateSyntax) (client : Option EmbeddingClient) (draws : Draws) (message : InboundMessage)
    (i : Text) (s : MockDomainStore)
    → SameSources s (ingest_fresh ds client draws message i s).1
unfolding ingest_fresh
ingest_fresh-SameSources ds client draws message i s = elim (Bool-cases (is_draft message.route)) [
  | inl e ↦ rw e (ingest_draft-SameSources message i s)
  | inr e ↦
      rw e (ingest_if_parsed-SameSources client draws message i (parse_note ds message.payload) s)
]

-- The two lookups only read: `ingest_parsed` raises and changes nothing, or it goes on to store the
-- revision with the prior note and chunk that they found.
pub ingest_parsed-cases :
    (client : Option EmbeddingClient) (draws : Draws) (message : InboundMessage) (i : Text)
    (parsed : ParsedNote) (s : MockDomainStore)
    → ((e : Exception) × (ingest_parsed client draws message i parsed s ≡ (raised e, s)))
      ⊎ ((prior_note : Option Note) × (prior_chunk : Option EventChunk)
          × (get_active_note_for_external_message message.external_chat_id
                message.external_message_id message.community_id s
              ≡ (ok prior_note, s))
          × (prior_chunk_of message.community_id prior_note s ≡ (ok prior_chunk, s))
          × (ingest_parsed client draws message i parsed s
              ≡ ingest_revision client draws message i parsed prior_note prior_chunk s))
unfolding ingest_parsed
ingest_parsed-cases client draws message i parsed s =
    elim (read-bind
      (get_active_note_for_external_message message.external_chat_id message.external_message_id
        message.community_id)
      (λ n. prior_chunk_of message.community_id n >>= λ c.
        ingest_revision client draws message i parsed n c)
      s (get_active_note-state s _ _ _)) [
        | inl (e, p, q) ↦ inl (e, q)
        | inr (n, p, q) ↦
            elim (read-bind (prior_chunk_of message.community_id n)
              (λ c. ingest_revision client draws message i parsed n c) s
              (prior_chunk_of-state s message.community_id n)) [
                | inl (e, p', q') ↦ inl (e, q ∙ q')
                | inr (c, p', q') ↦ inr (n, c, p, p', q ∙ q')
              ]
      ]
