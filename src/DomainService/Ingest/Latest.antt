-- ===== src/DomainService/Ingest/Latest.antt =====
-- The revision that is current after `ingest`, services/domain_service.py.
use diary_memory_service.Base.{
  true, false, ◌≡◌, refl, subst, ap, Option, none, some, head?, ◌==◌, ==-refl, eq_of_beq, text_eq,
  message_key_eq, inl, inr, Bool-cases, arith,
}
use diary_memory_service.Base.Text.{Text, is_empty}
use diary_memory_service.Base.Dict.{lookup, insert, lookup-insert, lookup-insert_self}
use diary_memory_service.Base.Sort.{sort_by}
use diary_memory_service.Exec.{ok}
use diary_memory_service.Models.{InboundMessage, Note, EventChunk, is_draft}
use diary_memory_service.Parser.{ParsedNote, DateSyntax, parse_note}
use diary_memory_service.Store.{MockDomainStore}
use diary_memory_service.Store.Sources.{put_source}
use diary_memory_service.Store.Notes.{
  active_notes_for, is_active_note_for, note_after, save_note, get_active_note_for_external_message,
}
use diary_memory_service.Store.Chunks.{
  get_active_chunk_for_note, set_chunk_embedding_status, save_indexing_dead_letter,
}
use diary_memory_service.Store.Removal.Purged.{IsWellKeyed}
use diary_memory_service.Store.Active.{
  IsFound, keep-only, lookups-Keyed, active-IsFound, found_note,
}
use diary_memory_service.DomainService.{EmbeddingClient, Draws}
use diary_memory_service.DomainService.Ingest.{
  candidate_source, prior_chunk_of, new_note, ingest_revision, ingest_parsed, ingest_fresh, ingest,
}
use diary_memory_service.DomainService.Ingest.Prior.{IsOwned, prior_chunk-IsOwned}
use diary_memory_service.DomainService.Ingest.Embedded.{KeepsEmbeddings}
use diary_memory_service.Store.Frame.{SameSources}
use diary_memory_service.DomainService.Ingest.Idempotent.{IsFresh}
use diary_memory_service.DomainService.Ingest.Replay.{
  message_key, ingest_new, ingest_new-SameSources,
}
use diary_memory_service.DomainService.Ingest.Single.{IsSingle}
use diary_memory_service.DomainService.Ingest.Active.{active-put_source}
use diary_memory_service.DomainService.Ingest.Revised.{revision_first-ends, revision_next-ends}

-- A row of the notes stays under an id.
abbrev HasNote : Text → Note → MockDomainStore → Type 0
HasNote id note s = lookup id s.notes ≡ some note

HasNote-embeddings : (id : Text) (note : Note) → KeepsEmbeddings (HasNote id note)
unfolding set_chunk_embedding_status save_indexing_dead_letter
HasNote-embeddings id note = record {
  embedding_saved = λ r s h. ground (arith, h);
  status_set = λ i status s h. ground (arith, h);
  letter_saved = λ d s h. ground (arith, h);
}

other_id :
    (s : MockDomainStore) (id : Text) (note : Note)
    → lookup id s.notes ≡ none
    → lookup note.note_id s.notes ≡ some note
    → (note.note_id == id) ≡ false
other_id s id note fresh found = elim (Bool-cases (note.note_id == id)) [
  | inl same ↦ absurd (clash (ap (λ i. lookup i s.notes) (eq_of_beq note.note_id id same)))
  | inr other ↦ other
]
  where
    clash : lookup note.note_id s.notes ≡ lookup id s.notes → ⊥
    clash p = cc

no_chunk_of_none :
    (c : Text) (s : MockDomainStore) (chunk : Option EventChunk)
    → prior_chunk_of c none s ≡ (ok chunk, s)
    → chunk ≡ none
unfolding prior_chunk_of
no_chunk_of_none c s chunk h = ground arith

module _ (client : Option EmbeddingClient) (draws : Draws) (message : InboundMessage)
    (parsed : ParsedNote) (s : MockDomainStore) (fresh_note : lookup draws.note_id s.notes ≡ none)
    (fresh_chunk : lookup draws.chunk_id s.chunks ≡ none) where
  abbrev row : Option Note → Note
  row prior = new_note draws message draws.candidate_id parsed prior

  -- The new note's row is there in the end.
  revision-HasNote :
      (prior : Option Note) (chunk : Option EventChunk)
      → is_empty message.community_id ≡ false
      → IsFound message.external_chat_id message.external_message_id message.community_id s prior
      → IsOwned message.community_id s chunk
      → prior_chunk_of message.community_id prior s ≡ (ok chunk, s)
      → HasNote draws.note_id
          (row prior)
          (ingest_revision client draws message draws.candidate_id parsed prior chunk s).1
  unfolding save_note new_note
  revision-HasNote none chunk named found owned q =
      rw (no_chunk_of_none message.community_id s chunk q) (
        revision_first-ends client draws message draws.candidate_id parsed s
          (HasNote draws.note_id (row none)) (HasNote-embeddings draws.note_id (row none))
          (λ x t h. h) (lookup-insert_self draws.note_id (row none) s.notes))
  revision-HasNote (some note) chunk named found owned q =
      revision_next-ends client draws message draws.candidate_id parsed s named fresh_note
        fresh_chunk note found (HasNote draws.note_id (row (some note))) chunk
        (HasNote-embeddings draws.note_id (row (some note))) owned
        (λ t notes sources.
          rw
            (
              notes,
              lookup-insert note.note_id draws.note_id _
                  (insert draws.note_id (row (some note)) s.notes),
              other_id s draws.note_id note fresh_note found.1,
            )
            (lookup-insert_self draws.note_id (row (some note)) s.notes))

-- In a named community the two lookups return.
note_returned :
    (chat m c : Text) (s : MockDomainStore)
    → is_empty c ≡ false
    → get_active_note_for_external_message chat m c s
      ≡ (ok (head? (sort_by note_after (active_notes_for chat m c s))), s)
unfolding get_active_note_for_external_message
note_returned chat m c s named = rw named

chunk_returned :
    (c : Text) (prior : Option Note) (s : MockDomainStore)
    → is_empty c ≡ false
    → (chunk : Option EventChunk) × (prior_chunk_of c prior s ≡ (ok chunk, s))
unfolding prior_chunk_of get_active_chunk_for_note
chunk_returned c none s named = (none, refl)
chunk_returned c (some note) s named = rw named (_, refl)

module _ (client : Option EmbeddingClient) (draws : Draws) (message : InboundMessage)
    (parsed : ParsedNote) (s : MockDomainStore) (fresh_note : lookup draws.note_id s.notes ≡ none)
    (fresh_chunk : lookup draws.chunk_id s.chunks ≡ none) (keyed : IsWellKeyed s)
    (named : is_empty message.community_id ≡ false) where
  -- The new revision names the one that was current, and its row is stored.
  ingest_parsed-HasNote :
      (prior : Option Note)
      → get_active_note_for_external_message message.external_chat_id message.external_message_id
          message.community_id s
        ≡ (ok prior, s)
      → HasNote draws.note_id
          (new_note draws message draws.candidate_id parsed prior)
          (ingest_parsed client draws message draws.candidate_id parsed s).1
  unfolding ingest_parsed
  ingest_parsed-HasNote prior p =
      let chunk = chunk_returned message.community_id prior s named in
      rw (p, chunk.1)
        (revision-HasNote client draws message parsed s fresh_note fresh_chunk prior chunk.0 named
          (subst
            (IsFound message.external_chat_id message.external_message_id message.community_id s)
            (found_note message.external_chat_id message.external_message_id message.community_id s
              prior p).1
            (active-IsFound message.external_chat_id message.external_message_id
              message.community_id s
              (lookups-Keyed (λ (n : Note). n.note_id) s.notes keyed.0 keyed.1)))
          (prior_chunk-IsOwned message.community_id prior s chunk.0 keyed chunk.1) chunk.1)

-- A note that stands under its id, and passes the test, is the one that the lookup finds, where the
-- message has one active note at most.
only_note :
    (chat m c : Text) (id : Text) (note : Note) (s : MockDomainStore)
    → is_empty c ≡ false
    → HasNote id note s
    → is_active_note_for s.sources chat m c note ≡ true
    → IsSingle chat m c s
    → get_active_note_for_external_message chat m c s ≡ (ok (some note), s)
unfolding get_active_note_for_external_message active_notes_for sort_by
only_note chat m c id note s named stored active few =
    rw (named, keep-only (is_active_note_for s.sources chat m c) id note s.notes stored active few)

new_note-active :
    (draws : Draws) (message : InboundMessage) (parsed : ParsedNote) (prior : Option Note)
    (s t : MockDomainStore)
    → SameSources (put_source (candidate_source draws message) s) t
    → is_active_note_for t.sources message.external_chat_id message.external_message_id
        message.community_id
        (new_note draws message draws.candidate_id parsed prior)
      ≡ true
unfolding is_active_note_for put_source new_note
new_note-active draws message parsed prior s t same = rw (
  same.0,
  lookup-insert_self draws.candidate_id (candidate_source draws message) s.sources,
  ==-refl message.community_id,
  ==-refl message.external_chat_id,
  ==-refl message.external_message_id,
)

module _ (ds : DateSyntax) (client : Option EmbeddingClient) (draws : Draws)
    (message : InboundMessage) (parsed : ParsedNote) (s : MockDomainStore)
    (new : lookup (message_key message) s.idempotency ≡ none) (fresh : IsFresh draws s)
    (keyed : IsWellKeyed s) (is_note : is_draft message.route ≡ false)
    (parses : parse_note ds message.payload ≡ some parsed)
    (named : is_empty message.community_id ≡ false) where
  abbrev current : MockDomainStore → Option Note
  current t = head? (
      sort_by note_after (
        active_notes_for message.external_chat_id message.external_message_id message.community_id
          t))

  ingest-HasNote :
      HasNote draws.note_id
        (new_note draws message draws.candidate_id parsed (current s))
        (ingest ds client draws message s).1
  unfolding ingest_fresh put_source
  ingest-HasNote =
      let put = put_source (candidate_source draws message) s in
      rw (ingest_new ds client draws message s new, is_note, parses)
        (ingest_parsed-HasNote client draws message parsed put fresh.note fresh.chunk keyed named
          (current s)
          (subst
            (λ ns.
              get_active_note_for_external_message message.external_chat_id
                message.external_message_id message.community_id put
              ≡ (ok (head? (sort_by note_after ns)), put))
            (active-put_source (candidate_source draws message) s message.external_chat_id
              message.external_message_id message.community_id fresh.no_note)
            (note_returned message.external_chat_id message.external_message_id message.community_id
              put named)))

  pub ingest_current :
      IsSingle message.external_chat_id message.external_message_id message.community_id
        (ingest ds client draws message s).1
      → let t = (ingest ds client draws message s).1 in
        (prior : Option Note) × (get_active_note_for_external_message message.external_chat_id
            message.external_message_id message.community_id s
          ≡ (ok prior, s))
        × (get_active_note_for_external_message message.external_chat_id message.external_message_id
              message.community_id t
            ≡ (ok (some (new_note draws message draws.candidate_id parsed prior)), t))
  ingest_current few =
      let t = (ingest ds client draws message s).1 in
      (
        current s,
        note_returned message.external_chat_id message.external_message_id message.community_id s
            named,
        only_note message.external_chat_id message.external_message_id message.community_id
            draws.note_id (new_note draws message draws.candidate_id parsed (current s)) t named
            ingest-HasNote
            (new_note-active draws message parsed (current s) s t
              (ingest_new-SameSources ds client draws message s new))
            few,
      )
