-- ===== src/DomainService/Ingest/Active.antt =====
-- A message has one active note at most after `ingest`, services/domain_service.py, as before.
use diary_memory_service.Base.{
  true, false, ◌≡◌, refl, sym, subst, Option, none, some, List, [], ◌∷◌, keep, head?, ◌==◌,
  eq_of_beq, text_eq, message_key_eq, inl, inr, Bool-cases, Option-cases, arith, map,
}
use diary_memory_service.Base.Text.{Text, is_empty}
use diary_memory_service.Base.Dict.{Dict, lookup, insert, values, lookup-insert, lookup-insert_self}
use diary_memory_service.Base.Sort.{sort_by}
use diary_memory_service.Models.{InboundMessage, SourceMessage, Note, EventChunk, is_draft}
use diary_memory_service.Parser.{ParsedNote, DateSyntax, parse_note}
use diary_memory_service.Store.{MockDomainStore}
use diary_memory_service.Store.Sources.{put_source, get_or_create_source_message}
use diary_memory_service.Store.Notes.{active_notes_for, is_active_note_for, note_after}
use diary_memory_service.Store.Heads.{note_head, note_heads, head_date}
use diary_memory_service.Store.Removal.Purged.{IsWellKeyed}
use diary_memory_service.Store.Active.{
  IsFound, lookups-Keyed, active-IsFound, no_active, found_note,
}
use diary_memory_service.DomainService.{EmbeddingClient, Draws}
use diary_memory_service.DomainService.Writes.{ingest_draft-Preserves}
use diary_memory_service.DomainService.Ingest.{
  candidate_source, new_note, ingest_revision, ingest_parsed, ingest_if_parsed, ingest_fresh,
  ingest, reconstruct_result,
}
use diary_memory_service.DomainService.Ingest.Frame.{ingest_parsed-cases}
use diary_memory_service.DomainService.Ingest.Prior.{IsOwned, prior_chunk-IsOwned}
use diary_memory_service.DomainService.Ingest.Idempotent.{IsFresh}
use diary_memory_service.DomainService.Ingest.Replay.{message_key, ingest_new}
use diary_memory_service.DomainService.Ingest.Single.{IsSingle, IsSingle-flips}
use diary_memory_service.DomainService.Ingest.Revised.{
  revision_other, revision_first, revision_next,
}

module _ (client : Option EmbeddingClient) (draws : Draws) (message : InboundMessage)
    (parsed : ParsedNote) (s : MockDomainStore)
    (stored : lookup draws.candidate_id s.sources ≡ some (candidate_source draws message))
    (fresh_note : lookup draws.note_id s.notes ≡ none)
    (fresh_chunk : lookup draws.chunk_id s.chunks ≡ none) (keyed : IsWellKeyed s) where
  -- The new note is of the message that it was parsed from.
  new_note-message :
      (chat m c : Text) (prior : Option Note)
      → is_active_note_for s.sources chat m c
          (new_note draws message draws.candidate_id parsed prior)
        ≡ true
      → (message.external_chat_id ≡ chat)
        × (message.external_message_id ≡ m)
        × (message.community_id ≡ c)
  unfolding is_active_note_for new_note
  new_note-message chat m c prior h = ground (
    arith,
    stored,
    eq_of_beq message.external_chat_id chat,
    eq_of_beq message.external_message_id m,
    eq_of_beq message.community_id c,
  )

  revision_own :
      (note : Option Note) (chunk : Option EventChunk)
      → (is_empty message.community_id ≡ false)
        × (head? (
              sort_by note_after (
                active_notes_for message.external_chat_id message.external_message_id
                  message.community_id s))
            ≡ note)
      → IsOwned message.community_id s chunk
      → IsSingle message.external_chat_id message.external_message_id message.community_id s
      → IsSingle message.external_chat_id message.external_message_id message.community_id
          (ingest_revision client draws message draws.candidate_id parsed note chunk s).1
  revision_own none chunk (named, found) owned few =
      revision_first client draws message draws.candidate_id parsed s message.external_chat_id
        message.external_message_id message.community_id chunk
        (no_active message.external_chat_id message.external_message_id message.community_id s
          found)
  revision_own (some note) chunk (named, found) owned few =
      revision_next client draws message draws.candidate_id parsed s named fresh_note fresh_chunk
        note
        (subst (IsFound message.external_chat_id message.external_message_id message.community_id s)
          found
          (active-IsFound message.external_chat_id message.external_message_id message.community_id
            s (lookups-Keyed (λ (n : Note). n.note_id) s.notes keyed.0 keyed.1)))
        chunk owned few

  -- A message that has one active note at most has so after a parsed note of any message.
  ingest_parsed-IsSingle :
      (chat m c : Text)
      → IsSingle chat m c s
      → IsSingle chat m c (ingest_parsed client draws message draws.candidate_id parsed s).1
  ingest_parsed-IsSingle chat m c few =
      elim (ingest_parsed-cases client draws message draws.candidate_id parsed s) [
        | inl (e, p) ↦ rw p few
        | inr (note, chunk, p, q, same) ↦
            rw same
              (elim (Bool-cases (
                is_active_note_for s.sources chat m c
                  (new_note draws message draws.candidate_id parsed note))) [
                    | inl mine ↦
                        (let it = new_note-message chat m c note mine in
                          rw (sym it.0, sym it.1, sym it.2)
                            (revision_own note chunk
                              (found_note message.external_chat_id message.external_message_id
                                message.community_id s note p)
                              (prior_chunk-IsOwned message.community_id note s chunk keyed q)
                              (rw (it.0, it.1, it.2) few)))
                    | inr other ↦
                        revision_other client draws message draws.candidate_id parsed s chat m c
                          note chunk other few
                  ])
      ]

-- A source that no note names changes no note's test.
keep-put_source :
    (id : Text) (source : SourceMessage) (sources : Dict Text SourceMessage) (chat m c : Text)
    (notes : List Note)
    → head_date id (map note_head notes) ≡ none
    → keep (is_active_note_for (insert id source sources) chat m c) notes
      ≡ keep (is_active_note_for sources chat m c) notes
unfolding is_active_note_for
keep-put_source id source sources chat m c [] h = refl
keep-put_source id source sources chat m c (n ∷ ns) h =
    elim (Bool-cases (n.source_message_id == id)) [
      | inl named ↦ absurd (clash named)
      | inr other ↦ ground (
        arith,
        h,
        other,
        text_eq.equals_iff id n.source_message_id,
        text_eq.equals_iff n.source_message_id id,
        lookup-insert id n.source_message_id source sources,
        keep-put_source id source sources chat m c ns,
      )
    ]
  where
    clash : (n.source_message_id == id) ≡ true → ⊥
    clash p = cc (h, p)

pub active-put_source :
    (source : SourceMessage) (s : MockDomainStore) (chat m c : Text)
    → head_date source.source_message_id (note_heads s) ≡ none
    → active_notes_for chat m c (put_source source s) ≡ active_notes_for chat m c s
unfolding put_source note_heads active_notes_for
active-put_source source s chat m c unnamed =
    keep-put_source source.source_message_id source s.sources chat m c (values s.notes) unnamed

-- A known key changes nothing.
ingest_replayed :
    (ds : DateSyntax) (client : Option EmbeddingClient) (draws : Draws) (message : InboundMessage)
    (s : MockDomainStore) (id : Text)
    → lookup (message_key message) s.idempotency ≡ some id
    → (ingest ds client draws message s).1 ≡ s
unfolding ingest get_or_create_source_message reconstruct_result
ingest_replayed ds client draws message s id known = ground arith

module _ (ds : DateSyntax) (client : Option EmbeddingClient) (draws : Draws)
    (message : InboundMessage) (s : MockDomainStore) (fresh : IsFresh draws s)
    (keyed : IsWellKeyed s) (chat m c : Text) where
  ingest_fresh-IsSingle :
      IsSingle chat m c s
      → IsSingle chat m c
          (ingest_fresh ds client draws message draws.candidate_id
            (put_source (candidate_source draws message) s)).1
  unfolding ingest_fresh put_source
  ingest_fresh-IsSingle few = elim (Bool-cases (is_draft message.route)) [
    | inl draft ↦ rw draft (
        ingest_draft-Preserves (IsSingle chat m c) (IsSingle-flips chat m c) message
          draws.candidate_id put few_put)
    | inr note ↦ rw note (parsed (parse_note ds message.payload))
  ]
    where
      put : MockDomainStore
      put = put_source (candidate_source draws message) s

      few_put : IsSingle chat m c put
      few_put = rw (active-put_source (candidate_source draws message) s chat m c fresh.no_note) few

      parsed :
          (o : Option ParsedNote)
          → IsSingle chat m c (ingest_if_parsed client draws message draws.candidate_id o put).1
      parsed none = few_put
      parsed (some p) =
          ingest_parsed-IsSingle client draws message p put
            (lookup-insert_self draws.candidate_id (candidate_source draws message) s.sources)
            fresh.note fresh.chunk keyed chat m c few_put

  pub ingest-IsSingle : IsSingle chat m c s → IsSingle chat m c (ingest ds client draws message s).1
  ingest-IsSingle few = elim (Option-cases (lookup (message_key message) s.idempotency)) [
    | inl new ↦ rw (ingest_new ds client draws message s new) (ingest_fresh-IsSingle few)
    | inr (id, known) ↦ rw (ingest_replayed ds client draws message s id known) few
  ]
