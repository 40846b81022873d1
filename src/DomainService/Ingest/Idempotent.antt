-- ===== src/DomainService/Ingest/Idempotent.antt =====
-- A second delivery of a stored message (R-2), services/domain_service.py.
use diary_memory_service.Base.{
  true, false, ◌≡◌, sym, ◌∙◌, ap, subst, ==-refl, text_eq, message_key_eq, Option, none, some, List,
  [], ◌∷◌, ◌++◌, map, length, inl, inr, Bool-cases, arith,
}
use diary_memory_service.Base.Text.{Text, is_empty}
use diary_memory_service.Base.Dict.{lookup, lookup-insert_self}
use diary_memory_service.Exec.{Result, ok}
use diary_memory_service.Models.{
  Date, InboundMessage, SourceMessage, EventChunk, FallbackMode, IngestResult, is_draft,
}
use diary_memory_service.Parser.{DateSyntax, ParsedNote, parse_note}
use diary_memory_service.Store.{MockDomainStore}
use diary_memory_service.Store.Sources.{source_key, put_source}
use diary_memory_service.Store.Frame.{SameSources}
use diary_memory_service.Store.Heads.{
  note_heads, chunk_heads, chunk_head, head_date, count_heads, date-get_note, count-chunks,
}
use diary_memory_service.DomainService.{EmbeddingClient, Draws}
use diary_memory_service.DomainService.Ingest.{
  candidate_source, plain_result, invalid_result, reconstruct_result, new_chunks, ingest_draft,
  ingest_parsed, ingest_if_parsed, ingest_fresh, ingest,
}
use diary_memory_service.DomainService.Ingest.Heads.{stored_result, ingest_parsed-heads}
use diary_memory_service.DomainService.Ingest.Replay.{
  message_key, ingest_known, ingest_new, ingest_new-SameSources,
}

head_date-append :
    (id : Text) (d : Date) (hs : List (Text × Date))
    → head_date id hs ≡ none
    → head_date id (hs ++ (id, d) ∷ []) ≡ some d
head_date-append id d [] h = rw (==-refl id)
head_date-append id d ((i, e) ∷ hs) h = ground (arith, head_date-append id d hs)

count-new_chunks :
    (draws : Draws) (message : InboundMessage) (i : Text) (parsed : ParsedNote)
    (prior : Option EventChunk) (hs : List Text)
    → count_heads i hs ≡ 0
    → count_heads i (hs ++ map chunk_head (new_chunks draws message i parsed prior))
      ≡ length (new_chunks draws message i parsed prior)
unfolding new_chunks
count-new_chunks draws message i parsed prior [] h = elim (Bool-cases (is_empty parsed.body)) [
  | inl e ↦ rw e
  | inr e ↦ rw (e, ==-refl i)
]
count-new_chunks draws message i parsed prior (j ∷ hs) h =
    ground (arith, count-new_chunks draws message i parsed prior hs)

module _ (m : SourceMessage) (t : MockDomainStore) where
  reconstruct_draft :
      is_draft m.detected_route ≡ true
      → reconstruct_result m t ≡ (ok (plain_result m.source_message_id true), t)
  unfolding reconstruct_result
  reconstruct_draft h = rw h

  reconstruct_invalid :
      is_draft m.detected_route ≡ false
      → head_date m.source_message_id (note_heads t) ≡ none
      → reconstruct_result m t ≡ (ok (invalid_result m.source_message_id m.raw_text true), t)
  unfolding reconstruct_result
  reconstruct_invalid h k = ground (arith, date-get_note m.source_message_id t)

  reconstruct_stored :
      (d : Date)
      → is_draft m.detected_route ≡ false
      → head_date m.source_message_id (note_heads t) ≡ some d
      → reconstruct_result m t ≡ (
        ok (record {
          fallback = FallbackMode.none;
          source_message_id = m.source_message_id;
          note_date = some d;
          events_count = count_heads m.source_message_id (chunk_heads t);
          invalid_first_line = none;
          replayed = true;
        }),
        t,
      )
  unfolding reconstruct_result
  reconstruct_stored d h k =
      ground (arith, date-get_note m.source_message_id t, count-chunks m.source_message_id t)

-- The ids that the call draws name nothing in the store yet.
pub record IsFresh (draws : Draws) (s : MockDomainStore) : Type 0 where
  pub source : lookup draws.candidate_id s.sources ≡ none
  pub note : lookup draws.note_id s.notes ≡ none
  pub chunk : lookup draws.chunk_id s.chunks ≡ none
  pub no_note : head_date draws.candidate_id (note_heads s) ≡ none
  pub no_chunk : count_heads draws.candidate_id (chunk_heads s) ≡ 0

abbrev pub replayed_result : IngestResult → IngestResult
replayed_result r = record r { replayed = true }

-- A call that returned `r` left a store from which the row gives `r` back, as a replay.
abbrev GivesBack : SourceMessage → Result IngestResult × MockDomainStore → Type 0
GivesBack m x =
    (r : IngestResult) → x.0 ≡ ok r → reconstruct_result m x.1 ≡ (ok (replayed_result r), x.1)

ingest_draft-result :
    (message : InboundMessage) (i : Text) (p : MockDomainStore) (r : IngestResult)
    → (ingest_draft message i p).0 ≡ ok r
    → r ≡ plain_result i false
unfolding ingest_draft
ingest_draft-result message i p r h = ground arith

module _ (client : Option EmbeddingClient) (draws : Draws) (message : InboundMessage)
    (p : MockDomainStore) where
  ingest_draft-GivesBack :
      is_draft message.route ≡ true
      → GivesBack (candidate_source draws message) (ingest_draft message draws.candidate_id p)
  ingest_draft-GivesBack e r h =
      reconstruct_draft (candidate_source draws message)
        (ingest_draft message draws.candidate_id p).1 e
      ∙ ap (λ x. (ok (replayed_result x), (ingest_draft message draws.candidate_id p).1))
          (sym (ingest_draft-result message draws.candidate_id p r h))

  module _ (not_draft : is_draft message.route ≡ false) (note : lookup draws.note_id p.notes ≡ none)
      (chunk : lookup draws.chunk_id p.chunks ≡ none)
      (no_note : head_date draws.candidate_id (note_heads p) ≡ none)
      (no_chunk : count_heads draws.candidate_id (chunk_heads p) ≡ 0) where
    ingest_if_parsed-GivesBack :
        (parsed : Option ParsedNote)
        → GivesBack
            (candidate_source draws message)
            (ingest_if_parsed client draws message draws.candidate_id parsed p)
    ingest_if_parsed-GivesBack none r h =
        reconstruct_invalid (candidate_source draws message) p not_draft no_note ∙ cc (h)
    ingest_if_parsed-GivesBack (some parsed) r h = stored
      where
        m : SourceMessage
        m = candidate_source draws message

        t : MockDomainStore
        t = (ingest_parsed client draws message draws.candidate_id parsed p).1

        facts :
            (prior : Option EventChunk) × (r
              ≡ stored_result draws.candidate_id parsed
                  (length (new_chunks draws message draws.candidate_id parsed prior)))
            × (note_heads t ≡ note_heads p ++ (draws.candidate_id, parsed.note_date) ∷ [])
            × (chunk_heads t
                ≡ chunk_heads p
                  ++ map chunk_head (new_chunks draws message draws.candidate_id parsed prior))
        facts =
            ingest_parsed-heads client draws message draws.candidate_id parsed p note chunk {r = r}
              h

        stored : reconstruct_result m t ≡ (ok (replayed_result r), t)
        stored =
            reconstruct_stored m t parsed.note_date not_draft (
              ap (head_date draws.candidate_id) facts.2
              ∙ head_date-append draws.candidate_id parsed.note_date (note_heads p) no_note)
            ∙ ground (
              arith,
              facts.1,
              facts.3,
              count-new_chunks draws message draws.candidate_id parsed facts.0 (chunk_heads p)
                  no_chunk,
            )

ingest_fresh-GivesBack :
    (ds : DateSyntax) (client : Option EmbeddingClient) (draws : Draws) (message : InboundMessage)
    (s : MockDomainStore)
    → IsFresh draws s
    → GivesBack (candidate_source draws message) (
        ingest_fresh ds client draws message draws.candidate_id
          (put_source (candidate_source draws message) s))
unfolding ingest_fresh put_source note_heads chunk_heads
ingest_fresh-GivesBack ds client draws message s fresh =
    elim (Bool-cases (is_draft message.route)) [
      | inl e ↦ rw e (ingest_draft-GivesBack client draws message _ e)
      | inr e ↦ rw e (
          ingest_if_parsed-GivesBack client draws message _ e fresh.note fresh.chunk fresh.no_note
            fresh.no_chunk (parse_note ds message.payload))
    ]

put_source-lookups :
    (m : SourceMessage) (s : MockDomainStore)
    → (lookup (source_key m) (put_source m s).idempotency ≡ some m.source_message_id)
      × (lookup m.source_message_id (put_source m s).sources ≡ some m)
unfolding put_source
put_source-lookups m s = (
  lookup-insert_self (source_key m) m.source_message_id s.idempotency,
  lookup-insert_self m.source_message_id m s.sources,
)

-- Whatever becomes of a call for a new message, also where it raises, the message's row is stored
-- under the drawn id, with the payload as it came, and its key leads to it.
pub ingest_persisted :
    (ds : DateSyntax) (client : Option EmbeddingClient) (draws : Draws) (message : InboundMessage)
    (s : MockDomainStore)
    → lookup (message_key message) s.idempotency ≡ none
    → let t = (ingest ds client draws message s).1 in
      (lookup (message_key message) t.idempotency ≡ some draws.candidate_id)
      × (lookup draws.candidate_id t.sources ≡ some (candidate_source draws message))
ingest_persisted ds client draws message s new =
    let same = ingest_new-SameSources ds client draws message s new in
    let stored = put_source-lookups (candidate_source draws message) s in
    (rw (same.1) (stored.0), rw (same.0) (stored.1))

-- If the delivery of a new key, with ids that name nothing yet, returned `r`, then the next delivery
-- with that key, whatever its text, route, ids and provider, returns `r` marked as a replay, and
-- changes nothing in the store.
pub ingest_again :
    (ds : DateSyntax) (client : Option EmbeddingClient) (draws : Draws) (message : InboundMessage)
    (s : MockDomainStore) (r : IngestResult) (later_client : Option EmbeddingClient)
    (later_draws : Draws) (later : InboundMessage)
    → lookup (message_key message) s.idempotency ≡ none
    → IsFresh draws s
    → (ingest ds client draws message s).0 ≡ ok r
    → message_key later ≡ message_key message
    → ingest ds later_client later_draws later (ingest ds client draws message s).1
      ≡ (ok (replayed_result r), (ingest ds client draws message s).1)
ingest_again ds client draws message s r later_client later_draws later new fresh h same =
    ingest_known ds later_client later_draws later t draws.candidate_id m
      (rw (same, same_sources.1) (put_source-lookups m s).0)
      (rw (same_sources.0) (put_source-lookups m s).1)
    ∙ subst (GivesBack m) (sym (ingest_new ds client draws message s new))
        (ingest_fresh-GivesBack ds client draws message s fresh) r h
  where
    m : SourceMessage
    m = candidate_source draws message

    t : MockDomainStore
    t = (ingest ds client draws message s).1

    same_sources : SameSources (put_source m s) t
    same_sources = ingest_new-SameSources ds client draws message s new
