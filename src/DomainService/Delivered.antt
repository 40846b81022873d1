-- ===== src/DomainService/Delivered.antt =====
-- The active notes of the messages over the calls of services/domain_service.py.
use diary_memory_service.Base.{
  ◌≤◌, false, ◌≡◌, Option, none, some, length, text_eq, message_key_eq, arith,
}
use diary_memory_service.Base.Text.{Text, is_empty}
use diary_memory_service.Base.Dict.{lookup}
use diary_memory_service.Exec.{ok}
use diary_memory_service.Models.{InboundMessage, Note, DeleteOutcome, is_draft}
use diary_memory_service.Parser.{ParsedNote, DateSyntax, parse_note}
use diary_memory_service.Store.{MockDomainStore, empty_store}
use diary_memory_service.Store.Notes.{active_notes_for, get_active_note_for_external_message}
use diary_memory_service.Store.Active.{lookups-Keyed}
use diary_memory_service.Store.Removal.Keys.{put_source-IsWellKeyed, purged-IsWellKeyed}
use diary_memory_service.DomainService.Rows.{hard_delete_source_message}
use diary_memory_service.DomainService.Erasure.{hard_delete-Preserves, purged-IsSingle}
use diary_memory_service.Store.Removal.Purged.{IsWellKeyed}
use diary_memory_service.DomainService.{EmbeddingClient, Draws}
use diary_memory_service.DomainService.Keys.{keyed_flips, keyed_rows}
use diary_memory_service.DomainService.Writes.{delete-Preserves}
use diary_memory_service.DomainService.Deletion.{delete_note_for_external_message}
use diary_memory_service.DomainService.Deletion.Again.{delete_again}
use diary_memory_service.DomainService.Ingest.{new_note, ingest}
use diary_memory_service.DomainService.Ingest.Idempotent.{IsFresh}
use diary_memory_service.DomainService.Ingest.Replay.{message_key}
use diary_memory_service.DomainService.Ingest.Writes.{ingest-Preserves}
use diary_memory_service.DomainService.Ingest.Single.{IsSingle, IsSingle-flips}
use diary_memory_service.DomainService.Ingest.Active.{ingest-IsSingle}
use diary_memory_service.DomainService.Ingest.Latest.{ingest_current}

-- The stores that the calls of the service lead to, where each ingest draws ids that name nothing
-- yet.
pub data Delivered (ds : DateSyntax) : MockDomainStore → Type 0 where
  nothing : Delivered ds empty_store
  ingested :
      {s : MockDomainStore}
      → Delivered ds s
      → (client : Option EmbeddingClient) (draws : Draws) (message : InboundMessage)
      → IsFresh draws s
      → Delivered ds (ingest ds client draws message s).1
  deleted :
      {s : MockDomainStore}
      → Delivered ds s
      → (chat target c : Text) → Delivered ds (delete_note_for_external_message chat target c s).1
  erased :
      {s : MockDomainStore}
      → Delivered ds s
      → (id c : Text) → Delivered ds (hard_delete_source_message id c s).1

delivered-IsWellKeyed : {ds : DateSyntax} {s : MockDomainStore} → Delivered ds s → IsWellKeyed s
delivered-IsWellKeyed nothing = (tt, tt, tt, tt, tt, tt, tt)
delivered-IsWellKeyed {ds} (ingested {s} run client draws message fresh) =
    ingest-Preserves IsWellKeyed keyed_flips (λ m s h. put_source-IsWellKeyed s h m) keyed_rows ds
      client draws message s (delivered-IsWellKeyed run)
delivered-IsWellKeyed (deleted {s} run chat target c) =
    delete-Preserves IsWellKeyed keyed_flips chat target c s (delivered-IsWellKeyed run)
delivered-IsWellKeyed (erased {s} run id c) =
    let keyed = delivered-IsWellKeyed run in
    hard_delete-Preserves IsWellKeyed id c s keyed (λ source h. purged-IsWellKeyed s h id source)
      keyed

-- After any ingests, each with ids that name nothing in the store yet, and any deletions, soft and
-- hard, from the empty store on and whether they return or raise, every message of every chat has at
-- most one active note in each community.
pub delivered-IsSingle :
    {ds : DateSyntax} {s : MockDomainStore} (run : Delivered ds s) (chat m c : Text)
    → length (active_notes_for chat m c s) ≤ 1
unfolding active_notes_for
delivered-IsSingle nothing chat m c = omega arith
delivered-IsSingle {ds} (ingested {s} run client draws message fresh) chat m c =
    ingest-IsSingle ds client draws message s fresh (delivered-IsWellKeyed run) chat m c
      (delivered-IsSingle run chat m c)
delivered-IsSingle (deleted {s} run target_chat target o) chat m c =
    delete-Preserves (IsSingle chat m c) (IsSingle-flips chat m c) target_chat target o s
      (delivered-IsSingle run chat m c)
delivered-IsSingle (erased {s} run id o) chat m c =
    hard_delete-Preserves (IsSingle chat m c) id o s (delivered-IsWellKeyed run)
      (λ source. purged-IsSingle chat m c id source s) (delivered-IsSingle run chat m c)

-- After any ingests with ids that name nothing yet and any deletions, a note of a new key that parses, in a named community, with ids that name
-- nothing yet, becomes the current revision of its message, whatever becomes of its embedding, and
-- names as superseded exactly the revision that was current before, if any.
pub delivered_current :
    {ds : DateSyntax} {s : MockDomainStore} (run : Delivered ds s) (client : Option EmbeddingClient)
    (draws : Draws) (message : InboundMessage) (parsed : ParsedNote)
    → lookup (message_key message) s.idempotency ≡ none
    → IsFresh draws s
    → is_draft message.route ≡ false
    → parse_note ds message.payload ≡ some parsed
    → is_empty message.community_id ≡ false
    → let t = (ingest ds client draws message s).1 in
      (prior : Option Note) × (get_active_note_for_external_message message.external_chat_id
          message.external_message_id message.community_id s
        ≡ (ok prior, s))
      × (get_active_note_for_external_message message.external_chat_id message.external_message_id
            message.community_id t
          ≡ (ok (some (new_note draws message draws.candidate_id parsed prior)), t))
delivered_current {ds} {s} run client draws message parsed new fresh is_note parses named =
    ingest_current ds client draws message parsed s new fresh (delivered-IsWellKeyed run) is_note
      parses named
      (ingest-IsSingle ds client draws message s fresh (delivered-IsWellKeyed run)
        message.external_chat_id message.external_message_id message.community_id
        (delivered-IsSingle run message.external_chat_id message.external_message_id
          message.community_id))

-- After any ingests with ids that name nothing yet and any deletions, a soft deletion that returns leaves the message no active note: the next one
-- reports that there is nothing to delete, and changes nothing.
pub delivered_delete :
    {ds : DateSyntax} {s : MockDomainStore} (run : Delivered ds s) (chat message c : Text)
    (r : DeleteOutcome)
    → (delete_note_for_external_message chat message c s).0 ≡ ok r
    → let t = (delete_note_for_external_message chat message c s).1 in
      delete_note_for_external_message chat message c t
      ≡ (ok (record { deleted = false; note_date = none }), t)
delivered_delete {ds} {s} run chat message c r h =
    let keyed = delivered-IsWellKeyed run in
    delete_again chat message c s r
      (lookups-Keyed (λ (n : Note). n.note_id) s.notes keyed.0 keyed.1)
      (delivered-IsSingle run chat message c) h
