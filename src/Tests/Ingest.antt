-- ===== src/Tests/Ingest.antt =====
-- The ingestion service on the sample messages.
use diary_memory_service.Base.{
  ◌≡◌, ◌≤◌, refl, Option, none, some, ◌∷◌, [], length, message_key_eq, text_eq,
}
use diary_memory_service.Parser.{ParsedNote, parse_note}
use diary_memory_service.Base.Text.{codes}
use diary_memory_service.Base.Dict.{lookup}
use diary_memory_service.Exec.{ok}
use diary_memory_service.Models.{Note, RouteKind}
use diary_memory_service.Store.{MockDomainStore, empty_store}
use diary_memory_service.Store.Heads.{note_heads, chunk_heads}
use diary_memory_service.DomainService.Ingest.{candidate_source, ingest}
use diary_memory_service.DomainService.Ingest.Replay.{message_key, IsIndexed, ingest-IsIndexed}
use diary_memory_service.DomainService.Ingest.Idempotent.{
  IsFresh, replayed_result, ingest_again, ingest_persisted,
}
use diary_memory_service.Store.Notes.{active_notes_for, get_active_note_for_external_message}
use diary_memory_service.DomainService.Ingest.{new_note}
use diary_memory_service.DomainService.Delivered.{
  Delivered, nothing, ingested, delivered-IsSingle, delivered_current,
}
use diary_memory_service.Running.{running}
use diary_memory_service.Samples.{
  sample_dates, working_client, broken_client, draws_at, message_of, first_note, edited_note,
  result_of_one, store_one,
}

result_one :
    (ingest sample_dates (some working_client) (draws_at 1) first_note empty_store).0
    ≡ ok result_of_one
unfolding running
result_one = refl

empty_store-IsFresh : IsFresh (draws_at 1) empty_store
unfolding note_heads chunk_heads
empty_store-IsFresh = record {
  source = refl;
  note = refl;
  chunk = refl;
  no_note = refl;
  no_chunk = refl;
}

ingest_again_example :
    ingest sample_dates none (draws_at 2) (message_of RouteKind.draft 0 (codes "hello")) store_one
    ≡ (ok (replayed_result result_of_one), store_one)
ingest_again_example =
    ingest_again sample_dates (some working_client) (draws_at 1) first_note empty_store
      result_of_one none (draws_at 2) (message_of RouteKind.draft 0 (codes "hello")) refl
      empty_store-IsFresh result_one refl

empty-IsIndexed : IsIndexed empty_store
empty-IsIndexed = record { indexed = λ k id h. cc }

store_one-IsIndexed : IsIndexed store_one
store_one-IsIndexed =
    ingest-IsIndexed sample_dates (some working_client) (draws_at 1) first_note empty_store refl
      empty-IsIndexed

fresh_two : lookup (draws_at 2).candidate_id store_one.sources ≡ none
unfolding running
fresh_two = refl

ingest-IsIndexed_example :
    IsIndexed (ingest sample_dates (some broken_client) (draws_at 2) edited_note store_one).1
ingest-IsIndexed_example =
    ingest-IsIndexed sample_dates (some broken_client) (draws_at 2) edited_note store_one fresh_two
      store_one-IsIndexed

new_two : lookup (message_key edited_note) store_one.idempotency ≡ none
unfolding running
new_two = refl

ingest_persisted_example :
    let t = (ingest sample_dates (some broken_client) (draws_at 2) edited_note store_one).1 in
    (lookup (message_key edited_note) t.idempotency ≡ some (b's' ∷ 2 ∷ []))
    × (lookup (b's' ∷ 2 ∷ []) t.sources ≡ some (candidate_source (draws_at 2) edited_note))
ingest_persisted_example =
    ingest_persisted sample_dates (some broken_client) (draws_at 2) edited_note store_one new_two

pub run_one : Delivered sample_dates store_one
run_one = ingested nothing (some working_client) (draws_at 1) first_note empty_store-IsFresh

store_one-IsFresh : IsFresh (draws_at 2) store_one
unfolding running note_heads chunk_heads
store_one-IsFresh = record {
  source = refl;
  note = refl;
  chunk = refl;
  no_note = refl;
  no_chunk = refl;
}

abbrev store_two : MockDomainStore
store_two = (ingest sample_dates (some broken_client) (draws_at 2) edited_note store_one).1

delivered-IsSingle_example :
    length (active_notes_for (codes "chat") (codes "m1") (codes "chat") store_two) ≤ 1
delivered-IsSingle_example =
    delivered-IsSingle
      (ingested run_one (some broken_client) (draws_at 2) edited_note store_one-IsFresh)
      (codes "chat") (codes "m1") (codes "chat")

abbrev edited_parsed : ParsedNote
edited_parsed = record {
  note_date = record { year = 2026; month = 5; day = 10 };
  body = codes "ran today";
  first_line = codes "2026-05-10";
}

edited_parses : parse_note sample_dates edited_note.payload ≡ some edited_parsed
unfolding running
edited_parses = refl

delivered_current_example :
    (prior : Option Note) × (get_active_note_for_external_message
        (codes "chat")
        (codes "m1")
        (codes "chat")
        store_one
      ≡ (ok prior, store_one))
    × (get_active_note_for_external_message (codes "chat") (codes "m1") (codes "chat") store_two ≡ (
      ok (some (new_note (draws_at 2) edited_note (draws_at 2).candidate_id edited_parsed prior)),
      store_two,
    ))
delivered_current_example =
    delivered_current run_one (some broken_client) (draws_at 2) edited_note edited_parsed new_two
      store_one-IsFresh refl edited_parses refl
