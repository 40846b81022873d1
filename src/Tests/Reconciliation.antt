-- ===== src/Tests/Reconciliation.antt =====
-- The retry of a note whose embedding has failed.
use diary_memory_service.Base.{◌≡◌, refl, none, some, [], ◌∷◌, All, length}
use diary_memory_service.Base.Text.{codes}
use diary_memory_service.Exec.{ok}
use diary_memory_service.Models.{EventChunk, active, failed}
use diary_memory_service.Store.{MockDomainStore, empty_store}
use diary_memory_service.Store.Chunks.{list_failed_event_chunks}
use diary_memory_service.DomainService.Ingest.{ingest}
use diary_memory_service.Reconciliation.{
  RetryOutcomeReport, RetryDraws, attempted_chunks, retry_failed_chunks,
}
use diary_memory_service.Reconciliation.Total.{IsReported, retry_failed_chunks_total}
use diary_memory_service.Retrieval.Distinct.{AllApart}
use diary_memory_service.Running.{running}
use diary_memory_service.Samples.{sample_dates, working_client, broken_client, draws_at, first_note}

abbrev failed_store : MockDomainStore
failed_store = (ingest sample_dates (some broken_client) (draws_at 1) first_note empty_store).1

abbrev failed_chunk : EventChunk
failed_chunk = record {
  chunk_id = b'c' ∷ 1 ∷ [];
  note_id = b'n' ∷ 1 ∷ [];
  source_message_id = b's' ∷ 1 ∷ [];
  community_id = codes "chat";
  author_user_id = codes "ann";
  note_date = record { year = 2026; month = 5; day = 9 };
  event_index = 0;
  chunk_text = codes "walked today";
  created_at = 1;
  embedding_status = failed;
  subject_id = none;
  lifecycle_state = active;
  supersedes_chunk_id = none;
}

abbrev retry_draws : RetryDraws
retry_draws = record {
  now = 3;
  embedding_record_id = λ source i. b'r' ∷ i ∷ source;
  dead_letter_id = λ source. b'd' ∷ source;
}

failed_listed :
    list_failed_event_chunks (codes "chat") none failed_store
    ≡ (ok (failed_chunk ∷ []), failed_store)
unfolding running
failed_listed = refl

retry_failed_chunks_total_example :
    let x =
      retry_failed_chunks (some working_client) retry_draws (codes "chat") none failed_store in
    (report : RetryOutcomeReport) × (x.0 ≡ ok report)
    × (attempted_chunks report.groups ≡ length (failed_chunk ∷ []))
    × AllApart (λ o. o.source_message_id) report.groups
    × All (IsReported working_client (failed_chunk ∷ []) x.1) report.groups
retry_failed_chunks_total_example =
    retry_failed_chunks_total working_client retry_draws (codes "chat") none failed_store
      (failed_chunk ∷ []) failed_listed
