-- ===== src/Tests/Deletion.antt =====
-- The deletion of the sample note.
use diary_memory_service.Base.{◌≡◌, refl, true, false, some, none}
use diary_memory_service.Base.Text.{codes}
use diary_memory_service.Exec.{ok}
use diary_memory_service.Models.{DeleteOutcome}
use diary_memory_service.DomainService.Deletion.{delete_note_for_external_message}
use diary_memory_service.DomainService.Delivered.{delivered_delete}
use diary_memory_service.Tests.Ingest.{run_one}
use diary_memory_service.Running.{running}
use diary_memory_service.Samples.{store_one}

abbrev deleted_one : DeleteOutcome
deleted_one = record {
  deleted = true;
  note_date = some (record { year = 2026; month = 5; day = 9 });
}

delete_one :
    (delete_note_for_external_message (codes "chat") (codes "m1") (codes "chat") store_one).0
    ≡ ok deleted_one
unfolding running
delete_one = refl

delivered_delete_example :
    delete_note_for_external_message
      (codes "chat")
      (codes "m1")
      (codes "chat")
      (delete_note_for_external_message (codes "chat") (codes "m1") (codes "chat") store_one).1
    ≡ (
      ok (record { deleted = false; note_date = none }),
      (delete_note_for_external_message (codes "chat") (codes "m1") (codes "chat") store_one).1,
    )
delivered_delete_example =
    delivered_delete run_one (codes "chat") (codes "m1") (codes "chat") deleted_one delete_one
