-- ===== src/DomainService/Rows.antt =====
-- services/domain_service.py, `list_recent_drafts` and `hard_delete_source_message`. The audit
-- record that the second one writes is a log line, as are the other records of the service.
use diary_memory_service.Base.{List}
use diary_memory_service.Base.Text.{Text}
use diary_memory_service.Base.Int.{ℤ, is_below_one}
use diary_memory_service.Exec.{Exec, value_error, raise_if, ◌>>◌}
use diary_memory_service.Models.{SourceMessage, HardDeleteOutcome}
use diary_memory_service.Store.{MockDomainStore}
use diary_memory_service.Store.Sources
use diary_memory_service.Store.Removal

unfoldable pub list_recent_drafts : Text → ℤ → Exec MockDomainStore (List SourceMessage)
list_recent_drafts community_id limit = do
  raise_if (is_below_one limit) value_error
  Sources.list_recent_drafts community_id limit

unfoldable pub hard_delete_source_message : Text → Text → Exec MockDomainStore HardDeleteOutcome
hard_delete_source_message = Removal.hard_delete_source_message
