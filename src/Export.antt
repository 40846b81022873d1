-- ===== src/Export.antt =====
-- The raw export: src/memory_rag/core/export/models.py, core/export/serializers.py and
-- services/export_service.py.
pub mod Json
pub mod Plain
use diary_memory_service.Base.{ℕ, Option, none, List, ◌++◌, length}
use diary_memory_service.Base.Text.{Text, codes}
use diary_memory_service.Exec.{Result, ok, raised, Exec, lift, ◌>>=◌, ◌>>◌}
use diary_memory_service.Models.{DateTime, SourceMessage, datetime_stamp}
use diary_memory_service.Store.{MockDomainStore, require_community}
use diary_memory_service.Store.Sources.{list_source_messages}
use diary_memory_service.Export.Json.{serialize_json}
use diary_memory_service.Export.Plain.{serialize_txt}

pub data ExportFormat : Type 0 where
  json txt : ExportFormat

pub record ExportPayload : Type 0 where
  pub content : List ℕ
  pub filename : Text
  pub media_type : Text
  pub format : ExportFormat
  pub record_count : ℕ
  pub generated_at : DateTime
  pub community_id : Text
  pub requester_user_id : Text

unfoldable pub filename_of : Text → DateTime → Text → Text
filename_of community_id generated_at extension =
    codes "raw_export_"
    ++ (community_id ++ (codes "_" ++ (datetime_stamp generated_at ++ (codes "." ++ extension))))

abbrev pub media_type_of : ExportFormat → Text
media_type_of json = codes "application/json"
media_type_of txt = codes "text/plain; charset=utf-8"

abbrev pub extension_of : ExportFormat → Text
extension_of json = codes "json"
extension_of txt = codes "txt"

abbrev pub content_of : ExportFormat → List SourceMessage → Text → Text → DateTime → Result (List ℕ)
content_of json = serialize_json
content_of txt = serialize_txt

abbrev payload_of :
    List SourceMessage
    → Text
    → Text
    → ExportFormat
    → DateTime
    → Result (List ℕ)
    → Result ExportPayload
payload_of messages community_id requester format now (raised e) = raised e
payload_of messages community_id requester format now (ok content) = ok (record {
  content = content;
  filename = filename_of community_id now (extension_of format);
  media_type = media_type_of format;
  format = format;
  record_count = length messages;
  generated_at = now;
  community_id = community_id;
  requester_user_id = requester;
})

unfoldable pub export : Text → Text → ExportFormat → DateTime → Exec MockDomainStore ExportPayload
export community_id requester format now = do
  require_community community_id
  messages ← list_source_messages community_id none
  lift (
      payload_of messages community_id requester format now
        (content_of format messages community_id requester now))
