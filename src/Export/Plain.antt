-- ===== src/Export/Plain.antt =====
-- core/export/serializers.py, `serialize_txt`.
use diary_memory_service.Base.{ℕ, Bool, false, List, [], ◌∷◌, ◌++◌, length, nat_beq, if◌then◌else◌}
use diary_memory_service.Base.Text.{Text, codes, join}
use diary_memory_service.Base.Decimal.{decimal}
use diary_memory_service.Exec.{Result}
use diary_memory_service.Models.{DateTime, SourceMessage, route_value, datetime_isoformat}
use diary_memory_service.Export.Json.{encode_utf8, schema_version}

unfoldable pub txt_block : SourceMessage → Text
txt_block m = join (codes "\n") (
    (codes "source_message_id: " ++ m.source_message_id)
    ∷ (codes "created_at: " ++ datetime_isoformat m.created_at)
    ∷ (codes "detected_route: " ++ route_value m.detected_route)
    ∷ (codes "external_chat_id: " ++ m.external_chat_id)
    ∷ (codes "external_message_id: " ++ m.external_message_id)
    ∷ (codes "edit_seq: " ++ decimal m.edit_seq)
    ∷ (codes "author_user_id: " ++ m.author_user_id)
    ∷ codes "raw_text:"
    ∷ m.raw_text
    ∷ [])

unfoldable pub header_lines : ℕ → Text → Text → DateTime → List Text
header_lines count community_id requester_user_id generated_at =
    codes "# raw export"
    ∷ codes "# format: txt"
    ∷ (codes "# schema_version: " ++ decimal schema_version)
    ∷ (codes "# community_id: " ++ community_id)
    ∷ (codes "# requester_user_id: " ++ requester_user_id)
    ∷ (codes "# generated_at: " ++ datetime_isoformat generated_at)
    ∷ (codes "# record_count: " ++ decimal count)
    ∷ []

-- A blank part after each block.
unfoldable pub record_parts : List SourceMessage → List Text
record_parts [] = []
record_parts (m ∷ ms) = txt_block m ∷ [] ∷ record_parts ms

-- `text.endswith("\n")`
abbrev ends_with_newline : Text → Bool
ends_with_newline [] = false
ends_with_newline (c ∷ []) = nat_beq c b'\n'
ends_with_newline (c ∷ d ∷ s) = ends_with_newline (d ∷ s)

abbrev closed : Text → Text
closed text = if ends_with_newline text then text else text ++ codes "\n"

unfoldable pub txt_document : List SourceMessage → Text → Text → DateTime → Text
txt_document messages community_id requester generated_at = closed (
    join (codes "\n") (
      join (codes "\n") (header_lines (length messages) community_id requester generated_at)
      ∷ []
      ∷ record_parts messages))

unfoldable pub serialize_txt : List SourceMessage → Text → Text → DateTime → Result (List ℕ)
serialize_txt messages community_id requester generated_at =
    encode_utf8 (txt_document messages community_id requester generated_at)
