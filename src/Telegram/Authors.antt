-- ===== src/Telegram/Authors.antt =====
-- adapters/telegram/author_display.py, and `_render_draft_block` of adapters/telegram/webhook.py.
use diary_memory_service.Base.{
  ℕ, ◌-◌, Option, none, some, [], ◌∷◌, ◌++◌, length, drop, ◌==◌, text_eq, if◌then◌else◌,
}
use diary_memory_service.Base.Text.{Text, codes, is_empty, strip}
use diary_memory_service.Base.Decimal.{decimal}
use diary_memory_service.Exec.{Exec, pure, gets, ◌>>=◌}
use diary_memory_service.Models.{SourceMessage, EventChunk, date_isoformat, datetime_date}
use diary_memory_service.Store.{MockDomainStore}
use diary_memory_service.Store.Sources.{get_source_message, source_key}
use diary_memory_service.Store.Traces.{get_author_display_input}

unfoldable pub present : Option Text → Option Text
present none = none
present (some value) =
    let stripped = strip value in if is_empty stripped then none else some stripped

abbrev last_eight : Text → Text
last_eight t = drop (length t - 8) t

-- The opaque floor of the chain.
unfoldable pub opaque_name : Text → Text
opaque_name author_user_id = codes "user-" ++ last_eight author_user_id

abbrev first_present : Option Text → Option Text → Text → Text
first_present (some username) first_name author_user_id = codes "@" ++ username
first_present none (some first_name) author_user_id = first_name
first_present none none author_user_id = opaque_name author_user_id

unfoldable pub resolve_author_display_name : Option Text → Option Text → Text → Text
resolve_author_display_name username first_name author_user_id =
    first_present (present username) (present first_name) author_user_id

-- The name for a snapshot, or for a missing one.
abbrev name_of_snapshot : Text → Option (Option Text × Option Text) → Text
name_of_snapshot author_user_id none = resolve_author_display_name none none author_user_id
name_of_snapshot author_user_id (some (username, first_name)) =
    resolve_author_display_name username first_name author_user_id

abbrev name_at_source : Text → Option SourceMessage → MockDomainStore → Text
name_at_source author_user_id none s = resolve_author_display_name none none author_user_id
name_at_source author_user_id (some source) s =
    name_of_snapshot author_user_id (get_author_display_input (source_key source) s)

unfoldable pub resolve_chunk_author_display : Text → EventChunk → Exec MockDomainStore Text
resolve_chunk_author_display community_id chunk = do
  source ← get_source_message chunk.source_message_id community_id
  gets (name_at_source chunk.author_user_id source)

unfoldable pub resolve_source_author_display : Text → SourceMessage → MockDomainStore → Text
resolve_source_author_display community_id source s =
    if source.community_id == community_id
    then name_at_source source.author_user_id (some source) s
    else resolve_author_display_name none none source.author_user_id

abbrev source_block : EventChunk → ℕ → ℕ → Text → Text
source_block chunk index total author =
    codes "["
    ++ (date_isoformat chunk.note_date
        ++ (codes "] ("
            ++ (decimal index
                ++ (codes "/"
                    ++ (decimal total
                        ++ (codes ")\n— " ++ (author ++ (codes "\n\n" ++ chunk.chunk_text))))))))

unfoldable pub render_source_block : Text → EventChunk → ℕ → ℕ → Exec MockDomainStore Text
render_source_block community_id chunk index total = do
  author ← resolve_chunk_author_display community_id chunk
  pure (source_block chunk index total author)

-- The memo character, the date, a dot, and the author.
unfoldable pub render_draft_block : Text → SourceMessage → MockDomainStore → Text
render_draft_block community_id draft s =
    (0x1f4dd ∷ b' ' ∷ [])
    ++ (date_isoformat (datetime_date draft.created_at)
        ++ ((b' ' ∷ 0xb7 ∷ b' ' ∷ [])
            ++ (resolve_source_author_display community_id draft s
                ++ (codes "\n\n" ++ draft.raw_text))))
