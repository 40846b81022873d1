-- ===== src/Dispatcher/NoteLine.antt =====
-- services/dispatcher.py, `_normalize_note_first_line`.
use diary_memory_service.Base.{
  ◌+◌, ◌-◌, Option, none, some, List, [], ◌∷◌, ◌++◌, length, take, drop, ◌==◌, text_eq,
  if◌then◌else◌,
}
use diary_memory_service.Base.Text.{
  Text, codes, is_empty, is_space, join, lines_kept, lstrip_by, strip,
}
use diary_memory_service.Models.{InboundMessage, DateTime, datetime_date, date_isoformat}
use diary_memory_service.Parser.{DateSyntax, normalize_iso_date_token}

-- A line with the token in it replaced: the white space around it stays.
unfoldable pub with_token : Text → Text → Text
with_token raw canonical =
    let leading_len = length raw - length (lstrip_by is_space raw) in
    take leading_len raw ++ (canonical ++ drop (leading_len + length (strip raw)) raw)

-- `f"{today_iso}\n{payload}"`
abbrev with_today : DateTime → Text → Text
with_today received_at payload =
    date_isoformat (datetime_date received_at) ++ (codes "\n" ++ payload)

-- The payload with the line `raw` looked at, which stands between `before` and `rest`.
abbrev normalized_line : DateTime → Text → List Text → Text → List Text → Option Text → Text
normalized_line received_at payload before raw rest none = with_today received_at payload
normalized_line received_at payload before raw rest (some canonical) =
    if canonical == strip raw then payload else join [] (before ++ with_token raw canonical ∷ rest)

-- The loop over the lines, to the first that is not blank.
unfoldable pub normalized_lines : DateSyntax → DateTime → Text → List Text → List Text → Text
normalized_lines ds received_at payload before [] = payload
normalized_lines ds received_at payload before (raw ∷ rest) =
    let later = normalized_lines ds received_at payload (before ++ raw ∷ []) rest in
    if is_empty (strip raw)
    then later
    else normalized_line received_at payload before raw rest
        (normalize_iso_date_token ds (strip raw))

unfoldable pub normalize_note_first_line : DateSyntax → InboundMessage → InboundMessage
normalize_note_first_line ds message = record message {
  payload =
      normalized_lines ds message.received_at message.payload [] (lines_kept [] message.payload);
}
