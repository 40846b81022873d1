-- ===== src/Samples/Bot.antt =====
-- Test data: a dispatcher over the sample services, a chat client that fails on demand, and the names
-- that a dispatched message unfolds.
use diary_memory_service.Base.{ℕ, Option, none, some}
use diary_memory_service.Base.Decimal.{decimal, decimal_rounds}
use diary_memory_service.Base.Int.{ℤ, pos}
use diary_memory_service.Exec.{class_name}
use diary_memory_service.Models.{
  route_value, source_value, fallback_value, date_isoformat, padded, date_of_days, datetime_date,
  datetime_isoformat, datetime_stamp, lifecycle_for,
}
use diary_memory_service.Store.Removal.{
  chunk_ids_of, hit_ids_of, embedding_keys_of, note_ids_of, hard_delete_source_message,
}
use diary_memory_service.Dispatcher.Replies.{
  format_ingest_reply, format_draft_reply, format_answer_reply, format_drafts_header,
}
use diary_memory_service.Dispatcher.NoteLine.{
  with_token, normalized_lines, normalize_note_first_line,
}
use diary_memory_service.Dispatcher.{
  Dispatcher, State, DispatchDraws, first_state, cited_chunks, update_latest_sources, dispatch_note,
  dispatch_draft, dispatch_ask, dispatch_chat, dispatch_drafts, export_format, dispatch_export,
  dispatch_delete, dispatch_sources, dispatch,
}
use diary_memory_service.Samples.{number_of, sample_dates, working_client, draws_at, first_note}
use diary_memory_service.Samples.Service.{sample_service, ask_draws}
use diary_memory_service.Samples.Chat.{sample_chat, chat_draws}

abbrev number_or_none : Option ℕ → Option ℤ
number_or_none none = none
number_or_none (some n) = some (pos n)

abbrev pub sample_dispatcher : Dispatcher
sample_dispatcher = record {
  dates = sample_dates;
  embedding_client = some working_client;
  query = sample_service;
  routed_chat = some sample_chat;
  drafts_default_limit = 5;
  drafts_max_limit = 20;
  int_of = λ t. number_or_none (number_of 0 t);
}

abbrev pub dispatch_draws : ℕ → DispatchDraws
dispatch_draws n = record {
  ingest_draws = draws_at n;
  ask_draws = ask_draws;
  chat_draws = chat_draws;
  now = n;
}

-- A name for the definitions of the dispatcher and the removal.
unfoldable pub serving : Unit {0}
unfolding decimal decimal_rounds class_name route_value source_value fallback_value date_isoformat
    padded date_of_days datetime_date datetime_isoformat datetime_stamp lifecycle_for chunk_ids_of
    hit_ids_of embedding_keys_of note_ids_of hard_delete_source_message format_ingest_reply
    format_draft_reply format_answer_reply format_drafts_header with_token normalized_lines
    normalize_note_first_line cited_chunks update_latest_sources dispatch_note dispatch_draft
    dispatch_ask dispatch_chat dispatch_drafts export_format dispatch_export dispatch_delete
    dispatch_sources dispatch
serving = tt

-- The state after the first note.
abbrev pub state_one : State
state_one = (dispatch sample_dispatcher (dispatch_draws 1) first_note first_state).1
