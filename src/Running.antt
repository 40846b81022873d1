-- ===== src/Running.antt =====
-- A name for all the definitions that a run of the service computes through: a test that says
-- `unfolding running` unfolds them.
use diary_memory_service.Base.Sort.{insert_sorted, sort_by}
use diary_memory_service.Base.Text.{
  chomp, is_line_break, is_space, join, lines_kept, lstrip_by, rstrip_by, splitlines, strip,
}
use diary_memory_service.DomainService.Deletion.{
  delete_note_for_external_message, tombstone_active_note_for_external_message, tombstone_chunk,
  tombstone_note,
}
use diary_memory_service.DomainService.Embedding.{
  embed_chunks, embedding_failed, embedding_ok, embedding_records,
}
use diary_memory_service.DomainService.Ingest.{
  embed_new, first_line, ingest, ingest_fresh, ingest_draft, ingest_parsed, ingest_revision,
  new_chunks, new_note, prior_chunk_of, reconstruct_result, supersede_chunk, supersede_note,
}
use diary_memory_service.Parser.{
  is_date_separator, match_dd_first, match_yyyy_first, normalize_iso_date_token, parse_note,
  split_non_empty_lines,
}
use diary_memory_service.Store.{stamp_ltb}
use diary_memory_service.Store.Chunks.{
  chunk_after, chunk_before, count_embedding_records_for_source, count_event_chunks_for_source,
  dead_letter_after, get_active_chunk_for_note, get_event_chunk, get_indexing_dead_letter,
  is_active_chunk_of, list_failed_event_chunks, list_indexing_dead_letters, mark_chunk,
  mark_chunk_superseded, mark_chunk_tombstoned, save_embedding_records, save_event_chunks,
  save_indexing_dead_letter, set_chunk_embedding_status,
}
use diary_memory_service.Store.Notes.{
  active_notes_for, get_active_note_for_external_message, get_note_by_source_message_id,
  is_active_note_for, mark_note, mark_note_superseded, mark_note_tombstoned, note_after, save_note,
}
use diary_memory_service.Store.Search.{
  chunk_in_date_range, chunk_in_subject_scope, cosine_distance, cosine_sums, dense_before,
  dense_candidates, dense_entry, dense_ranked, has_token, is_in_scope, overlap, sparse_before,
  sparse_candidates, sparse_ranked, tokenize, word_runs,
}
use diary_memory_service.Store.Sources.{
  community_sources, get_or_create_source_message, get_source_message, list_recent_drafts,
  list_source_messages, put_source, save_source_message, source_after, source_before,
}
use diary_memory_service.Store.Traces.{
  get_answer_trace_for_query, get_author_display_input, get_query, get_retrieval_hits_for_query,
  hit_before, save_answer_trace, save_author_display_input, save_query, save_retrieval_hit,
  save_retrieval_hits,
}

unfoldable pub running : Unit {0}
unfolding insert_sorted sort_by chomp is_line_break is_space join lines_kept lstrip_by rstrip_by
    splitlines strip delete_note_for_external_message tombstone_active_note_for_external_message
    tombstone_chunk tombstone_note embed_chunks embedding_failed embedding_ok embedding_records
    embed_new first_line ingest ingest_fresh ingest_draft ingest_parsed ingest_revision new_chunks
    new_note prior_chunk_of reconstruct_result supersede_chunk supersede_note is_date_separator
    match_dd_first match_yyyy_first normalize_iso_date_token parse_note split_non_empty_lines
    stamp_ltb chunk_after chunk_before count_embedding_records_for_source
    count_event_chunks_for_source dead_letter_after get_active_chunk_for_note get_event_chunk
    get_indexing_dead_letter is_active_chunk_of list_failed_event_chunks list_indexing_dead_letters
    mark_chunk mark_chunk_superseded mark_chunk_tombstoned save_embedding_records save_event_chunks
    save_indexing_dead_letter set_chunk_embedding_status active_notes_for
    get_active_note_for_external_message get_note_by_source_message_id is_active_note_for mark_note
    mark_note_superseded mark_note_tombstoned note_after save_note chunk_in_date_range
    chunk_in_subject_scope cosine_distance cosine_sums dense_before dense_candidates dense_entry
    dense_ranked has_token is_in_scope overlap sparse_before sparse_candidates sparse_ranked
    tokenize word_runs community_sources get_or_create_source_message get_source_message
    list_recent_drafts list_source_messages put_source save_source_message source_after
    source_before get_answer_trace_for_query get_author_display_input get_query
    get_retrieval_hits_for_query hit_before save_answer_trace save_author_display_input save_query
    save_retrieval_hit save_retrieval_hits
running = tt
