-- ===== src/DomainService/Ingest.antt =====
-- services/domain_service.py, `ingest` and `_reconstruct_result`.
pub mod Replay
pub mod Frame
pub mod Heads
pub mod Idempotent
pub mod Embedded
pub mod Writes
pub mod Prior
pub mod Single
pub mod Revised
pub mod Active
pub mod Latest
use diary_memory_service.Base.{
  Bool, true, false, Option, none, some, List, [], ◌∷◌, length, if◌then◌else◌,
}
use diary_memory_service.Base.Text.{Text, is_empty, strip, splitlines}
use diary_memory_service.Exec.{Exec, pure, gets, ◌>>=◌, ◌>>◌}
use diary_memory_service.Models.{
  InboundMessage, SourceMessage, Note, EventChunk, FallbackMode, invalid_input, active, pending,
  IngestResult, is_draft,
}
use diary_memory_service.Parser.{ParsedNote, DateSyntax, parse_note}
use diary_memory_service.Store.{MockDomainStore}
use diary_memory_service.Store.Sources.{get_or_create_source_message}
use diary_memory_service.Store.Notes.{
  save_note, get_note_by_source_message_id, get_active_note_for_external_message,
  mark_note_superseded,
}
use diary_memory_service.Store.Chunks.{
  save_event_chunks, count_event_chunks_for_source, get_active_chunk_for_note,
  mark_chunk_superseded,
}
use diary_memory_service.DomainService.{EmbeddingClient, Draws}
use diary_memory_service.DomainService.Embedding.{embed_chunks}
use diary_memory_service.DomainService.Deletion.{tombstone_active_note_for_external_message}

abbrev first_of : List Text → Text
first_of [] = []
first_of (line ∷ lines) = strip line

-- `text.splitlines()[0].strip() if text else ""`
unfoldable pub first_line : Text → Text
first_line text = first_of (splitlines text)

-- The row that the message asks to store.
abbrev pub candidate_source : Draws → InboundMessage → SourceMessage
candidate_source draws message = record {
  source_message_id = draws.candidate_id;
  community_id = message.community_id;
  author_user_id = message.external_user_id;
  external_chat_id = message.external_chat_id;
  external_user_id = message.external_user_id;
  external_message_id = message.external_message_id;
  edit_seq = message.edit_seq;
  raw_text = message.payload;
  detected_route = message.route;
  created_at = draws.now;
}

abbrev pub plain_result : Text → Bool → IngestResult
plain_result source_message_id replayed = record {
  fallback = FallbackMode.none;
  source_message_id = source_message_id;
  note_date = none;
  events_count = 0;
  invalid_first_line = none;
  replayed = replayed;
}

abbrev pub invalid_result : Text → Text → Bool → IngestResult
invalid_result source_message_id raw_text replayed = record {
  fallback = invalid_input;
  source_message_id = source_message_id;
  note_date = none;
  events_count = 0;
  invalid_first_line = some (first_line raw_text);
  replayed = replayed;
}

abbrev reconstructed_note : SourceMessage → Option Note → MockDomainStore → IngestResult
reconstructed_note source none s = invalid_result source.source_message_id source.raw_text true
reconstructed_note source (some note) s = record {
  fallback = FallbackMode.none;
  source_message_id = source.source_message_id;
  note_date = some note.note_date;
  events_count = count_event_chunks_for_source source.source_message_id s;
  invalid_first_line = none;
  replayed = true;
}

unfoldable pub reconstruct_result : SourceMessage → Exec MockDomainStore IngestResult
reconstruct_result source =
    if is_draft source.detected_route
    then pure (plain_result source.source_message_id true)
    else gets (λ s.
      reconstructed_note source (get_note_by_source_message_id source.source_message_id s) s)

unfoldable pub ingest_draft : InboundMessage → Text → Exec MockDomainStore IngestResult
ingest_draft message source_message_id = do
  removed ←
      tombstone_active_note_for_external_message message.external_chat_id
        message.external_message_id message.community_id
  pure (plain_result source_message_id false)

-- `get_active_chunk_for_note(...) if prior_note is not None else None`
unfoldable pub prior_chunk_of : Text → Option Note → Exec MockDomainStore (Option EventChunk)
prior_chunk_of community_id none = pure none
prior_chunk_of community_id (some note) = get_active_chunk_for_note note.note_id community_id

abbrev pub note_id_of : Option Note → Option Text
note_id_of none = none
note_id_of (some note) = some note.note_id

abbrev pub chunk_id_of : Option EventChunk → Option Text
chunk_id_of none = none
chunk_id_of (some chunk) = some chunk.chunk_id

unfoldable pub new_note : Draws → InboundMessage → Text → ParsedNote → Option Note → Note
new_note draws message source_message_id parsed prior_note = record {
  note_id = draws.note_id;
  source_message_id = source_message_id;
  community_id = message.community_id;
  author_user_id = message.external_user_id;
  note_date = parsed.note_date;
  note_text = parsed.body;
  created_at = draws.now;
  subject_id = message.subject_id;
  lifecycle_state = active;
  supersedes_note_id = note_id_of prior_note;
}

unfoldable pub new_chunks :
    Draws → InboundMessage → Text → ParsedNote → Option EventChunk → List EventChunk
new_chunks draws message source_message_id parsed prior_chunk =
    if is_empty parsed.body
    then []
    else record {
      chunk_id = draws.chunk_id;
      note_id = draws.note_id;
      source_message_id = source_message_id;
      community_id = message.community_id;
      author_user_id = message.external_user_id;
      note_date = parsed.note_date;
      event_index = 0;
      chunk_text = parsed.body;
      created_at = draws.now;
      embedding_status = pending;
      subject_id = message.subject_id;
      lifecycle_state = active;
      supersedes_chunk_id = chunk_id_of prior_chunk;
    }
      ∷ []

-- The flips of the prior revision: chunk first, then note.
unfoldable pub supersede_chunk : Text → Option EventChunk → Exec MockDomainStore (Unit {0})
supersede_chunk community_id none = pure tt
supersede_chunk community_id (some chunk) = mark_chunk_superseded chunk.chunk_id community_id

unfoldable pub supersede_note : Text → Option Note → Exec MockDomainStore (Unit {0})
supersede_note community_id none = pure tt
supersede_note community_id (some note) = mark_note_superseded note.note_id community_id

-- `if chunks and self._embedding_client is not None`
unfoldable pub embed_new :
    Option EmbeddingClient → Draws → List EventChunk → Text → Text → Exec MockDomainStore (Unit {0})
embed_new none draws chunks source_message_id community_id = pure tt
embed_new (some client) draws [] source_message_id community_id = pure tt
embed_new (some client) draws (c ∷ cs) source_message_id community_id =
    embed_chunks client draws (c ∷ cs) source_message_id community_id

-- The writes of a parsed note: the new revision first, then the flips of the prior one, then the
-- embedding.
unfoldable pub ingest_revision :
    Option EmbeddingClient
    → Draws
    → InboundMessage
    → Text
    → ParsedNote
    → Option Note
    → Option EventChunk
    → Exec MockDomainStore IngestResult
ingest_revision client draws message source_message_id parsed prior_note prior_chunk = do
  save_note (new_note draws message source_message_id parsed prior_note)
  let chunks = new_chunks draws message source_message_id parsed prior_chunk
  save_event_chunks chunks
  supersede_chunk message.community_id prior_chunk
  supersede_note message.community_id prior_note
  embed_new client draws chunks source_message_id message.community_id
  pure (record {
    fallback = FallbackMode.none;
    source_message_id = source_message_id;
    note_date = some parsed.note_date;
    events_count = length chunks;
    invalid_first_line = none;
    replayed = false;
  })

unfoldable pub ingest_parsed :
    Option EmbeddingClient
    → Draws
    → InboundMessage
    → Text
    → ParsedNote
    → Exec MockDomainStore IngestResult
ingest_parsed client draws message source_message_id parsed = do
  prior_note ←
      get_active_note_for_external_message message.external_chat_id message.external_message_id
        message.community_id
  prior_chunk ← prior_chunk_of message.community_id prior_note
  ingest_revision client draws message source_message_id parsed prior_note prior_chunk

abbrev pub ingest_if_parsed :
    Option EmbeddingClient
    → Draws
    → InboundMessage
    → Text
    → Option ParsedNote
    → Exec MockDomainStore IngestResult
ingest_if_parsed client draws message source_message_id none =
    pure (invalid_result source_message_id message.payload false)
ingest_if_parsed client draws message source_message_id (some parsed) =
    ingest_parsed client draws message source_message_id parsed

-- What follows the storing of a new row, by its route.
unfoldable pub ingest_fresh :
    DateSyntax
    → Option EmbeddingClient
    → Draws
    → InboundMessage
    → Text
    → Exec MockDomainStore IngestResult
ingest_fresh ds client draws message source_message_id =
    if is_draft message.route
    then ingest_draft message source_message_id
    else ingest_if_parsed client draws message source_message_id (parse_note ds message.payload)

unfoldable pub ingest :
    DateSyntax → Option EmbeddingClient → Draws → InboundMessage → Exec MockDomainStore IngestResult
ingest ds client draws message = do
  stored ← get_or_create_source_message (candidate_source draws message)
  (if stored.1
      then reconstruct_result stored.0
      else ingest_fresh ds client draws message stored.0.source_message_id)
