-- ===== src/Dispatcher.antt =====
-- The dispatcher, src/memory_rag/services/dispatcher.py, and the result that it returns,
-- core/routing/models.py.
pub mod Replies
pub mod NoteLine
pub mod Effects
pub mod Cache
pub mod Stored
pub mod Links
pub mod Asked
use diary_memory_service.Base.{
  ℕ, min, Bool, true, false, Option, none, some, List, [], ◌∷◌, ◌++◌, keep, length, ◌==◌, nat_beq,
  text_eq, if◌then◌else◌,
}
use diary_memory_service.Base.Text.{Text, codes, is_empty, strip}
use diary_memory_service.Base.Dict.{Dict, lookup, insert}
use diary_memory_service.Base.Decimal.{decimal}
use diary_memory_service.Base.Int.{ℤ, pos, is_below_one, pos_part}
use diary_memory_service.Exec.{
  Exception, Exec, class_name, pure, raise, lift, gets, modify, try_except, ◌>>=◌, ◌>>◌,
}
use diary_memory_service.Models.{
  DateTime, RouteKind, RouteSource, InboundMessage, SourceMessage, EventChunk, FallbackMode,
  IngestResult, DeleteOutcome, AnswerContext, AnswerResult, ChatRoute, RoutedChatResult,
  route_value, source_value, fallback_value, chat_route_value,
}
use diary_memory_service.Store.{MockDomainStore, empty_store}
use diary_memory_service.Answers.{is_in}
use diary_memory_service.Parser.{DateSyntax}
use diary_memory_service.DomainService.{EmbeddingClient, Draws}
use diary_memory_service.DomainService.Ingest.{ingest}
use diary_memory_service.DomainService.Deletion.{delete_note_for_external_message}
use diary_memory_service.DomainService.Rows.{list_recent_drafts}
use diary_memory_service.QueryService.{QueryService, AskDraws, answer}
use diary_memory_service.RoutedChat.Rewriting.{RoutedChatService, ChatDraws}
use diary_memory_service.RoutedChat.{chat}
use diary_memory_service.Export.{ExportFormat, ExportPayload, export}
use diary_memory_service.Dispatcher.Replies.{
  reply_start, reply_help, reply_unknown, reply_clarify, reply_export_usage, reply_drafts_usage,
  reply_drafts_empty, reply_delete_ok, reply_delete_nothing, reply_delete_no_target,
  reply_sources_none, reply_sources_none_cited, reply_chat_unavailable, format_ingest_reply,
  format_draft_reply, format_answer_reply, format_chat_reply, format_drafts_header,
}
use diary_memory_service.Dispatcher.NoteLine.{normalize_note_first_line}

pub record DispatchResult : Type 0 where
  pub reply_text : Text
  pub route : RouteKind
  pub metadata : Dict Text Text
  pub document : Option ExportPayload
  pub drafts : Option (List SourceMessage)
  pub source_chunks : Option (List EventChunk)

-- The dispatcher's collaborators and settings. `int_of` is `int(text)`, where `none` is a ValueError.
pub record Dispatcher : Type 0 where
  pub dates : DateSyntax
  pub embedding_client : Option EmbeddingClient
  pub query : QueryService
  pub routed_chat : Option RoutedChatService
  pub drafts_default_limit : ℕ
  pub drafts_max_limit : ℕ
  pub int_of : Text → Option ℤ

-- What changes from message to message: the store, and the cache that backs `/sources`.
pub record State : Type 0 where
  pub store : MockDomainStore
  pub latest_sources : Dict Text (List EventChunk)

abbrev pub first_state : State
first_state = record { store = empty_store; latest_sources = [] }

-- What one dispatch draws from the clock and from `uuid4`.
pub record DispatchDraws : Type 0 where
  pub ingest_draws : Draws
  pub ask_draws : AskDraws
  pub chat_draws : ChatDraws
  pub now : DateTime

abbrev pub on_store : {A : Type 0} → Exec MockDomainStore A → Exec State A
on_store m d = let r = m d.store in (r.0, record d { store = r.1 })

abbrev pub reply : Text → RouteKind → Dict Text Text → DispatchResult
reply text route metadata = record {
  reply_text = text;
  route = route;
  metadata = metadata;
  document = none;
  drafts = none;
  source_chunks = none;
}

-- The two entries that most results carry.
abbrev pub outcome_metadata : FallbackMode → RouteSource → Dict Text Text
outcome_metadata fallback source =
    (codes "fallback", fallback_value fallback) ∷ (codes "route_source", source_value source) ∷ []

abbrev pub path_entry : Bool → Text × Text
path_entry replayed = (codes "effective_path", if replayed then codes "replay" else codes "fresh")

abbrev pub ingest_metadata : IngestResult → RouteSource → Dict Text Text
ingest_metadata r source = outcome_metadata r.fallback source ++ path_entry r.replayed ∷ []

unfoldable pub dispatch_note :
    Dispatcher → DispatchDraws → InboundMessage → Exec State DispatchResult
dispatch_note d draws message = do
  let normalized = normalize_note_first_line d.dates message
  result ← on_store (ingest d.dates d.embedding_client draws.ingest_draws normalized)
  text ← lift (format_ingest_reply result)
  pure (reply text RouteKind.note (ingest_metadata result message.route_source))

unfoldable pub dispatch_draft :
    Dispatcher → DispatchDraws → InboundMessage → Exec State DispatchResult
dispatch_draft d draws message = do
  result ← on_store (ingest d.dates d.embedding_client draws.ingest_draws message)
  pure (
      reply (format_draft_reply result) RouteKind.draft
        (ingest_metadata result message.route_source))

-- `AnswerResult(fallback=NO_EVIDENCE, query_text=message.payload.strip())`
abbrev pub unavailable_answer : InboundMessage → AnswerResult
unavailable_answer message = record {
  fallback = FallbackMode.no_evidence;
  query_text = strip message.payload;
  evidence = [];
  context = none;
  answer_text = none;
  cited_chunk_ids = [];
  model_text = none;
  knowledge_text = none;
  knowledge_refs = [];
}

-- `except NotImplementedError`
abbrev pub on_unavailable : {S : Type 0} → InboundMessage → Exception → Exec S AnswerResult
on_unavailable message e =
    if class_name e == codes "NotImplementedError"
    then pure (unavailable_answer message)
    else raise e

abbrev pub cited_among : List Text → Option AnswerContext → List EventChunk
cited_among ids none = []
cited_among ids (some c) = keep (λ chunk. is_in chunk.chunk_id ids) c.ordered_chunks

-- The chunks of the context that the answer cites, in the order of the context.
unfoldable pub cited_chunks : AnswerResult → List EventChunk
cited_chunks a = cited_among a.cited_chunk_ids a.context

unfoldable pub update_latest_sources : Text → AnswerResult → Exec State (Unit {0})
update_latest_sources community_id a =
    modify
      (λ d. record d { latest_sources = insert community_id (cited_chunks a) d.latest_sources })

unfoldable pub dispatch_ask :
    Dispatcher → DispatchDraws → InboundMessage → Exec State DispatchResult
dispatch_ask d draws message = do
  a ←
      on_store
        (try_except (answer d.query draws.ask_draws message none none) (on_unavailable message))
  update_latest_sources message.community_id a
  pure (
      reply (format_answer_reply a) RouteKind.ask
        (outcome_metadata a.fallback message.route_source))

abbrev requested_entry : Option ChatRoute → Text × Text
requested_entry none = (codes "requested_route", codes "unclassified")
requested_entry (some route) = (codes "requested_route", chat_route_value route)

abbrev pub chat_result : InboundMessage → RoutedChatResult → DispatchResult
chat_result message r = reply (format_chat_reply r) RouteKind.chat (
    outcome_metadata r.answer.fallback message.route_source
    ++ requested_entry r.requested_route
      ∷ (codes "effective_route", chat_route_value r.effective_route)
      ∷ [])

abbrev pub chat_with :
    Option RoutedChatService → ChatDraws → InboundMessage → Exec State DispatchResult
chat_with none draws message = pure (
    reply reply_chat_unavailable RouteKind.chat
      ((codes "route_source", source_value message.route_source) ∷ []))
chat_with (some svc) draws message = do
  r ← on_store (chat svc draws message none)
  pure (chat_result message r)

unfoldable pub dispatch_chat :
    Dispatcher → DispatchDraws → InboundMessage → Exec State DispatchResult
dispatch_chat d draws message = chat_with d.routed_chat draws.chat_draws message

abbrev drafts_usage : InboundMessage → DispatchResult
drafts_usage message =
    reply reply_drafts_usage RouteKind.drafts
      (outcome_metadata FallbackMode.invalid_input message.route_source)

abbrev drafts_metadata : InboundMessage → ℕ → ℕ → Dict Text Text
drafts_metadata message requested returned =
    outcome_metadata FallbackMode.none message.route_source
    ++ (codes "requested", decimal requested) ∷ (codes "returned", decimal returned) ∷ []

abbrev pub drafts_result :
    Dispatcher → InboundMessage → ℕ → Bool → List SourceMessage → DispatchResult
drafts_result d message requested explicit [] =
    reply reply_drafts_empty RouteKind.drafts (drafts_metadata message requested 0)
drafts_result d message requested explicit (s ∷ ss) = record {
  reply_text = format_drafts_header (length (s ∷ ss)) requested explicit d.drafts_max_limit;
  route = RouteKind.drafts;
  metadata = drafts_metadata message requested (length (s ∷ ss));
  document = none;
  drafts = some (s ∷ ss);
  source_chunks = none;
}

abbrev pub drafts_requested : Dispatcher → InboundMessage → ℕ → Bool → Exec State DispatchResult
drafts_requested d message requested explicit = do
  drafts ←
      on_store (list_recent_drafts message.community_id (pos (min requested d.drafts_max_limit)))
  pure (drafts_result d message requested explicit drafts)

abbrev pub drafts_parsed : Dispatcher → InboundMessage → Option ℤ → Exec State DispatchResult
drafts_parsed d message none = pure (drafts_usage message)
drafts_parsed d message (some n) =
    if is_below_one n
    then pure (drafts_usage message)
    else drafts_requested d message (pos_part n) true

unfoldable pub dispatch_drafts : Dispatcher → InboundMessage → Exec State DispatchResult
dispatch_drafts d message =
    if is_empty (strip message.payload)
    then drafts_requested d message d.drafts_default_limit false
    else drafts_parsed d message (d.int_of (strip message.payload))

-- `fmt.value`, and `fmt.value.upper()`.
abbrev format_value : ExportFormat → Text
format_value ExportFormat.json = codes "json"
format_value ExportFormat.txt = codes "txt"

abbrev format_upper : ExportFormat → Text
format_upper ExportFormat.json = codes "JSON"
format_upper ExportFormat.txt = codes "TXT"

unfoldable pub export_format : Text → Option ExportFormat
export_format arg =
    if arg == codes "json"
    then some ExportFormat.json
    else if arg == codes "txt"
    then some ExportFormat.txt
    else none

abbrev exported_text : ExportPayload → ExportFormat → Text
exported_text payload format =
    codes "Exported "
    ++ (decimal payload.record_count
        ++ (codes " raw "
            ++ ((if nat_beq payload.record_count 1 then codes "message" else codes "messages")
                ++ (codes " as " ++ (format_upper format ++ codes ".")))))

abbrev pub export_result : InboundMessage → ExportFormat → ExportPayload → DispatchResult
export_result message format payload = record {
  reply_text = exported_text payload format;
  route = RouteKind.export;
  metadata =
      outcome_metadata FallbackMode.none message.route_source
      ++ (codes "format", format_value format) ∷ [];
  document = some payload;
  drafts = none;
  source_chunks = none;
}

abbrev pub export_as :
    DispatchDraws → InboundMessage → Option ExportFormat → Exec State DispatchResult
export_as draws message none = pure (
    reply reply_export_usage RouteKind.export
      (outcome_metadata FallbackMode.invalid_input message.route_source))
export_as draws message (some format) = do
  payload ← on_store (export message.community_id message.external_user_id format draws.now)
  pure (export_result message format payload)

unfoldable pub dispatch_export :
    Dispatcher → DispatchDraws → InboundMessage → Exec State DispatchResult
dispatch_export d draws message =
    export_as draws message (export_format (d.query.unicode.lower (strip message.payload)))

abbrev deleted_entry : Bool → Text × Text
deleted_entry deleted = (codes "deleted", if deleted then codes "true" else codes "false")

abbrev pub delete_result : InboundMessage → DeleteOutcome → DispatchResult
delete_result message outcome =
    reply (if outcome.deleted then reply_delete_ok else reply_delete_nothing) RouteKind.delete (
      outcome_metadata FallbackMode.none message.route_source ++ deleted_entry outcome.deleted ∷ [])

abbrev pub delete_target : InboundMessage → Option Text → Exec State DispatchResult
delete_target message none = pure (
    reply reply_delete_no_target RouteKind.delete (
      outcome_metadata FallbackMode.invalid_input message.route_source ++ deleted_entry false ∷ []))
delete_target message (some target) = do
  outcome ←
      on_store
        (delete_note_for_external_message message.external_chat_id target message.community_id)
  pure (delete_result message outcome)

unfoldable pub dispatch_delete : InboundMessage → Exec State DispatchResult
dispatch_delete message = delete_target message message.reply_to_external_message_id

abbrev sources_metadata : InboundMessage → ℕ → Dict Text Text
sources_metadata message returned =
    outcome_metadata FallbackMode.none message.route_source
    ++ (codes "returned", decimal returned) ∷ []

abbrev pub sources_result : InboundMessage → Option (List EventChunk) → DispatchResult
sources_result message none =
    reply reply_sources_none RouteKind.sources (sources_metadata message 0)
sources_result message (some []) =
    reply reply_sources_none_cited RouteKind.sources (sources_metadata message 0)
sources_result message (some (c ∷ cs)) = record {
  reply_text = [];
  route = RouteKind.sources;
  metadata = sources_metadata message (length (c ∷ cs));
  document = none;
  drafts = none;
  source_chunks = some (c ∷ cs);
}

unfoldable pub dispatch_sources : InboundMessage → Exec State DispatchResult
dispatch_sources message =
    gets (λ d. sources_result message (lookup message.community_id d.latest_sources))

abbrev pub dispatch_route :
    Dispatcher → DispatchDraws → InboundMessage → RouteKind → Exec State DispatchResult
dispatch_route d draws message RouteKind.start = pure (reply reply_start RouteKind.start [])
dispatch_route d draws message RouteKind.help = pure (reply reply_help RouteKind.help [])
dispatch_route d draws message RouteKind.note = dispatch_note d draws message
dispatch_route d draws message RouteKind.draft = dispatch_draft d draws message
dispatch_route d draws message RouteKind.ask = dispatch_ask d draws message
dispatch_route d draws message RouteKind.chat = dispatch_chat d draws message
dispatch_route d draws message RouteKind.sources = dispatch_sources message
dispatch_route d draws message RouteKind.drafts = dispatch_drafts d message
dispatch_route d draws message RouteKind.export = dispatch_export d draws message
dispatch_route d draws message RouteKind.delete = dispatch_delete message
dispatch_route d draws message RouteKind.clarify = pure (
    reply reply_clarify RouteKind.clarify
      ((codes "route_source", source_value message.route_source) ∷ []))
dispatch_route d draws message RouteKind.unknown = pure (reply reply_unknown RouteKind.unknown [])

unfoldable pub dispatch : Dispatcher → DispatchDraws → InboundMessage → Exec State DispatchResult
dispatch d draws message = dispatch_route d draws message message.route
