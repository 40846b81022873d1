-- ===== src/Telegram.antt =====
-- The Telegram webhook, src/memory_rag/adapters/telegram/webhook.py: one update, from the check of the
-- secret to the response.
pub mod Schema
pub mod Authors
pub mod Delivery
pub mod Effects
pub mod Sending
use diary_memory_service.Base.{
  ℕ, suc, zero, ◌+◌, ◌*◌, Bool, true, false, not, ◌&&◌, ◌||◌, Option, none, some, List, [], ◌∷◌,
  ◌++◌, map, length, ltb, ◌==◌, text_eq, if◌then◌else◌,
}
use diary_memory_service.Base.Text.{Text, codes, is_empty, strip}
use diary_memory_service.Base.Int.{ℤ}
use diary_memory_service.Exec.{
  Result, ok, raised, Exec, type_error, provider_error, pure, raise, lift, gets, modify, raise_if,
  ◌>>=◌, ◌>>◌,
}
use diary_memory_service.Models.{
  RouteKind, RouteSource, command, heuristic, Lifecycle, lifecycle_for, micros_per_second,
  InboundMessage, SourceMessage, EventChunk,
}
use diary_memory_service.Store.{MockDomainStore}
use diary_memory_service.Store.Traces.{save_author_display_input}
use diary_memory_service.Commands.{parse_command, classify_plain_text, Confidence}
use diary_memory_service.Packing.{pack_drafts_into_messages}
use diary_memory_service.Export.{ExportPayload}
use diary_memory_service.Dispatcher.{
  Dispatcher, State, DispatchDraws, DispatchResult, on_store, dispatch,
}
use diary_memory_service.Telegram.Schema.{
  TelegramMessage, TelegramReplyTarget, TelegramUpdate, int_text, resolve_community_id,
  resolve_subject_id, Response, empty_body, build_send_message_payload,
}
use diary_memory_service.Telegram.Authors.{render_source_block, render_draft_block}
use diary_memory_service.Telegram.Delivery.{
  text_message, document, TelegramClient, Webhook, attempt, send_all,
}

-- `HTTPException(status_code=401)`
abbrev pub unauthorized : Exec Webhook (Unit {0})
unauthorized = raise (provider_error (codes "HTTPException"))

abbrev pub is_ascii : Text → Bool
is_ascii [] = true
is_ascii (c ∷ s) = ltb c 128 && is_ascii s

-- `secrets.compare_digest` on two texts, which raises TypeError unless both are ASCII.
unfoldable pub compare_digest : Text → Text → Result Bool
compare_digest a b = if is_ascii a && is_ascii b then ok (a == b) else raised type_error

unfoldable pub verify_secret : Text → Option Text → Exec Webhook (Unit {0})
verify_secret expected none = unauthorized
verify_secret expected (some provided) = if is_empty expected then unauthorized else (do
  same ← lift (compare_digest expected provided)
  (if same then pure tt else unauthorized))

-- `update.message or update.edited_message`
abbrev pub message_of : TelegramUpdate → Option TelegramMessage
message_of u = elim u.message [ none ↦ u.edited_message | some m ↦ some m ]

pub record ResolvedRoute : Type 0 where
  pub route : RouteKind
  pub payload : Text
  pub source : RouteSource
  pub confidence : Option Confidence

abbrev is_unknown : RouteKind → Bool
is_unknown RouteKind.unknown = true
is_unknown _ = false

-- `not text or not text.strip()`
abbrev is_blank : Option Text → Bool
is_blank none = true
is_blank (some t) = is_empty (strip t)

abbrev pub text_of : Option Text → Text
text_of none = []
text_of (some t) = t

abbrev classified : Text → ResolvedRoute
classified t =
    let c = classify_plain_text t in
    record {
      route = c.route;
      payload = c.payload;
      source = heuristic;
      confidence = some c.confidence;
    }

unfoldable pub resolve_route : Option Text → ResolvedRoute
resolve_route text =
    let parsed = parse_command text in
    if not (is_unknown parsed.0) || is_blank text
    then record { route = parsed.0; payload = parsed.1; source = command; confidence = none }
    else classified (text_of text)

abbrev edit_seq_of : Option ℕ → ℕ
edit_seq_of none = 0
edit_seq_of (some seconds) = seconds

abbrev reply_target : Option TelegramReplyTarget → Option Text
reply_target none = none
reply_target (some r) = some (int_text r.message_id)

unfoldable pub inbound_of : TelegramMessage → InboundMessage
inbound_of m =
    let resolved = resolve_route m.text in
    record {
      external_message_id = int_text m.message_id;
      external_chat_id = int_text m.chat.id;
      external_user_id = int_text m.from_user.id;
      community_id = resolve_community_id (int_text m.chat.id);
      text = text_of m.text;
      route = resolved.route;
      received_at = m.date * micros_per_second;
      route_source = resolved.source;
      payload = resolved.payload;
      edit_seq = edit_seq_of m.edit_date;
      subject_id = resolve_subject_id (resolve_community_id (int_text m.chat.id));
      reply_to_external_message_id = reply_target m.reply_to_message;
    }

abbrev pub on_state : {A : Type 0} → Exec State A → Exec Webhook A
on_state m w = let r = m w.state in (r.0, record w { state = r.1 })

abbrev is_captured : Lifecycle → Bool
is_captured Lifecycle.note = true
is_captured Lifecycle.draft = true
is_captured _ = false

-- The snapshot of the author, for the routes that store a message.
unfoldable pub capture_author :
    RouteKind → InboundMessage → TelegramMessage → Exec MockDomainStore (Unit {0})
capture_author route inbound m =
    if is_captured (lifecycle_for route)
    then modify (
        save_author_display_input
          (inbound.external_chat_id, inbound.external_message_id, inbound.edit_seq)
          m.from_user.username m.from_user.first_name)
    else pure tt

abbrev export_failed : Text
export_failed = codes "Export generated but delivery to Telegram failed. Try /export json again."

abbrev after_document : (Text → Option ℤ) → Text → Result (Unit {0}) → Exec Webhook Response
after_document int_of chat_id (ok u) = pure empty_body
after_document int_of chat_id (raised e) =
    lift (build_send_message_payload int_of chat_id export_failed)

unfoldable pub deliver_document :
    TelegramClient → (Text → Option ℤ) → Text → Text → ExportPayload → Exec Webhook Response
deliver_document client int_of chat_id caption p = do
  outcome ← attempt client (document chat_id p.filename p.content p.media_type caption)
  after_document int_of chat_id outcome

-- `pack_drafts_into_messages` at its default cap and separator.
abbrev pub default_cap : ℕ
default_cap = 4096

abbrev pub default_separator : Text
default_separator = codes "\n\n"

unfoldable pub deliver_blocks :
    TelegramClient → Text → Text → Text → List Text → Exec Webhook Response
deliver_blocks client chat_id noun header blocks = do
  messages ← lift (pack_drafts_into_messages header blocks default_cap default_separator)
  send_all client chat_id noun messages
  pure empty_body

unfoldable pub draft_blocks : Text → List SourceMessage → MockDomainStore → List Text
draft_blocks community_id drafts s = map (λ d. render_draft_block community_id d s) drafts

unfoldable pub deliver_drafts :
    TelegramClient → InboundMessage → Text → List SourceMessage → Exec Webhook Response
deliver_drafts client inbound header drafts = do
  blocks ← gets (λ w. draft_blocks inbound.community_id drafts w.state.store)
  deliver_blocks client inbound.external_chat_id (codes "drafts") header blocks

-- The blocks from the `index`-th chunk on.
unfoldable pub source_blocks : Text → ℕ → ℕ → List EventChunk → Exec MockDomainStore (List Text)
source_blocks community_id total index [] = pure []
source_blocks community_id total index (c ∷ cs) = do
  block ← render_source_block community_id c index total
  blocks ← source_blocks community_id total (suc index) cs
  pure (block ∷ blocks)

unfoldable pub deliver_sources :
    TelegramClient → InboundMessage → Text → List EventChunk → Exec Webhook Response
deliver_sources client inbound header chunks = do
  blocks ← on_state (on_store (source_blocks inbound.community_id (length chunks) 1 chunks))
  deliver_blocks client inbound.external_chat_id (codes "sources") header blocks

abbrev deliver_rest :
    TelegramClient
    → (Text → Option ℤ)
    → InboundMessage
    → DispatchResult
    → Option (List SourceMessage)
    → Option (List EventChunk)
    → Exec Webhook Response
deliver_rest client int_of inbound r (some drafts) chunks =
    deliver_drafts client inbound r.reply_text drafts
deliver_rest client int_of inbound r none (some chunks) =
    deliver_sources client inbound r.reply_text chunks
deliver_rest client int_of inbound r none none =
    lift (build_send_message_payload int_of inbound.external_chat_id r.reply_text)

abbrev deliver_first :
    TelegramClient
    → (Text → Option ℤ)
    → InboundMessage
    → DispatchResult
    → Option ExportPayload
    → Exec Webhook Response
deliver_first client int_of inbound r (some p) =
    deliver_document client int_of inbound.external_chat_id r.reply_text p
deliver_first client int_of inbound r none =
    deliver_rest client int_of inbound r r.drafts r.source_chunks

-- How a result reaches the chat: a document, else drafts, else sources, else the reply alone.
unfoldable pub deliver :
    TelegramClient → (Text → Option ℤ) → InboundMessage → DispatchResult → Exec Webhook Response
deliver client int_of inbound r = deliver_first client int_of inbound r r.document

unfoldable pub handle_message :
    Dispatcher → TelegramClient → DispatchDraws → TelegramMessage → Exec Webhook Response
handle_message d client draws m = do
  let inbound = inbound_of m
  result ← on_state (dispatch d draws inbound)
  on_state (on_store (capture_author result.route inbound m))
  deliver client d.int_of inbound result

abbrev handle_update :
    Dispatcher → TelegramClient → DispatchDraws → Option TelegramMessage → Exec Webhook Response
handle_update d client draws none = pure empty_body
handle_update d client draws (some m) = handle_message d client draws m

-- `telegram_webhook`: `expected` is the configured secret, `provided` the request's header.
unfoldable pub telegram_webhook :
    Dispatcher
    → TelegramClient
    → DispatchDraws
    → Text
    → Option Text
    → TelegramUpdate
    → Exec Webhook Response
telegram_webhook d client draws expected provided update = do
  verify_secret expected provided
  handle_update d client draws (message_of update)
