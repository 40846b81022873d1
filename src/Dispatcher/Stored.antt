-- ===== src/Dispatcher/Stored.antt =====
-- What dispatches do to the store: an invariant that the single writes keep, services/dispatcher.py
-- keeps.
use diary_memory_service.Base.{
  ℕ, min, Bool, true, false, ◌≡◌, refl, Option, none, some, Bool-cases, inl, inr, ◌==◌, text_eq,
}
use diary_memory_service.Base.Text.{Text, codes, is_empty, strip}
use diary_memory_service.Base.Int.{ℤ, pos, is_below_one, pos_part}
use diary_memory_service.Exec.{
  Exception, Exec, Result, ok, raised, class_name, pure, lift, try_except, ◌>>=◌,
}
use diary_memory_service.Exec.Invariants.{
  Preserves, bind-Preserves, try_except-Preserves, reads-Preserves,
}
use diary_memory_service.Models.{
  RouteKind, InboundMessage, SourceMessage, IngestResult, AnswerResult, is_draft,
}
use diary_memory_service.Store.{MockDomainStore}
use diary_memory_service.Store.Sources
use diary_memory_service.Store.Sources.{put_source, list_source_messages}
use diary_memory_service.DomainService.Writes.{KeepsFlips, delete-Preserves}
use diary_memory_service.DomainService.Ingest.{ingest}
use diary_memory_service.DomainService.Ingest.Writes.{
  KeepsRows, ingest-Preserves, ingest-Preserves_draft,
}
use diary_memory_service.DomainService.Rows.{list_recent_drafts}
use diary_memory_service.DomainService.Deletion.{delete_note_for_external_message}
use diary_memory_service.QueryService.{answer}
use diary_memory_service.QueryService.Writes.{answer-Preserves}
use diary_memory_service.RoutedChat.Rewriting.{RoutedChatService, ChatDraws}
use diary_memory_service.RoutedChat.{chat}
use diary_memory_service.RoutedChat.Writes.{IgnoresChat, chat-Preserves}
use diary_memory_service.Export.{ExportFormat, export}
use diary_memory_service.Dispatcher.Replies.{
  format_ingest_reply, format_draft_reply, format_answer_reply,
}
use diary_memory_service.Dispatcher.NoteLine.{normalize_note_first_line}
use diary_memory_service.Dispatcher.{
  Dispatcher, State, DispatchDraws, on_store, reply, outcome_metadata, ingest_metadata,
  on_unavailable, update_latest_sources, dispatch_note, dispatch_draft, dispatch_ask, dispatch_chat,
  chat_with, chat_result, dispatch_drafts, drafts_parsed, drafts_requested, drafts_result,
  dispatch_export, export_format, export_as, export_result, dispatch_delete, delete_target,
  delete_result, dispatch_sources, dispatch_route,
}

list_recent_drafts-state :
    (c : Text) (limit : ℤ) (s : MockDomainStore) → (list_recent_drafts c limit s).1 ≡ s
unfolding list_recent_drafts Sources.list_recent_drafts
list_recent_drafts-state c limit s = elim (Bool-cases (is_below_one limit)) [
  | inl below ↦ rw below
  | inr positive ↦ elim (Bool-cases (is_empty c)) [
    | inl blank ↦ rw (positive, blank)
    | inr named ↦ rw (positive, named)
  ]
]

export-state :
    (c u : Text) (format : ExportFormat) (now : ℕ) (s : MockDomainStore)
    → (export c u format now s).1 ≡ s
unfolding export list_source_messages
export-state c u format now s = elim (Bool-cases (is_empty c)) [
  | inl blank ↦ rw blank
  | inr named ↦ rw named
]

module _ (P : MockDomainStore → Type 0) where
  abbrev pub StoreHas : State → Type 0
  StoreHas t = P t.store

  stored :
      {A B : Type 0} (m : Exec MockDomainStore A) (k : A → Exec State B)
      → Preserves P m
      → ((a : A) → Preserves StoreHas (k a))
      → Preserves StoreHas (on_store m >>= k)
  stored m k h = bind-Preserves StoreHas (on_store m) k (λ t p. h t.store p)

  module _ (f : KeepsFlips P)
      (put : (m : SourceMessage) (s : MockDomainStore) → P s → P (put_source m s))
      (w : IgnoresChat P) (d : Dispatcher) (draws : DispatchDraws) (message : InboundMessage) where
    unavailable-Preserves : (e : Exception) → Preserves P (on_unavailable message e)
    unavailable-Preserves e = elim (Bool-cases (class_name e == codes "NotImplementedError")) [
      | inl unavailable ↦ rw unavailable (λ s h. h)
      | inr other ↦ rw other (λ s h. h)
    ]

    ask-Preserves : Preserves StoreHas (dispatch_ask d draws message)
    unfolding dispatch_ask update_latest_sources
    ask-Preserves =
        let asked : Exec MockDomainStore AnswerResult =
          try_except (answer d.query draws.ask_draws message none none) (on_unavailable message) in
        stored asked
          (λ a. update_latest_sources message.community_id a >>= λ u. pure (
            reply (format_answer_reply a) RouteKind.ask
              (outcome_metadata a.fallback message.route_source)))
          (try_except-Preserves P (answer d.query draws.ask_draws message none none)
            (on_unavailable message)
            (answer-Preserves P w.traces d.query draws.ask_draws message none none)
            unavailable-Preserves)
          (λ a t h. h)

    routed-Preserves :
        (chat : Option RoutedChatService) (chat_draws : ChatDraws)
        → Preserves StoreHas (chat_with chat chat_draws message)
    routed-Preserves none chat_draws = λ t h. h
    routed-Preserves (some svc) chat_draws =
        stored (chat svc chat_draws message none) (λ r. pure (chat_result message r))
          (chat-Preserves P w svc chat_draws message none) (λ r t h. h)

    requested-Preserves :
        (n : ℕ) (explicit : Bool) → Preserves StoreHas (drafts_requested d message n explicit)
    requested-Preserves n explicit =
        let rows = list_recent_drafts message.community_id (pos (min n d.drafts_max_limit)) in
        stored rows (λ drafts. pure (drafts_result d message n explicit drafts))
          (reads-Preserves P rows
            (list_recent_drafts-state message.community_id (pos (min n d.drafts_max_limit))))
          (λ r t h. h)

    parsed-Preserves : (n : Option ℤ) → Preserves StoreHas (drafts_parsed d message n)
    parsed-Preserves none = λ t h. h
    parsed-Preserves (some n) = elim (Bool-cases (is_below_one n)) [
      | inl below ↦ rw below (λ t h. h)
      | inr positive ↦ rw positive (requested-Preserves (pos_part n) true)
    ]

    drafts-Preserves : Preserves StoreHas (dispatch_drafts d message)
    unfolding dispatch_drafts
    drafts-Preserves = elim (Bool-cases (is_empty (strip message.payload))) [
      | inl blank ↦ rw blank (requested-Preserves d.drafts_default_limit false)
      | inr given ↦ rw given (parsed-Preserves (d.int_of (strip message.payload)))
    ]

    export-Preserves :
        (format : Option ExportFormat) → Preserves StoreHas (export_as draws message format)
    export-Preserves none = λ t h. h
    export-Preserves (some format) =
        let m = export message.community_id message.external_user_id format draws.now in
        stored m (λ payload. pure (export_result message format payload))
          (reads-Preserves P m
            (export-state message.community_id message.external_user_id format draws.now))
          (λ r t h. h)

    target-Preserves : (target : Option Text) → Preserves StoreHas (delete_target message target)
    target-Preserves none = λ t h. h
    target-Preserves (some target) =
        stored
          (delete_note_for_external_message message.external_chat_id target message.community_id)
          (λ outcome. pure (delete_result message outcome))
          (delete-Preserves P f message.external_chat_id target message.community_id) (λ r t h. h)

    draft-Preserves :
        is_draft message.route ≡ true → Preserves StoreHas (dispatch_draft d draws message)
    unfolding dispatch_draft
    draft-Preserves draft =
        stored (ingest d.dates d.embedding_client draws.ingest_draws message)
          (λ r.
            pure (
              reply (format_draft_reply r) RouteKind.draft
                (ingest_metadata r message.route_source)))
          (ingest-Preserves_draft P f put d.dates d.embedding_client draws.ingest_draws message
            draft)
          (λ r t h. h)

    noted-Preserves :
        (r : IngestResult) (text : Result Text)
        → Preserves StoreHas (
            lift text >>= λ body.
            pure (reply body RouteKind.note (ingest_metadata r message.route_source)))
    noted-Preserves r (ok text) = λ t h. h
    noted-Preserves r (raised e) = λ t h. h

    note-Preserves : KeepsRows P → Preserves StoreHas (dispatch_note d draws message)
    unfolding dispatch_note
    note-Preserves rows =
        let normalized = normalize_note_first_line d.dates message in
        stored (ingest d.dates d.embedding_client draws.ingest_draws normalized)
          (λ r. lift (format_ingest_reply r) >>= λ body.
            pure (reply body RouteKind.note (ingest_metadata r message.route_source)))
          (ingest-Preserves P f put rows d.dates d.embedding_client draws.ingest_draws normalized)
          (λ r. noted-Preserves r (format_ingest_reply r))

    pub dispatch_route-Preserves :
        (route : RouteKind)
        → message.route ≡ route
        → (route ≡ RouteKind.note → KeepsRows P)
        → Preserves StoreHas (dispatch_route d draws message route)
    unfolding dispatch_chat dispatch_export dispatch_delete dispatch_sources
    dispatch_route-Preserves RouteKind.start e r = λ t h. h
    dispatch_route-Preserves RouteKind.help e r = λ t h. h
    dispatch_route-Preserves RouteKind.note e r = note-Preserves (r refl)
    dispatch_route-Preserves RouteKind.ask e r = ask-Preserves
    dispatch_route-Preserves RouteKind.chat e r = routed-Preserves d.routed_chat draws.chat_draws
    dispatch_route-Preserves RouteKind.draft e r = draft-Preserves (rw e)
    dispatch_route-Preserves RouteKind.drafts e r = drafts-Preserves
    dispatch_route-Preserves RouteKind.export e r =
        export-Preserves (export_format (d.query.unicode.lower (strip message.payload)))
    dispatch_route-Preserves RouteKind.sources e r = λ t h. h
    dispatch_route-Preserves RouteKind.delete e r =
        target-Preserves message.reply_to_external_message_id
    dispatch_route-Preserves RouteKind.clarify e r = λ t h. h
    dispatch_route-Preserves RouteKind.unknown e r = λ t h. h
