-- ===== src/Dispatcher/Cache.antt =====
-- The cache behind `/sources`, services/dispatcher.py: what each community's entry holds.
use diary_memory_service.Base.{
  ℕ, min, Bool, true, false, ◌≡◌, refl, sym, Option, none, some, List, [], ◌∷◌, All, All-keep,
  All-map, ◌==◌, text_eq, eq_of_beq, Bool-cases, inl, inr, subst,
}
use mathlib.Core.Option.{some-injective}
use diary_memory_service.Base.Text.{Text, codes, is_empty, strip}
use diary_memory_service.Base.Dict.{Dict, lookup, insert}
use diary_memory_service.Exec.{
  Result, ok, raised, Exec, class_name, pure, lift, try_except, caught, ◌>>=◌,
}
use diary_memory_service.Exec.Laws.{Returns, Returns-map}
use diary_memory_service.Exec.Invariants.{Preserves, bind-Preserves, bind_value-Preserves}
use diary_memory_service.Models.{
  RouteKind, InboundMessage, EventChunk, AnswerContext, AnswerResult, IngestResult,
}
use diary_memory_service.Store.{MockDomainStore}
use diary_memory_service.Answers.{is_in}
use diary_memory_service.Dispatcher.NoteLine.{normalize_note_first_line}
use diary_memory_service.QueryService.{answer}
use diary_memory_service.QueryService.Scope.{InScope, InScope-community}
use diary_memory_service.QueryService.Shown.{IsShown, answer-Shown}
use diary_memory_service.Base.Int.{ℤ, pos, is_below_one, pos_part}
use diary_memory_service.Export.{ExportFormat, export}
use diary_memory_service.DomainService.Ingest.{ingest}
use diary_memory_service.DomainService.Rows.{list_recent_drafts}
use diary_memory_service.DomainService.Deletion.{delete_note_for_external_message}
use diary_memory_service.Dispatcher.Replies.{format_ingest_reply, format_draft_reply}
use diary_memory_service.RoutedChat.Rewriting.{RoutedChatService, ChatDraws}
use diary_memory_service.RoutedChat.{chat}
use diary_memory_service.Dispatcher.{
  drafts_requested, sources_result, chat_result, drafts_result, export_result, delete_result,
  ingest_metadata, reply, export_format, Dispatcher, State, DispatchDraws, DispatchResult, on_store,
  cited_chunks, cited_among, on_unavailable, update_latest_sources, dispatch_note, dispatch_draft,
  dispatch_ask, dispatch_chat, chat_with, dispatch_drafts, drafts_parsed, dispatch_export,
  export_as, dispatch_delete, delete_target, dispatch_sources, dispatch_route, dispatch,
}

-- The chunks are of the community.
abbrev pub AllOf : Text → List EventChunk → Type 0
AllOf community_id cs = All (λ c. (c.community_id == community_id) ≡ true) cs

-- Each entry holds chunks of its own community.
abbrev pub CacheScoped : State → Type 0
CacheScoped d = All (λ e. AllOf e.0 e.1) d.latest_sources

insert-scoped :
    (k : Text) (cs : List EventChunk) (d : Dict Text (List EventChunk))
    → AllOf k cs
    → All (λ e. AllOf e.0 e.1) d
    → All (λ e. AllOf e.0 e.1) (insert k cs d)
insert-scoped k cs [] h s = (h, tt)
insert-scoped k cs ((j, ds) ∷ d) h s = elim (Bool-cases (j == k)) [
  | inl same ↦ rw same (subst (λ i. AllOf i cs) (sym (eq_of_beq j k same)) h, s.1)
  | inr other ↦ rw other (s.0, insert-scoped k cs d h s.1)
]

pub lookup-scoped :
    (k : Text) (cs : List EventChunk) (d : Dict Text (List EventChunk))
    → All (λ e. AllOf e.0 e.1) d
    → lookup k d ≡ some cs
    → AllOf k cs
lookup-scoped k cs [] s h = cc
lookup-scoped k cs ((j, ds) ∷ d) s h = elim (Bool-cases (j == k)) [
  | inl same ↦
      subst (λ i. AllOf i cs) (eq_of_beq j k same)
        (subst (AllOf j) (some-injective ds cs (rw same at h)) s.0)
  | inr other ↦ lookup-scoped k cs d s.1 (rw other at h)
]

-- What the cache takes of an answer is of the community.
abbrev CitesOwn : Text → AnswerResult → Type 0
CitesOwn community_id a = AllOf community_id (cited_chunks a)

cited_among-AllOf :
    (community_id : Text) (ids : List Text) (context : Option AnswerContext) (c : AnswerContext)
    → context ≡ some c
    → All (InScope community_id none none) c.ordered_chunks
    → AllOf community_id (cited_among ids context)
cited_among-AllOf community_id ids context c e h = rw e (
    All-keep _ (λ chunk. is_in chunk.chunk_id ids) c.ordered_chunks
      (All-map _ _ c.ordered_chunks (InScope-community community_id none none) h))

IsShown-CitesOwn :
    (d : Dispatcher) (community_id : Text) (a : AnswerResult)
    → IsShown community_id none none d.query.top_k a
    → CitesOwn community_id a
unfolding cited_chunks
IsShown-CitesOwn d community_id a h =
    cited_among-AllOf community_id a.cited_chunk_ids a.context h.shown h.context_shown h.in_scope

module _ (d : Dispatcher) (draws : DispatchDraws) (message : InboundMessage) where
  abbrev asked : Exec MockDomainStore AnswerResult
  asked = try_except (answer d.query draws.ask_draws message none none) (on_unavailable message)

  caught-CitesOwn :
      (x : Result AnswerResult × MockDomainStore)
      → Returns (CitesOwn message.community_id) x.0
      → Returns (CitesOwn message.community_id) (caught x.0 (on_unavailable message) x.1).0
  unfolding cited_chunks
  caught-CitesOwn (ok a, t) h = h
  caught-CitesOwn (raised e, t) h =
      elim (Bool-cases (class_name e == codes "NotImplementedError")) [
        | inl unavailable ↦ rw unavailable tt
        | inr other ↦ rw other tt
      ]

  asked-CitesOwn : (s : MockDomainStore) → Returns (CitesOwn message.community_id) (asked s).0
  asked-CitesOwn s = caught-CitesOwn (answer d.query draws.ask_draws message none none s) (
      Returns-map _ _ (answer d.query draws.ask_draws message none none s).0
        (IsShown-CitesOwn d message.community_id)
        (answer-Shown d.query draws.ask_draws message none none s))

  on_store-CacheScoped :
      {A : Type 0} (m : Exec MockDomainStore A) → Preserves CacheScoped (on_store m)
  on_store-CacheScoped m t h = h

  dispatch_ask-CacheScoped : Preserves CacheScoped (dispatch_ask d draws message)
  unfolding dispatch_ask update_latest_sources
  dispatch_ask-CacheScoped =
      bind_value-Preserves CacheScoped (CitesOwn message.community_id) (on_store asked) _
        (λ t. asked-CitesOwn t.store) (on_store-CacheScoped asked)
        (λ a own t h. insert-scoped message.community_id (cited_chunks a) t.latest_sources own h)

  -- An action on the store, and then one that keeps the invariant.
  stored-CacheScoped :
      {A B : Type 0} (m : Exec MockDomainStore A) (f : A → Exec State B)
      → ((a : A) → Preserves CacheScoped (f a))
      → Preserves CacheScoped (on_store m >>= f)
  stored-CacheScoped m f h = bind-Preserves CacheScoped (on_store m) f (on_store-CacheScoped m) h

  chat_with-CacheScoped :
      (chat : Option RoutedChatService) (chat_draws : ChatDraws)
      → Preserves CacheScoped (chat_with chat chat_draws message)
  chat_with-CacheScoped none chat_draws = λ t h. h
  chat_with-CacheScoped (some svc) chat_draws =
      stored-CacheScoped (chat svc chat_draws message none) (λ r. pure (chat_result message r))
        (λ r t h. h)

  drafts_requested-CacheScoped :
      (requested : ℕ) (explicit : Bool)
      → Preserves CacheScoped (drafts_requested d message requested explicit)
  drafts_requested-CacheScoped requested explicit =
      stored-CacheScoped
        (list_recent_drafts message.community_id (pos (min requested d.drafts_max_limit)))
        (λ drafts. pure (drafts_result d message requested explicit drafts)) (λ r t h. h)

  drafts_parsed-CacheScoped : (n : Option ℤ) → Preserves CacheScoped (drafts_parsed d message n)
  drafts_parsed-CacheScoped none = λ t h. h
  drafts_parsed-CacheScoped (some n) = elim (Bool-cases (is_below_one n)) [
    | inl below ↦ rw below (λ t h. h)
    | inr positive ↦ rw positive (drafts_requested-CacheScoped (pos_part n) true)
  ]

  dispatch_drafts-CacheScoped : Preserves CacheScoped (dispatch_drafts d message)
  unfolding dispatch_drafts
  dispatch_drafts-CacheScoped = elim (Bool-cases (is_empty (strip message.payload))) [
    | inl blank ↦ rw blank (drafts_requested-CacheScoped d.drafts_default_limit false)
    | inr given ↦ rw given (drafts_parsed-CacheScoped (d.int_of (strip message.payload)))
  ]

  export_as-CacheScoped :
      (format : Option ExportFormat) → Preserves CacheScoped (export_as draws message format)
  export_as-CacheScoped none = λ t h. h
  export_as-CacheScoped (some format) =
      stored-CacheScoped (export message.community_id message.external_user_id format draws.now)
        (λ payload. pure (export_result message format payload)) (λ r t h. h)

  delete_target-CacheScoped :
      (target : Option Text) → Preserves CacheScoped (delete_target message target)
  delete_target-CacheScoped none = λ t h. h
  delete_target-CacheScoped (some target) =
      stored-CacheScoped
        (delete_note_for_external_message message.external_chat_id target message.community_id)
        (λ outcome. pure (delete_result message outcome)) (λ r t h. h)

  noted-CacheScoped :
      (r : IngestResult) (text : Result Text)
      → Preserves CacheScoped (
          lift text >>= λ body.
          pure (reply body RouteKind.note (ingest_metadata r message.route_source)))
  noted-CacheScoped r (ok text) = λ t h. h
  noted-CacheScoped r (raised e) = λ t h. h

  dispatch_note-CacheScoped : Preserves CacheScoped (dispatch_note d draws message)
  unfolding dispatch_note
  dispatch_note-CacheScoped =
      stored-CacheScoped
        (ingest d.dates d.embedding_client draws.ingest_draws
          (normalize_note_first_line d.dates message))
        (λ r. lift (format_ingest_reply r) >>= λ body.
          pure (reply body RouteKind.note (ingest_metadata r message.route_source)))
        (λ r. noted-CacheScoped r (format_ingest_reply r))

  dispatch_draft-CacheScoped : Preserves CacheScoped (dispatch_draft d draws message)
  unfolding dispatch_draft
  dispatch_draft-CacheScoped =
      stored-CacheScoped (ingest d.dates d.embedding_client draws.ingest_draws message)
        (λ r.
          pure
            (reply (format_draft_reply r) RouteKind.draft (ingest_metadata r message.route_source)))
        (λ r t h. h)

  dispatch_route-CacheScoped :
      (route : RouteKind) → Preserves CacheScoped (dispatch_route d draws message route)
  unfolding dispatch_chat dispatch_export dispatch_delete dispatch_sources
  dispatch_route-CacheScoped RouteKind.start = λ t h. h
  dispatch_route-CacheScoped RouteKind.help = λ t h. h
  dispatch_route-CacheScoped RouteKind.note = dispatch_note-CacheScoped
  dispatch_route-CacheScoped RouteKind.ask = dispatch_ask-CacheScoped
  dispatch_route-CacheScoped RouteKind.chat = chat_with-CacheScoped d.routed_chat draws.chat_draws
  dispatch_route-CacheScoped RouteKind.draft = dispatch_draft-CacheScoped
  dispatch_route-CacheScoped RouteKind.drafts = dispatch_drafts-CacheScoped
  dispatch_route-CacheScoped RouteKind.export =
      export_as-CacheScoped (export_format (d.query.unicode.lower (strip message.payload)))
  dispatch_route-CacheScoped RouteKind.sources = λ t h. h
  dispatch_route-CacheScoped RouteKind.delete =
      delete_target-CacheScoped message.reply_to_external_message_id
  dispatch_route-CacheScoped RouteKind.clarify = λ t h. h
  dispatch_route-CacheScoped RouteKind.unknown = λ t h. h

  -- Whatever the message and its route, a dispatch leaves each community's cache entry with chunks
  -- of that community only, where it was so before.
  pub dispatch-CacheScoped :
      (t : State) → CacheScoped t → CacheScoped (dispatch d draws message t).1
  unfolding dispatch
  dispatch-CacheScoped = dispatch_route-CacheScoped message.route

-- The states that a sequence of dispatches leads to.
pub data Served (d : Dispatcher) (s : State) : State → Type 0 where
  here : Served d s s
  served :
      {t : State}
      → Served d s t
      → (draws : DispatchDraws) (message : InboundMessage)
      → Served d s (dispatch d draws message t).1

Served-CacheScoped : {d : Dispatcher} {s t : State} → Served d s t → CacheScoped s → CacheScoped t
Served-CacheScoped here h = h
Served-CacheScoped {d} (served {t} run draws message) h =
    dispatch-CacheScoped d draws message t (Served-CacheScoped run h)

-- The chunks that a result carries.
abbrev pub chunks_of : Option (List EventChunk) → List EventChunk
chunks_of none = []
chunks_of (some cs) = cs

sources_result-AllOf :
    (message : InboundMessage) (cached : Option (List EventChunk))
    → ((cs : List EventChunk) → cached ≡ some cs → AllOf message.community_id cs)
    → AllOf message.community_id (chunks_of (sources_result message cached).source_chunks)
sources_result-AllOf message none h = tt
sources_result-AllOf message (some []) h = tt
sources_result-AllOf message (some (c ∷ cs)) h = h (c ∷ cs) refl

-- After any sequence of messages, from any store and an empty cache, a `/sources` message is served,
-- and every chunk in its result is of the community that asks.
pub sources_stay_home :
    (d : Dispatcher) (s : MockDomainStore) (t : State) (draws : DispatchDraws)
    (message : InboundMessage)
    → Served d (record { store = s; latest_sources = [] }) t
    → message.route ≡ RouteKind.sources
    → (r : DispatchResult) × (dispatch d draws message t ≡ (ok r, t))
      × AllOf message.community_id (chunks_of r.source_chunks)
unfolding dispatch dispatch_sources
sources_stay_home d s t draws message run route =
    let cached = lookup message.community_id t.latest_sources in
    (
      sources_result message cached,
      rw route,
      sources_result-AllOf message cached (λ cs e.
          lookup-scoped message.community_id cs t.latest_sources (Served-CacheScoped run tt) e),
    )
