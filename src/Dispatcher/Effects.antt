-- ===== src/Dispatcher/Effects.antt =====
-- What each route of services/dispatcher.py may change, and what holds after any messages.
use diary_memory_service.Base.{false, ◌≡◌, ◌≢◌, refl, ◌∙◌, some, text_eq, text_pair_eq, arith}
use diary_memory_service.Base.Text.{Text, is_empty}
use diary_memory_service.Base.Dict.{lookup}
use diary_memory_service.Exec.{ok}
use diary_memory_service.Models.{RouteKind, InboundMessage, SourceMessage, LifecycleState}
use diary_memory_service.Store.{MockDomainStore}
use diary_memory_service.Store.Sources.{put_source}
use diary_memory_service.Store.Notes.{mark_note}
use diary_memory_service.Store.Chunks.{mark_chunk}
use diary_memory_service.Store.ChatTraces.{
  save_chat_route_decision, save_chat_query_rewrite, save_chat_knowledge_search,
}
use diary_memory_service.Store.Traces.{save_query, save_retrieval_hit, save_answer_trace}
use diary_memory_service.Store.Heads.{
  SameHeads, note_heads, chunk_heads, mark_note-SameHeads, mark_chunk-SameHeads,
}
use diary_memory_service.Store.Removal.{hard_delete_source_message}
use diary_memory_service.Store.Removal.Purged.{
  IsWellKeyed, purged, purge_counts, hard_delete_purges,
}
use diary_memory_service.Store.Removal.Keys.{
  put_source-IsWellKeyed, save_hit-IsWellKeyed, save_query-IsWellKeyed, save_trace-IsWellKeyed,
}
use diary_memory_service.DomainService.Keys.{keyed_flips, keyed_rows}
use diary_memory_service.DomainService.Writes.{KeepsFlips}
use diary_memory_service.QueryService.Writes.{IgnoresTraces}
use diary_memory_service.RoutedChat.Writes.{IgnoresChat}
use diary_memory_service.Dispatcher.{Dispatcher, State, DispatchDraws, first_state, dispatch}
use diary_memory_service.Dispatcher.Cache.{Served, here, served}
use diary_memory_service.Dispatcher.Stored.{dispatch_route-Preserves}

-- The same notes by source and date, the same chunks by source, and the same embeddings.
abbrev pub SameIndex : MockDomainStore → MockDomainStore → Type 0
SameIndex s t = SameHeads s t × (t.embeddings ≡ s.embeddings)

mark_note-embeddings :
    (s : MockDomainStore) (state : LifecycleState) (id c : Text)
    → (mark_note state id c s).1.embeddings ≡ s.embeddings
unfolding mark_note
mark_note-embeddings s state id c = ground arith

mark_chunk-embeddings :
    (s : MockDomainStore) (state : LifecycleState) (id c : Text)
    → (mark_chunk state id c s).1.embeddings ≡ s.embeddings
unfolding mark_chunk
mark_chunk-embeddings s state id c = ground arith

after_heads : (s t u : MockDomainStore) → SameHeads t u → SameHeads s t → SameHeads s u
after_heads s t u h k = (h.0 ∙ k.0, h.1 ∙ k.1)

module _ (s : MockDomainStore) where
  put_source-SameIndex :
      (m : SourceMessage) (t : MockDomainStore) → SameIndex s t → SameIndex s (put_source m t)
  unfolding put_source note_heads chunk_heads
  put_source-SameIndex m t h = h

  flips-SameIndex : KeepsFlips (SameIndex s)
  flips-SameIndex = record {
    note_marked = λ state id c off t h. (
      after_heads s t (mark_note state id c t).1 (mark_note-SameHeads t state id c) h.0,
      mark_note-embeddings t state id c ∙ h.1,
    );
    chunk_marked = λ state id c t h. (
      after_heads s t (mark_chunk state id c t).1 (mark_chunk-SameHeads t state id c) h.0,
      mark_chunk-embeddings t state id c ∙ h.1,
    );
  }

  traces-SameIndex : IgnoresTraces (SameIndex s)
  unfolding save_query save_retrieval_hit save_answer_trace note_heads chunk_heads
  traces-SameIndex = record {
    query_row_saved = λ q t h. ground (arith, h);
    hit_row_saved = λ x t h. ground (arith, h);
    trace_row_saved = λ x t h. ground (arith, h);
  }

  chat-SameIndex : IgnoresChat (SameIndex s)
  unfolding save_chat_route_decision save_chat_query_rewrite save_chat_knowledge_search note_heads
      chunk_heads
  chat-SameIndex = record {
    traces = traces-SameIndex;
    decision_saved = λ d t h. ground (arith, h);
    rewrite_saved = λ r t h. ground (arith, h);
    search_saved = λ k t h. ground (arith, h);
  }

-- Only `/note` indexes (the draft floor): on any other route a dispatch adds and removes no note,
-- no chunk and no embedding, whether it returns or raises.
pub dispatch-SameIndex :
    (d : Dispatcher) (draws : DispatchDraws) (message : InboundMessage) (t : State)
    → message.route ≢ RouteKind.note
    → SameIndex t.store (dispatch d draws message t).1.store
unfolding dispatch
dispatch-SameIndex d draws message t other =
    dispatch_route-Preserves (SameIndex t.store) (flips-SameIndex t.store)
      (put_source-SameIndex t.store) (chat-SameIndex t.store) d draws message message.route refl
      (λ e. absurd (other e)) t ((refl, refl), refl)

keyed_traces : IgnoresTraces IsWellKeyed
keyed_traces = record {
  query_row_saved = λ q s h. save_query-IsWellKeyed s h q;
  hit_row_saved = λ x s h. save_hit-IsWellKeyed s h x;
  trace_row_saved = λ x s h. save_trace-IsWellKeyed s h x;
}

keyed_chat : IgnoresChat IsWellKeyed
unfolding save_chat_route_decision save_chat_query_rewrite save_chat_knowledge_search
keyed_chat = record {
  traces = keyed_traces;
  decision_saved = λ d s h. ground (arith, h);
  rewrite_saved = λ r s h. ground (arith, h);
  search_saved = λ k s h. ground (arith, h);
}

-- Every dispatch, whatever the route and the outcome, keeps the notes, the chunks and the retrieval
-- hits of the store under their own ids, each once, and each key of the embeddings once.
pub dispatch-IsWellKeyed :
    (d : Dispatcher) (draws : DispatchDraws) (message : InboundMessage) (t : State)
    → IsWellKeyed t.store
    → IsWellKeyed (dispatch d draws message t).1.store
unfolding dispatch
dispatch-IsWellKeyed d draws message t =
    dispatch_route-Preserves IsWellKeyed keyed_flips (λ m s h. put_source-IsWellKeyed s h m)
      keyed_chat d draws message message.route refl (λ e. keyed_rows) t

Served-IsWellKeyed :
    {d : Dispatcher} {s t : State} → Served d s t → IsWellKeyed s.store → IsWellKeyed t.store
Served-IsWellKeyed here h = h
Served-IsWellKeyed {d} (served {t} run draws message) h =
    dispatch-IsWellKeyed d draws message t (Served-IsWellKeyed run h)

-- After any sequence of messages to a fresh service, the hard deletion of a stored message of the
-- community raises nothing, removes exactly the message, its key and the notes, chunks, embeddings
-- and hits derived from it, and reports how many.
pub served_hard_delete :
    (d : Dispatcher) (t : State) (id community_id : Text) (source : SourceMessage)
    → Served d first_state t
    → is_empty community_id ≡ false
    → lookup id t.store.sources ≡ some source
    → source.community_id ≡ community_id
    → hard_delete_source_message id community_id t.store
      ≡ (ok (purge_counts id t.store), purged id source t.store)
served_hard_delete d t id community_id source run named found owned =
    hard_delete_purges id community_id source t.store named
      (Served-IsWellKeyed run (tt, tt, tt, tt, tt, tt, tt)) found owned
