-- ===== src/Dispatcher/Links.antt =====
-- The rows of services/routed_chat.py that name a decision row, over the messages of
-- services/dispatcher.py.
use diary_memory_service.Base.{
  Bool, true, false, not, ◌||◌, ◌≡◌, refl, subst, ◌==◌, text_eq, text_pair_eq, if◌then◌else◌,
  eq_of_beq, Bool-cases, inl, inr, arith,
}
use diary_memory_service.Base.Text.{Text}
use diary_memory_service.Base.Dict.{Dict, insert, contains, lookup-insert}
use diary_memory_service.Exec.Invariants.{Preserves}
use diary_memory_service.Models.{
  InboundMessage, ChatRouteDecision, ChatQueryRewrite, ChatKnowledgeSearch,
}
use diary_memory_service.Store.{MockDomainStore}
use diary_memory_service.Store.Sources.{put_source}
use diary_memory_service.Store.Notes.{save_note, mark_note}
use diary_memory_service.Store.Chunks.{
  mark_chunk, set_chunk_embedding_status, save_indexing_dead_letter,
}
use diary_memory_service.Store.Traces.{save_query, save_retrieval_hit, save_answer_trace}
use diary_memory_service.Store.ChatTraces.{
  save_chat_route_decision, save_chat_query_rewrite, save_chat_knowledge_search,
}
use diary_memory_service.DomainService.Writes.{KeepsFlips}
use diary_memory_service.DomainService.Ingest.Writes.{KeepsRows}
use diary_memory_service.QueryService.Writes.{IgnoresTraces}
use diary_memory_service.RoutedChat.Writes.{IgnoresChat}
use diary_memory_service.Dispatcher.{Dispatcher, State, DispatchDraws, first_state, dispatch}
use diary_memory_service.Dispatcher.Cache.{Served, here, served}
use diary_memory_service.Dispatcher.Stored.{dispatch_route-Preserves}

-- Every key of the first dict is one of the second.
abbrev pub KeysIn : {A B : Type 0} → Dict Text A → Dict Text B → Type 0
KeysIn d e = (id : Text) → contains id d ≡ true → contains id e ≡ true

-- Every rewrite row and every search row stands under the id of a stored decision row.
abbrev pub IsLinked : MockDomainStore → Type 0
IsLinked s =
    KeysIn s.chat_query_rewrites s.chat_route_decisions
    × KeysIn s.chat_knowledge_searches s.chat_route_decisions

contains-insert :
    {A : Type 0} (k j : Text) (v : A) (d : Dict Text A)
    → contains j (insert k v d) ≡ (if k == j then true else contains j d)
contains-insert k j v d = ground (arith, lookup-insert k j v d)

module _ {A B : Type 0} (d : Dict Text A) (e : Dict Text B) where
  KeysIn-insert_right : (k : Text) (v : B) → KeysIn d e → KeysIn d (insert k v e)
  KeysIn-insert_right k v h id has = ground (arith, contains-insert k id v e, h id has)

  KeysIn-insert_left :
      (k : Text) (v : A) → contains k e ≡ true → KeysIn d e → KeysIn (insert k v d) e
  KeysIn-insert_left k v known h id has = elim (Bool-cases (k == id)) [
    | inl same ↦ subst (λ i. contains i e ≡ true) (eq_of_beq k id same) known
    | inr other ↦ h id (ground (arith, contains-insert k id v d, has, other))
  ]

-- The same three dicts of the routed chat.
abbrev SameLinks : MockDomainStore → MockDomainStore → Type 0
SameLinks s t =
    (t.chat_route_decisions ≡ s.chat_route_decisions)
    × ((t.chat_query_rewrites ≡ s.chat_query_rewrites)
        × (t.chat_knowledge_searches ≡ s.chat_knowledge_searches))

IsLinked-same : (s t : MockDomainStore) → SameLinks s t → IsLinked s → IsLinked t
IsLinked-same s t h linked = rw (h.0, h.1.0, h.1.1) linked

keyed_flips : KeepsFlips IsLinked
unfolding mark_note mark_chunk
keyed_flips = record {
  note_marked = λ state id c off s h. IsLinked-same s (mark_note state id c s).1 (ground arith) h;
  chunk_marked = λ state id c s h. IsLinked-same s (mark_chunk state id c s).1 (ground arith) h;
}

keyed_rows : KeepsRows IsLinked
unfolding save_note set_chunk_embedding_status save_indexing_dead_letter
keyed_rows = record {
  note_saved = λ n s h. h;
  chunk_saved = λ c s h. h;
  embeddings = record {
    embedding_saved = λ r s h. ground (arith, h);
    status_set = λ id status s h.
        IsLinked-same s (set_chunk_embedding_status id status s).1 (ground arith) h;
    letter_saved = λ d s h. IsLinked-same s (save_indexing_dead_letter d s).1 (ground arith) h;
  };
}

keyed_traces : IgnoresTraces IsLinked
unfolding save_query save_retrieval_hit save_answer_trace
keyed_traces = record {
  query_row_saved = λ q s h. IsLinked-same s (save_query q s).1 (ground arith) h;
  hit_row_saved = λ x s h. IsLinked-same s (save_retrieval_hit x s).1 (ground arith) h;
  trace_row_saved = λ x s h. IsLinked-same s (save_answer_trace x s).1 (ground arith) h;
}

decision-IsLinked : (d : ChatRouteDecision) → Preserves IsLinked (save_chat_route_decision d)
unfolding save_chat_route_decision
decision-IsLinked d s h = elim (Bool-cases (contains d.decision_id s.chat_route_decisions)) [
  | inl known ↦ rw known h
  | inr new ↦ rw new (
    KeysIn-insert_right s.chat_query_rewrites s.chat_route_decisions d.decision_id d h.0,
    KeysIn-insert_right s.chat_knowledge_searches s.chat_route_decisions d.decision_id d h.1,
  )
]

decision_known : (a b : Bool) → a || not b ≡ false → b ≡ true
decision_known a b h = ground arith

rewrite-IsLinked : (r : ChatQueryRewrite) → Preserves IsLinked (save_chat_query_rewrite r)
unfolding save_chat_query_rewrite
rewrite-IsLinked r s h =
    let taken = contains r.decision_id s.chat_query_rewrites in
    let known = contains r.decision_id s.chat_route_decisions in
    elim (Bool-cases (taken || not known)) [
      | inl refused ↦ rw refused h
      | inr free ↦ rw free (
        KeysIn-insert_left s.chat_query_rewrites s.chat_route_decisions r.decision_id r
            (decision_known taken known free) h.0,
        h.1,
      )
    ]

search-IsLinked : (k : ChatKnowledgeSearch) → Preserves IsLinked (save_chat_knowledge_search k)
unfolding save_chat_knowledge_search
search-IsLinked k s h =
    let taken = contains k.decision_id s.chat_knowledge_searches in
    let known = contains k.decision_id s.chat_route_decisions in
    elim (Bool-cases (taken || not known)) [
      | inl refused ↦ rw refused h
      | inr free ↦ rw free (
        h.0,
        KeysIn-insert_left s.chat_knowledge_searches s.chat_route_decisions k.decision_id k
            (decision_known taken known free) h.1,
      )
    ]

keyed_chat : IgnoresChat IsLinked
keyed_chat = record {
  traces = keyed_traces;
  decision_saved = decision-IsLinked;
  rewrite_saved = rewrite-IsLinked;
  search_saved = search-IsLinked;
}

dispatch-IsLinked :
    (d : Dispatcher) (draws : DispatchDraws) (message : InboundMessage) (t : State)
    → IsLinked t.store
    → IsLinked (dispatch d draws message t).1.store
unfolding dispatch put_source
dispatch-IsLinked d draws message t =
    dispatch_route-Preserves IsLinked keyed_flips (λ m s h. h) keyed_chat d draws message
      message.route refl (λ e. keyed_rows) t

Served-IsLinked :
    {d : Dispatcher} {s t : State} → Served d s t → IsLinked s.store → IsLinked t.store
Served-IsLinked here h = h
Served-IsLinked {d} (served {t} run draws message) h =
    dispatch-IsLinked d draws message t (Served-IsLinked run h)

-- After any sequence of messages to a fresh service, whatever their routes and outcomes, every
-- stored rewrite row and every stored search row of the routed chat stands under the id of a stored
-- decision row.
pub served-IsLinked : (d : Dispatcher) (t : State) → Served d first_state t → IsLinked t.store
served-IsLinked d t run = Served-IsLinked run ((λ id has. cc), (λ id has. cc))
