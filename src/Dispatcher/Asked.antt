-- ===== src/Dispatcher/Asked.antt =====
-- `/ask` and then `/sources`, services/dispatcher.py.
use diary_memory_service.Base.{
  ◌≡◌, refl, sym, List, [], keep, ap, none, some, Option, text_eq, subst,
}
use diary_memory_service.Base.Dict.{lookup, insert, lookup-insert_self}
use diary_memory_service.Exec.{Result, ok, raised, outcome_then, try_except}
use diary_memory_service.Exec.Laws.{ok-injective}
use diary_memory_service.Models.{EventChunk, RouteKind, InboundMessage, AnswerContext, AnswerResult}
use diary_memory_service.Answers.{is_in}
use diary_memory_service.QueryService.{answer}
use diary_memory_service.Dispatcher.Replies.{format_answer_reply}
use diary_memory_service.Dispatcher.{
  Dispatcher, State, DispatchDraws, DispatchResult, on_store, reply, outcome_metadata,
  on_unavailable, cited_chunks, cited_among, update_latest_sources, dispatch_ask, dispatch_sources,
  sources_result, dispatch,
}

-- The result and the state of an `/ask` that got the answer `a`.
abbrev pub ask_result : InboundMessage → AnswerResult → DispatchResult
ask_result m a =
    reply (format_answer_reply a) RouteKind.ask (outcome_metadata a.fallback m.route_source)

-- The chunks of a context.
abbrev pub context_chunks : Option AnswerContext → List EventChunk
context_chunks none = []
context_chunks (some context) = context.ordered_chunks

cited_chunks_lem :
    (a : AnswerResult)
    → cited_chunks a ≡ keep (λ c. is_in c.chunk_id a.cited_chunk_ids) (context_chunks a.context)
unfolding cited_chunks
cited_chunks_lem a = go a.context
  where
    go :
        (context : Option AnswerContext)
        → cited_among a.cited_chunk_ids context
          ≡ keep (λ c. is_in c.chunk_id a.cited_chunk_ids) (context_chunks context)
    go none = refl
    go (some context) = refl

abbrev HasAsked : InboundMessage → Result AnswerResult × State → DispatchResult → State → Type 0
HasAsked m x r t =
    (a : AnswerResult) × (u : State) × (x ≡ (ok a, u))
    × (r ≡ ask_result m a)
    × (lookup m.community_id t.latest_sources ≡ some (cited_chunks a))

HasAsked-of :
    (m : InboundMessage) (r : DispatchResult) (t : State) (x : Result AnswerResult × State)
    → outcome_then x.0
        (λ a w. (
          ok (ask_result m a),
          record w { latest_sources = insert m.community_id (cited_chunks a) w.latest_sources },
        ))
        x.1
      ≡ (ok r, t)
    → HasAsked m x r t
HasAsked-of m r t (raised e, w) h = absurd cc
HasAsked-of m r t (ok a, w) h = (
  a,
  w,
  refl,
  sym (ok-injective (ask_result m a) r (ap (λ p. p.0) h)),
  subst (λ u. lookup m.community_id u.latest_sources ≡ some (cited_chunks a)) (ap (λ p. p.1) h)
      (lookup-insert_self m.community_id (cited_chunks a) w.latest_sources),
)

-- When an `/ask` returns a result, the query service has returned an answer, or the fallback where
-- it is not implemented, which the result renders, and whatever `/sources` of the community comes next
-- returns exactly the chunks of that answer's context that it cites, in the order of the context.
pub ask_then_sources :
    (d : Dispatcher) (draws later : DispatchDraws) (m n : InboundMessage) (s t : State)
    (r : DispatchResult)
    → m.route ≡ RouteKind.ask
    → n.route ≡ RouteKind.sources
    → n.community_id ≡ m.community_id
    → dispatch d draws m s ≡ (ok r, t)
    → (a : AnswerResult) × (u : State) × (on_store
          (try_except (answer d.query draws.ask_draws m none none) (on_unavailable m))
          s
        ≡ (ok a, u))
      × (r ≡ ask_result m a)
      × (dispatch d later n t ≡ (
        ok (
            sources_result n
              (some (keep (λ c. is_in c.chunk_id a.cited_chunk_ids) (context_chunks a.context)))),
        t,
      ))
unfolding dispatch dispatch_ask dispatch_sources update_latest_sources answer
ask_then_sources d draws later m n s t r asks asks_sources same h =
    let (a, u, answered, rendered, cached) =
      HasAsked-of m r t
        (on_store (try_except (answer d.query draws.ask_draws m none none) (on_unavailable m)) s)
        (rw asks at h) in
    (a, u, answered, rendered, rw (asks_sources, same, cached, cited_chunks_lem a))
