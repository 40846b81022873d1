-- ===== src/Tests/Dispatcher.antt =====
-- The dispatcher on the sample services.
use diary_memory_service.Base.{keep, none, ◌≡◌, ◌≢◌, refl, some, [], ◌∷◌, text_eq}
use diary_memory_service.Base.Text.{codes}
use diary_memory_service.Base.Dict.{lookup}
use diary_memory_service.Exec.{try_except, ok}
use diary_memory_service.Models.{RouteKind, InboundMessage, SourceMessage, AnswerResult}
use diary_memory_service.Answers.{is_in}
use diary_memory_service.Store.Removal.{hard_delete_source_message}
use diary_memory_service.Store.Removal.Purged.{IsWellKeyed, purged, purge_counts}
use diary_memory_service.DomainService.Ingest.{candidate_source}
use diary_memory_service.Dispatcher.{
  State, DispatchResult, on_store, on_unavailable, first_state, dispatch, sources_result,
}
use diary_memory_service.Dispatcher.Cache.{
  CacheScoped, AllOf, chunks_of, Served, here, served, dispatch-CacheScoped, sources_stay_home,
}
use diary_memory_service.Dispatcher.Effects.{
  SameIndex, dispatch-SameIndex, dispatch-IsWellKeyed, served_hard_delete,
}
use diary_memory_service.Dispatcher.Asked.{ask_result, context_chunks, ask_then_sources}
use diary_memory_service.QueryService.{answer}
use diary_memory_service.Running.{running}
use diary_memory_service.Samples.{message_of, draws_at, first_note}
use diary_memory_service.Samples.Service.{asking, ask_one, answered, chunk_one}
use diary_memory_service.Samples.Bot.{sample_dispatcher, dispatch_draws, serving, state_one}

abbrev a_draft : InboundMessage
a_draft = message_of RouteKind.draft 3 (codes "buy milk")

abbrev ask_sources : InboundMessage
ask_sources = message_of RouteKind.sources 0 []

draft-note : RouteKind.draft ≢ RouteKind.note
draft-note e = cc

dispatch-SameIndex_example :
    SameIndex state_one.store
      (dispatch sample_dispatcher (dispatch_draws 2) a_draft state_one).1.store
dispatch-SameIndex_example =
    dispatch-SameIndex sample_dispatcher (dispatch_draws 2) a_draft state_one draft-note

dispatch-CacheScoped_example :
    CacheScoped (dispatch sample_dispatcher (dispatch_draws 1) ask_one first_state).1
dispatch-CacheScoped_example =
    dispatch-CacheScoped sample_dispatcher (dispatch_draws 1) ask_one first_state tt

dispatch-IsWellKeyed_example :
    IsWellKeyed (dispatch sample_dispatcher (dispatch_draws 1) first_note first_state).1.store
dispatch-IsWellKeyed_example =
    dispatch-IsWellKeyed sample_dispatcher (dispatch_draws 1) first_note first_state
      (tt, tt, tt, tt, tt, tt, tt)

-- A note, and then a question.
abbrev state_two : State
state_two = (dispatch sample_dispatcher (dispatch_draws 2) ask_one state_one).1

abbrev run_one : Served sample_dispatcher first_state state_one
run_one = served here (dispatch_draws 1) first_note

abbrev run_two : Served sample_dispatcher first_state state_two
run_two = served run_one (dispatch_draws 2) ask_one

asked_two :
    dispatch sample_dispatcher (dispatch_draws 2) ask_one state_one
    ≡ (ok (ask_result ask_one answered), state_two)
unfolding running asking serving
asked_two = refl

ask_then_sources_example :
    (a : AnswerResult) × (u : State) × (on_store
        (try_except
          (answer sample_dispatcher.query (dispatch_draws 2).ask_draws ask_one none none)
          (on_unavailable ask_one))
        state_one
      ≡ (ok a, u))
    × (ask_result ask_one answered ≡ ask_result ask_one a)
    × (dispatch sample_dispatcher (dispatch_draws 3) ask_sources state_two ≡ (
      ok (
          sources_result ask_sources
            (some (keep (λ c. is_in c.chunk_id a.cited_chunk_ids) (context_chunks a.context)))),
      state_two,
    ))
ask_then_sources_example =
    ask_then_sources sample_dispatcher (dispatch_draws 2) (dispatch_draws 3) ask_one ask_sources
      state_one state_two (ask_result ask_one answered) refl refl refl asked_two

-- The note's chunk is what `/sources` shows.
sources_two :
    (dispatch sample_dispatcher (dispatch_draws 3) ask_sources state_two).0
    ≡ ok (sources_result ask_sources (some (chunk_one ∷ [])))
unfolding running asking serving
sources_two = refl

sources_stay_home_example :
    (r : DispatchResult) × (dispatch sample_dispatcher (dispatch_draws 3) ask_sources state_two
      ≡ (ok r, state_two))
    × AllOf (codes "chat") (chunks_of r.source_chunks)
sources_stay_home_example =
    sources_stay_home sample_dispatcher first_state.store state_two (dispatch_draws 3) ask_sources
      run_two refl

abbrev source_one : SourceMessage
source_one = candidate_source (draws_at 1) first_note

stored_one : lookup (b's' ∷ 1 ∷ []) state_one.store.sources ≡ some source_one
unfolding running serving
stored_one = refl

served_hard_delete_example :
    hard_delete_source_message (b's' ∷ 1 ∷ []) (codes "chat") state_one.store ≡ (
      ok (purge_counts (b's' ∷ 1 ∷ []) state_one.store),
      purged (b's' ∷ 1 ∷ []) source_one state_one.store,
    )
served_hard_delete_example =
    served_hard_delete sample_dispatcher state_one (b's' ∷ 1 ∷ []) (codes "chat") source_one run_one
      refl stored_one refl
