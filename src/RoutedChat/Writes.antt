-- ===== src/RoutedChat/Writes.antt =====
-- A routed-chat call writes traces only: services/routed_chat.py.
use diary_memory_service.Base.{[], Option, none, some, map, Bool-cases, inl, inr, ◌==◌, text_eq}
use diary_memory_service.Base.Text.{Text, codes, is_empty, strip}
use diary_memory_service.Exec.{Result, Exception, value_error, class_name, lift, pure, ◌>>=◌}
use diary_memory_service.Exec.Invariants.{
  Preserves, bind-Preserves, raise_if-Preserves, try_except-Preserves,
}
use diary_memory_service.Models.{
  InboundMessage, AnswerContext, AnswerResult, ChatRoute, notes_lookup, notes_plus_model,
  notes_plus_knowledge, model_only, ChatRouteDecision, ChatQueryRewrite, ChatKnowledgeSearch,
}
use diary_memory_service.Store.{MockDomainStore, require_community}
use diary_memory_service.Store.Traces.{save_query, save_answer_trace}
use diary_memory_service.Store.ChatTraces.{
  save_chat_route_decision, save_chat_query_rewrite, save_chat_knowledge_search,
}
use diary_memory_service.Answers.{chunk_ids_of}
use diary_memory_service.Retrieval.{RetrievedCandidates}
use diary_memory_service.QueryService.{answer, retrieve, persist_trace}
use diary_memory_service.QueryService.Writes.{
  IgnoresTraces, answer-Preserves, retrieve-Preserves, persist_trace-Preserves,
}
use diary_memory_service.RoutedChat.Providers.{KnowledgeSource}
use diary_memory_service.RoutedChat.Prompts.{
  model_only_prompt_version, notes_plus_model_prompt_version, notes_plus_knowledge_prompt_version,
  build_model_only_prompt, build_notes_plus_model_prompt, build_notes_plus_knowledge_prompt,
  refs_of,
}
use diary_memory_service.RoutedChat.Rewriting.{
  RoutedChatService, ChatDraws, RewriteCapture, KnowledgeCapture, rewrite, retrieval_query,
  rewrite_outward, searched, searched_query, capture_of,
}
use diary_memory_service.RoutedChat.Generating.{
  Generation, generate_model_only, generate_notes_plus_model, generate_notes_plus_knowledge,
}
use diary_memory_service.RoutedChat.Answering.{
  Answered, with_prompt, prompted, question_row, generation_trace, answer_model_only, mixed_answer,
  finish_mixed, mixed_context, answer_notes_plus_model, answer_with_knowledge, knowledge_route,
  answer_notes_plus_knowledge,
}
use diary_memory_service.RoutedChat.{
  Classified, on_not_implemented, looked_up, answer_route, classify, effective_route, save_rewrite,
  save_knowledge, decision_row, record_decision, chat,
}

-- What the rows of a routed-chat call leave alone.
pub record IgnoresChat (P : MockDomainStore → Type 0) : Type 0 where
  pub traces : IgnoresTraces P
  pub decision_saved : (d : ChatRouteDecision) → Preserves P (save_chat_route_decision d)
  pub rewrite_saved : (r : ChatQueryRewrite) → Preserves P (save_chat_query_rewrite r)
  pub search_saved : (k : ChatKnowledgeSearch) → Preserves P (save_chat_knowledge_search k)

module _ (P : MockDomainStore → Type 0) (w : IgnoresChat P) (svc : RoutedChatService)
    (draws : ChatDraws) (message : InboundMessage) where
  finish_mixed-Preserves :
      (question : Text) (scope : Option Text) (version : Text) (candidates : RetrievedCandidates)
      (context : AnswerContext) (g : Generation)
      → Preserves P (finish_mixed svc draws message question scope version candidates context g)
  unfolding finish_mixed
  finish_mixed-Preserves question scope version candidates context g =
      let row =
        question_row draws message question candidates.embedding_model_name g.fallback scope in
      let trace = generation_trace svc draws version (chunk_ids_of context.ordered_chunks) g in
      let result = mixed_answer question candidates context g in
      bind-Preserves P (persist_trace svc.query draws.ask_draws row candidates)
        (λ u. save_answer_trace trace >>= λ v. pure result)
        (persist_trace-Preserves P w.traces svc.query draws.ask_draws row candidates)
        (λ u.
          bind-Preserves P (save_answer_trace trace) (λ v. pure result)
            (w.traces.trace_row_saved trace) (λ v s h. h))

  answer_model_only-Preserves :
      (question : Text) → Preserves P (answer_model_only svc draws message question)
  unfolding answer_model_only
  answer_model_only-Preserves question =
      bind-Preserves P
        (lift
          (generate_model_only svc (svc.chat_client.complete (build_model_only_prompt question))))
        _ (λ s h. h)
        (λ g.
          bind-Preserves P
            (save_query
              (question_row draws message question svc.chat_client.model_name g.fallback none))
            _ (w.traces.query_row_saved _)
            (λ u.
              bind-Preserves P
                (save_answer_trace (generation_trace svc draws model_only_prompt_version [] g)) _
                (w.traces.trace_row_saved _) (λ v s h. h)))

  module _ (question : Text) (scope : Option Text) where
    -- The generation, and the rows it decides.
    generated-Preserves :
        (version : Text) (candidates : RetrievedCandidates) (context : AnswerContext)
        (r : Result Generation) (answered : AnswerResult → Answered)
        → Preserves P (
            lift r >>= λ g.
            finish_mixed svc draws message question scope version candidates context g >>= λ a.
            pure (answered a))
    generated-Preserves version candidates context r answered =
        bind-Preserves P (lift r) _ (λ s h. h)
          (λ g.
            bind-Preserves P
              (finish_mixed svc draws message question scope version candidates context g) _
              (finish_mixed-Preserves question scope version candidates context g) (λ a s h. h))

    answer_notes_plus_model-Preserves :
        Preserves P (answer_notes_plus_model svc draws message question scope)
    unfolding answer_notes_plus_model
    answer_notes_plus_model-Preserves =
        bind-Preserves P (lift (rewrite svc.rewriter draws.today question)) _ (λ s h. h)
          (λ capture.
            bind-Preserves P
              (retrieve svc.query message.community_id (retrieval_query question capture)
                capture.date_range scope)
              _
              (retrieve-Preserves P w.traces svc.query draws.ask_draws message.community_id
                (retrieval_query question capture) capture.date_range scope)
              (λ candidates.
                let context = mixed_context draws message question scope candidates in
                generated-Preserves notes_plus_model_prompt_version candidates context
                  (with_prompt (build_notes_plus_model_prompt context)
                    (λ prompt. generate_notes_plus_model svc context (prompted svc prompt)))
                  (λ a. record {
                    answer = a;
                    query_id = some draws.ask_draws.query_id;
                    rewrite = some capture;
                    knowledge = none;
                  })))

    answer_with_knowledge-Preserves :
        (source : KnowledgeSource) (capture : RewriteCapture) (candidates : RetrievedCandidates)
        → Preserves P
            (answer_with_knowledge svc draws message question scope source capture candidates)
    unfolding answer_with_knowledge
    answer_with_knowledge-Preserves source capture candidates =
        let context = mixed_context draws message question scope candidates in
        bind-Preserves P
          (lift (
            rewrite_outward svc.outward_rewriter question
              (map (λ c. c.chunk_text) context.ordered_chunks)))
          _ (λ s h. h)
          (λ outward.
            bind-Preserves P (lift (searched (source.search (searched_query question outward)))) _
              (λ s h. h)
              (λ found.
                generated-Preserves notes_plus_knowledge_prompt_version candidates context
                  (with_prompt (build_notes_plus_knowledge_prompt context found.excerpts) (λ prompt.
                    generate_notes_plus_knowledge svc context (refs_of found.excerpts)
                      (prompted svc prompt)))
                  (λ a. record {
                    answer = a;
                    query_id = some draws.ask_draws.query_id;
                    rewrite = some capture;
                    knowledge = some (capture_of question outward found);
                  })))

    knowledge_route-Preserves :
        (source : Option KnowledgeSource)
        → Preserves P (knowledge_route svc draws message question scope source)
    knowledge_route-Preserves none = λ s h. h
    knowledge_route-Preserves (some source) =
        bind-Preserves P (lift (rewrite svc.rewriter draws.today question)) _ (λ s h. h)
          (λ capture.
            bind-Preserves P
              (retrieve svc.query message.community_id (retrieval_query question capture)
                capture.date_range scope)
              _
              (retrieve-Preserves P w.traces svc.query draws.ask_draws message.community_id
                (retrieval_query question capture) capture.date_range scope)
              (answer_with_knowledge-Preserves source capture))

    on_not_implemented-Preserves : (e : Exception) → Preserves P (on_not_implemented question e)
    on_not_implemented-Preserves e =
        elim (Bool-cases (class_name e == codes "NotImplementedError")) [
          | inl unavailable ↦ rw unavailable (λ s h. h)
          | inr other ↦ rw other (λ s h. h)
        ]

    answer_route-Preserves :
        (route : ChatRoute) → Preserves P (answer_route svc draws message question scope route)
    unfolding answer_route answer_notes_plus_knowledge
    answer_route-Preserves model_only = answer_model_only-Preserves question
    answer_route-Preserves notes_plus_model =
        try_except-Preserves P (answer_notes_plus_model svc draws message question scope)
          (on_not_implemented question) answer_notes_plus_model-Preserves
          on_not_implemented-Preserves
    answer_route-Preserves notes_plus_knowledge =
        try_except-Preserves P (answer_notes_plus_knowledge svc draws message question scope)
          (on_not_implemented question) (knowledge_route-Preserves svc.knowledge_source)
          on_not_implemented-Preserves
    answer_route-Preserves notes_lookup =
        try_except-Preserves P (looked_up svc draws message scope) (on_not_implemented question)
          (bind-Preserves P (answer svc.query draws.ask_draws message none scope) _
            (answer-Preserves P w.traces svc.query draws.ask_draws message none scope) (λ a s h. h))
          on_not_implemented-Preserves

  save_rewrite-Preserves : (c : Option RewriteCapture) → Preserves P (save_rewrite draws message c)
  unfolding save_rewrite
  save_rewrite-Preserves none = λ s h. h
  save_rewrite-Preserves (some c) = w.rewrite_saved _

  save_knowledge-Preserves :
      (c : Option KnowledgeCapture) → Preserves P (save_knowledge svc draws message c)
  unfolding save_knowledge
  save_knowledge-Preserves none = λ s h. h
  save_knowledge-Preserves (some c) = w.search_saved _

  record_decision-Preserves :
      (question : Text) (c : Classified) (route : ChatRoute) (a : Answered)
      → Preserves P (record_decision svc draws message question c route a)
  unfolding record_decision
  record_decision-Preserves question c route a =
      bind-Preserves P
        (save_chat_route_decision (decision_row svc draws message question c route a.query_id)) _
        (w.decision_saved _)
        (λ u.
          bind-Preserves P (save_rewrite draws message a.rewrite) _
            (save_rewrite-Preserves a.rewrite)
            (λ v.
              bind-Preserves P (save_knowledge svc draws message a.knowledge) _
                (save_knowledge-Preserves a.knowledge) (λ x s h. h)))

  -- An invariant that the trace rows leave alone, a routed-chat call keeps.
  pub chat-Preserves : (scope : Option Text) → Preserves P (chat svc draws message scope)
  unfolding chat
  chat-Preserves scope =
      bind-Preserves P (require_community message.community_id) _
        (raise_if-Preserves P (is_empty message.community_id) value_error)
        (λ u.
          bind-Preserves P (lift (classify svc (strip message.payload))) _ (λ s h. h)
            (λ c.
              bind-Preserves P
                (answer_route svc draws message (strip message.payload) scope
                  (effective_route svc.knowledge_source c.requested))
                _ (answer_route-Preserves (strip message.payload) scope _)
                (record_decision-Preserves (strip message.payload) c _)))
