-- ===== src/RoutedChat/Recorded.antt =====
-- The decision row of a routed-chat call: services/routed_chat.py.
use diary_memory_service.Base.{◌≡◌, refl, Option, none, some, text_eq, inl, inr, Bool-cases, arith}
use diary_memory_service.Base.Text.{Text, strip}
use diary_memory_service.Base.Dict.{lookup, contains, lookup-insert_self}
use diary_memory_service.Exec.{lift}
use diary_memory_service.Exec.Invariants.{
  Preserves, Leaves, bind-Leaves, Preserves-Leaves, Leaves-any,
}
use diary_memory_service.Models.{
  InboundMessage, ChatRouteDecision, ChatQueryRewrite, ChatKnowledgeSearch, RoutedChatResult,
}
use diary_memory_service.Store.{MockDomainStore, require_community}
use diary_memory_service.Store.ChatTraces.{
  save_chat_route_decision, save_chat_query_rewrite, save_chat_knowledge_search,
}
use diary_memory_service.RoutedChat.Rewriting.{
  RoutedChatService, ChatDraws, RewriteCapture, KnowledgeCapture,
}
use diary_memory_service.RoutedChat.Answering.{Answered}
use diary_memory_service.RoutedChat.{
  Classified, classify, effective_route, answer_route, decision_row, save_rewrite, save_knowledge,
  record_decision, chat,
}

-- The decision row of the call is stored, tells the routes of the result, and its effective route is
-- the one that the fallback policy gives for the requested one.
pub record IsRecorded (svc : RoutedChatService) (message : InboundMessage) (r : RoutedChatResult)
    (s : MockDomainStore) : Type 0 where
  pub decision : ChatRouteDecision
  pub stored : lookup r.decision_id s.chat_route_decisions ≡ some decision
  pub community : decision.community_id ≡ message.community_id
  pub question : decision.question_text ≡ strip message.payload
  pub requested : decision.requested_route ≡ r.requested_route
  pub effective : decision.effective_route ≡ r.effective_route
  pub policy : effective_route svc.knowledge_source r.requested_route ≡ r.effective_route

abbrev HasDecision : ChatRouteDecision → MockDomainStore → Type 0
HasDecision d s = lookup d.decision_id s.chat_route_decisions ≡ some d

save_decision-Leaves :
    (d : ChatRouteDecision) (s : MockDomainStore)
    → Leaves (λ u. HasDecision d) (save_chat_route_decision d s)
unfolding save_chat_route_decision
save_decision-Leaves d s = elim (Bool-cases (contains d.decision_id s.chat_route_decisions)) [
  | inl known ↦ rw known tt
  | inr new ↦ rw new (lookup-insert_self d.decision_id d s.chat_route_decisions)
]

module _ (d : ChatRouteDecision) where
  rewrite_row-HasDecision :
      (r : ChatQueryRewrite) → Preserves (HasDecision d) (save_chat_query_rewrite r)
  unfolding save_chat_query_rewrite
  rewrite_row-HasDecision r s h = ground (arith, h)

  search_row-HasDecision :
      (k : ChatKnowledgeSearch) → Preserves (HasDecision d) (save_chat_knowledge_search k)
  unfolding save_chat_knowledge_search
  search_row-HasDecision k s h = ground (arith, h)

  save_rewrite-HasDecision :
      (draws : ChatDraws) (message : InboundMessage) (c : Option RewriteCapture)
      → Preserves (HasDecision d) (save_rewrite draws message c)
  unfolding save_rewrite
  save_rewrite-HasDecision draws message none = λ s h. h
  save_rewrite-HasDecision draws message (some c) = rewrite_row-HasDecision _

  save_knowledge-HasDecision :
      (svc : RoutedChatService) (draws : ChatDraws) (message : InboundMessage)
      (c : Option KnowledgeCapture)
      → Preserves (HasDecision d) (save_knowledge svc draws message c)
  unfolding save_knowledge
  save_knowledge-HasDecision svc draws message none = λ s h. h
  save_knowledge-HasDecision svc draws message (some c) = search_row-HasDecision _

module _ (svc : RoutedChatService) (draws : ChatDraws) (message : InboundMessage) where
  record_decision-Leaves :
      (c : Classified) (a : Answered) (s : MockDomainStore)
      → Leaves (IsRecorded svc message) (
          record_decision svc draws message
            (strip message.payload)
            c
            (effective_route svc.knowledge_source c.requested)
            a
            s)
  unfolding record_decision
  record_decision-Leaves c a s =
      let route = effective_route svc.knowledge_source c.requested in
      let row = decision_row svc draws message (strip message.payload) c route a.query_id in
      bind-Leaves (λ u. HasDecision row) (IsRecorded svc message) (save_chat_route_decision row) _ s
        (save_decision-Leaves row s)
        (λ u t h.
          bind-Leaves (λ v. HasDecision row) (IsRecorded svc message)
            (save_rewrite draws message a.rewrite) _ t
            (Preserves-Leaves (HasDecision row) (save_rewrite draws message a.rewrite)
              (save_rewrite-HasDecision row draws message a.rewrite) t h)
            (λ v t h.
              bind-Leaves (λ x. HasDecision row) (IsRecorded svc message)
                (save_knowledge svc draws message a.knowledge) _ t
                (Preserves-Leaves (HasDecision row) (save_knowledge svc draws message a.knowledge)
                  (save_knowledge-HasDecision row svc draws message a.knowledge) t h)
                (λ x t h. record {
                  decision = row;
                  stored = h;
                  community = refl;
                  question = refl;
                  requested = refl;
                  effective = refl;
                  policy = refl;
                })))

  -- A routed-chat call that returns, whatever its route and its fallback, has stored the decision
  -- row under the id that the result carries, with the message's community, the stripped question
  -- and the result's routes; the effective route is the fallback policy's for the requested one.
  pub chat-IsRecorded :
      (scope : Option Text) (s : MockDomainStore)
      → Leaves (IsRecorded svc message) (chat svc draws message scope s)
  unfolding chat
  chat-IsRecorded scope s =
      bind-Leaves (λ u t. Unit {0}) (IsRecorded svc message)
        (require_community message.community_id) _ s
        (Leaves-any (require_community message.community_id s))
        (λ u t h.
          bind-Leaves (λ c t. Unit {0}) (IsRecorded svc message)
            (lift (classify svc (strip message.payload))) _ t
            (Leaves-any (lift (classify svc (strip message.payload)) t))
            (λ c t h.
              let routed =
                answer_route svc draws message (strip message.payload) scope
                  (effective_route svc.knowledge_source c.requested) in
              bind-Leaves (λ a t. Unit {0}) (IsRecorded svc message) routed _ t
                (Leaves-any (routed t)) (λ a t h. record_decision-Leaves c a t)))
