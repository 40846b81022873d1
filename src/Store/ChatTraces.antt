-- ===== src/Store/ChatTraces.antt =====
-- Routed-chat traces: storage/mock/store.py, from `save_chat_route_decision` to
-- `get_chat_knowledge_search_for_decision`.
use diary_memory_service.Base.{not, ◌||◌, Option, none, some, ◌==◌, text_eq, if◌then◌else◌}
use diary_memory_service.Base.Text.{Text}
use diary_memory_service.Base.Dict.{lookup, insert, contains}
use diary_memory_service.Exec.{Exec, ok, raised, value_error, gets, ◌>>◌}
use diary_memory_service.Models.{ChatRouteDecision, ChatQueryRewrite, ChatKnowledgeSearch}
use diary_memory_service.Store.{MockDomainStore, require_community}

unfoldable pub save_chat_route_decision : ChatRouteDecision → Exec MockDomainStore (Unit {0})
save_chat_route_decision d s =
    if contains d.decision_id s.chat_route_decisions
    then (raised value_error, s)
    else (ok tt, record s { chat_route_decisions = insert d.decision_id d s.chat_route_decisions })

abbrev owned_decision : Text → Option ChatRouteDecision → Option ChatRouteDecision
owned_decision community_id none = none
owned_decision community_id (some d) = if d.community_id == community_id then some d else none

unfoldable pub get_chat_route_decision :
    Text → Text → Exec MockDomainStore (Option ChatRouteDecision)
get_chat_route_decision decision_id community_id = do
  require_community community_id
  gets (λ s. owned_decision community_id (lookup decision_id s.chat_route_decisions))

unfoldable pub save_chat_query_rewrite : ChatQueryRewrite → Exec MockDomainStore (Unit {0})
save_chat_query_rewrite r s =
    if contains r.decision_id s.chat_query_rewrites
      || not (contains r.decision_id s.chat_route_decisions)
    then (raised value_error, s)
    else (ok tt, record s { chat_query_rewrites = insert r.decision_id r s.chat_query_rewrites })

abbrev owned_rewrite : Text → Option ChatQueryRewrite → Option ChatQueryRewrite
owned_rewrite community_id none = none
owned_rewrite community_id (some r) = if r.community_id == community_id then some r else none

unfoldable pub get_chat_query_rewrite_for_decision :
    Text → Text → Exec MockDomainStore (Option ChatQueryRewrite)
get_chat_query_rewrite_for_decision decision_id community_id = do
  require_community community_id
  gets (λ s. owned_rewrite community_id (lookup decision_id s.chat_query_rewrites))

unfoldable pub save_chat_knowledge_search : ChatKnowledgeSearch → Exec MockDomainStore (Unit {0})
save_chat_knowledge_search k s =
    if contains k.decision_id s.chat_knowledge_searches
      || not (contains k.decision_id s.chat_route_decisions)
    then (raised value_error, s)
    else (
      ok tt,
      record s { chat_knowledge_searches = insert k.decision_id k s.chat_knowledge_searches },
    )

abbrev owned_search : Text → Option ChatKnowledgeSearch → Option ChatKnowledgeSearch
owned_search community_id none = none
owned_search community_id (some k) = if k.community_id == community_id then some k else none

unfoldable pub get_chat_knowledge_search_for_decision :
    Text → Text → Exec MockDomainStore (Option ChatKnowledgeSearch)
get_chat_knowledge_search_for_decision decision_id community_id = do
  require_community community_id
  gets (λ s. owned_search community_id (lookup decision_id s.chat_knowledge_searches))
