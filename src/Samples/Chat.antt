-- ===== src/Samples/Chat.antt =====
-- Test data: a routed chat that sends every question to the three planes.
use diary_memory_service.Base.{none, some, [], ◌∷◌}
use diary_memory_service.Base.Text.{codes}
use diary_memory_service.Models.{notes_plus_knowledge}
use diary_memory_service.Exec.{ok}
use diary_memory_service.Answers.{
  JsonLoads, string, array, object, no_items, item, no_fields, field,
}
use diary_memory_service.RoutedChat.Providers.{returned, unavailable}
use diary_memory_service.RoutedChat.Rewriting.{RoutedChatService, ChatDraws}
use diary_memory_service.Samples.Service.{sample_service, ask_draws, chunk_one_id}

-- A mixed answer as its JSON.
abbrev pub loads_mixed : JsonLoads
loads_mixed raw = ok (
    some (
      object (
        field (codes "notes_text") (string (codes "You walked.")) (
          field (codes "cited_chunk_ids") (array (item (string chunk_one_id) no_items)) (
            field (codes "knowledge_text") (string (codes "Walking helps.")) (
              field (codes "cited_knowledge_refs") (array (item (string (codes "w1")) no_items)) (
                field (codes "model_text") (string (codes "Keep on."))
                  (field (codes "notes_uncertainty") (string (codes "confident")) no_fields))))))))

abbrev pub sample_chat : RoutedChatService
sample_chat = record {
  classifier = record {
    model_name = codes "router";
    classify = λ question. returned (record {
      route = notes_plus_knowledge;
      raw_output = codes "3";
      model_name = codes "router";
      latency_ms = 2;
    });
  };
  query = record sample_service { loads = loads_mixed };
  chat_client = sample_service.chat;
  rewriter = none;
  knowledge_source = some (record {
    provider_name = codes "web";
    search = λ query. returned (record {
      excerpts =
          record { ref = codes "w1"; title = codes "Walking"; excerpt_text = codes "It helps." }
          ∷ [];
      raw_output = codes "[]";
      latency_ms = 3;
    });
  });
  outward_rewriter = some (record {
    model_name = codes "outward";
    rewrite_outward = λ question notes_context. unavailable;
  });
}

abbrev pub chat_draws : ChatDraws
chat_draws = record {
  ask_draws = ask_draws;
  today = 9;
  decision_id = codes "d1";
  decided_at = 9;
  rewrite_id = codes "r1";
  rewrite_at = 9;
  search_id = codes "k1";
  search_at = 9;
}
