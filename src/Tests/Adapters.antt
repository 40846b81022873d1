-- ===== src/Tests/Adapters.antt =====
-- The adapters and the boot on the sample providers.
use diary_memory_service.Base.{◌≡◌, refl, none, some, List, [], ◌∷◌, ◌++◌, text_eq}
use diary_memory_service.Base.Text.{codes}
use diary_memory_service.Exec.{ok}
use diary_memory_service.Models.{Date}
use diary_memory_service.Answers.{AnswerPrompt, chunk_ids_of}
use diary_memory_service.QueryService.{ChatResponse}
use diary_memory_service.Resilience.{retry_loop, run_with_retries}
use diary_memory_service.RoutedChat.Providers.{
  returned, QueryRewrite, KnowledgeExcerpt, KnowledgeResult,
}
use diary_memory_service.RoutedChat.Prompts.{build_notes_plus_knowledge_prompt, refs_of}
use diary_memory_service.RoutedChat.Parsers.{parse_notes_plus_knowledge_answer}
use diary_memory_service.RoutedChat.Rewriting.{RoutedChatService}
use diary_memory_service.RoutedChat.{classify}
use diary_memory_service.Adapters.Routing.{open_ai_classify}
use diary_memory_service.Adapters.Knowledge.{
  classify_httpx_error, excerpts_of, found_in, tavily_search,
}
use diary_memory_service.Adapters.Mock.{mock_payload, mock_complete}
use diary_memory_service.Adapters.Bounded.{IsBounded, tavily_search-IsBounded}
use diary_memory_service.Adapters.MockRoundTrip.{json_of, mock_answer, mock_complete-parsed}
use diary_memory_service.Running.{running}
use diary_memory_service.Samples.Chat.{sample_chat}
use diary_memory_service.Exec.{class_name}
use diary_memory_service.Models.{AnswerContext}
use diary_memory_service.Answers.{chunk_line}
use diary_memory_service.RoutedChat.Prompts.{
  notes_plus_knowledge_prompt_version, notes_plus_knowledge_system_text,
}
use diary_memory_service.Adapters.Routing.{open_ai_route_classifier}
use diary_memory_service.Adapters.Rewriting.{open_ai_query_rewriter}
use diary_memory_service.Adapters.Outward.{open_ai_outward_rewriter}
use diary_memory_service.Adapters.Knowledge.{tavily_knowledge_source}
use diary_memory_service.Adapters.Completing.{open_ai_chat_client}
use diary_memory_service.Adapters.MockRouting.{mock_embedding_client}
use diary_memory_service.Boot.{
  build_embedding_client, build_chat_client, build_route_classifier, build_query_rewriter,
  build_outward_rewriter, build_knowledge_source,
}
use diary_memory_service.Boot.Gates.{
  verify_embedding_contour, verify_chat_contour, verify_classifier_contour,
  verify_knowledge_contour, verify_pgvector, create_app,
}
use diary_memory_service.Boot.Sound.{IsBooted, create_app-IsBooted}
use diary_memory_service.Samples.Bot.{serving}
use diary_memory_service.Samples.Service.{asking}
use diary_memory_service.Samples.Providers.{outside, sample_settings}
use diary_memory_service.Samples.Providers.{three_attempts, tools_under, http_under, loads_tool}
use diary_memory_service.Samples.Service.{chunk_one}

abbrev day : Date
day = record { year = 2024; month = 1; day = 2 }

abbrev sample_rewrite : QueryRewrite
sample_rewrite = record {
  retrieval_query = codes "walk";
  date_range = some (record { start = some day; stop = none });
  subject_scope = none;
  raw_output = codes "{}";
  model_name = codes "mini";
  latency_ms = 7;
}

abbrev found : KnowledgeResult
found = record {
  excerpts = record { ref = codes "u1"; title = []; excerpt_text = codes "Walking helps." } ∷ [];
  raw_output = codes "{}";
  latency_ms = 7;
}

searches : tavily_search (http_under three_attempts) loads_tool 5 (codes "walking") ≡ returned found
unfolding tavily_search found_in excerpts_of run_with_retries retry_loop classify_httpx_error
searches = refl

tavily_search-IsBounded_example : IsBounded 5 found
tavily_search-IsBounded_example =
    tavily_search-IsBounded (http_under three_attempts) loads_tool 5 (codes "walking") found
      searches

-- The sample routed chat over the OpenAI classifier.
abbrev chat_over_openai : RoutedChatService
chat_over_openai = record sample_chat {
  classifier = record {
    model_name = codes "mini";
    classify = open_ai_classify (tools_under three_attempts) loads_tool (codes "mini");
  };
}

abbrev context_one : AnswerContext
context_one = record {
  query_id = codes "q1";
  query_text = codes "walked when?";
  ordered_chunks = chunk_one ∷ [];
  model_name = codes "m";
  created_at = 9;
}

abbrev one_excerpt : List KnowledgeExcerpt
one_excerpt =
    record { ref = codes "w1"; title = codes "Walking"; excerpt_text = codes "It helps." } ∷ []

-- The prompt of the context and the excerpt, with the texts that matter here.
abbrev prompt_one : AnswerPrompt
prompt_one = record {
  prompt_version = notes_plus_knowledge_prompt_version;
  system_text = notes_plus_knowledge_system_text;
  user_text =
      codes "Question: walked when?\n\nNote chunks (in retrieval rank order):\n"
      ++ (chunk_line chunk_one
          ++ (codes "\n\nKnowledge excerpts (in provider rank order):\n"
              ++ codes "- ref=w1 title=Walking text=It helps."));
  cited_chunk_ids = chunk_ids_of (chunk_one ∷ []);
  knowledge_refs = codes "w1" ∷ [];
}

built_prompt : build_notes_plus_knowledge_prompt context_one one_excerpt ≡ ok prompt_one
unfolding running asking serving build_notes_plus_knowledge_prompt
built_prompt = refl

mock_complete-parsed_example :
    (r : ChatResponse) × (mock_complete (codes "mock") prompt_one ≡ ok r)
    × (parse_notes_plus_knowledge_answer
          (λ raw. ok (some (json_of (mock_payload prompt_one))))
          r.raw_text
          context_one
          (refs_of one_excerpt)
        ≡ ok (mock_answer (chunk_ids_of context_one.ordered_chunks) (refs_of one_excerpt)))
mock_complete-parsed_example =
    mock_complete-parsed (λ raw. ok (some (json_of (mock_payload prompt_one)))) (codes "mock")
      context_one one_excerpt prompt_one built_prompt refl

booted :
    create_app outside sample_settings (codes "1.0")
    ≡ ok (
        (codes "status", codes "ok")
        ∷ (codes "version", codes "1.0")
        ∷ (codes "env", codes "local")
        ∷ [])
unfolding class_name create_app verify_embedding_contour verify_chat_contour
    verify_classifier_contour verify_knowledge_contour verify_pgvector build_embedding_client
    build_chat_client build_route_classifier build_query_rewriter build_outward_rewriter
    build_knowledge_source open_ai_chat_client open_ai_route_classifier open_ai_query_rewriter
    open_ai_outward_rewriter tavily_knowledge_source mock_embedding_client
booted = refl

create_app-IsBooted_example : IsBooted outside sample_settings
create_app-IsBooted_example = create_app-IsBooted outside sample_settings (codes "1.0") _ booted
