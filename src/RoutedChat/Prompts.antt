-- ===== src/RoutedChat/Prompts.antt =====
-- The prompts of the routed chat: core/chat/model_prompt.py, core/chat/enriched_prompt.py and
-- core/chat/knowledge_prompt.py.
use diary_memory_service.Base.{List, [], ◌∷◌, ◌++◌, map, if◌then◌else◌}
use diary_memory_service.Base.Text.{Text, codes, join}
use diary_memory_service.Exec.{Result, ok, raised, cross_community_context}
use diary_memory_service.Models.{EventChunk, AnswerContext}
use diary_memory_service.Answers.{AnswerPrompt, chunk_line, span_communities, chunk_ids_of}
use diary_memory_service.RoutedChat.Providers.{KnowledgeExcerpt}

abbrev pub model_only_prompt_version : Text
model_only_prompt_version = codes "model-only-v1"

abbrev pub notes_plus_model_prompt_version : Text
notes_plus_model_prompt_version = codes "notes-plus-model-v1"

abbrev pub notes_plus_knowledge_prompt_version : Text
notes_plus_knowledge_prompt_version = codes "notes-plus-knowledge-v1"

abbrev model_only_system_text : Text
model_only_system_text =
    codes "You answer the user's question from your own general knowledge. "
    ++ codes "You have no access to the user's saved notes, and you must never "
    ++ codes "claim or imply that any part of your answer comes from their notes. "
    ++ codes "Return a single JSON object with one field: \"answer_text\" (string)."

unfoldable pub build_model_only_prompt : Text → AnswerPrompt
build_model_only_prompt question = record {
  prompt_version = model_only_prompt_version;
  system_text = model_only_system_text;
  user_text = codes "Question: " ++ question;
  cited_chunk_ids = [];
  knowledge_refs = [];
}

abbrev pub escalation_clause : Text
escalation_clause =
    codes "You may give general developmental information and activity "
    ++ codes "suggestions. You must never give a diagnosis or interpret symptoms. "
    ++ codes "If the question or the provided notes suggest a potential "
    ++ codes "developmental or medical red flag, your answer must recommend "
    ++ codes "consulting a qualified specialist."

abbrev pub notes_plus_model_system_text : Text
notes_plus_model_system_text =
    codes "You answer the user's question by combining two planes: their "
    ++ codes "saved notes (provided below as chunks) and your own general "
    ++ codes "knowledge. Return a single JSON object with these fields: "
    ++ codes "\"notes_text\" (string — only claims grounded in the provided "
    ++ codes "chunks; every factual claim must cite at least one chunk_id), "
    ++ codes "\"cited_chunk_ids\" (array of chunk_id strings drawn from the list), "
    ++ codes "\"model_text\" (string — your general knowledge; never attribute it "
    ++ codes "to the notes), "
    ++ codes "\"notes_uncertainty\" (one of \"confident\", \"uncertain\", "
    ++ codes "\"no_evidence\"). "
    ++ codes "If the chunks do not contain anything relevant, return "
    ++ codes "notes_uncertainty=\"no_evidence\" with an empty notes_text and an "
    ++ codes "empty cited_chunk_ids array, and answer from general knowledge in "
    ++ codes "model_text alone. "
    ++ escalation_clause

abbrev note_chunks_block : List EventChunk → Text
note_chunks_block [] = codes "(no note chunks were retrieved for this question)"
note_chunks_block (c ∷ cs) = join (codes "\n") (map chunk_line (c ∷ cs))

abbrev question_and_chunks : AnswerContext → Text
question_and_chunks context =
    codes "Question: "
    ++ (context.query_text
        ++ (codes "\n\nNote chunks (in retrieval rank order):\n"
            ++ note_chunks_block context.ordered_chunks))

unfoldable pub build_notes_plus_model_prompt : AnswerContext → Result AnswerPrompt
build_notes_plus_model_prompt context =
    if span_communities context.ordered_chunks
    then raised cross_community_context
    else ok (record {
      prompt_version = notes_plus_model_prompt_version;
      system_text = notes_plus_model_system_text;
      user_text = question_and_chunks context;
      cited_chunk_ids = chunk_ids_of context.ordered_chunks;
      knowledge_refs = [];
    })

abbrev pub notes_plus_knowledge_system_text : Text
notes_plus_knowledge_system_text =
    codes "You answer the user's question by combining three planes: their "
    ++ codes "saved notes (provided below as chunks), retrieved knowledge "
    ++ codes "excerpts (provided below with refs), and your own general "
    ++ codes "knowledge. Return a single JSON object with these fields: "
    ++ codes "\"notes_text\" (string — only claims grounded in the provided "
    ++ codes "chunks; every factual claim must cite at least one chunk_id), "
    ++ codes "\"cited_chunk_ids\" (array of chunk_id strings drawn from the list), "
    ++ codes "\"knowledge_text\" (string — only claims grounded in the provided "
    ++ codes "excerpts; every factual claim must cite at least one ref), "
    ++ codes "\"cited_knowledge_refs\" (array of ref strings drawn from the "
    ++ codes "excerpt list), "
    ++ codes "\"model_text\" (string — your general knowledge; never attribute it "
    ++ codes "to the notes or the excerpts), "
    ++ codes "\"notes_uncertainty\" (one of \"confident\", \"uncertain\", "
    ++ codes "\"no_evidence\"). "
    ++ codes "If the chunks do not contain anything relevant, return "
    ++ codes "notes_uncertainty=\"no_evidence\" with an empty notes_text and an "
    ++ codes "empty cited_chunk_ids array. If the excerpts do not contain "
    ++ codes "anything relevant, return an empty knowledge_text and an empty "
    ++ codes "cited_knowledge_refs array, and answer from general knowledge in "
    ++ codes "model_text alone. "
    ++ escalation_clause

abbrev excerpt_line : KnowledgeExcerpt → Text
excerpt_line e =
    codes "- ref="
    ++ (e.ref ++ (codes " title=" ++ (e.title ++ (codes " text=" ++ e.excerpt_text))))

abbrev excerpts_block : List KnowledgeExcerpt → Text
excerpts_block [] = codes "(no knowledge excerpts were retrieved for this question)"
excerpts_block (e ∷ es) = join (codes "\n") (map excerpt_line (e ∷ es))

abbrev pub refs_of : List KnowledgeExcerpt → List Text
refs_of = map (λ e. e.ref)

unfoldable pub build_notes_plus_knowledge_prompt :
    AnswerContext → List KnowledgeExcerpt → Result AnswerPrompt
build_notes_plus_knowledge_prompt context excerpts =
    if span_communities context.ordered_chunks
    then raised cross_community_context
    else ok (record {
      prompt_version = notes_plus_knowledge_prompt_version;
      system_text = notes_plus_knowledge_system_text;
      user_text =
          question_and_chunks context
          ++ (codes "\n\nKnowledge excerpts (in provider rank order):\n"
              ++ excerpts_block excerpts);
      cited_chunk_ids = chunk_ids_of context.ordered_chunks;
      knowledge_refs = refs_of excerpts;
    })
