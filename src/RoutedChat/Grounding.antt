-- ===== src/RoutedChat/Grounding.antt =====
-- The planes of a mixed answer (I-9): core/chat/enriched_prompt.py and core/chat/knowledge_prompt.py.
use diary_memory_service.Base.{true, ◌≡◌, List, [], All}
use diary_memory_service.Base.Text.{Text}
use diary_memory_service.Answers.{is_in}
use diary_memory_service.RoutedChat.Parsers.{no_evidence, NotesPlusKnowledgeAnswer}

-- Every citation is among what was offered, and a plane has a text exactly where it has a citation;
-- the plane of the notes is empty exactly where the marker says `no_evidence`.
pub record IsPlanar (ids refs : List Text) (a : NotesPlusKnowledgeAnswer) : Type 0 where
  pub chunks_offered : All (λ cited. is_in cited ids ≡ true) a.cited_chunk_ids
  pub refs_offered : All (λ cited. is_in cited refs ≡ true) a.cited_knowledge_refs
  pub unmarked : a.notes_uncertainty ≡ no_evidence → (a.notes_text ≡ []) × (a.cited_chunk_ids ≡ [])
  pub marked : a.cited_chunk_ids ≡ [] → a.notes_uncertainty ≡ no_evidence
  pub knowledge_cited : a.cited_knowledge_refs ≡ [] → a.knowledge_text ≡ []
