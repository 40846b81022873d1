-- ===== src/RoutedChat/Generating.antt =====
-- services/routed_chat.py: what one generation decides, where the provider answers, fails or is not
-- understood.
use diary_memory_service.Base.{ℕ, Option, none, some, List, [], ◌==◌, text_eq, if◌then◌else◌}
use diary_memory_service.Base.Text.{Text, codes, is_empty}
use diary_memory_service.Exec.{Exception, Result, ok, raised, class_name, chat_provider_unavailable}
use diary_memory_service.Models.{
  FallbackMode, weak_evidence, provider_unavailable, parse_failure, AnswerContext,
}
use diary_memory_service.QueryService.{ChatResponse}
use diary_memory_service.RoutedChat.Parsers.{
  NotesUncertainty, confident, uncertain, parse_model_only_answer, NotesPlusModelAnswer,
  parse_notes_plus_model_answer, NotesPlusKnowledgeAnswer, parse_notes_plus_knowledge_answer,
}
use diary_memory_service.RoutedChat.Rewriting.{RoutedChatService}

unfoldable pub fallback_of_notes : NotesUncertainty → FallbackMode
fallback_of_notes confident = FallbackMode.none
fallback_of_notes uncertain = weak_evidence
fallback_of_notes NotesUncertainty.no_evidence = FallbackMode.no_evidence

-- What one generation decides: the fields of the answer and of its trace.
pub record Generation : Type 0 where
  pub fallback : FallbackMode
  pub answer_text : Option Text
  pub model_text : Option Text
  pub knowledge_text : Option Text
  pub knowledge_refs : List Text
  pub cited_chunk_ids : List Text
  pub trace_answer_text : Text
  pub token_counts : List (Text × ℕ)
  pub latency_ms : ℕ

-- `text or None`
abbrev or_none : Text → Option Text
or_none t = if is_empty t then none else some t

-- The provider was unavailable.
abbrev ungenerated : Option Text → Generation
ungenerated answer_text = record {
  fallback = provider_unavailable;
  answer_text = answer_text;
  model_text = none;
  knowledge_text = none;
  knowledge_refs = [];
  cited_chunk_ids = [];
  trace_answer_text = [];
  token_counts = [];
  latency_ms = 0;
}

abbrev unparsed : Option Text → ChatResponse → Generation
unparsed answer_text r = record {
  fallback = parse_failure;
  answer_text = answer_text;
  model_text = none;
  knowledge_text = none;
  knowledge_refs = [];
  cited_chunk_ids = [];
  trace_answer_text = r.raw_text;
  token_counts = r.token_counts;
  latency_ms = r.latency_ms;
}

-- `except ChatProviderUnavailableError`
abbrev on_provider : Option Text → Exception → Result Generation
on_provider answer_text e =
    if class_name e == class_name chat_provider_unavailable
    then ok (ungenerated answer_text)
    else raised e

-- `except <name>`, where the parser's error has that class.
abbrev on_parser : Text → Option Text → ChatResponse → Exception → Result Generation
on_parser name answer_text r e =
    if class_name e == name then ok (unparsed answer_text r) else raised e

abbrev pub model_only_parsed : ChatResponse → Result Text → Result Generation
model_only_parsed r (raised e) = on_parser (codes "ModelOnlyAnswerError") (some []) r e
model_only_parsed r (ok text) = ok (record {
  fallback = FallbackMode.none;
  answer_text = some text;
  model_text = none;
  knowledge_text = none;
  knowledge_refs = [];
  cited_chunk_ids = [];
  trace_answer_text = text;
  token_counts = r.token_counts;
  latency_ms = r.latency_ms;
})

unfoldable pub generate_model_only : RoutedChatService → Result ChatResponse → Result Generation
generate_model_only svc (raised e) = on_provider (some []) e
generate_model_only svc (ok r) =
    model_only_parsed r (parse_model_only_answer svc.query.loads r.raw_text)

abbrev notes_parsed : ChatResponse → Result NotesPlusModelAnswer → Result Generation
notes_parsed r (raised e) = on_parser (codes "NotesPlusModelAnswerError") none r e
notes_parsed r (ok a) = ok (record {
  fallback = fallback_of_notes a.notes_uncertainty;
  answer_text = or_none a.notes_text;
  model_text = some a.model_text;
  knowledge_text = none;
  knowledge_refs = [];
  cited_chunk_ids = a.cited_chunk_ids;
  trace_answer_text = r.raw_text;
  token_counts = r.token_counts;
  latency_ms = r.latency_ms;
})

unfoldable pub generate_notes_plus_model :
    RoutedChatService → AnswerContext → Result ChatResponse → Result Generation
generate_notes_plus_model svc context (raised e) = on_provider none e
generate_notes_plus_model svc context (ok r) =
    notes_parsed r (parse_notes_plus_model_answer svc.query.loads r.raw_text context)

abbrev knowledge_parsed : ChatResponse → Result NotesPlusKnowledgeAnswer → Result Generation
knowledge_parsed r (raised e) = on_parser (codes "NotesPlusKnowledgeAnswerError") none r e
knowledge_parsed r (ok a) = ok (record {
  fallback = fallback_of_notes a.notes_uncertainty;
  answer_text = or_none a.notes_text;
  model_text = some a.model_text;
  knowledge_text = or_none a.knowledge_text;
  knowledge_refs = a.cited_knowledge_refs;
  cited_chunk_ids = a.cited_chunk_ids;
  trace_answer_text = r.raw_text;
  token_counts = r.token_counts;
  latency_ms = r.latency_ms;
})

unfoldable pub generate_notes_plus_knowledge :
    RoutedChatService → AnswerContext → List Text → Result ChatResponse → Result Generation
generate_notes_plus_knowledge svc context refs (raised e) = on_provider none e
generate_notes_plus_knowledge svc context refs (ok r) =
    knowledge_parsed r (parse_notes_plus_knowledge_answer svc.query.loads r.raw_text context refs)
