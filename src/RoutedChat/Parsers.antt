-- ===== src/RoutedChat/Parsers.antt =====
-- The parsers of the routed chat's answers: core/chat/model_prompt.py, core/chat/enriched_prompt.py
-- and core/chat/knowledge_prompt.py.
use diary_memory_service.Base.{Bool, not, ◌&&◌, Option, some, List, ◌==◌, text_eq, if◌then◌else◌}
use diary_memory_service.Base.Text.{Text, codes, is_empty}
use diary_memory_service.Exec.{Exception, Result, ok, raised, type_error, provider_error}
use diary_memory_service.Models.{AnswerContext}
use diary_memory_service.Answers.{
  JsonLoads, with_payload, Json, string, array, object, field_of, texts_of, text_of, all_in,
  no_citations, chunk_ids_of,
}

-- `ModelOnlyAnswerError`, `NotesPlusModelAnswerError` and `NotesPlusKnowledgeAnswerError`.
abbrev pub model_only_answer_error : Exception
model_only_answer_error = provider_error (codes "ModelOnlyAnswerError")

abbrev pub notes_plus_model_answer_error : Exception
notes_plus_model_answer_error = provider_error (codes "NotesPlusModelAnswerError")

abbrev pub notes_plus_knowledge_answer_error : Exception
notes_plus_knowledge_answer_error = provider_error (codes "NotesPlusKnowledgeAnswerError")

abbrev pub text_or : Exception → Option Json → Result Text
text_or e (some (string t)) = ok t
text_or e _ = raised e

abbrev pub model_only_payload : Option Json → Result Text
model_only_payload (some (object fs)) =
    text_or model_only_answer_error (field_of (codes "answer_text") fs)
model_only_payload _ = raised model_only_answer_error

unfoldable pub parse_model_only_answer : JsonLoads → Text → Result Text
parse_model_only_answer loads raw = with_payload (loads raw) model_only_payload

pub data NotesUncertainty : Type 0 where
  confident uncertain no_evidence : NotesUncertainty

abbrev marker_named : Exception → Text → Result NotesUncertainty
marker_named e t =
    if t == codes "confident"
    then ok confident
    else if t == codes "uncertain"
    then ok uncertain
    else if t == codes "no_evidence"
    then ok no_evidence
    else raised e

-- `value not in _VALID_NOTES_UNCERTAINTY`: a list or a dict has no hash, so the test raises
-- TypeError.
unfoldable pub notes_uncertainty_of : Exception → Json → Result NotesUncertainty
notes_uncertainty_of e (string t) = marker_named e t
notes_uncertainty_of e (array xs) = raised type_error
notes_uncertainty_of e (object fs) = raised type_error
notes_uncertainty_of e _ = raised e

-- The consistency of the marker with the text and the citations of the notes.
unfoldable pub notes_consistent : NotesUncertainty → Text → List Text → Bool
notes_consistent no_evidence notes_text cited = no_citations cited && is_empty notes_text
notes_consistent _ notes_text cited = not (no_citations cited) && not (is_empty notes_text)

pub record NotesPlusModelAnswer : Type 0 where
  pub notes_text : Text
  pub cited_chunk_ids : List Text
  pub model_text : Text
  pub notes_uncertainty : NotesUncertainty

-- The checks of the grounding, on fields of the right types.
unfoldable pub grounded_notes :
    List Text → Text → List Text → Text → Result NotesUncertainty → Result NotesPlusModelAnswer
grounded_notes context_ids notes_text cited model_text (raised e) = raised e
grounded_notes context_ids notes_text cited model_text (ok marker) =
    if all_in cited context_ids && notes_consistent marker notes_text cited
    then ok (record {
      notes_text = notes_text;
      cited_chunk_ids = cited;
      model_text = model_text;
      notes_uncertainty = marker;
    })
    else raised notes_plus_model_answer_error

abbrev typed_notes :
    List Text → Option Text → Option (List Text) → Option Text → Json → Result NotesPlusModelAnswer
typed_notes context_ids (some notes_text) (some cited) (some model_text) uncertainty =
    grounded_notes context_ids notes_text cited model_text
      (notes_uncertainty_of notes_plus_model_answer_error uncertainty)
typed_notes context_ids _ _ _ uncertainty = raised notes_plus_model_answer_error

-- The required fields; a missing one is none.
abbrev notes_fields :
    List Text → Option Json → Option Json → Option Json → Option Json → Result NotesPlusModelAnswer
notes_fields context_ids (some notes) (some cited) (some model) (some uncertainty) =
    typed_notes context_ids (text_of notes) (texts_of cited) (text_of model) uncertainty
notes_fields context_ids _ _ _ _ = raised notes_plus_model_answer_error

abbrev pub notes_payload : List Text → Option Json → Result NotesPlusModelAnswer
notes_payload context_ids (some (object fs)) =
    notes_fields context_ids (field_of (codes "notes_text") fs)
      (field_of (codes "cited_chunk_ids") fs) (field_of (codes "model_text") fs)
      (field_of (codes "notes_uncertainty") fs)
notes_payload context_ids _ = raised notes_plus_model_answer_error

unfoldable pub parse_notes_plus_model_answer :
    JsonLoads → Text → AnswerContext → Result NotesPlusModelAnswer
parse_notes_plus_model_answer loads raw context =
    with_payload (loads raw) (notes_payload (chunk_ids_of context.ordered_chunks))

pub record NotesPlusKnowledgeAnswer : Type 0 where
  pub notes_text : Text
  pub cited_chunk_ids : List Text
  pub knowledge_text : Text
  pub cited_knowledge_refs : List Text
  pub model_text : Text
  pub notes_uncertainty : NotesUncertainty

-- `bool(knowledge_text) == bool(cited_knowledge_refs)`
abbrev pub knowledge_consistent : Text → List Text → Bool
knowledge_consistent knowledge_text refs =
    if is_empty knowledge_text then no_citations refs else not (no_citations refs)

unfoldable pub grounded_knowledge :
    List Text
    → List Text
    → Text
    → List Text
    → Text
    → List Text
    → Text
    → Result NotesUncertainty
    → Result NotesPlusKnowledgeAnswer
grounded_knowledge context_ids offered notes_text cited knowledge_text refs model_text (raised e) =
    raised e
grounded_knowledge context_ids offered notes_text cited knowledge_text refs model_text (ok marker) =
    if all_in cited context_ids
      && (all_in refs offered
          && (notes_consistent marker notes_text cited && knowledge_consistent knowledge_text refs))
    then ok (record {
      notes_text = notes_text;
      cited_chunk_ids = cited;
      knowledge_text = knowledge_text;
      cited_knowledge_refs = refs;
      model_text = model_text;
      notes_uncertainty = marker;
    })
    else raised notes_plus_knowledge_answer_error

abbrev pub typed_knowledge :
    List Text
    → List Text
    → Option Text
    → Option (List Text)
    → Option Text
    → Option (List Text)
    → Option Text
    → Json
    → Result NotesPlusKnowledgeAnswer
typed_knowledge context_ids offered (some notes) (some cited) (some knowledge) (some refs)
      (some model) u =
    grounded_knowledge context_ids offered notes cited knowledge refs model
      (notes_uncertainty_of notes_plus_knowledge_answer_error u)
typed_knowledge context_ids offered _ _ _ _ _ u = raised notes_plus_knowledge_answer_error

abbrev pub knowledge_fields :
    List Text
    → List Text
    → Option Json
    → Option Json
    → Option Json
    → Option Json
    → Option Json
    → Option Json
    → Result NotesPlusKnowledgeAnswer
knowledge_fields ids offered (some n) (some c) (some k) (some r) (some m) (some u) =
    typed_knowledge ids offered (text_of n) (texts_of c) (text_of k) (texts_of r) (text_of m) u
knowledge_fields ids offered _ _ _ _ _ _ = raised notes_plus_knowledge_answer_error

abbrev pub knowledge_payload : List Text → List Text → Option Json → Result NotesPlusKnowledgeAnswer
knowledge_payload ids offered (some (object fs)) =
    knowledge_fields ids offered (field_of (codes "notes_text") fs)
      (field_of (codes "cited_chunk_ids") fs) (field_of (codes "knowledge_text") fs)
      (field_of (codes "cited_knowledge_refs") fs) (field_of (codes "model_text") fs)
      (field_of (codes "notes_uncertainty") fs)
knowledge_payload ids offered _ = raised notes_plus_knowledge_answer_error

unfoldable pub parse_notes_plus_knowledge_answer :
    JsonLoads → Text → AnswerContext → List Text → Result NotesPlusKnowledgeAnswer
parse_notes_plus_knowledge_answer loads raw context knowledge_refs =
    with_payload (loads raw)
      (knowledge_payload (chunk_ids_of context.ordered_chunks) knowledge_refs)
