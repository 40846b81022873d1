-- ===== src/Adapters/Mock.antt =====
-- The deterministic chat client, adapters/answers/mock.py, and the `json.dumps` of the mocks.
use diary_memory_service.Base.{
  ℕ, ◌+◌, ◌-◌, ◌/◌, ◌%◌, List, [], ◌∷◌, ◌++◌, length, ltb, ◌==◌, text_eq, if◌then◌else◌,
}
use diary_memory_service.Base.Text.{Text, codes, join}
use diary_memory_service.Base.Decimal.{decimal}
use diary_memory_service.Exec.{Result, ok}
use diary_memory_service.Answers.{AnswerPrompt}
use diary_memory_service.QueryService.{ChatResponse, ChatClient}
use diary_memory_service.Export.Json.{
  escaped, hex_digit, quoted, Value, Values, Members, text, int, array, object, end_values, value,
  end_members, member,
}
use diary_memory_service.RoutedChat.Prompts.{
  model_only_prompt_version, notes_plus_model_prompt_version, notes_plus_knowledge_prompt_version,
}

-- `json.dumps(value)` on one line; `quote` writes a string.
unfoldable mutual
  pub dumps_line : (Text → Text) → Value → Text
  dumps_line quote (text s) = quote s
  dumps_line quote (int n) = decimal n
  dumps_line quote (array end_values) = codes "[]"
  dumps_line quote (array (value v vs)) =
      codes "[" ++ (dumps_line quote v ++ (dumps_line_values quote vs ++ codes "]"))
  dumps_line quote (object end_members) = codes "{}"
  dumps_line quote (object (member k v ms)) =
      codes "{"
      ++ (quote k
          ++ (codes ": " ++ (dumps_line quote v ++ (dumps_line_members quote ms ++ codes "}"))))

  pub dumps_line_values : (Text → Text) → Values → Text
  dumps_line_values quote end_values = []
  dumps_line_values quote (value v vs) =
      codes ", " ++ (dumps_line quote v ++ dumps_line_values quote vs)

  pub dumps_line_members : (Text → Text) → Members → Text
  dumps_line_members quote end_members = []
  dumps_line_members quote (member k v ms) =
      codes ", " ++ (quote k ++ (codes ": " ++ (dumps_line quote v ++ dumps_line_members quote ms)))

abbrev unicode_escape : ℕ → Text
unicode_escape c =
    b'\\'
    ∷ b'u'
    ∷ hex_digit (c / 4096)
    ∷ hex_digit (c / 256 % 16)
    ∷ hex_digit (c / 16 % 16)
    ∷ hex_digit (c % 16)
    ∷ []

-- One character with `ensure_ascii=True`: beyond the first plane, a surrogate pair.
unfoldable pub ascii_escaped : ℕ → Text
ascii_escaped c =
    if ltb c 127
    then escaped c
    else if ltb c 0x10000
    then unicode_escape c
    else unicode_escape (0xd800 + (c - 0x10000) / 1024)
      ++ unicode_escape (0xdc00 + (c - 0x10000) % 1024)

unfoldable pub ascii_escape_all : Text → Text
ascii_escape_all [] = []
ascii_escape_all (c ∷ s) = ascii_escaped c ++ ascii_escape_all s

unfoldable pub ascii_quoted : Text → Text
ascii_quoted s = b'"' ∷ (ascii_escape_all s ++ b'"' ∷ [])

abbrev pub text_values : List Text → Values
text_values [] = end_values
text_values (t ∷ ts) = value (text t) (text_values ts)

abbrev pub member_list : List (Text × Value) → Members
member_list [] = end_members
member_list ((k, v) ∷ ms) = member k v (member_list ms)

-- `f"... {len(items)} ...: " + ", ".join(items)`
abbrev pub grounded_in : Text → List Text → Text → Text
grounded_in before items after =
    before ++ (decimal (length items) ++ (after ++ join (codes ", ") items))

abbrev pub mock_model_only_answer : Text
mock_model_only_answer = codes "Mock model-knowledge answer (no notes consulted)."

abbrev pub mock_notes_plus_model_text : Text
mock_notes_plus_model_text = codes "Mock general-knowledge segment."

abbrev pub notes_text_of : List Text → Text
notes_text_of [] = []
notes_text_of (c ∷ cs) =
    grounded_in (codes "Mock notes segment grounded in ") (c ∷ cs) (codes " chunk(s): ")

abbrev pub marker_of : List Text → Text
marker_of [] = codes "no_evidence"
marker_of (c ∷ cs) = codes "confident"

abbrev pub knowledge_text_of : List Text → Text
knowledge_text_of [] = []
knowledge_text_of (r ∷ rs) =
    grounded_in (codes "Mock knowledge segment grounded in ") (r ∷ rs) (codes " excerpt(s): ")

abbrev answer_text_of : List Text → Text
answer_text_of [] = codes "No diary chunks were retrieved; cannot answer."
answer_text_of (c ∷ cs) =
    grounded_in (codes "Mock answer grounded in ") (c ∷ cs) (codes " diary chunk(s): ")

-- The payloads, their keys sorted.
unfoldable pub structured_payload : AnswerPrompt → Value
structured_payload prompt = object (
    member_list (
      (codes "answer_text", text (answer_text_of prompt.cited_chunk_ids))
      ∷ (codes "cited_chunk_ids", array (text_values prompt.cited_chunk_ids))
      ∷ (codes "uncertainty", text (marker_of prompt.cited_chunk_ids))
      ∷ []))

unfoldable pub notes_plus_model_payload : AnswerPrompt → Value
notes_plus_model_payload prompt = object (
    member_list (
      (codes "cited_chunk_ids", array (text_values prompt.cited_chunk_ids))
      ∷ (codes "model_text", text mock_notes_plus_model_text)
      ∷ (codes "notes_text", text (notes_text_of prompt.cited_chunk_ids))
      ∷ (codes "notes_uncertainty", text (marker_of prompt.cited_chunk_ids))
      ∷ []))

unfoldable pub notes_plus_knowledge_payload : AnswerPrompt → Value
notes_plus_knowledge_payload prompt = object (
    member_list (
      (codes "cited_chunk_ids", array (text_values prompt.cited_chunk_ids))
      ∷ (codes "cited_knowledge_refs", array (text_values prompt.knowledge_refs))
      ∷ (codes "knowledge_text", text (knowledge_text_of prompt.knowledge_refs))
      ∷ (codes "model_text", text mock_notes_plus_model_text)
      ∷ (codes "notes_text", text (notes_text_of prompt.cited_chunk_ids))
      ∷ (codes "notes_uncertainty", text (marker_of prompt.cited_chunk_ids))
      ∷ []))

unfoldable pub mock_model_only_payload : Value
mock_model_only_payload =
    object (member_list ((codes "answer_text", text mock_model_only_answer) ∷ []))

-- The payload by the version of the prompt.
unfoldable pub mock_payload : AnswerPrompt → Value
mock_payload prompt =
    if prompt.prompt_version == model_only_prompt_version
    then mock_model_only_payload
    else if prompt.prompt_version == notes_plus_model_prompt_version
    then notes_plus_model_payload prompt
    else if prompt.prompt_version == notes_plus_knowledge_prompt_version
    then notes_plus_knowledge_payload prompt
    else structured_payload prompt

unfoldable pub mock_complete : Text → AnswerPrompt → Result ChatResponse
mock_complete model_name prompt =
    let raw_text = dumps_line quoted (mock_payload prompt) in
    ok (record {
      raw_text = raw_text;
      model_name = model_name;
      token_counts =
          (codes "prompt", length prompt.system_text + length prompt.user_text)
          ∷ (codes "completion", length raw_text)
          ∷ [];
      latency_ms = 0;
    })

abbrev pub mock_chat_client : Text → ChatClient
mock_chat_client model_name = record {
  model_name = model_name;
  complete = mock_complete model_name;
}
