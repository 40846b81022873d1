-- ===== src/Adapters/MockRoundTrip.antt =====
-- What adapters/answers/mock.py writes, core/chat/knowledge_prompt.py reads back.
use diary_memory_service.Base.{
  true, ◌≡◌, refl, sym, ap, ◌∙◌, some, List, [], ◌∷◌, ==-refl, text_eq, inl, inr, Bool-cases, arith,
}
use diary_memory_service.Base.Text.{Text}
use diary_memory_service.Exec.{Exception, ok}
use diary_memory_service.Exec.Laws.{ok-injective}
use diary_memory_service.Models.{AnswerContext}
use diary_memory_service.Answers.{
  JsonLoads, with_payload, AnswerPrompt, Json, Items, Fields, string, number, no_items, item,
  no_fields, field, texts_of_items, chunk_ids_of, all_in, span_communities,
}
use diary_memory_service.QueryService.{ChatResponse}
use diary_memory_service.Export.Json.{
  Value, Values, Members, text, int, end_values, value, end_members, member, quoted,
}
use diary_memory_service.RoutedChat.Providers.{KnowledgeExcerpt}
use diary_memory_service.RoutedChat.Prompts.{
  refs_of, notes_plus_knowledge_prompt_version, build_notes_plus_knowledge_prompt,
}
use diary_memory_service.RoutedChat.Parsers.{
  NotesUncertainty, confident, no_evidence, NotesPlusKnowledgeAnswer, notes_uncertainty_of,
  notes_consistent, knowledge_consistent, grounded_knowledge, knowledge_payload,
  notes_plus_knowledge_answer_error, parse_notes_plus_knowledge_answer,
}
use diary_memory_service.Adapters.Mock.{
  dumps_line, text_values, mock_notes_plus_model_text, notes_text_of, marker_of, knowledge_text_of,
  notes_plus_knowledge_payload, mock_payload, mock_complete,
}

-- The value that a parser of JSON sees in what is written for a value.
abbrev mutual
  pub json_of : Value → Json
  json_of (text t) = string t
  json_of (int n) = number
  json_of (Value.array vs) = Json.array (items_of vs)
  json_of (Value.object ms) = Json.object (fields_of ms)

  items_of : Values → Items
  items_of end_values = no_items
  items_of (value v vs) = item (json_of v) (items_of vs)

  fields_of : Members → Fields
  fields_of end_members = no_fields
  fields_of (member k v ms) = field k (json_of v) (fields_of ms)

texts_of-text_values : (ts : List Text) → texts_of_items (items_of (text_values ts)) ≡ some ts
texts_of-text_values [] = refl
texts_of-text_values (t ∷ ts) = rw (texts_of-text_values ts) refl

all_in-weaken : (u : Text) (ts us : List Text) → all_in ts us ≡ true → all_in ts (u ∷ us) ≡ true
unfolding all_in
all_in-weaken u [] us h = refl
all_in-weaken u (t ∷ ts) us h = ground (arith, all_in-weaken u ts us)

all_in_self : (ts : List Text) → all_in ts ts ≡ true
unfolding all_in
all_in_self [] = refl
all_in_self (t ∷ ts) = rw (==-refl t, all_in-weaken t ts ts (all_in_self ts)) refl

abbrev marker_for : List Text → NotesUncertainty
marker_for [] = no_evidence
marker_for (c ∷ cs) = confident

-- The answer that the mock means: it cites everything that the prompt offers.
abbrev pub mock_answer : List Text → List Text → NotesPlusKnowledgeAnswer
mock_answer ids refs = record {
  notes_text = notes_text_of ids;
  cited_chunk_ids = ids;
  knowledge_text = knowledge_text_of refs;
  cited_knowledge_refs = refs;
  model_text = mock_notes_plus_model_text;
  notes_uncertainty = marker_for ids;
}

notes_consistent-mock :
    (ids : List Text) → notes_consistent (marker_for ids) (notes_text_of ids) ids ≡ true
unfolding notes_consistent
notes_consistent-mock [] = refl
notes_consistent-mock (c ∷ cs) = refl

knowledge_consistent-mock :
    (refs : List Text) → knowledge_consistent (knowledge_text_of refs) refs ≡ true
knowledge_consistent-mock [] = refl
knowledge_consistent-mock (r ∷ rs) = refl

grounded_knowledge-mock :
    (ids refs : List Text)
    → grounded_knowledge ids refs
        (notes_text_of ids)
        ids
        (knowledge_text_of refs)
        refs
        mock_notes_plus_model_text
        (ok (marker_for ids))
      ≡ ok (mock_answer ids refs)
unfolding grounded_knowledge
grounded_knowledge-mock ids refs =
    rw
      (all_in_self ids, all_in_self refs, notes_consistent-mock ids, knowledge_consistent-mock refs)
      refl

marker-mock :
    (ids : List Text) (e : Exception)
    → notes_uncertainty_of e (string (marker_of ids)) ≡ ok (marker_for ids)
unfolding notes_uncertainty_of
marker-mock [] e = refl
marker-mock (c ∷ cs) e = refl

-- The prompt of a context and excerpts, where the chunks are of one community.
abbrev IsPromptOf : AnswerContext → List KnowledgeExcerpt → AnswerPrompt → Type 0
IsPromptOf context excerpts prompt =
    (prompt.prompt_version ≡ notes_plus_knowledge_prompt_version)
    × ((prompt.cited_chunk_ids ≡ chunk_ids_of context.ordered_chunks)
        × (prompt.knowledge_refs ≡ refs_of excerpts))

built_prompt-IsPromptOf :
    (context : AnswerContext) (excerpts : List KnowledgeExcerpt) (prompt : AnswerPrompt)
    → build_notes_plus_knowledge_prompt context excerpts ≡ ok prompt
    → IsPromptOf context excerpts prompt
unfolding build_notes_plus_knowledge_prompt
built_prompt-IsPromptOf context excerpts prompt h =
    elim (Bool-cases (span_communities context.ordered_chunks)) [
      | inl mixed ↦ cc (rw mixed at h)
      | inr single ↦
          let built = ok-injective _ prompt (rw single at h) in
          (
            ap (λ p. p.prompt_version) (sym built),
            (ap (λ p. p.cited_chunk_ids) (sym built), ap (λ p. p.knowledge_refs) (sym built)),
          )
    ]

payload-parsed :
    (ids refs : List Text) (prompt : AnswerPrompt)
    → prompt.cited_chunk_ids ≡ ids
    → prompt.knowledge_refs ≡ refs
    → knowledge_payload ids refs (some (json_of (notes_plus_knowledge_payload prompt)))
      ≡ ok (mock_answer ids refs)
unfolding notes_plus_knowledge_payload
payload-parsed ids refs prompt cited offered =
    rw
      (
        cited,
        offered,
        texts_of-text_values ids,
        texts_of-text_values refs,
        marker-mock ids notes_plus_knowledge_answer_error,
      )
      (grounded_knowledge-mock ids refs)

mock_payload-knowledge :
    (prompt : AnswerPrompt)
    → prompt.prompt_version ≡ notes_plus_knowledge_prompt_version
    → mock_payload prompt ≡ notes_plus_knowledge_payload prompt
unfolding mock_payload
mock_payload-knowledge prompt version = rw version refl

-- The mock chat client answers the prompt that the service builds from a context and excerpts, and
-- where `json.loads` gives back the payload that the client wrote, the parser returns the answer that
-- the client means: all chunks and refs cited, and `no_evidence` exactly without chunks.
pub mock_complete-parsed :
    (loads : JsonLoads) (model_name : Text) (context : AnswerContext)
    (excerpts : List KnowledgeExcerpt) (prompt : AnswerPrompt)
    → build_notes_plus_knowledge_prompt context excerpts ≡ ok prompt
    → loads (dumps_line quoted (mock_payload prompt)) ≡ ok (some (json_of (mock_payload prompt)))
    → (r : ChatResponse) × (mock_complete model_name prompt ≡ ok r)
      × (parse_notes_plus_knowledge_answer loads r.raw_text context (refs_of excerpts)
          ≡ ok (mock_answer (chunk_ids_of context.ordered_chunks) (refs_of excerpts)))
unfolding mock_complete parse_notes_plus_knowledge_answer
mock_complete-parsed loads model_name context excerpts prompt built read =
    let (version, (cited, offered)) = built_prompt-IsPromptOf context excerpts prompt built in
    let ids = chunk_ids_of context.ordered_chunks in
    (
      _,
      refl,
      ap (λ p. with_payload p (knowledge_payload ids (refs_of excerpts)))
            (read ∙ ap (λ v. ok (some (json_of v))) (mock_payload-knowledge prompt version))
          ∙ payload-parsed ids (refs_of excerpts) prompt cited offered,
    )
