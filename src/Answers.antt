-- ===== src/Answers.antt =====
-- The answer prompt and the parser of the structured answer: src/memory_rag/core/domain/answer_prompt.py
-- and core/domain/answer_schema.py. `json.loads` is a parameter.
pub mod Grounding
use diary_memory_service.Base.{
  ℕ, zero, suc, ◌-◌, Bool, true, false, not, ◌&&◌, ◌||◌, Option, none, some, List, [], ◌∷◌, ◌++◌,
  map, length, ◌==◌, text_eq, if◌then◌else◌,
}
use diary_memory_service.Base.Text.{Text, codes, join}
use diary_memory_service.Base.Decimal.{decimal}
use diary_memory_service.Exec.{
  Result, ok, raised, type_error, malformed_answer_json, answer_schema_mismatch,
  fabricated_citation, cross_community_context,
}
use diary_memory_service.Models.{date_isoformat, Date, EventChunk, AnswerContext}

pub record AnswerPrompt : Type 0 where
  pub prompt_version : Text
  pub system_text : Text
  pub user_text : Text
  pub cited_chunk_ids : List Text
  pub knowledge_refs : List Text

abbrev pub answer_prompt_version : Text
answer_prompt_version = codes "v1"

abbrev system_instructions : Text
system_instructions =
    codes "You answer the user's question using only the provided diary chunks. "
    ++ codes "Every factual claim must cite at least one chunk_id from the list. "
    ++ codes "Return a single JSON object with these fields: "
    ++ codes "\"answer_text\" (string), "
    ++ codes "\"cited_chunk_ids\" (array of chunk_id strings drawn from the list), "
    ++ codes "\"uncertainty\" (one of \"confident\", \"uncertain\", \"no_evidence\"). "
    ++ codes "If the chunks do not contain the answer, return uncertainty=\"no_evidence\" "
    ++ codes "with an empty cited_chunk_ids array."

unfoldable pub chunk_line : EventChunk → Text
unfolding date_isoformat
chunk_line chunk =
    codes "- chunk_id="
    ++ (chunk.chunk_id
        ++ (codes " date="
            ++ (date_isoformat chunk.note_date
                ++ (codes " event_index="
                    ++ (decimal chunk.event_index ++ (codes " text=" ++ chunk.chunk_text))))))

abbrev chunks_block : List EventChunk → Text
chunks_block [] = codes "(no diary chunks were retrieved for this question)"
chunks_block (c ∷ cs) = join (codes "\n") (map chunk_line (c ∷ cs))

-- All are of the community.
unfoldable pub all_of_community : Text → List EventChunk → Bool
all_of_community community [] = true
all_of_community community (c ∷ cs) = c.community_id == community && all_of_community community cs

-- `len({chunk.community_id for chunk in chunks}) > 1`
unfoldable pub span_communities : List EventChunk → Bool
span_communities [] = false
span_communities (c ∷ cs) = not (all_of_community c.community_id cs)

abbrev pub chunk_ids_of : List EventChunk → List Text
chunk_ids_of [] = []
chunk_ids_of (c ∷ cs) = c.chunk_id ∷ chunk_ids_of cs

unfoldable pub build_answer_prompt : AnswerContext → Result AnswerPrompt
build_answer_prompt context =
    if span_communities context.ordered_chunks
    then raised cross_community_context
    else ok (record {
      prompt_version = answer_prompt_version;
      system_text = system_instructions;
      user_text =
          codes "Question: "
          ++ (context.query_text
              ++ (codes "\n\nDiary chunks (in retrieval rank order):\n"
                  ++ chunks_block context.ordered_chunks));
      cited_chunk_ids = chunk_ids_of context.ordered_chunks;
      knowledge_refs = [];
    })

-- What `json.loads` returns; numbers are not looked into. The keys of an object are distinct.
mutual
  pub data Json : Type 0 where
    null number : Json
    boolean : Bool → Json
    string : Text → Json
    array : Items → Json
    object : Fields → Json

  pub data Items : Type 0 where
    no_items : Items
    item : Json → Items → Items

  pub data Fields : Type 0 where
    no_fields : Fields
    field : Text → Json → Fields → Fields

pub data UncertaintyMarker : Type 0 where
  confident uncertain no_evidence ambiguous : UncertaintyMarker

pub record StructuredAnswer : Type 0 where
  pub answer_text : Text
  pub cited_chunk_ids : List Text
  pub uncertainty : UncertaintyMarker

-- `payload[key]`
abbrev pub field_of : Text → Fields → Option Json
field_of key no_fields = none
field_of key (field k v rest) = if k == key then some v else field_of key rest

abbrev is_required : Text → Bool
is_required key =
    key == codes "answer_text" || key == codes "cited_chunk_ids" || key == codes "uncertainty"

abbrev pub has_extra : Fields → Bool
has_extra no_fields = false
has_extra (field k v rest) = not (is_required k) || has_extra rest

-- `isinstance(value, list) and all(isinstance(item, str) for item in value)`
abbrev with_text : Json → Option (List Text) → Option (List Text)
with_text (string t) (some ts) = some (t ∷ ts)
with_text _ _ = none

abbrev pub texts_of_items : Items → Option (List Text)
texts_of_items no_items = some []
texts_of_items (item j rest) = with_text j (texts_of_items rest)

abbrev pub texts_of : Json → Option (List Text)
texts_of (array xs) = texts_of_items xs
texts_of _ = none

abbrev pub text_of : Json → Option Text
text_of (string t) = some t
text_of _ = none

-- The marker of a text of `_VALID_UNCERTAINTY`.
abbrev marker_named : Text → Option UncertaintyMarker
marker_named t =
    if t == codes "confident"
    then some confident
    else if t == codes "uncertain"
    then some uncertain
    else if t == codes "no_evidence"
    then some no_evidence
    else if t == codes "ambiguous"
    then some ambiguous
    else none

abbrev or_mismatch : Option UncertaintyMarker → Result UncertaintyMarker
or_mismatch none = raised answer_schema_mismatch
or_mismatch (some m) = ok m

-- `value not in _VALID_UNCERTAINTY`: a list or a dict has no hash, so the test raises TypeError.
unfoldable pub uncertainty_of : Json → Result UncertaintyMarker
uncertainty_of (string t) = or_mismatch (marker_named t)
uncertainty_of (array xs) = raised type_error
uncertainty_of (object fs) = raised type_error
uncertainty_of _ = raised answer_schema_mismatch

abbrev pub is_in : Text → List Text → Bool
is_in t [] = false
is_in t (u ∷ us) = u == t || is_in t us

-- `fabricated` is empty.
unfoldable pub all_in : List Text → List Text → Bool
all_in [] context_ids = true
all_in (t ∷ ts) context_ids = is_in t context_ids && all_in ts context_ids

abbrev pub may_be_uncited : UncertaintyMarker → Bool
may_be_uncited no_evidence = true
may_be_uncited _ = false

abbrev pub no_citations : List Text → Bool
no_citations [] = true
no_citations (t ∷ ts) = false

-- The grounding checks on a payload of the right shape.
unfoldable pub grounded_answer :
    List Text → Text → List Text → Result UncertaintyMarker → Result StructuredAnswer
grounded_answer context_ids answer cited (raised e) = raised e
grounded_answer context_ids answer cited (ok marker) =
    if not (all_in cited context_ids)
    then raised fabricated_citation
    else if no_citations cited && not (may_be_uncited marker)
    then raised answer_schema_mismatch
    else ok (record { answer_text = answer; cited_chunk_ids = cited; uncertainty = marker })

abbrev pub with_citations :
    List Text → Json → Option Text → Option (List Text) → Result StructuredAnswer
with_citations context_ids uncertainty none cited = raised answer_schema_mismatch
with_citations context_ids uncertainty (some answer) none = raised answer_schema_mismatch
with_citations context_ids uncertainty (some answer) (some cited) =
    grounded_answer context_ids answer cited (uncertainty_of uncertainty)

-- The three required fields; a missing one is none.
abbrev pub of_fields :
    List Text → Bool → Option Json → Option Json → Option Json → Result StructuredAnswer
of_fields context_ids extra (some answer) (some cited) (some uncertainty) =
    if extra
    then raised answer_schema_mismatch
    else with_citations context_ids uncertainty (text_of answer) (texts_of cited)
of_fields context_ids extra _ _ _ = raised answer_schema_mismatch

abbrev pub of_payload : List Text → Option Json → Result StructuredAnswer
of_payload context_ids none = raised malformed_answer_json
of_payload context_ids (some (object fs)) =
    of_fields context_ids (has_extra fs) (field_of (codes "answer_text") fs)
      (field_of (codes "cited_chunk_ids") fs) (field_of (codes "uncertainty") fs)
of_payload context_ids (some _) = raised answer_schema_mismatch

-- `json.loads`: none is its JSONDecodeError; it may raise another exception too, such as the
-- ValueError of an integer with too many digits, or RecursionError.
abbrev pub JsonLoads : Type 0
JsonLoads = Text → Result (Option Json)

-- `json.loads` decodes a text, or raises JSONDecodeError.
abbrev pub Decodes : Result (Option Json) → Type 0
Decodes (raised e) = ⊥
Decodes (ok payload) = Unit

-- `try: payload = json.loads(raw) except json.JSONDecodeError`, and what follows.
abbrev pub with_payload : {A : Type 0} → Result (Option Json) → (Option Json → Result A) → Result A
with_payload (raised e) parse = raised e
with_payload (ok payload) parse = parse payload

unfoldable pub parse_structured_answer : JsonLoads → Text → AnswerContext → Result StructuredAnswer
parse_structured_answer loads raw context =
    with_payload (loads raw) (of_payload (chunk_ids_of context.ordered_chunks))
