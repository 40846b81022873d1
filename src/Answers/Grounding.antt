-- ===== src/Answers/Grounding.antt =====
-- The citations of the structured answer (I-9), core/domain/answer_schema.py.
use diary_memory_service.Base.{
  Bool, true, false, not, ◌&&◌, ◌≡◌, refl, Option, none, some, List, [], ◌∷◌, All, inl, inr,
  Bool-cases, arith,
}
use diary_memory_service.Base.Text.{Text, codes}
use diary_memory_service.Exec.{Result, ok, raised}
use diary_memory_service.Exec.Laws.{Returns, Returns-ok}
use diary_memory_service.Models.{AnswerContext}
use diary_memory_service.Answers.{
  JsonLoads, with_payload, Json, null, number, boolean, string, array, object, UncertaintyMarker,
  confident, uncertain, no_evidence, ambiguous, StructuredAnswer, grounded_answer, all_in, is_in,
  no_citations, may_be_uncited, uncertainty_of, text_of, texts_of, with_citations, of_fields,
  of_payload, has_extra, field_of, chunk_ids_of, parse_structured_answer,
}

-- Every citation is among the ids, and only a `no_evidence` answer has none.
abbrev pub IsGrounded : List Text → StructuredAnswer → Type 0
IsGrounded ids a =
    All (λ cited. is_in cited ids ≡ true) a.cited_chunk_ids
    × (a.cited_chunk_ids ≡ [] → a.uncertainty ≡ no_evidence)

pub all_in-All :
    (cited ids : List Text) → all_in cited ids ≡ true → All (λ c. is_in c ids ≡ true) cited
unfolding all_in
all_in-All [] ids h = tt
all_in-All (c ∷ cs) ids h = ground (arith, all_in-All cs ids)

module _ (ids : List Text) where
  grounded_answer-Returns :
      (answer : Text) (cited : List Text) (marker : Result UncertaintyMarker)
      → Returns (IsGrounded ids) (grounded_answer ids answer cited marker)
  unfolding grounded_answer
  grounded_answer-Returns answer cited (raised e) = tt
  grounded_answer-Returns answer cited (ok marker) = elim (Bool-cases (all_in cited ids)) [
    | inr fabricated ↦ rw fabricated tt
    | inl found ↦ elim (Bool-cases (no_citations cited && not (may_be_uncited marker))) [
      | inl bare ↦ rw (found, bare) tt
      | inr good ↦ rw (found, good) (all_in-All cited ids found, uncited cited marker good)
    ]
  ]
    where
      uncited :
          (cited : List Text) (marker : UncertaintyMarker)
          → no_citations cited && not (may_be_uncited marker) ≡ false
          → cited ≡ []
          → marker ≡ no_evidence
      uncited [] no_evidence h e = refl
      uncited [] confident h e = cc
      uncited [] uncertain h e = cc
      uncited [] ambiguous h e = cc
      uncited (c ∷ cs) marker h e = cc

  with_citations-Returns :
      (uncertainty : Json) (answer : Option Text) (cited : Option (List Text))
      → Returns (IsGrounded ids) (with_citations ids uncertainty answer cited)
  with_citations-Returns uncertainty none cited = tt
  with_citations-Returns uncertainty (some answer) none = tt
  with_citations-Returns uncertainty (some answer) (some cited) =
      grounded_answer-Returns answer cited (uncertainty_of uncertainty)

  of_fields-Returns :
      (extra : Bool) (answer cited uncertainty : Option Json)
      → Returns (IsGrounded ids) (of_fields ids extra answer cited uncertainty)
  of_fields-Returns extra none cited uncertainty = tt
  of_fields-Returns extra (some a) none uncertainty = tt
  of_fields-Returns extra (some a) (some c) none = tt
  of_fields-Returns true (some a) (some c) (some u) = tt
  of_fields-Returns false (some a) (some c) (some u) =
      with_citations-Returns u (text_of a) (texts_of c)

  of_payload-Returns : (payload : Option Json) → Returns (IsGrounded ids) (of_payload ids payload)
  of_payload-Returns none = tt
  of_payload-Returns (some null) = tt
  of_payload-Returns (some number) = tt
  of_payload-Returns (some (boolean b)) = tt
  of_payload-Returns (some (string t)) = tt
  of_payload-Returns (some (array xs)) = tt
  of_payload-Returns (some (object fs)) =
      of_fields-Returns (has_extra fs) (field_of (codes "answer_text") fs)
        (field_of (codes "cited_chunk_ids") fs) (field_of (codes "uncertainty") fs)

pub with_payload-Returns :
    {A : Type 0} (P : A → Type 0) (r : Result (Option Json)) (parse : Option Json → Result A)
    → ((payload : Option Json) → Returns P (parse payload))
    → Returns P (with_payload r parse)
with_payload-Returns P (raised e) parse h = tt
with_payload-Returns P (ok payload) parse h = h payload

pub parse_structured_answer-Returns :
    (loads : JsonLoads) (raw : Text) (context : AnswerContext)
    → Returns
        (IsGrounded (chunk_ids_of context.ordered_chunks))
        (parse_structured_answer loads raw context)
unfolding parse_structured_answer
parse_structured_answer-Returns loads raw context =
    let ids = chunk_ids_of context.ordered_chunks in
    with_payload-Returns (IsGrounded ids) (loads raw) (of_payload ids) (of_payload-Returns ids)

-- An answer that the parser returns cites only chunks of the context, and cites none only where it
-- says `no_evidence`.
pub parse_structured_answer-IsGrounded :
    (loads : JsonLoads) (raw : Text) (context : AnswerContext) (a : StructuredAnswer)
    → parse_structured_answer loads raw context ≡ ok a
    → IsGrounded (chunk_ids_of context.ordered_chunks) a
parse_structured_answer-IsGrounded loads raw context a =
    Returns-ok (IsGrounded (chunk_ids_of context.ordered_chunks))
      (parse_structured_answer loads raw context) a
      (parse_structured_answer-Returns loads raw context)
