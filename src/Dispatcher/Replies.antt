-- ===== src/Dispatcher/Replies.antt =====
-- services/dispatcher.py: the fixed replies and the `_format_` functions.
use diary_memory_service.Base.{
  ℕ, Bool, true, false, Option, none, some, List, [], ◌∷◌, ◌++◌, nat_beq, ltb, if◌then◌else◌,
}
use diary_memory_service.Base.Text.{Text, codes, is_empty, join}
use diary_memory_service.Base.Decimal.{decimal}
use diary_memory_service.Exec.{Result, ok, raised, assertion_error}
use diary_memory_service.Models.{
  Date, FallbackMode, IngestResult, AnswerResult, Evidence, ChatRoute, RoutedChatResult,
  date_isoformat,
}

abbrev pub reply_start : Text
reply_start =
    codes "Welcome — diary mode. Use /note to record, /ask to query, /sources to see the chunks "
    ++ codes
        "behind your last answer, or /drafts to recall recent drafts. For /note, put a date on "
    ++ codes "the first line — 2026-05-09 is the recommended form; 2026/05/09, 2026.05.09, "
    ++ codes "09-05-2026, 09/05/2026, and 09.05.2026 also work (DD-first is read as DD/MM/YYYY). "
    ++ codes "Plain text without a command is stored as a draft so nothing is lost."

abbrev pub reply_help : Text
reply_help =
    codes "Commands: /start, /help, /note, /ask, /chat, /sources, /drafts, /export. Plain text "
    ++ codes "without a command is stored as a draft."

abbrev pub reply_unknown : Text
reply_unknown =
    codes "I haven't been taught how to handle that yet — use /note, /ask, /sources, or /drafts."

abbrev pub reply_clarify : Text
reply_clarify =
    codes "I couldn't tell if that's a diary entry or a question. "
    ++ codes "Send /note <YYYY-MM-DD> on the first line then your events to record it, "
    ++ codes "or /ask <your question> to query."

abbrev pub reply_export_usage : Text
reply_export_usage = codes "Usage: /export json | /export txt — pick a format."

abbrev pub reply_drafts_usage : Text
reply_drafts_usage = codes "Usage: /drafts [N]. N must be a positive integer."

abbrev pub reply_drafts_empty : Text
reply_drafts_empty = codes "No drafts to show."

abbrev pub reply_delete_ok : Text
reply_delete_ok = codes "Deleted. That note is removed from search and won't appear in answers."

abbrev pub reply_delete_nothing : Text
reply_delete_nothing = codes "Nothing to delete — reply to a saved note with /delete to remove it."

abbrev pub reply_delete_no_target : Text
reply_delete_no_target = codes "To delete a note, reply to it with /delete."

abbrev pub trailer_weak_evidence : Text
trailer_weak_evidence = codes "(weak evidence — model expressed uncertainty)"

abbrev pub trailer_ambiguous : Text
trailer_ambiguous = codes "(ambiguous question — refine and ask again)"

abbrev pub reply_provider_unavailable : Text
reply_provider_unavailable =
    codes "Couldn't generate an answer — chat provider is unavailable. Try again later."

abbrev pub reply_parse_failure : Text
reply_parse_failure =
    codes "Couldn't generate an answer — provider response was unparseable. Try again."

abbrev pub reply_sources_none : Text
reply_sources_none = codes "No selected chunks available — ask a question with /ask first."

abbrev pub reply_sources_none_cited : Text
reply_sources_none_cited = codes "Your last /ask answer didn't cite any specific notes."

abbrev pub reply_chat_unavailable : Text
reply_chat_unavailable =
    codes "Routed chat isn't available here — use /ask to query your saved notes."

abbrev pub trailer_model_knowledge : Text
trailer_model_knowledge = codes "(model knowledge — not from your saved notes)"

abbrev pub trailer_chat_rerouted : Text
trailer_chat_rerouted = codes "(answered from your saved notes)"

abbrev pub header_chat_no_notes : Text
header_chat_no_notes =
    codes "Nothing in your saved notes covers this — here's general information instead."

abbrev pub header_chat_weak_notes : Text
header_chat_weak_notes = codes "Your saved notes only weakly cover this."

abbrev pub label_chat_notes : Text
label_chat_notes = codes "From your saved notes:"

abbrev pub label_chat_web : Text
label_chat_web = codes "From the web:"

-- `value or ""`
abbrev pub text_or_empty : Option Text → Text
text_or_empty none = []
text_or_empty (some t) = t

abbrev saved_reply : Option Date → ℕ → Result Text
saved_reply none events_count = raised assertion_error
saved_reply (some d) events_count = ok (
    if nat_beq events_count 0
    then codes "Saved your note for " ++ (date_isoformat d ++ codes " with no content.")
    else codes "Saved your note for " ++ (date_isoformat d ++ codes "."))

abbrev is_invalid_input : FallbackMode → Bool
is_invalid_input FallbackMode.invalid_input = true
is_invalid_input _ = false

unfoldable pub format_ingest_reply : IngestResult → Result Text
format_ingest_reply r =
    if is_invalid_input r.fallback
    then ok (
        codes "First line must be a date like 2026-05-09. Got: '"
        ++ (text_or_empty r.invalid_first_line ++ codes "'."))
    else saved_reply r.note_date r.events_count

unfoldable pub format_draft_reply : IngestResult → Text
format_draft_reply r =
    codes "Stored as draft" ++ ((if r.replayed then codes " (replay)" else []) ++ codes ".")

-- Two texts with an empty line between them.
abbrev pub spaced_out : Text → Text → Text
spaced_out a b = a ++ (codes "\n\n" ++ b)

abbrev no_evidence_reply : Text → List Evidence → Text
no_evidence_reply query_text evidence =
    if is_empty query_text then codes "No query text provided." else elim evidence [
      | [] ↦
          codes "Nothing in your saved notes matched '"
          ++ (query_text
              ++ (codes "'. "
                  ++ codes "Try rephrasing the question, or use words that appear in your notes."))
      | e ∷ es ↦
          codes "Found possible matches but couldn't ground an answer for '"
          ++ (query_text ++ codes "'. Try refining the question.")
    ]

abbrev answer_reply_of : FallbackMode → AnswerResult → Text
answer_reply_of FallbackMode.none r = text_or_empty r.answer_text
answer_reply_of FallbackMode.weak_evidence r =
    spaced_out (text_or_empty r.answer_text) trailer_weak_evidence
answer_reply_of FallbackMode.ambiguous r =
    spaced_out (text_or_empty r.answer_text) trailer_ambiguous
answer_reply_of FallbackMode.provider_unavailable r = reply_provider_unavailable
answer_reply_of FallbackMode.parse_failure r = reply_parse_failure
answer_reply_of FallbackMode.no_evidence r = no_evidence_reply r.query_text r.evidence
answer_reply_of FallbackMode.invalid_input r = reply_unknown

unfoldable pub format_answer_reply : AnswerResult → Text
format_answer_reply r = answer_reply_of r.fallback r

-- A part for a non-empty text, under its label.
abbrev labelled : Text → Option Text → Text → List Text
labelled label none below = []
labelled label (some []) below = []
labelled label (some (c ∷ t)) below = (label ++ (codes "\n" ++ ((c ∷ t) ++ below))) ∷ []

abbrev notes_part : AnswerResult → Text
notes_part r = label_chat_notes ++ (codes "\n" ++ text_or_empty r.answer_text)

-- The parts that come first, or none where the answer failed as a whole.
abbrev leading_parts : FallbackMode → AnswerResult → Option (List Text)
leading_parts FallbackMode.provider_unavailable r = none
leading_parts FallbackMode.parse_failure r = none
leading_parts FallbackMode.no_evidence r = some (header_chat_no_notes ∷ [])
leading_parts FallbackMode.weak_evidence r = some (header_chat_weak_notes ∷ notes_part r ∷ [])
leading_parts _ r = some (notes_part r ∷ [])

abbrev mixed_reply : AnswerResult → List Text → Option (List Text) → Text
mixed_reply r rest none = format_answer_reply r
mixed_reply r rest (some parts) = join (codes "\n\n") (parts ++ rest)

abbrev model_part : AnswerResult → List Text
model_part r = labelled trailer_model_knowledge r.model_text []

unfoldable pub format_notes_plus_model_reply : AnswerResult → Text
format_notes_plus_model_reply r = mixed_reply r (model_part r) (leading_parts r.fallback r)

-- Each reference on a line of its own.
unfoldable pub refs_block : List Text → Text
refs_block [] = []
refs_block (ref ∷ refs) = codes "\n" ++ (ref ++ refs_block refs)

unfoldable pub format_notes_plus_knowledge_reply : AnswerResult → Text
format_notes_plus_knowledge_reply r =
    mixed_reply r
      (labelled label_chat_web r.knowledge_text (refs_block r.knowledge_refs) ++ model_part r)
      (leading_parts r.fallback r)

abbrev is_plain : FallbackMode → Bool
is_plain FallbackMode.none = true
is_plain _ = false

-- `requested_route is effective_route`, where the latter is `notes_lookup`.
abbrev is_lookup : Option ChatRoute → Bool
is_lookup (some ChatRoute.notes_lookup) = true
is_lookup _ = false

unfoldable pub format_chat_reply : RoutedChatResult → Text
format_chat_reply r = elim r.effective_route [
  | ChatRoute.notes_plus_model ↦ format_notes_plus_model_reply r.answer
  | ChatRoute.notes_plus_knowledge ↦ format_notes_plus_knowledge_reply r.answer
  | ChatRoute.model_only ↦
      if is_plain r.answer.fallback
      then spaced_out (format_answer_reply r.answer) trailer_model_knowledge
      else format_answer_reply r.answer
  | ChatRoute.notes_lookup ↦
      if is_lookup r.requested_route
      then format_answer_reply r.answer
      else spaced_out (format_answer_reply r.answer) trailer_chat_rerouted
]

abbrev draft_noun : ℕ → Text
draft_noun returned = if nat_beq returned 1 then codes "draft" else codes "drafts"

abbrev recent_header : ℕ → Text
recent_header returned =
    codes "Most recent " ++ (decimal returned ++ (codes " " ++ (draft_noun returned ++ codes ":")))

abbrev asked_for : ℕ → Text
asked_for requested = codes " (you asked for " ++ (decimal requested ++ codes ").")

unfoldable pub format_drafts_header : ℕ → ℕ → Bool → ℕ → Text
format_drafts_header returned requested explicit max_limit =
    if explicit
    then if nat_beq returned requested
      then recent_header returned
      else if ltb returned requested
      then if ltb returned max_limit
        then codes "Showing all "
          ++ (decimal returned ++ (codes " " ++ (draft_noun returned ++ asked_for requested)))
        else codes "Showing the "
          ++ (decimal returned
              ++ (codes " most recent " ++ (draft_noun returned ++ asked_for requested)))
      else recent_header returned
    else recent_header returned
