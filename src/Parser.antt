-- ===== src/Parser.antt =====
-- Notes and dates: src/memory_rag/core/domain/parser.py. `date.fromisoformat` and the decimal
-- digits of the pattern `\d` are parameters.
use diary_memory_service.Base.{
  ℕ, Bool, true, ◌&&◌, ◌||◌, Option, none, some, List, [], ◌∷◌, ◌++◌, keep, map, nat_beq, not,
  if◌then◌else◌,
}
use diary_memory_service.Base.Text.{Text, codes, is_empty, strip, splitlines, join}
use diary_memory_service.Models.{Date}

pub record ParsedNote : Type 0 where
  pub note_date : Date
  pub body : Text
  pub first_line : Text

-- `date.fromisoformat`, none where it raises ValueError; and `\d`.
pub record DateSyntax : Type 0 where
  pub fromisoformat : Text → Option Date
  pub is_decimal : ℕ → Bool

unfoldable pub split_non_empty_lines : Text → List Text
split_non_empty_lines text = keep (λ line. not (is_empty line)) (map strip (splitlines text))

abbrev dated_note : Text → List Text → Option Date → Option ParsedNote
dated_note first_line rest none = none
dated_note first_line rest (some d) =
    some (record { note_date = d; body = join (codes "\n") rest; first_line = first_line })

abbrev parse_lines : DateSyntax → List Text → Option ParsedNote
parse_lines ds [] = none
parse_lines ds (first_line ∷ rest) = dated_note first_line rest (ds.fromisoformat first_line)

unfoldable pub parse_note : DateSyntax → Text → Option ParsedNote
parse_note ds payload = parse_lines ds (split_non_empty_lines payload)

-- The separators `[-/.]`.
unfoldable pub is_date_separator : ℕ → Bool
is_date_separator c = nat_beq c b'-' || nat_beq c b'/' || nat_beq c b'.'

abbrev all_decimal : (ℕ → Bool) → Text → Bool
all_decimal p [] = true
all_decimal p (c ∷ s) = p c && all_decimal p s

-- `^(\d{4})([-/.])(\d{2})\2(\d{2})$` as year, month and day.
unfoldable pub match_yyyy_first : (ℕ → Bool) → Text → Option (Text × Text × Text)
match_yyyy_first p (a ∷ b ∷ c ∷ d ∷ x ∷ e ∷ f ∷ y ∷ g ∷ h ∷ []) =
    if all_decimal p (a ∷ b ∷ c ∷ d ∷ e ∷ f ∷ g ∷ h ∷ []) && is_date_separator x && nat_beq x y
    then some (a ∷ b ∷ c ∷ d ∷ [], e ∷ f ∷ [], g ∷ h ∷ [])
    else none
match_yyyy_first p _ = none

-- `^(\d{2})([-/.])(\d{2})\2(\d{4})$` as year, month and day.
unfoldable pub match_dd_first : (ℕ → Bool) → Text → Option (Text × Text × Text)
match_dd_first p (a ∷ b ∷ x ∷ c ∷ d ∷ y ∷ e ∷ f ∷ g ∷ h ∷ []) =
    if all_decimal p (a ∷ b ∷ c ∷ d ∷ e ∷ f ∷ g ∷ h ∷ []) && is_date_separator x && nat_beq x y
    then some (e ∷ f ∷ g ∷ h ∷ [], c ∷ d ∷ [], a ∷ b ∷ [])
    else none
match_dd_first p _ = none

abbrev checked_candidate : DateSyntax → Text × Text × Text → Option Text
checked_candidate ds (year, month, day) =
    let candidate = year ++ (codes "-" ++ (month ++ (codes "-" ++ day))) in
    elim (ds.fromisoformat candidate) [ none ↦ none | some d ↦ some candidate ]

abbrev first_match :
    DateSyntax → Option (Text × Text × Text) → Option (Text × Text × Text) → Option Text
first_match ds (some m) other = checked_candidate ds m
first_match ds none (some m) = checked_candidate ds m
first_match ds none none = none

unfoldable pub normalize_iso_date_token : DateSyntax → Text → Option Text
normalize_iso_date_token ds token =
    let s = strip token in
    first_match ds (match_yyyy_first ds.is_decimal s) (match_dd_first ds.is_decimal s)
