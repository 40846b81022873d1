-- ===== src/Samples.antt =====
-- Test data: a concrete date parser and a store that a few messages have gone through.
pub mod Service
pub mod Chat
pub mod Bot
pub mod Providers
use diary_memory_service.Base.{
  ℕ, ◌+◌, ◌-◌, ◌*◌, Bool, false, ◌&&◌, Option, none, some, [], ◌∷◌, leb, nat_beq, if◌then◌else◌,
  map,
}
use diary_memory_service.Base.Text.{Text, codes}
use diary_memory_service.Exec.{Result, ok, raised, provider_error}
use diary_memory_service.Models.{
  Date, InboundMessage, RouteKind, command, IngestResult, FallbackMode,
}
use diary_memory_service.Parser.{DateSyntax}
use diary_memory_service.Store.{MockDomainStore, empty_store}
use diary_memory_service.DomainService.{EmbeddingClient, Draws}
use diary_memory_service.DomainService.Ingest.{ingest}

abbrev pub is_ascii_digit : ℕ → Bool
is_ascii_digit c = leb b'0' c && leb c b'9'

abbrev pub number_of : ℕ → Text → Option ℕ
number_of n [] = some n
number_of n (c ∷ s) = if is_ascii_digit c then number_of (n * 10 + (c - b'0')) s else none

abbrev date_of : Option ℕ → Option ℕ → Option ℕ → Option Date
date_of (some y) (some m) (some d) =
    if leb 1 m && leb m 12 && leb 1 d && leb d 31
    then some (record { year = y; month = m; day = d })
    else none
date_of _ _ _ = none

-- YYYY-MM-DD, with days up to 31 in every month.
abbrev dashed_date : Text → Option Date
dashed_date (a ∷ b ∷ c ∷ d ∷ x ∷ e ∷ f ∷ y ∷ g ∷ h ∷ []) =
    if nat_beq x b'-' && nat_beq y b'-'
    then date_of (number_of 0 (a ∷ b ∷ c ∷ d ∷ [])) (number_of 0 (e ∷ f ∷ []))
        (number_of 0 (g ∷ h ∷ []))
    else none
dashed_date _ = none

abbrev pub sample_dates : DateSyntax
sample_dates = record { fromisoformat = dashed_date; is_decimal = is_ascii_digit }

-- A provider that returns one vector for each text, and one that always raises.
abbrev pub working_client : EmbeddingClient
working_client = record {
  embed = λ texts. ok (map (λ t. 1 ∷ []) texts);
  model_name = codes "mock";
  dimension = 1;
}

abbrev pub broken_client : EmbeddingClient
broken_client = record {
  embed = λ texts. raised (provider_error (codes "APITimeoutError"));
  model_name = codes "mock";
  dimension = 1;
}

-- The ids of the n-th call.
abbrev pub draws_at : ℕ → Draws
draws_at n = record {
  now = n;
  candidate_id = b's' ∷ n ∷ [];
  note_id = b'n' ∷ n ∷ [];
  chunk_id = b'c' ∷ n ∷ [];
  embedding_record_id = λ i. b'e' ∷ n ∷ i ∷ [];
  dead_letter_id = b'd' ∷ n ∷ [];
}

abbrev pub message_of : RouteKind → ℕ → Text → InboundMessage
message_of route edit_seq payload = record {
  external_message_id = codes "m1";
  external_chat_id = codes "chat";
  external_user_id = codes "ann";
  community_id = codes "chat";
  text = payload;
  route = route;
  received_at = 0;
  route_source = command;
  payload = payload;
  edit_seq = edit_seq;
  subject_id = none;
  reply_to_external_message_id = none;
}

abbrev pub first_note : InboundMessage
first_note = message_of RouteKind.note 0 (codes "2026-05-09\nwalked today")

abbrev pub edited_note : InboundMessage
edited_note = message_of RouteKind.note 7 (codes "2026-05-10\nran today")

abbrev pub after : Result IngestResult × MockDomainStore → MockDomainStore
after r = r.1

abbrev pub result_of_one : IngestResult
result_of_one = record {
  fallback = FallbackMode.none;
  source_message_id = b's' ∷ 1 ∷ [];
  note_date = some (record { year = 2026; month = 5; day = 9 });
  events_count = 1;
  invalid_first_line = none;
  replayed = false;
}

abbrev pub store_one : MockDomainStore
store_one = (ingest sample_dates (some working_client) (draws_at 1) first_note empty_store).1
