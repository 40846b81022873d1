-- ===== src/Models/Notes.antt =====
-- core/domain/models.py and core/embeddings/models.py: the ingest side, from source messages to
-- embedding records.
use diary_memory_service.Base.{
  ℕ, Bool, true, false, Option, some, List, ltb, nat_beq, if◌then◌else◌,
}
use diary_memory_service.Base.Text.{Text, codes}
use diary_memory_service.Exec.{Result, ok, raised, value_error}
use diary_memory_service.Models.Routing.{DateTime, RouteKind}

-- The bit pattern of a double.
abbrev pub Float : Type 0
Float = ℕ

-- `datetime.date`
pub record Date : Type 0 where
  pub year : ℕ
  pub month : ℕ
  pub day : ℕ

-- `a < b` on dates
unfoldable pub date_ltb : Date → Date → Bool
date_ltb a b =
    if nat_beq a.year b.year
    then (if nat_beq a.month b.month then ltb a.day b.day else ltb a.month b.month)
    else ltb a.year b.year

pub data FallbackMode : Type 0 where
  none no_evidence invalid_input weak_evidence ambiguous : FallbackMode
  provider_unavailable parse_failure : FallbackMode

-- `fallback.value`
unfoldable pub fallback_value : FallbackMode → Text
fallback_value none = codes "none"
fallback_value no_evidence = codes "no_evidence"
fallback_value invalid_input = codes "invalid_input"
fallback_value weak_evidence = codes "weak_evidence"
fallback_value ambiguous = codes "ambiguous"
fallback_value provider_unavailable = codes "provider_unavailable"
fallback_value parse_failure = codes "parse_failure"

pub data LifecycleState : Type 0 where
  active superseded tombstoned : LifecycleState

abbrev pub is_active : LifecycleState → Bool
is_active active = true
is_active _ = false

pub data EmbeddingStatus : Type 0 where
  pending ready failed : EmbeddingStatus

abbrev pub is_ready : EmbeddingStatus → Bool
is_ready ready = true
is_ready _ = false

abbrev pub is_failed : EmbeddingStatus → Bool
is_failed failed = true
is_failed _ = false

pub record SourceMessage : Type 0 where
  pub source_message_id : Text
  pub community_id : Text
  pub author_user_id : Text
  pub external_chat_id : Text
  pub external_user_id : Text
  pub external_message_id : Text
  pub edit_seq : ℕ
  pub raw_text : Text
  pub detected_route : RouteKind
  pub created_at : DateTime

pub record Note : Type 0 where
  pub note_id : Text
  pub source_message_id : Text
  pub community_id : Text
  pub author_user_id : Text
  pub note_date : Date
  pub note_text : Text
  pub created_at : DateTime
  pub subject_id : Option Text
  pub lifecycle_state : LifecycleState
  pub supersedes_note_id : Option Text

pub record EventChunk : Type 0 where
  pub chunk_id : Text
  pub note_id : Text
  pub source_message_id : Text
  pub community_id : Text
  pub author_user_id : Text
  pub note_date : Date
  pub event_index : ℕ
  pub chunk_text : Text
  pub created_at : DateTime
  pub embedding_status : EmbeddingStatus
  pub subject_id : Option Text
  pub lifecycle_state : LifecycleState
  pub supersedes_chunk_id : Option Text

pub record DateRange : Type 0 where
  pub start : Option Date
  pub stop : Option Date

abbrev pub is_reversed : DateRange → Bool
is_reversed r = elim r.start [
  | Option.none ↦ false
  | some start ↦ elim r.stop [ Option.none ↦ false | some stop ↦ date_ltb stop start ]
]

-- `DateRange(start, end)`, whose `__post_init__` raises on a reversed range.
unfoldable pub new_date_range : Option Date → Option Date → Result DateRange
new_date_range start stop =
    let r : DateRange = record { start = start; stop = stop } in
    if is_reversed r then raised value_error else ok r

pub record EmbeddingRecord : Type 0 where
  pub embedding_record_id : Text
  pub chunk_id : Text
  pub source_message_id : Text
  pub community_id : Text
  pub model_name : Text
  pub dimension : ℕ
  pub embedding : List Float
  pub created_at : DateTime

pub record IngestResult : Type 0 where
  pub fallback : FallbackMode
  pub source_message_id : Text
  pub note_date : Option Date
  pub events_count : ℕ
  pub invalid_first_line : Option Text
  pub replayed : Bool

pub record DeleteOutcome : Type 0 where
  pub deleted : Bool
  pub note_date : Option Date

pub record HardDeleteOutcome : Type 0 where
  pub source_messages : ℕ
  pub notes : ℕ
  pub event_chunks : ℕ
  pub embedding_records : ℕ
  pub retrieval_hits : ℕ

pub record IndexingDeadLetter : Type 0 where
  pub dead_letter_id : Text
  pub source_message_id : Text
  pub community_id : Text
  pub chunk_ids : List Text
  pub model_name : Text
  pub error_class : Text
  pub created_at : DateTime
