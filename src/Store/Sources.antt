-- ===== src/Store/Sources.antt =====
-- Source messages: storage/mock/store.py, `save_source_message` to `list_recent_drafts`.
use diary_memory_service.Base.{
  Bool, true, false, ◌&&◌, Option, none, some, List, keep, take, ◌==◌, text_eq, text_pair_eq,
  message_key_eq, nat_eq, if◌then◌else◌,
}
use diary_memory_service.Base.Text.{Text}
use diary_memory_service.Base.Int.{ℤ, is_negative, is_below_one, pos_part}
use diary_memory_service.Base.Dict.{lookup, insert, contains, values}
use diary_memory_service.Base.Sort.{sort_by}
use diary_memory_service.Exec.{
  Exec, ok, raised, value_error, key_error, pure, gets, raise_if, ◌>>=◌, ◌>>◌,
}
use diary_memory_service.Models.{SourceMessage, is_draft}
use diary_memory_service.Store.{MessageKey, MockDomainStore, require_community, stamp_ltb}

abbrev pub source_key : SourceMessage → MessageKey
source_key source = (source.external_chat_id, source.external_message_id, source.edit_seq)

-- The two writes that store a new row.
unfoldable pub put_source : SourceMessage → MockDomainStore → MockDomainStore
put_source source s = record s {
  sources = insert source.source_message_id source s.sources;
  idempotency = insert (source_key source) source.source_message_id s.idempotency;
}

unfoldable pub save_source_message : SourceMessage → Exec MockDomainStore (Unit {0})
save_source_message source s =
    if contains (source_key source) s.idempotency
    then (raised value_error, s)
    else (ok tt, put_source source s)

unfoldable pub get_or_create_source_message :
    SourceMessage → Exec MockDomainStore (SourceMessage × Bool)
get_or_create_source_message source s = elim (lookup (source_key source) s.idempotency) [
  | none ↦ (ok (source, false), put_source source s)
  | some existing_id ↦ elim (lookup existing_id s.sources) [
    | none ↦ (raised key_error, s)
    | some existing ↦ (ok (existing, true), s)
  ]
]

-- A row that another community owns reads as absent.
abbrev pub owned_source : Text → Option SourceMessage → Option SourceMessage
owned_source community_id none = none
owned_source community_id (some source) =
    if source.community_id == community_id then some source else none

unfoldable pub get_source_message : Text → Text → Exec MockDomainStore (Option SourceMessage)
get_source_message source_message_id community_id = do
  require_community community_id
  gets (λ s. owned_source community_id (lookup source_message_id s.sources))

unfoldable pub source_before : SourceMessage → SourceMessage → Bool
source_before a b = stamp_ltb a.created_at a.source_message_id b.created_at b.source_message_id

unfoldable pub community_sources : Text → MockDomainStore → List SourceMessage
community_sources community_id s =
    sort_by source_before (keep (λ m. m.community_id == community_id) (values s.sources))

abbrev limit_sources : List SourceMessage → Option ℤ → Exec MockDomainStore (List SourceMessage)
limit_sources rows none = pure rows
limit_sources rows (some limit) = do
  raise_if (is_negative limit) value_error
  pure (take (pos_part limit) rows)

unfoldable pub list_source_messages : Text → Option ℤ → Exec MockDomainStore (List SourceMessage)
list_source_messages community_id limit = do
  require_community community_id
  rows ← gets (community_sources community_id)
  limit_sources rows limit

-- `reverse=True`
unfoldable pub source_after : SourceMessage → SourceMessage → Bool
source_after a b = source_before b a

unfoldable pub list_recent_drafts : Text → ℤ → Exec MockDomainStore (List SourceMessage)
list_recent_drafts community_id limit = do
  require_community community_id
  raise_if (is_below_one limit) value_error
  gets (λ s. take (pos_part limit) (
      sort_by source_after (
        keep (λ m. m.community_id == community_id && is_draft m.detected_route)
          (values s.sources))))
