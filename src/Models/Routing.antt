-- ===== src/Models/Routing.antt =====
-- core/routing/models.py: route kinds and the inbound message.
use diary_memory_service.Base.{ℕ, Bool, true, false, Option}
use diary_memory_service.Base.Text.{Text, codes}

-- Microseconds since the epoch, in UTC.
abbrev pub DateTime : Type 0
DateTime = ℕ

pub data RouteKind : Type 0 where
  start help note ask chat draft drafts export sources delete clarify unknown : RouteKind

-- `route is RouteKind.DRAFT`
abbrev pub is_draft : RouteKind → Bool
is_draft RouteKind.draft = true
is_draft _ = false

-- `route is RouteKind.NOTE`
abbrev pub is_note : RouteKind → Bool
is_note RouteKind.note = true
is_note _ = false

pub data Lifecycle : Type 0 where
  draft note query other : Lifecycle

unfoldable pub lifecycle_for : RouteKind → Lifecycle
lifecycle_for RouteKind.draft = Lifecycle.draft
lifecycle_for RouteKind.note = Lifecycle.note
lifecycle_for RouteKind.ask = Lifecycle.query
lifecycle_for _ = Lifecycle.other

pub data RouteSource : Type 0 where
  command heuristic : RouteSource

pub record InboundMessage : Type 0 where
  pub external_message_id : Text
  pub external_chat_id : Text
  pub external_user_id : Text
  pub community_id : Text
  pub text : Text
  pub route : RouteKind
  pub received_at : DateTime
  pub route_source : RouteSource
  pub payload : Text
  pub edit_seq : ℕ
  pub subject_id : Option Text
  pub reply_to_external_message_id : Option Text

-- `route.value`
unfoldable pub route_value : RouteKind → Text
route_value start = codes "start"
route_value help = codes "help"
route_value note = codes "note"
route_value ask = codes "ask"
route_value chat = codes "chat"
route_value draft = codes "draft"
route_value drafts = codes "drafts"
route_value export = codes "export"
route_value sources = codes "sources"
route_value delete = codes "delete"
route_value clarify = codes "clarify"
route_value unknown = codes "unknown"

unfoldable pub source_value : RouteSource → Text
source_value command = codes "command"
source_value heuristic = codes "heuristic"
