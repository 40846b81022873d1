-- ===== src/Telegram/Schema.antt =====
-- adapters/telegram/models.py, community.py, subject.py and reply.py. A `date` is a number of seconds
-- since the epoch, not negative; ids are integers.
use diary_memory_service.Base.{ℕ, Option, none, some, ◌∷◌, suc}
use diary_memory_service.Base.Text.{Text}
use diary_memory_service.Base.Int.{ℤ, pos, negsuc}
use diary_memory_service.Base.Decimal.{decimal}
use diary_memory_service.Exec.{Result, ok, raised, value_error}

pub record TelegramUser : Type 0 where
  pub id : ℤ
  pub username : Option Text
  pub first_name : Option Text

pub record TelegramChat : Type 0 where
  pub id : ℤ

pub record TelegramReplyTarget : Type 0 where
  pub message_id : ℤ

pub record TelegramMessage : Type 0 where
  pub message_id : ℤ
  pub date : ℕ
  pub edit_date : Option ℕ
  pub chat : TelegramChat
  pub from_user : TelegramUser
  pub text : Option Text
  pub reply_to_message : Option TelegramReplyTarget

pub record TelegramUpdate : Type 0 where
  pub update_id : ℤ
  pub message : Option TelegramMessage
  pub edited_message : Option TelegramMessage

-- `str(i)`
abbrev pub int_text : ℤ → Text
int_text (pos n) = decimal n
int_text (negsuc n) = b'-' ∷ decimal (suc n)

unfoldable pub resolve_community_id : Text → Text
resolve_community_id external_chat_id = external_chat_id

unfoldable pub resolve_subject_id : Text → Option Text
resolve_subject_id community_id = none

-- The body of the webhook's response: `{}`, or a `sendMessage` call.
pub data Response : Type 0 where
  empty_body : Response
  send_message : ℤ → Text → Response

abbrev payload_to : Text → Option ℤ → Result Response
payload_to text none = raised value_error
payload_to text (some chat_id) = ok (send_message chat_id text)

-- `int_of` is `int(text)`, where `none` is a ValueError.
unfoldable pub build_send_message_payload : (Text → Option ℤ) → Text → Text → Result Response
build_send_message_payload int_of chat_id text = payload_to text (int_of chat_id)
