-- ===== src/Tests/Telegram.antt =====
-- The webhook: a refused call, and a reply of two drafts over a client that fails.
use diary_memory_service.Base.{
  ◌≡◌, ◌≢◌, ◌≤◌, inr, none, some, List, [], ◌∷◌, All, length, nat_beq, if◌then◌else◌, arith,
}
use diary_memory_service.Base.Text.{Text, codes}
use diary_memory_service.Base.Int.{pos}
use diary_memory_service.Exec.{ok, raised, provider_error}
use diary_memory_service.Dispatcher.{first_state}
use diary_memory_service.Telegram.{telegram_webhook, deliver_blocks, default_cap, default_separator}
use diary_memory_service.Packing.{pack_drafts_into_messages}
use diary_memory_service.Telegram.Schema.{TelegramUpdate, empty_body}
use diary_memory_service.Telegram.Delivery.{TelegramClient, Webhook}
use diary_memory_service.Telegram.Effects.{Refused, telegram_webhook_refuses}
use diary_memory_service.Telegram.Sending.{SentPrefix, deliver_blocks-sends}
use diary_memory_service.Samples.Bot.{sample_dispatcher, dispatch_draws}

abbrev idle : Webhook
idle = record { state = first_state; calls = 0; delivered = [] }

-- The second call fails.
abbrev flaky : TelegramClient
flaky = λ n d. if nat_beq n 1 then raised (provider_error (codes "ReadTimeout")) else ok tt

abbrev an_update : TelegramUpdate
an_update = record {
  update_id = pos 1;
  message = some (record {
    message_id = pos 5;
    date = 1778284800;
    edit_date = none;
    chat = record { id = pos 42 };
    from_user = record { id = pos 7; username = some (codes "alice"); first_name = none };
    text = some (codes "/drafts");
    reply_to_message = none;
  });
  edited_message = none;
}

wrong_secret : some (codes "guess") ≢ some (codes "secret")
wrong_secret e = cc

telegram_webhook_refuses_example : Refused idle (
    telegram_webhook sample_dispatcher flaky
      (dispatch_draws 1)
      (codes "secret")
      (some (codes "guess"))
      an_update
      idle)
telegram_webhook_refuses_example =
    telegram_webhook_refuses sample_dispatcher flaky (dispatch_draws 1) (codes "secret")
      (some (codes "guess")) an_update idle (inr wrong_secret)

abbrev two_blocks : List Text
two_blocks = codes "one" ∷ codes "two" ∷ []

short_header : length (codes "Most recent 2 drafts:") ≤ default_cap
short_header = omega arith

short_blocks : All (λ block. length block ≤ 1000000000) two_blocks
short_blocks = (omega arith, (omega arith, tt))

deliver_blocks-sends_example :
    (messages : List Text) × (pack_drafts_into_messages
        (codes "Most recent 2 drafts:")
        two_blocks
        default_cap
        default_separator
      ≡ ok messages)
    × (messages ≢ [])
    × All (λ message. length message ≤ default_cap) messages
    × ((deliver_blocks flaky
          (codes "42")
          (codes "drafts")
          (codes "Most recent 2 drafts:")
          two_blocks
          idle).0
        ≡ ok empty_body)
    × SentPrefix flaky
        (codes "42")
        (codes "drafts")
        (length messages)
        0
        messages
        idle
        (deliver_blocks flaky
          (codes "42")
          (codes "drafts")
          (codes "Most recent 2 drafts:")
          two_blocks
          idle).1
deliver_blocks-sends_example =
    deliver_blocks-sends flaky (codes "42") (codes "drafts") (codes "Most recent 2 drafts:")
      two_blocks idle short_header short_blocks
