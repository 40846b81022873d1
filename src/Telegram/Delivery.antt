-- ===== src/Telegram/Delivery.antt =====
-- adapters/telegram/webhook.py: the calls of the Telegram client that the webhook makes.
use diary_memory_service.Base.{ℕ, suc, List, [], ◌∷◌, ◌++◌, length}
use diary_memory_service.Base.Text.{Text, codes}
use diary_memory_service.Base.Decimal.{decimal}
use diary_memory_service.Exec.{Result, ok, raised, Exec}
use diary_memory_service.Dispatcher.{State}

-- One call of the client: `send_message(chat_id, text)` or `send_document(...)`.
pub data Delivery : Type 0 where
  text_message : Text → Text → Delivery
  document : Text → Text → List ℕ → Text → Text → Delivery

-- Telegram's answer to the n-th call: the client returns, or raises.
abbrev pub TelegramClient : Type 0
TelegramClient = ℕ → Delivery → Result (Unit {0})

-- The service's state, the number of calls so far, and the calls that returned, in order.
pub record Webhook : Type 0 where
  pub state : State
  pub calls : ℕ
  pub delivered : List Delivery

abbrev recorded : Result (Unit {0}) → Delivery → List Delivery → List Delivery
recorded (ok u) d ds = ds ++ d ∷ []
recorded (raised e) d ds = ds

-- A call under `try`, whose outcome comes back as a value.
unfoldable pub attempt : TelegramClient → Delivery → Exec Webhook (Result (Unit {0}))
attempt client d w =
    let r = client w.calls d in
    (ok r, record w { calls = suc w.calls; delivered = recorded r d w.delivered })

-- `f"Couldn't deliver all drafts (sent {sent}/{total}). Try again."`
abbrev pub incomplete_notice : Text → ℕ → ℕ → Text
incomplete_notice noun sent total =
    codes "Couldn't deliver all "
    ++ (noun
        ++ (codes " (sent "
            ++ (decimal sent ++ (codes "/" ++ (decimal total ++ codes "). Try again.")))))

-- The loop over the packed messages: the first failure ends it, with one more call for the notice.
unfoldable pub send_from :
    TelegramClient → Text → Text → ℕ → ℕ → List Text → Exec Webhook (Unit {0})
send_from client chat_id noun total sent [] w = (ok tt, w)
send_from client chat_id noun total sent (body ∷ bodies) w =
    let r = attempt client (text_message chat_id body) w in
    let failed = attempt client (text_message chat_id (incomplete_notice noun sent total)) r.1 in
    let rest = send_from client chat_id noun total (suc sent) bodies r.1 in
    elim (client w.calls (text_message chat_id body)) [ ok u ↦ rest | raised e ↦ (ok tt, failed.1) ]

unfoldable pub send_all : TelegramClient → Text → Text → List Text → Exec Webhook (Unit {0})
send_all client chat_id noun messages = send_from client chat_id noun (length messages) 0 messages
