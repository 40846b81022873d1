-- ===== src/Telegram/Effects.antt =====
-- Who may call the webhook, src/memory_rag/adapters/telegram/webhook.py.
use diary_memory_service.Base.{
  false, ◌&&◌, ◌≡◌, ◌≢◌, refl, ap, sym, Option, none, some, [], ◌==◌, eq_of_beq, text_eq,
  Bool-cases, inl, inr, ◌⊎◌,
}
use diary_memory_service.Base.Text.{Text, is_empty}
use diary_memory_service.Exec.{Exception, Result, raised}
use diary_memory_service.Dispatcher.{Dispatcher, DispatchDraws}
use diary_memory_service.Telegram.{compare_digest, is_ascii, verify_secret, telegram_webhook}
use diary_memory_service.Telegram.Schema.{TelegramUpdate}
use diary_memory_service.Telegram.Delivery.{TelegramClient, Webhook}

-- What a call does that refuses: it raises, and changes nothing.
abbrev pub Refused : {A : Type 0} → Webhook → Result A × Webhook → Type 0
Refused w r = (e : Exception) × (r ≡ (raised e, w))

verify_secret-other :
    (expected provided : Text) (w : Webhook)
    → (expected == provided) ≡ false
    → Refused w (verify_secret expected (some provided) w)
unfolding verify_secret compare_digest
verify_secret-other expected provided w other = elim (Bool-cases (is_empty expected)) [
  | inl blank ↦ rw blank (_, refl)
  | inr named ↦ elim (Bool-cases (is_ascii expected && is_ascii provided)) [
    | inl ascii ↦ rw (named, ascii, other) (_, refl)
    | inr wide ↦ rw (named, wide) (_, refl)
  ]
]

verify_secret-Refused :
    (expected : Text) (provided : Option Text) (w : Webhook)
    → (expected ≡ []) ⊎ (provided ≢ some expected)
    → Refused w (verify_secret expected provided w)
unfolding verify_secret compare_digest
verify_secret-Refused expected none w h = (_, refl)
verify_secret-Refused expected (some provided) w (inl blank) = rw blank (_, refl)
verify_secret-Refused expected (some provided) w (inr h) =
    elim (Bool-cases (expected == provided)) [
      | inl same ↦ absurd (h (ap some (sym (eq_of_beq expected provided same))))
      | inr other ↦ verify_secret-other expected provided w other
    ]

-- Where no secret is configured, or the request does not carry it, the webhook raises, and changes
-- nothing: no message is stored, no cache is written and nothing is sent.
pub telegram_webhook_refuses :
    (d : Dispatcher) (client : TelegramClient) (draws : DispatchDraws) (expected : Text)
    (provided : Option Text) (update : TelegramUpdate) (w : Webhook)
    → (expected ≡ []) ⊎ (provided ≢ some expected)
    → Refused w (telegram_webhook d client draws expected provided update w)
unfolding telegram_webhook
telegram_webhook_refuses d client draws expected provided update w h =
    let (e, refused) = verify_secret-Refused expected provided w h in rw refused (e, refl)
