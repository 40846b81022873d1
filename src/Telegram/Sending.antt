-- ===== src/Telegram/Sending.antt =====
-- What the packed replies of adapters/telegram/webhook.py reach the chat as.
use diary_memory_service.Base.{
  ℕ, suc, ◌+◌, ◌≤◌, ◌<◌, ◌≡◌, ◌≢◌, refl, sym, ap, ◌∙◌, ◌⊎◌, inl, inr, List, [], ◌∷◌, ◌++◌, map,
  take, drop, length, append_assoc, append-nil, All, All-map, arith,
}
use diary_memory_service.Base.Text.{Text}
use diary_memory_service.Base.Decimal.{decimal, decimal_rounds, length-decimal_mono}
use diary_memory_service.Exec.{Exception, Result, ok, raised}
use diary_memory_service.Exec.Laws.{Result-cases}
use diary_memory_service.Packing.{pack_drafts_into_messages, footer_overhead, part_footer}
use diary_memory_service.Packing.Split.{footer_overhead_lem}
use diary_memory_service.Packing.Bounds.{pack_within_cap}
use diary_memory_service.Telegram.{deliver_blocks, default_cap, default_separator}
use diary_memory_service.Telegram.Schema.{empty_body}
use diary_memory_service.Telegram.Delivery.{
  Delivery, text_message, TelegramClient, Webhook, attempt, incomplete_notice, send_from, send_all,
}

suc-shift : (m n : ℕ) → suc m + n ≡ m + suc n
suc-shift m n = omega arith

add_zero : (m : ℕ) → m + 0 ≡ m
add_zero m = omega arith

module _ (client : TelegramClient) (chat_id noun : Text) where
  abbrev as_message : Text → Delivery
  as_message body = text_message chat_id body

  abbrev notice_at : ℕ → ℕ → Delivery
  notice_at total sent = text_message chat_id (incomplete_notice noun sent total)

  -- What a last call leaves in the chat.
  abbrev pub IsLast : Result (Unit {0}) → Delivery → List Delivery → Type 0
  IsLast (ok u) d tail = tail ≡ d ∷ []
  IsLast (raised e) d tail = tail ≡ []

  -- After the first `k` messages, they are all; or the client raised on the next one, and the call
  -- after it was the notice that says how many were sent.
  abbrev IsTail : ℕ → ℕ → List Text → ℕ → ℕ → List Delivery → Type 0
  IsTail total sent bodies calls k tail =
      ((k ≡ length bodies) × (tail ≡ []))
      ⊎ ((body : Text) × (rest : List Text) × (e : Exception) × (drop k bodies ≡ body ∷ rest)
          × (client (calls + k) (as_message body) ≡ raised e)
          × IsLast (client (suc (calls + k)) (notice_at total (sent + k)))
              (notice_at total (sent + k)) tail)

  abbrev pub SentPrefix : ℕ → ℕ → List Text → Webhook → Webhook → Type 0
  SentPrefix total sent bodies w t =
      (k : ℕ) × (tail : List Delivery) × (k ≤ length bodies)
      × (t.state ≡ w.state)
      × (t.delivered ≡ w.delivered ++ (map as_message (take k bodies) ++ tail))
      × IsTail total sent bodies w.calls k tail

  -- The state after a call that returned.
  abbrev after_sent : Text → Webhook → Webhook
  after_sent body w = record w {
    calls = suc w.calls;
    delivered = w.delivered ++ as_message body ∷ [];
  }

  continued :
      (total sent : ℕ) (body : Text) (bodies : List Text) (w t : Webhook)
      → SentPrefix total (suc sent) bodies (after_sent body w) t
      → SentPrefix total sent (body ∷ bodies) w t
  continued total sent body bodies w t (k, tail, few, same, sent_eq, end) = (
    suc k,
    tail,
    omega arith,
    same,
    sent_eq ∙ append_assoc w.delivered (as_message body ∷ []) _,
    elim end [
      | inl (all, done) ↦ inl (ap suc all, done)
      | inr (next, rest, e, left, failed, last) ↦ inr (
        next,
        rest,
        e,
        left,
        rw (sym (suc-shift w.calls k)) failed,
        rw (sym (suc-shift w.calls k), sym (suc-shift sent k)) last,
      )
    ],
  )

  stopped :
      (total sent : ℕ) (body : Text) (bodies : List Text) (w : Webhook) (x : Exception)
      → client w.calls (as_message body) ≡ raised x
      → SentPrefix total sent
          (body ∷ bodies)
          w
          (attempt client (notice_at total sent) (record w { calls = suc w.calls })).1
  unfolding attempt
  stopped total sent body bodies w x failed =
      elim (Result-cases (client (suc w.calls) (notice_at total sent))) [
        | inl (u, e) ↦ rw e (
          0,
          notice_at total sent ∷ [],
          omega arith,
          refl,
          refl,
          inr (
            body,
            bodies,
            x,
            refl,
            rw (add_zero w.calls) failed,
            rw (add_zero w.calls, add_zero sent, e) refl,
          ),
        )
        | inr (y, e) ↦ rw e (
          0,
          [],
          omega arith,
          refl,
          sym (append-nil w.delivered),
          inr (
            body,
            bodies,
            x,
            refl,
            rw (add_zero w.calls) failed,
            rw (add_zero w.calls, add_zero sent, e) refl,
          ),
        )
      ]

  attempt-ok :
      (body : Text) (w : Webhook) (u : Unit {0})
      → client w.calls (as_message body) ≡ ok u
      → (attempt client (as_message body) w).1 ≡ after_sent body w
  unfolding attempt
  attempt-ok body w u e = rw e

  attempt-raised :
      (body : Text) (w : Webhook) (x : Exception)
      → client w.calls (as_message body) ≡ raised x
      → (attempt client (as_message body) w).1 ≡ record w { calls = suc w.calls }
  unfolding attempt
  attempt-raised body w x e = rw e

  send_from-sent :
      (total sent : ℕ) (body : Text) (bodies : List Text) (w : Webhook) (u : Unit {0})
      → client w.calls (as_message body) ≡ ok u
      → send_from client chat_id noun total sent (body ∷ bodies) w
        ≡ send_from client chat_id noun total (suc sent) bodies (after_sent body w)
  unfolding send_from
  send_from-sent total sent body bodies w u e = rw (send_from, e, attempt-ok body w u e)

  send_from-stopped :
      (total sent : ℕ) (body : Text) (bodies : List Text) (w : Webhook) (x : Exception)
      → client w.calls (as_message body) ≡ raised x
      → send_from client chat_id noun total sent (body ∷ bodies) w
        ≡ (ok tt, (attempt client (notice_at total sent) (record w { calls = suc w.calls })).1)
  unfolding send_from
  send_from-stopped total sent body bodies w x e = rw (send_from, e, attempt-raised body w x e)

  send_from-SentPrefix :
      (total sent : ℕ) (bodies : List Text) (w : Webhook)
      → SentPrefix total sent bodies w (send_from client chat_id noun total sent bodies w).1
  unfolding send_from
  send_from-SentPrefix total sent [] w =
      (0, [], omega arith, refl, sym (append-nil w.delivered), inl (refl, refl))
  send_from-SentPrefix total sent (body ∷ bodies) w =
      elim (Result-cases (client w.calls (as_message body))) [
        | inl (u, e) ↦ rw (send_from-sent total sent body bodies w u e) (
            continued total sent body bodies w
              (send_from client chat_id noun total (suc sent) bodies (after_sent body w)).1
              (send_from-SentPrefix total (suc sent) bodies (after_sent body w)))
        | inr (x, e) ↦
            rw (send_from-stopped total sent body bodies w x e)
              (stopped total sent body bodies w x e)
      ]

  send_from-ok :
      (total sent : ℕ) (bodies : List Text) (w : Webhook)
      → (send_from client chat_id noun total sent bodies w).0 ≡ ok tt
  unfolding send_from
  send_from-ok total sent [] w = refl
  send_from-ok total sent (body ∷ bodies) w =
      elim (Result-cases (client w.calls (as_message body))) [
        | inl (u, e) ↦
            rw (send_from-sent total sent body bodies w u e)
              (send_from-ok total (suc sent) bodies _)
        | inr (x, e) ↦ rw (send_from-stopped total sent body bodies w x e)
      ]

default_footer_room : (n : ℕ) → n ≤ 1000000000 → footer_overhead default_separator n < default_cap
unfolding footer_overhead part_footer decimal decimal_rounds
default_footer_room n h =
    omega (arith, footer_overhead_lem default_separator n, length-decimal_mono n 1000000000 h)

module _ (client : TelegramClient) (chat_id noun : Text) where
  -- For a header that fits the cap of 4096 characters and blocks of at most 10^9, packing succeeds with
  -- at least one message and each within the cap, and the delivery returns an empty body whatever the
  -- client does; the chat gets the packed messages in order, all of them or those before the first one
  -- that the client raises on, and after that, if its call returns, one notice with the number sent.
  -- The service's state does not change.
  pub deliver_blocks-sends :
      (header : Text) (blocks : List Text) (w : Webhook)
      → length header ≤ default_cap
      → All (λ block. length block ≤ 1000000000) blocks
      → (messages : List Text) × (pack_drafts_into_messages header blocks default_cap
            default_separator
          ≡ ok messages)
        × (messages ≢ [])
        × All (λ message. length message ≤ default_cap) messages
        × ((deliver_blocks client chat_id noun header blocks w).0 ≡ ok empty_body)
        × SentPrefix client chat_id noun
            (length messages)
            0
            messages
            w
            (deliver_blocks client chat_id noun header blocks w).1
  unfolding deliver_blocks send_all
  deliver_blocks-sends header blocks w fits small =
      let (messages, packed, some_message, within) =
        pack_within_cap header blocks default_cap default_separator refl (omega arith) fits
          (All-map _ _ blocks (λ block h. default_footer_room (length block) h) small) in
      (
        messages,
        packed,
        some_message,
        within,
        rw (packed, send_from-ok client chat_id noun (length messages) 0 messages w),
        rw (packed, send_from-ok client chat_id noun (length messages) 0 messages w)
            (send_from-SentPrefix client chat_id noun (length messages) 0 messages w),
      )
