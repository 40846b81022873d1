-- ===== src/Resilience/Bounds.antt =====
-- Counts and waits of the retry loop, src/memory_rag/adapters/resilience.py.
use diary_memory_service.Base.{
  ℕ, zero, suc, ◌+◌, ◌≤◌, ◌<◌, ◌≡◌, refl, false, Option, none, some, List, [], All, length, nat_beq,
  inl, inr, Bool-cases, arith,
}
use diary_memory_service.Resilience.{
  OutcomeClass, is_non_retryable, Seconds, lesser, RetryPolicy, compute_backoff, Attempt, returned,
  raised, Run, server_or_computed, delay_of, resolve_delay, on_attempt, retry_loop,
  run_with_retries,
}

-- What the loop relies on of finite floats: `<` is an order, and a draw from [0, 1) makes no
-- wait longer.
pub record IsOrdered (t : Seconds) (draw : ℕ → t.F) : Type 0 where
  pub less_irrefl : (a : t.F) → t.less a a ≡ false
  pub not_less_trans : (a b c : t.F) → t.less b a ≡ false → t.less c b ≡ false → t.less c a ≡ false
  pub draw_shrinks : (n : ℕ) (a : t.F) → t.less a (t.times (draw n) a) ≡ false

module _ (t : Seconds) {A E : Type 0} (policy : RetryPolicy t) (classify : E → OutcomeClass)
    (extract : Option (E → Option t.F)) (draw : ℕ → t.F) (operation : ℕ → Attempt A E) where
  open t use {F, less}

  abbrev IsCounted : ℕ → Run F A E → Type 0
  IsCounted left r = (r.calls ≤ left) × (0 < left → r.calls ≡ suc (length r.sleeps))

  on_attempt-IsCounted :
      (left attempt : ℕ) (x : Attempt A E) (later : E → Run F A E)
      → attempt + suc left ≡ suc policy.max_attempts
      → (left ≡ 0 → (exc : E) → (later exc).sleeps ≡ [])
      → ((exc : E) → IsCounted left (later exc))
      → IsCounted (suc left) (on_attempt t policy classify extract draw operation attempt x later)
  on_attempt-IsCounted left attempt (returned a) later e h k = (omega arith, λ _. refl)
  on_attempt-IsCounted left attempt (raised exc) later e h k =
      ground (arith, k exc, λ (z : left ≡ 0). h z exc)

  retry_loop-no_sleeps :
      (attempt : ℕ) (exc : E)
      → (retry_loop t policy classify extract draw operation 0 attempt (some exc)).sleeps ≡ []
  unfolding retry_loop
  retry_loop-no_sleeps attempt exc = refl

  -- No more calls than rounds, and a wait between each two of them.
  retry_loop-IsCounted :
      (left attempt : ℕ) (last_error : Option E)
      → attempt + left ≡ suc policy.max_attempts
      → IsCounted left (retry_loop t policy classify extract draw operation left attempt last_error)
  unfolding retry_loop
  retry_loop-IsCounted zero attempt none e = (omega arith, λ p. absurd (omega arith))
  retry_loop-IsCounted zero attempt (some x) e = (omega arith, λ p. absurd (omega arith))
  retry_loop-IsCounted (suc left) attempt last_error e =
      on_attempt-IsCounted left attempt (operation attempt)
        (λ exc. retry_loop t policy classify extract draw operation left (suc attempt) (some exc)) e
        (λ z exc. rw z (retry_loop-no_sleeps (suc attempt) exc))
        (λ exc. retry_loop-IsCounted left (suc attempt) (some exc) (omega arith))

  abbrev WaitsCapped : List F → Type 0
  WaitsCapped = All (λ delay. less policy.backoff_cap_seconds delay ≡ false)

  module _ (laws : IsOrdered t draw) where
    lesser-capped : (a c : F) → less c (lesser t a c) ≡ false
    lesser-capped a c = elim (Bool-cases (less c a)) [
      | inl above ↦ rw above (laws.less_irrefl c)
      | inr below ↦ rw below below
    ]

    compute_backoff-capped :
        (attempt : ℕ)
        → less policy.backoff_cap_seconds (compute_backoff t attempt policy (draw attempt)) ≡ false
    unfolding compute_backoff
    compute_backoff-capped attempt =
        laws.not_less_trans _ _ _ (laws.draw_shrinks attempt _)
          (lesser-capped _ policy.backoff_cap_seconds)

    server_or_computed-capped :
        (server : Option F) (backoff c : F)
        → less c backoff ≡ false
        → less c (server_or_computed t server backoff c).0 ≡ false
    server_or_computed-capped none backoff c h = h
    server_or_computed-capped (some delay) backoff c h = lesser-capped delay c

    delay_of-capped :
        (f : Option (E → Option F)) (exc : E) (backoff c : F)
        → less c backoff ≡ false
        → less c (delay_of t f exc backoff c).0 ≡ false
    delay_of-capped none exc backoff c h = h
    delay_of-capped (some f) exc backoff c h = server_or_computed-capped (f exc) backoff c h

    resolve_delay-capped :
        (exc : E) (attempt : ℕ)
        → less policy.backoff_cap_seconds
            (resolve_delay t policy classify extract draw operation exc attempt).0
          ≡ false
    unfolding resolve_delay
    resolve_delay-capped exc attempt =
        delay_of-capped extract exc _ policy.backoff_cap_seconds (compute_backoff-capped attempt)

    on_attempt-capped :
        (attempt : ℕ) (x : Attempt A E) (later : E → Run F A E)
        → ((exc : E) → WaitsCapped (later exc).sleeps)
        → WaitsCapped (on_attempt t policy classify extract draw operation attempt x later).sleeps
    on_attempt-capped attempt (returned a) later h = tt
    on_attempt-capped attempt (raised exc) later h =
        elim (Bool-cases (is_non_retryable (classify exc))) [
          | inl fatal ↦ rw fatal tt
          | inr again ↦ elim (Bool-cases (nat_beq attempt policy.max_attempts)) [
            | inl final ↦ rw (again, final) (h exc)
            | inr more ↦ rw (again, more) (resolve_delay-capped exc attempt, h exc)
          ]
        ]

    retry_loop-capped :
        (left attempt : ℕ) (last_error : Option E)
        → WaitsCapped
            (retry_loop t policy classify extract draw operation left attempt last_error).sleeps
    unfolding retry_loop
    retry_loop-capped zero attempt none = tt
    retry_loop-capped zero attempt (some x) = tt
    retry_loop-capped (suc left) attempt last_error =
        on_attempt-capped attempt (operation attempt) _
          (λ exc. retry_loop-capped left (suc attempt) (some exc))

    -- Over ordered floats, with at least one attempt allowed, the provider is called at most `max_attempts` times, there is
    -- one wait fewer than there are calls, and no wait exceeds the cap.
    pub run_with_retries_bounded :
        0 < policy.max_attempts
        → let r = run_with_retries t policy classify extract draw operation in
          (r.calls ≤ policy.max_attempts)
          × (r.calls ≡ suc (length r.sleeps))
          × All (λ delay. less policy.backoff_cap_seconds delay ≡ false) r.sleeps
    unfolding run_with_retries
    run_with_retries_bounded pos =
        let counted = retry_loop-IsCounted policy.max_attempts 1 none (omega arith) in
        (counted.0, counted.1 pos, retry_loop-capped policy.max_attempts 1 none)
