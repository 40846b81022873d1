-- ===== src/Resilience.antt =====
-- Bounded retries, src/memory_rag/adapters/resilience.py: the backoff, the choice of the wait and the
-- loop. Floats, the exceptions with their classification, the provider and the random draws are
-- parameters.
pub mod Bounds
pub mod Outcome
use diary_memory_service.Base.{
  ℕ, zero, suc, ◌+◌, ◌-◌, ◌≡◌, Bool, true, false, Option, none, some, List, [], ◌∷◌, nat_beq,
  if◌then◌else◌,
}

-- How one provider-call attempt ended.
pub data OutcomeClass : Type 0 where
  success retryable_failure non_retryable_failure : OutcomeClass

abbrev pub is_non_retryable : OutcomeClass → Bool
is_non_retryable non_retryable_failure = true
is_non_retryable _ = false

-- Finite floats: `<`, `*` and the powers of two.
pub record Seconds : Type 1 where
  pub F : Type 0
  pub less : F → F → Bool
  pub times : F → F → F
  pub two_to_the : ℕ → F

module _ (t : Seconds) where
  open t use {F, less, times, two_to_the}

  -- `min(a, b)`
  abbrev pub lesser : F → F → F
  lesser a b = if less b a then b else a

  pub record RetryPolicy : Type 0 where
    pub timeout_seconds : F
    pub max_attempts : ℕ
    pub backoff_base_seconds : F
    pub backoff_cap_seconds : F

  -- The exponential term of the 1-based failed attempt, clamped, times a draw from [0, 1).
  unfoldable pub compute_backoff : ℕ → RetryPolicy → F → F
  compute_backoff attempt policy draw = times draw (
      lesser (times policy.backoff_base_seconds (two_to_the (attempt - 1)))
        policy.backoff_cap_seconds)

  pub data DelaySource : Type 0 where
    retry_after computed : DelaySource

  abbrev pub server_or_computed : Option F → F → F → F × DelaySource
  server_or_computed none backoff cap_seconds = (backoff, computed)
  server_or_computed (some server_delay) backoff cap_seconds =
      (lesser server_delay cap_seconds, retry_after)

  -- `retry_after` is the caller's extractor, or None.
  abbrev pub delay_of : {E : Type 0} → Option (E → Option F) → E → F → F → F × DelaySource
  delay_of none exc backoff cap_seconds = (backoff, computed)
  delay_of (some extract) exc backoff cap_seconds =
      server_or_computed (extract exc) backoff cap_seconds

-- What an attempt does: it returns, or raises.
pub data Attempt (A E : Type 0) : Type 0 where
  returned : A → Attempt A E
  raised : E → Attempt A E

-- How the call ends; `no_attempt` is the assertion that some error was bound.
pub data Ended (A E : Type 0) : Type 0 where
  value : A → Ended A E
  reraised : E → Ended A E
  no_attempt : Ended A E

-- The outcome with what the loop did: the calls of the provider, the waits in their order, and
-- whether `provider.exhausted` was logged.
pub record Run (F A E : Type 0) : Type 0 where
  pub ended : Ended A E
  pub calls : ℕ
  pub sleeps : List F
  pub exhausted : Bool

module _ (t : Seconds) {A E : Type 0} (policy : RetryPolicy t) (classify : E → OutcomeClass)
    (extract : Option (E → Option t.F)) (draw : ℕ → t.F) (operation : ℕ → Attempt A E) where
  open t use {F}

  -- A clamped `Retry-After`, or the computed backoff.
  unfoldable pub resolve_delay : E → ℕ → F × DelaySource t
  resolve_delay exc attempt =
      delay_of t extract exc (compute_backoff t attempt policy (draw attempt))
        policy.backoff_cap_seconds

  -- One more call, and one more wait, in front of the rest of the loop.
  abbrev pub called : Run F A E → Run F A E
  called r = record r { calls = suc r.calls }

  abbrev pub slept : F → Run F A E → Run F A E
  slept delay r = record r { calls = suc r.calls; sleeps = delay ∷ r.sleeps }

  -- The branches on a failure; `later` is the rest of the loop.
  abbrev pub on_failure : ℕ → E → Run F A E → Run F A E
  on_failure attempt exc later =
      if is_non_retryable (classify exc)
      then record { ended = reraised exc; calls = 1; sleeps = []; exhausted = false }
      else if nat_beq attempt policy.max_attempts
      then called later
      else slept (resolve_delay exc attempt).0 later

  abbrev pub after_loop : Option E → Run F A E
  after_loop none = record { ended = no_attempt; calls = 0; sleeps = []; exhausted = false }
  after_loop (some last_error) = record {
    ended = reraised last_error;
    calls = 0;
    sleeps = [];
    exhausted = true;
  }

  abbrev pub on_attempt : ℕ → Attempt A E → (E → Run F A E) → Run F A E
  on_attempt attempt (returned a) later = record {
    ended = value a;
    calls = 1;
    sleeps = [];
    exhausted = false;
  }
  on_attempt attempt (raised exc) later = on_failure attempt exc (later exc)

  -- The rounds that are left of `for attempt in range(1, max_attempts + 1)`.
  unfoldable pub retry_loop : ℕ → ℕ → Option E → Run F A E
  retry_loop zero attempt last_error = after_loop last_error
  retry_loop (suc left) attempt last_error =
      on_attempt attempt (operation attempt) (λ exc. retry_loop left (suc attempt) (some exc))

  unfoldable pub run_with_retries : Run F A E
  run_with_retries = retry_loop policy.max_attempts 1 none
