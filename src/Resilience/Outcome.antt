-- ===== src/Resilience/Outcome.antt =====
-- The outcome of the retry loop, src/memory_rag/adapters/resilience.py.
use diary_memory_service.Base.{ℕ, zero, suc, Option, none, some, List, [], ◌∷◌, if◌then◌else◌}
use diary_memory_service.Resilience.{
  OutcomeClass, is_non_retryable, Seconds, RetryPolicy, Attempt, returned, raised, Ended, value,
  reraised, no_attempt,
}

-- The attempts number first, first + 1, ...
abbrev pub attempts : {A E : Type 0} → (ℕ → Attempt A E) → ℕ → ℕ → List (Attempt A E)
attempts operation zero first = []
attempts operation (suc n) first = operation first ∷ attempts operation n (suc first)

module _ {A E : Type 0} (classify : E → OutcomeClass) where
  -- The first attempt that returns or fails for good ends the call; otherwise the last failure does.
  abbrev pub decided : Ended A E → List (Attempt A E) → Ended A E
  decided so_far [] = so_far
  decided so_far (returned a ∷ xs) = value a
  decided so_far (raised exc ∷ xs) =
      if is_non_retryable (classify exc) then reraised exc else decided (reraised exc) xs

module _ (t : Seconds) {A E : Type 0} (policy : RetryPolicy t) (classify : E → OutcomeClass)
    (extract : Option (E → Option t.F)) (draw : ℕ → t.F) (operation : ℕ → Attempt A E) where
  open t use {F}

  abbrev last_ended : Option E → Ended A E
  last_ended none = no_attempt
  last_ended (some exc) = reraised exc
