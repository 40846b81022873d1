-- ===== src/Tests/Resilience.antt =====
-- The retry loop with whole seconds for floats, on a provider that fails twice and then answers.
use diary_memory_service.Base.{ℕ, ◌≤◌, ◌≡◌, false, Option, some, suc, zero, length, All, ltb, arith}
use diary_memory_service.Resilience.{
  OutcomeClass, retryable_failure, RetryPolicy, Attempt, returned, raised, run_with_retries,
}
use diary_memory_service.Samples.Providers.{whole_seconds}
use diary_memory_service.Resilience.Bounds.{IsOrdered, run_with_retries_bounded}

abbrev policy : RetryPolicy whole_seconds
policy = record {
  timeout_seconds = 9;
  max_attempts = 3;
  backoff_base_seconds = 2;
  backoff_cap_seconds = 3;
}

abbrev retryable : ℕ → OutcomeClass
retryable e = retryable_failure

abbrev no_draw : ℕ → ℕ
no_draw n = 0

abbrev server_says : Option (ℕ → Option ℕ)
server_says = some (λ e. some e)

abbrev flaky : ℕ → Attempt ℕ ℕ
flaky zero = raised 0
flaky (suc zero) = raised 1
flaky (suc (suc zero)) = raised 8
flaky (suc (suc (suc n))) = returned n

whole_seconds-IsOrdered : IsOrdered whole_seconds no_draw
whole_seconds-IsOrdered = record {
  less_irrefl = λ a. ground arith;
  not_less_trans = λ a b c h k. ground arith;
  draw_shrinks = λ n a. ground arith;
}

run_with_retries_bounded_example :
    let r = run_with_retries whole_seconds policy retryable server_says no_draw flaky in
    (r.calls ≤ 3) × (r.calls ≡ suc (length r.sleeps)) × All (λ delay. ltb 3 delay ≡ false) r.sleeps
run_with_retries_bounded_example =
    run_with_retries_bounded whole_seconds policy retryable server_says no_draw flaky
      whole_seconds-IsOrdered (omega arith)
