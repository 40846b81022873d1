-- ===== src/Base/Decimal.antt =====
-- The decimal text of a number, `str(n)`, and how its length grows.
use Prim.Native.Nat.{ℕ, zero, suc, ◌+◌, ◌/◌, ◌%◌, ◌≤◌, ◌<◌}
use mathlib.Core.List.{List, [], ◌∷◌, ◌++◌}
use native.Mathlib.Omega.{arith}
use diary_memory_service.Base.Tests.{ltb, if◌then◌else◌}
use diary_memory_service.Base.Lists.{length, length-append}

-- `n + 1` rounds are enough for n.
unfoldable pub decimal_rounds : ℕ → ℕ → List ℕ
decimal_rounds zero n = []
decimal_rounds (suc f) n =
    let front = decimal_rounds f (n / 10) in
    if ltb n 10 then (n + b'0') ∷ [] else front ++ (n % 10 + b'0') ∷ []

unfoldable pub decimal : ℕ → List ℕ
decimal n = decimal_rounds (suc n) n

decimal_rounds_pos : (f n : ℕ) → 0 < length (decimal_rounds (suc f) n)
unfolding decimal_rounds
decimal_rounds_pos f n =
    ground (arith, length-append (decimal_rounds f (n / 10)) ((n % 10 + b'0') ∷ []))

decimal_rounds_mono :
    (f g m n : ℕ)
    → m < f
    → n < g
    → m ≤ n
    → length (decimal_rounds f m) ≤ length (decimal_rounds g n)
unfolding decimal_rounds
decimal_rounds_mono zero g m n hf hg h = absurd (omega arith)
decimal_rounds_mono (suc f) zero m n hf hg h = absurd (omega arith)
decimal_rounds_mono (suc f) (suc g) m n hf hg h = ground (
  arith,
  decimal_rounds_mono f g (m / 10) (n / 10),
  length-append (decimal_rounds f (m / 10)) ((m % 10 + b'0') ∷ []),
  length-append (decimal_rounds g (n / 10)) ((n % 10 + b'0') ∷ []),
)

pub length-decimal_mono : (m n : ℕ) → m ≤ n → length (decimal m) ≤ length (decimal n)
unfolding decimal
length-decimal_mono m n h = decimal_rounds_mono (suc m) (suc n) m n (omega arith) (omega arith) h
