-- ===== src/Common/Table.antt =====
-- Facts about all the values of a byte, by evaluation.
use Prim.Native.Nat.{ℕ, ◌<◌}
use mathlib.Core.Path.{◌≡◌}
use mathlib.Core.Bool.{Bool, true, ◌&&◌}
use native.Mathlib.Omega.{arith}
use classicladder.Common.Loop.{for_below, for_below_keeps}

-- `test` accepts every number below `bound`
unfoldable pub is_accepted : ℕ → (ℕ → Bool) → Bool
unfolding for_below
is_accepted bound test = for_below bound (λ k so_far. so_far && test k) true

pub is_accepted_sound :
    (bound : ℕ) (test : ℕ → Bool)
    → is_accepted bound test ≡ true
    → (k : ℕ) → k < bound
    → test k ≡ true
unfolding is_accepted
is_accepted_sound bound test =
    for_below_keeps (λ n so_far. so_far ≡ true → (k : ℕ) → k < n → test k ≡ true)
      (λ accepted k below. absurd (omega arith))
      (λ n so_far earlier accepted k below. ground (arith, earlier _ k)) bound
