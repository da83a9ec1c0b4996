-- ===== src/Common/Loop.antt =====
-- Counted loops: `for (k = 0; k < n; k++) s = body k s`.
use Prim.Native.Nat.{ℕ, zero, suc}

unfoldable pub for_below {ℓ} : {S : Type ℓ} → ℕ → (ℕ → S → S) → S → S
for_below zero body start = start
for_below (suc last) body start = body last (for_below last body start)

-- What holds at the start, and is kept by each round, holds after all of them.
pub for_below_keeps {ℓ κ} :
    {S : Type ℓ} (Holds : ℕ → S → Type κ) {body : ℕ → S → S} {start : S}
    → Holds 0 start
    → ((k : ℕ) (s : S) → Holds k s → Holds (suc k) (body k s))
    → (n : ℕ) → Holds n (for_below n body start)
unfolding for_below
for_below_keeps Holds first round zero = first
for_below_keeps Holds first round (suc last) = round last _ (for_below_keeps Holds first round last)
