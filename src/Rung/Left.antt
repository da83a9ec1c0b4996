-- ===== src/Rung/Left.antt =====
-- src/calc.c: StateOnLeft, whether power reaches the left side of a cell.
use classicladder.Common.{ℤ, ℕ, zero, suc, pos, negsuc, ◌-◌, ltb, if◌then◌else◌, Bool, true, false}
use classicladder.State.{Element, Rung, rung_height}

-- Every loop below stands at column `x + 1`, and reads the outputs of column `x`.
module _ (g : ℤ → ℕ → Element) (x : ℕ) where
  abbrev pub out : ℕ → Bool
  out y = (g (pos x) y).dynamic_output

  abbrev pub top : ℕ → Bool
  top y = (g (pos (suc x)) y).connected_with_top

  -- `while( (PosY>0) && StillConnected )`; the number is PosY
  unfoldable pub up_loop : ℕ → Bool → Bool → Bool
  up_loop zero still state = state
  up_loop (suc p) still state =
      let rest = up_loop p (if top p then still else false) (if out p then true else state) in
      if still then rest else state

  -- `while( (PosY<RUNG_HEIGHT) && StillConnected )`; the first number is RUNG_HEIGHT-PosY
  unfoldable pub down_loop : ℕ → ℕ → Bool → Bool → Bool
  down_loop zero p still state = state
  down_loop (suc k) p still state =
      let rest =
        down_loop k (suc p)
          (if ltb (suc p) rung_height then if top (suc p) then still else false else still)
          (if out p then true else state) in
      if still then rest else state

  unfoldable pub left_of_column : ℕ → Bool
  unfolding up_loop down_loop
  left_of_column y =
      let direct = if out y then true else false in
      let up = up_loop y (top y) direct in
      if ltb y (rung_height - 1)
      then down_loop (rung_height - suc y) (suc y) (top (suc y)) up
      else up

unfoldable pub state_on_left : ℤ → ℕ → Rung → Bool
unfolding left_of_column
state_on_left (negsuc x) y r = false
state_on_left (pos zero) y r = true
state_on_left (pos (suc x)) y r = left_of_column r.element x y
