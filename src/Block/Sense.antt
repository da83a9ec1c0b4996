-- ===== src/Block/Sense.antt =====
-- How a function block of src/calc.c reads its inputs and shows its outputs in the rung.
use classicladder.Common.{ℤ, ℕ, Bool}
use classicladder.State.{Plc}
use classicladder.Rung.{elem_at, put_elem, left_state}

-- `UpdateRung->Element[x][y].DynamicInput = StateOnLeft(x,y,UpdateRung)`, and its value
unfoldable pub sense : Plc → ℤ → ℤ → ℕ → Plc × Bool
unfolding elem_at put_elem left_state
sense s n x y =
    let state = left_state s n x y in
    (put_elem s n x y (record (elem_at s n x y) { dynamic_input = state }), state)

-- `UpdateRung->Element[x][y].DynamicOutput = state`
unfoldable pub show_output : Plc → ℤ → ℤ → ℕ → Bool → Plc
unfolding elem_at put_elem
show_output s n x y state = put_elem s n x y (record (elem_at s n x y) { dynamic_output = state })
