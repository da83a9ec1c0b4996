-- ===== src/Examples/Registers.antt =====
-- Registers: src/calc.c.
use classicladder.Common.{
  pos, ◌≡◌, refl, true, false, [], ◌∷◌, arith, update, ◌+ℤ◌, ◌*ℤ◌, to_int, if◌then◌else◌,
}
use classicladder.State.{RegisterMode, Plc}
use classicladder.Block.{register_step, list_at}
use classicladder.Block.Overrun.{scan_with, register_step_overruns}
use classicladder.Block.Stack.{IsStack, pushed, out_edge, tail, head_or, register_step-IsStack}
use classicladder.Examples.Blank.{blank, blank_register}

-- Register 1 holds 10 and, on top of it, 20, and both of its inputs have just come on.
abbrev two_saved : Plc
two_saved = record blank {
  register_array =
      update (λ i. blank_register) (pos 1)
        (record blank_register {
          register_mode = RegisterMode.lifo;
          value_in = pos 30;
          input_in = true;
          input_out = true;
          nbr_values_saved = pos 2;
          first_value_index = pos 2;
        });
  registers_lists_datas = update (update (λ i. pos 0) (pos 3) (pos 10)) (pos 4) (pos 20);
}

two_saved-IsStack : IsStack two_saved (pos 1) (pos 20 ∷ pos 10 ∷ [])
unfolding update ◌+ℤ◌ ◌*ℤ◌ to_int
two_saved-IsStack = record {
  mode = refl;
  saved = refl;
  first = refl;
  fits = omega arith;
  small = omega arith;
  held = refl;
}

register_step-IsStack_example :
    let r = two_saved.register_array (pos 1) in
    let l' = pushed two_saved r (pos 20 ∷ pos 10 ∷ []) in
    IsStack
      (register_step two_saved (pos 1))
      (pos 1)
      (if r.input_reset then [] else if out_edge r then tail l' else l')
    × (((register_step two_saved (pos 1)).register_array (pos 1)).value_out ≡ (
        if r.input_reset
        then pos 0
        else if out_edge r
        then head_or l' r.value_out
        else r.value_out))
register_step-IsStack_example =
    register_step-IsStack two_saved (pos 1) (pos 20 ∷ pos 10 ∷ []) two_saved-IsStack

-- Register 0, a queue, holds one value, in the second of its 3 cells: the next one goes to the third.
abbrev at_last_cell : Plc
at_last_cell = record blank {
  register_array =
      update (λ i. blank_register) (pos 0)
        (record blank_register {
          nbr_values_saved = pos 1;
          first_value_index = pos 2;
          latest_value_index = pos 1;
        });
}

register_step_overruns_example :
    let s1 = scan_with at_last_cell (pos 0) true (pos 30) in
    let s3 = scan_with (scan_with s1 (pos 0) false (pos 0)) (pos 0) true (pos 40) in
    (s1.registers_lists_datas (list_at at_last_cell (pos 0) (pos 2)) ≡ pos 30)
    × (s3.registers_lists_datas (list_at at_last_cell (pos 1) (pos 0)) ≡ pos 40)
unfolding update
register_step_overruns_example =
    register_step_overruns at_last_cell 0 2 1 refl (omega arith) (pos 30) (pos 0) (pos 40)
      (record { next_index = refl; count = refl; last_input = refl }) (omega arith)
