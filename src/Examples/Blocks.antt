-- ===== src/Examples/Blocks.antt =====
-- Rungs and function blocks: src/calc.c.
use classicladder.Common.{
  ltb, leb, ℕ, suc, pos, ◌-◌, ◌*◌, ◌≡◌, ◌↔◌, refl, Bool, true, false, arith, sub_ℕ, if◌then◌else◌,
  ◌==◌,
}
use classicladder.State.{Rung, Monostable, Counter, Plc}
use classicladder.Rung.{elem_at, state_on_left}
use classicladder.Rung.Node.{IsPowered, state_on_left-IsPowered}
use classicladder.Block.{counter_step, calc_type_counter}
use classicladder.Block.Count.{counted, counter_step-counted}
use classicladder.Block.Wiring.{with_inputs, with_results, calc_type_counter_wiring}
use classicladder.Block.Delay.{on_delay, timer_cycles, timer_on_delay}
use classicladder.Block.Pulse.{monostable_cycles, monostable_pulse, monostable_single_pulse}
use classicladder.Scan.{free_element}
use classicladder.Examples.Blank.{
  blank, blank_rung, blank_counter, blank_timer_iec, blank_monostable,
}

-- Line 0 of column 0 is on, and line 2 of column 1 is joined with it.
abbrev powered_rung : Rung
powered_rung = record blank_rung {
  element = λ x y. record free_element { dynamic_output = y == 0; connected_with_top = true };
}

state_on_left-IsPowered_example :
    (state_on_left (pos (suc 0)) 2 powered_rung ≡ true) ↔ IsPowered powered_rung.element 0 2
state_on_left-IsPowered_example = state_on_left-IsPowered powered_rung 0 2 (omega arith)

state_on_left_runs : state_on_left (pos 1) 2 powered_rung ≡ true
unfolding state_on_left
state_on_left_runs = refl

-- a counter whose count-up input rises at 9999
abbrev rising : Counter
rising = record blank_counter { input_count_up = true }

counter_step-counted_example :
    ((counter_step (pos 3) (rising, pos 9999)).1 ≡ pos (counted rising 3 9999))
    × ((counter_step (pos 3) (rising, pos 9999)).0.input_count_up_bak ≡ true)
    × ((counter_step (pos 3) (rising, pos 9999)).0.input_count_down_bak ≡ false)
counter_step-counted_example = counter_step-counted rising 3 9999 (omega arith)

abbrev at_counter : Plc
at_counter = record blank { rung_array = λ i. powered_rung }

calc_type_counter_wiring_example :
    let k = (elem_at at_counter (pos 0) (pos 2) 1).var_num in
    let c = with_inputs at_counter (pos 0) (pos (2 - 1)) 1 (at_counter.counter_array k) in
    let (c', v) = counter_step c.preset (c, c.value) in
    (calc_type_counter at_counter (pos 0) 2 1).counter_array k ≡ with_results c.preset c' v
calc_type_counter_wiring_example = calc_type_counter_wiring at_counter (pos 0) 2 1 (omega arith)

-- 3 units of 100 ms, scanned every 30 ms: the output is on after 11 scans, and not after 10
timer_on_delay_example :
    let output =
      (timer_cycles (suc 10) (pos 30) (on_delay blank_timer_iec 3 100 0 0 (pos 0))).output in
    output ≡ pos (if leb (3 * 100) (10 * 30) then 1 else 0)
timer_on_delay_example =
    timer_on_delay 3 100 30 (omega arith) (omega arith) (omega arith) blank_timer_iec (omega arith)
      10

abbrev blinking : ℕ → Bool
blinking n = n == 0

abbrev idle : Monostable
idle = record blank_monostable { preset = pos 100 }

monostable_pulse_example :
    let m' = monostable_cycles (suc 3) (pos 30) blinking idle in
    (m'.output_running ≡ true) × (m'.value ≡ sub_ℕ 100 (suc 3 * 30))
monostable_pulse_example =
    monostable_pulse 100 30 blinking idle (omega arith) (omega arith) (omega arith) refl refl refl
      refl 3 (omega arith)

monostable_single_pulse_example :
    let m' = monostable_cycles (suc 9) (pos 30) blinking idle in
    m'.output_running ≡ ltb (9 * 30) 100
monostable_single_pulse_example =
    monostable_single_pulse 100 30 blinking idle (omega arith) (omega arith) (omega arith) refl refl
      refl refl (λ k. omega arith) 9
