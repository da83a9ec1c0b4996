-- ===== src/Block/TimerWiring.antt =====
-- How the IEC timer blocks of src/calc.c are wired.
use classicladder.Common.{
  ℤ, ℕ, pos, ◌-◌, ◌<◌, ◌==◌, ◌≡◌, ◌∙◌, ap, false, arith, update_self, ==ℤ_refl,
}
use classicladder.State.{TimerIec, Plc}
use classicladder.Vars.{read_var}
use classicladder.Rung.{elem_at, put_elem, left_state}
use classicladder.Block.TimerIec.{
  Timing, timer_iec_step, calc_type_timer_iec, sense_timer_iec, finish_timer_iec,
}
use classicladder.Block.Delay.{publish, timer_cycle}

sense_timer_iec_lem :
    (s : Plc) (n x : ℤ) (y : ℕ) (k : ℤ)
    → (sense_timer_iec s n x y k).new_timer_array k
      ≡ record (s.new_timer_array k) { input = left_state s n x y }
unfolding sense_timer_iec put_elem
sense_timer_iec_lem s n x y k = update_self s.new_timer_array k _

finish_timer_iec_lem :
    (s : Plc) (n : ℤ) (x y : ℕ) (k preset : ℤ) (w : Timing)
    → (finish_timer_iec s n x y k preset w).new_timer_array k ≡ publish preset w
unfolding finish_timer_iec put_elem
finish_timer_iec_lem s n x y k preset w = simp (==ℤ_refl k)

-- An IEC timer block past the first column takes its input from the power left of the column before
-- it, and its timer makes one `timer_cycle` at the period of the scan.
pub calc_type_timer_iec_wiring :
    (s : Plc) (n : ℤ) (x y : ℕ)
    → 0 < x
    → let k = (elem_at s n (pos x) y).var_num in
      (calc_type_timer_iec s n x y).new_timer_array k
      ≡ timer_cycle s.period_milli_secs_task_logic
          (record (s.new_timer_array k) { input = left_state s n (pos (x - 1)) y })
unfolding calc_type_timer_iec read_var timer_cycle
calc_type_timer_iec_wiring s n x y past =
    let k = (elem_at s n (pos x) y).var_num in
    let nz : (x == 0) ≡ false = ground arith in
    rw nz (
      finish_timer_iec_lem (sense_timer_iec s n (pos (x - 1)) y k) n x y k _ _
      ∙ ap
          (λ (t : TimerIec). publish (s.new_timer_array k).preset (
            timer_iec_step s.period_milli_secs_task_logic (s.new_timer_array k).preset (record {
              timer = t;
              current_value = (s.new_timer_array k).value;
              output_result = (s.new_timer_array k).output;
              do_inc_time = false;
            })))
          (sense_timer_iec_lem s n (pos (x - 1)) y k))
