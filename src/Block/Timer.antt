-- ===== src/Block/Timer.antt =====
-- src/calc.c: the timers of before the IEC ones, InitTimers, PrepareTimers and CalcTypeTimer.
use classicladder.Common.{
  ℤ, ℕ, suc, pos, ◌-◌, ltb_ℤ, ◌==◌, sub_int, if◌then◌else◌, true, false, for_below,
}
use classicladder.State.{Timer, Plc}
use classicladder.Vars.{put_timer}
use classicladder.Rung.{elem_at}
use classicladder.Block.Sense.{sense, show_output}

abbrev pub time_base_secs : ℤ
time_base_secs = pos 1000

unfoldable pub init_timers : Plc → Plc
unfolding for_below
init_timers s =
    for_below s.sizes.nbr_timers
      (λ k (p : Plc). put_timer p (pos k) (record (p.timer_array (pos k)) {
        preset = pos 0;
        base = time_base_secs;
        display_format = "%.1fs";
      }))
      s

abbrev pub prepared_timer : Timer → Timer
prepared_timer t = record t {
  value = t.preset;
  input_enable = false;
  input_control = false;
  output_done = false;
  output_running = false;
}

unfoldable pub prepare_timers : Plc → Plc
unfolding for_below
prepare_timers s =
    for_below s.sizes.nbr_timers
      (λ k (p : Plc). put_timer p (pos k) (prepared_timer (p.timer_array (pos k)))) s

-- the block itself, at a period in milliseconds
unfoldable pub timer_step : ℤ → Timer → Timer
timer_step period t =
    if t.input_enable
    then if ltb_ℤ (pos 0) t.value
      then if t.input_control
        then record t { value = sub_int t.value period; output_running = true; output_done = false }
        else t
      else record t { output_running = false; output_done = true }
    else record t { output_running = false; output_done = false; value = t.preset }

unfoldable pub calc_type_timer : Plc → ℤ → ℕ → ℕ → Plc
calc_type_timer s n x y =
    let k = (elem_at s n (pos x) y).var_num in
    let s1 =
      if x == 0
      then s
      else (let (a, enable) = sense s n (pos (x - 1)) y in
          let a' = put_timer a k (record (a.timer_array k) { input_enable = enable }) in
          let (b, control) = sense a' n (pos (x - 1)) (suc y) in
          put_timer b k (record (b.timer_array k) { input_control = control })) in
    let t = timer_step s.period_milli_secs_task_logic (s1.timer_array k) in
    let s2 = put_timer s1 k t in
    let s3 = show_output s2 n (pos x) y t.output_done in
    show_output s3 n (pos x) (suc y) t.output_running
