-- ===== src/Block/TimerIec.antt =====
-- src/calc.c: the IEC timers, InitTimersIEC, PrepareTimersIEC and CalcTypeTimerIEC.
use classicladder.Common.{
  ℤ, ℕ, pos, ◌-◌, ltb_ℤ, ◌==◌, ◌&&◌, not, add_int, sub_int, if◌then◌else◌, Bool, true, false,
  to_bool, for_below,
}
use classicladder.State.{VarType, TimerMode, TimerIec, Plc}
use classicladder.Vars.{read_var, write_var, put_timer_iec}
use classicladder.Rung.{elem_at}
use classicladder.Block.Sense.{sense, show_output}
use classicladder.Block.Timer.{time_base_secs}

unfoldable pub init_timers_iec : Plc → Plc
unfolding for_below
init_timers_iec s =
    for_below s.sizes.nbr_timers_iec
      (λ k (p : Plc). put_timer_iec p (pos k) (record (p.new_timer_array (pos k)) {
        preset = pos 0;
        base = time_base_secs;
        timer_mode = TimerMode.mode_on;
        display_format = "%.1fs";
      }))
      s

abbrev pub prepared_timer_iec : TimerIec → TimerIec
prepared_timer_iec t = record t {
  value = pos 0;
  input = false;
  input_bak = false;
  output = pos 0;
  timer_started = false;
  value_to_reach_one_base_unit = pos 0;
}

unfoldable pub prepare_timers_iec : Plc → Plc
unfolding for_below
prepare_timers_iec s =
    for_below s.sizes.nbr_timers_iec
      (λ k (p : Plc). put_timer_iec p (pos k) (prepared_timer_iec (p.new_timer_array (pos k)))) s

-- The locals of CalcTypeTimerIEC: the timer, `CurrentValue`, `OutputResult` and `DoIncTime`.
pub record Timing : Type 0 where
  pub timer : TimerIec
  pub current_value : ℤ
  pub output_result : ℤ
  pub do_inc_time : Bool

abbrev pub start : TimerIec → Bool → TimerIec
start t b = record t { timer_started = b }

-- the `switch` on the mode
unfoldable pub mode_case : TimerMode → ℤ → Timing → Timing
mode_case TimerMode.mode_on preset w =
    if w.timer.input
    then if ltb_ℤ w.current_value preset
      then record w { do_inc_time = true }
      else record w { output_result = pos 1 }
    else record w { output_result = pos 0; current_value = pos 0 }
mode_case TimerMode.mode_off preset w =
    if w.timer.input
    then record w { output_result = pos 1; current_value = pos 0; timer = start w.timer false }
    else if not w.timer.input && w.timer.input_bak
    then record w { timer = start w.timer true }
    else w
mode_case TimerMode.mode_pulse preset w =
    if w.timer.input && (not w.timer.input_bak && not w.timer.timer_started)
    then record w { output_result = pos 1; current_value = pos 0; timer = start w.timer true }
    else w
mode_case TimerMode.mode_other preset w = w

abbrev pub is_off_or_pulse : TimerMode → Bool
is_off_or_pulse TimerMode.mode_off = true
is_off_or_pulse TimerMode.mode_pulse = true
is_off_or_pulse _ = false

-- the run of the modes that start the timer
unfoldable pub started_case : ℤ → Timing → Timing
started_case preset w =
    if is_off_or_pulse w.timer.timer_mode && w.timer.timer_started
    then if ltb_ℤ w.current_value preset
      then record w { do_inc_time = true }
      else record w { output_result = pos 0; current_value = pos 0; timer = start w.timer false }
    else w

-- the milliseconds that add up to base units
unfoldable pub inc_time : ℤ → Timing → Timing
inc_time period w =
    let t = w.timer in
    let reached = add_int t.value_to_reach_one_base_unit period in
    if w.do_inc_time
    then if ltb_ℤ reached t.base
      then record w { timer = record t { value_to_reach_one_base_unit = reached } }
      else record w {
        current_value = add_int w.current_value (pos 1);
        timer = record t { value_to_reach_one_base_unit = sub_int reached t.base };
      }
    else w

unfoldable pub save_input : Timing → Timing
save_input w = record w { timer = record (w.timer) { input_bak = w.timer.input } }

unfoldable pub timer_iec_step : ℤ → ℤ → Timing → Timing
unfolding mode_case started_case inc_time save_input
timer_iec_step period preset w =
    save_input (inc_time period (started_case preset (mode_case w.timer.timer_mode preset w)))

-- the input, read and stored in the timer
unfoldable pub sense_timer_iec : Plc → ℤ → ℤ → ℕ → ℤ → Plc
unfolding sense
sense_timer_iec s n x y k =
    let (a, i) = sense s n x y in put_timer_iec a k (record (a.new_timer_array k) { input = i })

-- the timer stored and shown, and its variables written
unfoldable pub finish_timer_iec : Plc → ℤ → ℕ → ℕ → ℤ → ℤ → Timing → Plc
unfolding show_output write_var
finish_timer_iec s n x y k preset_value w =
    let s1 = show_output (put_timer_iec s k w.timer) n (pos x) y (to_bool w.output_result) in
    let s2 = write_var s1 VarType.timer_iec_done k w.output_result in
    let s3 = write_var s2 VarType.timer_iec_preset k preset_value in
    write_var s3 VarType.timer_iec_value k w.current_value

unfoldable pub calc_type_timer_iec : Plc → ℤ → ℕ → ℕ → Plc
calc_type_timer_iec s n x y =
    let k = (elem_at s n (pos x) y).var_num in
    let preset_value = read_var s VarType.timer_iec_preset k in
    let s1 = if x == 0 then s else sense_timer_iec s n (pos (x - 1)) y k in
    finish_timer_iec s1 n x y k preset_value (
      timer_iec_step s.period_milli_secs_task_logic preset_value (record {
        timer = s1.new_timer_array k;
        current_value = read_var s VarType.timer_iec_value k;
        output_result = read_var s VarType.timer_iec_done k;
        do_inc_time = false;
      }))
