-- ===== src/Block/Monostable.antt =====
-- src/calc.c: the monostables, InitMonostables, PrepareMonostables and CalcTypeMonostable.
use classicladder.Common.{
  ℤ, ℕ, pos, ◌-◌, ltb_ℤ, ◌==ℤ◌, ◌==◌, ◌&&◌, not, sub_int, if◌then◌else◌, true, false, for_below,
}
use classicladder.State.{Monostable, Plc}
use classicladder.Vars.{put_monostable}
use classicladder.Rung.{elem_at}
use classicladder.Block.Sense.{sense, show_output}
use classicladder.Block.Timer.{time_base_secs}

unfoldable pub init_monostables : Plc → Plc
unfolding for_below
init_monostables s =
    for_below s.sizes.nbr_monostables
      (λ k (p : Plc). put_monostable p (pos k) (record (p.monostable_array (pos k)) {
        preset = pos 0;
        base = time_base_secs;
        display_format = "%.1fs";
      }))
      s

abbrev pub prepared_monostable : Monostable → Monostable
prepared_monostable m = record m {
  value = pos 0;
  input = false;
  output_running = false;
  input_bak = false;
}

unfoldable pub prepare_monostables : Plc → Plc
unfolding for_below
prepare_monostables s =
    for_below s.sizes.nbr_monostables
      (λ k (p : Plc). put_monostable p (pos k) (prepared_monostable (p.monostable_array (pos k)))) s

-- the impulse on the input: the block is not retriggerable
unfoldable pub trigger : Monostable → Monostable
trigger m =
    if m.input && (not m.input_bak && (m.value ==ℤ pos 0))
    then record m { output_running = true; value = m.preset }
    else m

-- the time that passes, and the memory of the input
unfoldable pub elapse : ℤ → Monostable → Monostable
elapse period m =
    if ltb_ℤ (pos 0) m.value
    then record m { value = sub_int m.value period; input_bak = m.input }
    else record m { output_running = false; input_bak = m.input }

unfoldable pub monostable_step : ℤ → Monostable → Monostable
unfolding trigger elapse
monostable_step period m = elapse period (trigger m)

unfoldable pub calc_type_monostable : Plc → ℤ → ℕ → ℕ → Plc
calc_type_monostable s n x y =
    let k = (elem_at s n (pos x) y).var_num in
    let s1 =
      if x == 0
      then s
      else (let (a, i) = sense s n (pos (x - 1)) y in
          put_monostable a k (record (a.monostable_array k) { input = i })) in
    let m = monostable_step s.period_milli_secs_task_logic (s1.monostable_array k) in
    show_output (put_monostable s1 k m) n (pos x) y m.output_running
