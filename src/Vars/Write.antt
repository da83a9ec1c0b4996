-- ===== src/Vars/Write.antt =====
-- src/vars_access.c: WriteVar, and the functions that force a physical input or output.
use classicladder.Common.{
  ℤ, ℕ, ◌==ℤ◌, if◌then◌else◌, Bool, true, false, not, ◌&&◌, ◌∷◌, bit_or, to_char, to_uchar, mul_int,
  update,
}
use classicladder.State.{VarType, Timer, Monostable, Counter, TimerIec, Register, LadderState, Plc}
use classicladder.Vars.Read.{
  mask_var_setted, phys_input_at, phys_output_at, system_at, step_activity_at, set_output_at,
  phys_word_input_at, phys_word_output_at, word_system_at, step_time_at, is_setted,
}

abbrev pub is_run : LadderState → Bool
is_run LadderState.run = true
is_run _ = false

-- one cell of a global array
abbrev pub put_bit : Plc → ℤ → ℤ → Plc
put_bit s i v = record s { var_array = update s.var_array i (to_char v) }

abbrev pub put_word : Plc → ℤ → ℤ → Plc
put_word s i v = record s { var_word_array = update s.var_word_array i v }

abbrev pub put_timer : Plc → ℤ → Timer → Plc
put_timer s i t = record s { timer_array = update s.timer_array i t }

abbrev pub put_monostable : Plc → ℤ → Monostable → Plc
put_monostable s i t = record s { monostable_array = update s.monostable_array i t }

abbrev pub put_counter : Plc → ℤ → Counter → Plc
put_counter s i t = record s { counter_array = update s.counter_array i t }

abbrev pub put_timer_iec : Plc → ℤ → TimerIec → Plc
put_timer_iec s i t = record s { new_timer_array = update s.new_timer_array i t }

abbrev pub put_register : Plc → ℤ → Register → Plc
put_register s i t = record s { register_array = update s.register_array i t }

abbrev pub set_var_cell : Plc → ℤ → ℕ → Plc
set_var_cell s i v = record s { var_set_array = update s.var_set_array i v }

-- the log entry of a memory bit that changes while the PLC runs
unfoldable pub log_mem_bit : Plc → ℤ → ℤ → Plc
log_mem_bit s i v =
    if is_run s.ladder_state && (s.log_var_array i && not (s.var_array i ==ℤ v))
    then record s { log_calls = (VarType.mem_bit, i, v) ∷ s.log_calls }
    else s

-- the first `switch` of WriteVar: the store of the value
unfoldable pub store_var : Plc → VarType → ℤ → ℤ → Plc
unfolding log_mem_bit
store_var s VarType.mem_bit i v = put_bit (log_mem_bit s i v) i v
store_var s VarType.phys_input i v = put_bit s (phys_input_at s.sizes i) v
store_var s VarType.phys_output i v = put_bit s (phys_output_at s.sizes i) v
store_var s VarType.user_led i v = record s { user_led_var = update s.user_led_var i (to_char v) }
store_var s VarType.system i v = put_bit s (system_at s.sizes i) v
store_var s VarType.step_activity i v = put_bit s (step_activity_at s.sizes i) v
store_var s VarType.counter_done i v =
    put_counter s i (record (s.counter_array i) { output_done = to_char v })
store_var s VarType.counter_empty i v =
    put_counter s i (record (s.counter_array i) { output_empty = to_char v })
store_var s VarType.counter_full i v =
    put_counter s i (record (s.counter_array i) { output_full = to_char v })
store_var s VarType.timer_iec_done i v =
    put_timer_iec s i (record (s.new_timer_array i) { output = to_char v })
store_var s VarType.register_empty i v =
    put_register s i (record (s.register_array i) { output_empty = to_char v })
store_var s VarType.register_full i v =
    put_register s i (record (s.register_array i) { output_full = to_char v })
store_var s VarType.mem_word i v = put_word s i v
store_var s VarType.phys_word_input i v = put_word s (phys_word_input_at s.sizes i) v
store_var s VarType.phys_word_output i v = put_word s (phys_word_output_at s.sizes i) v
store_var s VarType.word_system i v = put_word s (word_system_at s.sizes i) v
store_var s VarType.step_time i v = put_word s (step_time_at s.sizes i) v
store_var s VarType.timer_preset i v =
    put_timer s i (record (s.timer_array i) { preset = mul_int v (s.timer_array i).base })
store_var s VarType.monostable_preset i v =
    put_monostable s i
      (record (s.monostable_array i) { preset = mul_int v (s.monostable_array i).base })
store_var s VarType.counter_preset i v = put_counter s i (record (s.counter_array i) { preset = v })
store_var s VarType.counter_value i v = put_counter s i (record (s.counter_array i) { value = v })
store_var s VarType.timer_iec_preset i v =
    put_timer_iec s i (record (s.new_timer_array i) { preset = v })
store_var s VarType.timer_iec_value i v =
    put_timer_iec s i (record (s.new_timer_array i) { value = v })
store_var s VarType.register_in_value i v =
    put_register s i (record (s.register_array i) { value_in = v })
store_var s VarType.register_out_value i v =
    put_register s i (record (s.register_array i) { value_out = v })
store_var s VarType.register_nbr_values i v =
    put_register s i (record (s.register_array i) { nbr_values_saved = v })
store_var s _ i v = s

-- the second `switch`: the types whose change the display is told of
abbrev pub is_displayed_bit : VarType → Bool
is_displayed_bit VarType.mem_bit = true
is_displayed_bit VarType.phys_input = true
is_displayed_bit VarType.phys_output = true
is_displayed_bit _ = false

abbrev pub ask_refresh : Plc → Plc
ask_refresh s = record s { cmd_refresh_vars_bits = true }

unfoldable pub write_var : Plc → VarType → ℤ → ℤ → Plc
unfolding store_var
write_var s t i v = let s' = store_var s t i v in if is_displayed_bit t then ask_refresh s' else s'

unfoldable pub write_bool_var_without_log : Plc → ℤ → ℤ → Plc
write_bool_var_without_log s i v = ask_refresh (put_bit s i v)

-- what SetVar and UnsetVar do beside the write of the cell
abbrev pub ask_save_sets : Plc → Plc
ask_save_sets s = record s { background_save_set_vars_list = true; cmd_refresh_vars_bits = true }

unfoldable pub set_var : Plc → VarType → ℤ → ℤ → Plc
set_var s VarType.phys_input i v =
    ask_save_sets (set_var_cell s i (bit_or (to_uchar v) mask_var_setted))
set_var s VarType.phys_output i v =
    ask_save_sets (set_var_cell s (set_output_at s.sizes i) (bit_or (to_uchar v) mask_var_setted))
set_var s _ i v = s

unfoldable pub unset_var : Plc → VarType → ℤ → Plc
unset_var s VarType.phys_input i = ask_save_sets (set_var_cell s i 0)
unset_var s VarType.phys_output i = ask_save_sets (set_var_cell s (set_output_at s.sizes i) 0)
unset_var s _ i = s

unfoldable pub is_var_set : Plc → VarType → ℤ → Bool
unfolding is_setted
is_var_set s VarType.phys_input i = is_setted (s.var_set_array i)
is_var_set s VarType.phys_output i = is_setted (s.var_set_array (set_output_at s.sizes i))
is_var_set s _ i = false
