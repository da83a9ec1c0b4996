-- ===== src/Vars/Read.antt =====
-- src/vars_access.c: the layout of the variables, and ReadVar.
-- An access at an offset outside its array has no meaning in C; see Common/Update.antt.
use classicladder.Common.{
  ℤ, ℕ, pos, negsuc, ◌+◌, ◌+ℤ◌, ◌/ℤ◌, ◌==◌, if◌then◌else◌, Bool, not, bit_and, of_bool,
}
use classicladder.State.{
  VarType, Sizes, Plc, nbr_vars_system, nbr_vars_words_system, nbr_users_leds, nbr_steps,
}

abbrev pub mask_var_setted : ℕ
mask_var_setted = 0x80

-- `none` of the C function is -1.
unfoldable pub get_nbr_vars_for_type : Sizes → VarType → ℤ
get_nbr_vars_for_type z VarType.mem_bit = pos z.nbr_bits
get_nbr_vars_for_type z VarType.phys_input = pos z.nbr_phys_inputs
get_nbr_vars_for_type z VarType.phys_output = pos z.nbr_phys_outputs
get_nbr_vars_for_type z VarType.user_led = pos nbr_users_leds
get_nbr_vars_for_type z VarType.system = pos nbr_vars_system
get_nbr_vars_for_type z VarType.step_activity = pos nbr_steps
get_nbr_vars_for_type z VarType.timer_done = pos z.nbr_timers
get_nbr_vars_for_type z VarType.timer_running = pos z.nbr_timers
get_nbr_vars_for_type z VarType.monostable_running = pos z.nbr_monostables
get_nbr_vars_for_type z VarType.counter_done = pos z.nbr_counters
get_nbr_vars_for_type z VarType.counter_empty = pos z.nbr_counters
get_nbr_vars_for_type z VarType.counter_full = pos z.nbr_counters
get_nbr_vars_for_type z VarType.timer_iec_done = pos z.nbr_timers_iec
get_nbr_vars_for_type z VarType.register_empty = pos z.nbr_registers
get_nbr_vars_for_type z VarType.register_full = pos z.nbr_registers
get_nbr_vars_for_type z VarType.mem_word = pos z.nbr_words
get_nbr_vars_for_type z VarType.phys_word_input = pos z.nbr_phys_words_inputs
get_nbr_vars_for_type z VarType.phys_word_output = pos z.nbr_phys_words_outputs
get_nbr_vars_for_type z VarType.word_system = pos nbr_vars_words_system
get_nbr_vars_for_type z VarType.step_time = pos nbr_steps
get_nbr_vars_for_type z VarType.timer_preset = pos z.nbr_timers
get_nbr_vars_for_type z VarType.timer_value = pos z.nbr_timers
get_nbr_vars_for_type z VarType.monostable_preset = pos z.nbr_monostables
get_nbr_vars_for_type z VarType.monostable_value = pos z.nbr_monostables
get_nbr_vars_for_type z VarType.counter_preset = pos z.nbr_counters
get_nbr_vars_for_type z VarType.counter_value = pos z.nbr_counters
get_nbr_vars_for_type z VarType.timer_iec_preset = pos z.nbr_timers_iec
get_nbr_vars_for_type z VarType.timer_iec_value = pos z.nbr_timers_iec
get_nbr_vars_for_type z VarType.register_in_value = pos z.nbr_registers
get_nbr_vars_for_type z VarType.register_out_value = pos z.nbr_registers
get_nbr_vars_for_type z VarType.register_nbr_values = pos z.nbr_registers
get_nbr_vars_for_type z VarType.unknown = negsuc 0

-- the places of the types that share `VarArray`, `VarSetArray` and `VarWordArray`
abbrev pub phys_input_at : Sizes → ℤ → ℤ
phys_input_at z i = pos z.nbr_bits +ℤ i

abbrev pub phys_output_at : Sizes → ℤ → ℤ
phys_output_at z i = pos (z.nbr_bits + z.nbr_phys_inputs) +ℤ i

abbrev pub system_at : Sizes → ℤ → ℤ
system_at z i = pos (z.nbr_bits + z.nbr_phys_inputs + z.nbr_phys_outputs) +ℤ i

abbrev pub step_activity_at : Sizes → ℤ → ℤ
step_activity_at z i =
    pos (z.nbr_bits + z.nbr_phys_inputs + z.nbr_phys_outputs + nbr_vars_system) +ℤ i

abbrev pub set_output_at : Sizes → ℤ → ℤ
set_output_at z i = pos z.nbr_phys_inputs +ℤ i

abbrev pub phys_word_input_at : Sizes → ℤ → ℤ
phys_word_input_at z i = pos z.nbr_words +ℤ i

abbrev pub phys_word_output_at : Sizes → ℤ → ℤ
phys_word_output_at z i = pos (z.nbr_words + z.nbr_phys_words_inputs) +ℤ i

abbrev pub word_system_at : Sizes → ℤ → ℤ
word_system_at z i = pos (z.nbr_words + z.nbr_phys_words_inputs + z.nbr_phys_words_outputs) +ℤ i

abbrev pub step_time_at : Sizes → ℤ → ℤ
step_time_at z i =
    pos (z.nbr_words + z.nbr_phys_words_inputs + z.nbr_phys_words_outputs + nbr_vars_words_system)
    +ℤ i

-- the test `VarSetArray[..] & MASK_VAR_SETTED`
unfoldable pub is_setted : ℕ → Bool
is_setted v = not (bit_and v mask_var_setted == 0)

unfoldable pub read_var : Plc → VarType → ℤ → ℤ
read_var s VarType.mem_bit i = s.var_array i
read_var s VarType.phys_input i =
    if is_setted (s.var_set_array i)
    then pos (bit_and (s.var_set_array i) 1)
    else s.var_array (phys_input_at s.sizes i)
read_var s VarType.phys_output i =
    if is_setted (s.var_set_array (set_output_at s.sizes i))
    then pos (bit_and (s.var_set_array (set_output_at s.sizes i)) 1)
    else s.var_array (phys_output_at s.sizes i)
read_var s VarType.user_led i = s.user_led_var i
read_var s VarType.system i = s.var_array (system_at s.sizes i)
read_var s VarType.step_activity i = s.var_array (step_activity_at s.sizes i)
read_var s VarType.timer_done i = of_bool (s.timer_array i).output_done
read_var s VarType.timer_running i = of_bool (s.timer_array i).output_running
read_var s VarType.monostable_running i = of_bool (s.monostable_array i).output_running
read_var s VarType.counter_done i = (s.counter_array i).output_done
read_var s VarType.counter_empty i = (s.counter_array i).output_empty
read_var s VarType.counter_full i = (s.counter_array i).output_full
read_var s VarType.timer_iec_done i = (s.new_timer_array i).output
read_var s VarType.register_empty i = (s.register_array i).output_empty
read_var s VarType.register_full i = (s.register_array i).output_full
read_var s VarType.mem_word i = s.var_word_array i
read_var s VarType.phys_word_input i = s.var_word_array (phys_word_input_at s.sizes i)
read_var s VarType.phys_word_output i = s.var_word_array (phys_word_output_at s.sizes i)
read_var s VarType.word_system i = s.var_word_array (word_system_at s.sizes i)
read_var s VarType.step_time i = s.var_word_array (step_time_at s.sizes i)
read_var s VarType.timer_preset i = (s.timer_array i).preset /ℤ (s.timer_array i).base
read_var s VarType.timer_value i = (s.timer_array i).value /ℤ (s.timer_array i).base
read_var s VarType.monostable_preset i =
    (s.monostable_array i).preset /ℤ (s.monostable_array i).base
read_var s VarType.monostable_value i = (s.monostable_array i).value /ℤ (s.monostable_array i).base
read_var s VarType.counter_preset i = (s.counter_array i).preset
read_var s VarType.counter_value i = (s.counter_array i).value
read_var s VarType.timer_iec_preset i = (s.new_timer_array i).preset
read_var s VarType.timer_iec_value i = (s.new_timer_array i).value
read_var s VarType.register_in_value i = (s.register_array i).value_in
read_var s VarType.register_out_value i = (s.register_array i).value_out
read_var s VarType.register_nbr_values i = (s.register_array i).nbr_values_saved
read_var s VarType.unknown i = pos 0
