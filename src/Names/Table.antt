-- ===== src/Names/Table.antt =====
-- src/vars_names_list.c: the table of the names of the variables, with the sizes of the program.
-- src/classicladder.h: its rows, and the numbers of the types.
use classicladder.Common.{ℤ, ℕ, pos, negsuc, Bool, true, false, List, [], ◌∷◌}
use classicladder.State.{
  VarType, Sizes, nbr_vars_system, nbr_vars_words_system, nbr_users_leds, nbr_steps,
}

-- StrConvIdVarName, without the text that is displayed. The characters of the name are those before
-- its end.
pub record ConvIdVarName : Type 0 where
  pub string_base_var_name : List ℕ
  pub type_var : ℤ
  pub id_var : ℤ
  pub size1 : ℤ
  pub size2 : ℤ
  pub size3 : ℤ
  pub first_val1 : ℤ
  pub first_val2 : ℤ
  pub first_val3 : ℤ
  pub read_write_access : Bool

-- a row of the table: all have one number, counted from 0
abbrev pub row : List ℕ → ℕ → ℕ → Bool → ConvIdVarName
row name type size access = record {
  string_base_var_name = name;
  type_var = pos type;
  id_var = pos 0;
  size1 = pos size;
  size2 = negsuc 0;
  size3 = negsuc 0;
  first_val1 = pos 0;
  first_val2 = pos 0;
  first_val3 = pos 0;
  read_write_access = access;
}

-- TableConvIdVarName after UpdateSizesOfConvVarNameTable
abbrev pub table_conv_id_var_name : Sizes → List ConvIdVarName
table_conv_id_var_name z =
    row (b'B' ∷ b'%' ∷ b'd' ∷ []) 0 (z.nbr_bits) true
    ∷ row (b'W' ∷ b'%' ∷ b'd' ∷ []) 200 (z.nbr_words) true
    ∷ row (b'I' ∷ b'%' ∷ b'd' ∷ []) 50 (z.nbr_phys_inputs) false
    ∷ row (b'Q' ∷ b'%' ∷ b'd' ∷ []) 60 (z.nbr_phys_outputs) true
    ∷ row (b'I' ∷ b'W' ∷ b'%' ∷ b'd' ∷ []) 270 (z.nbr_phys_words_inputs) false
    ∷ row (b'Q' ∷ b'W' ∷ b'%' ∷ b'd' ∷ []) 280 (z.nbr_phys_words_outputs) true
    ∷ row (b'Q' ∷ b'L' ∷ b'E' ∷ b'D' ∷ b'%' ∷ b'd' ∷ []) 65 (nbr_users_leds) true
    ∷ row (b'S' ∷ b'%' ∷ b'd' ∷ []) 70 (nbr_vars_system) false
    ∷ row (b'S' ∷ b'W' ∷ b'%' ∷ b'd' ∷ []) 290 (nbr_vars_words_system) false
    ∷ row (b'T' ∷ b'M' ∷ b'%' ∷ b'd' ∷ b'.' ∷ b'Q' ∷ []) 15 (z.nbr_timers_iec) false
    ∷ row (b'T' ∷ b'M' ∷ b'%' ∷ b'd' ∷ b'.' ∷ b'P' ∷ []) 260 (z.nbr_timers_iec) true
    ∷ row (b'T' ∷ b'M' ∷ b'%' ∷ b'd' ∷ b'.' ∷ b'V' ∷ []) 261 (z.nbr_timers_iec) false
    ∷ row (b'T' ∷ b'%' ∷ b'd' ∷ b'.' ∷ b'D' ∷ []) 10 (z.nbr_timers) false
    ∷ row (b'T' ∷ b'%' ∷ b'd' ∷ b'.' ∷ b'R' ∷ []) 11 (z.nbr_timers) false
    ∷ row (b'T' ∷ b'%' ∷ b'd' ∷ b'.' ∷ b'P' ∷ []) 230 (z.nbr_timers) true
    ∷ row (b'T' ∷ b'%' ∷ b'd' ∷ b'.' ∷ b'V' ∷ []) 231 (z.nbr_timers) false
    ∷ row (b'M' ∷ b'%' ∷ b'd' ∷ b'.' ∷ b'R' ∷ []) 20 (z.nbr_monostables) false
    ∷ row (b'M' ∷ b'%' ∷ b'd' ∷ b'.' ∷ b'P' ∷ []) 240 (z.nbr_monostables) true
    ∷ row (b'M' ∷ b'%' ∷ b'd' ∷ b'.' ∷ b'V' ∷ []) 241 (z.nbr_monostables) false
    ∷ row (b'C' ∷ b'%' ∷ b'd' ∷ b'.' ∷ b'D' ∷ []) 25 (z.nbr_counters) false
    ∷ row (b'C' ∷ b'%' ∷ b'd' ∷ b'.' ∷ b'E' ∷ []) 26 (z.nbr_counters) false
    ∷ row (b'C' ∷ b'%' ∷ b'd' ∷ b'.' ∷ b'F' ∷ []) 27 (z.nbr_counters) false
    ∷ row (b'C' ∷ b'%' ∷ b'd' ∷ b'.' ∷ b'P' ∷ []) 250 (z.nbr_counters) true
    ∷ row (b'C' ∷ b'%' ∷ b'd' ∷ b'.' ∷ b'V' ∷ []) 251 (z.nbr_counters) true
    ∷ row (b'R' ∷ b'%' ∷ b'd' ∷ b'.' ∷ b'E' ∷ []) 80 (z.nbr_registers) false
    ∷ row (b'R' ∷ b'%' ∷ b'd' ∷ b'.' ∷ b'F' ∷ []) 81 (z.nbr_registers) false
    ∷ row (b'R' ∷ b'%' ∷ b'd' ∷ b'.' ∷ b'I' ∷ []) 300 (z.nbr_registers) true
    ∷ row (b'R' ∷ b'%' ∷ b'd' ∷ b'.' ∷ b'O' ∷ []) 301 (z.nbr_registers) false
    ∷ row (b'R' ∷ b'%' ∷ b'd' ∷ b'.' ∷ b'S' ∷ []) 302 (z.nbr_registers) false
    ∷ row (b'X' ∷ b'%' ∷ b'd' ∷ b'.' ∷ b'A' ∷ []) 30 (nbr_steps) false
    ∷ row (b'X' ∷ b'%' ∷ b'd' ∷ b'.' ∷ b'V' ∷ []) 220 (nbr_steps) false
    ∷ []

-- the number of a type; -1 for `unknown`
abbrev pub code_of : VarType → ℤ
code_of VarType.mem_bit = pos 0
code_of VarType.mem_word = pos 200
code_of VarType.phys_input = pos 50
code_of VarType.phys_output = pos 60
code_of VarType.phys_word_input = pos 270
code_of VarType.phys_word_output = pos 280
code_of VarType.user_led = pos 65
code_of VarType.system = pos 70
code_of VarType.word_system = pos 290
code_of VarType.timer_iec_done = pos 15
code_of VarType.timer_iec_preset = pos 260
code_of VarType.timer_iec_value = pos 261
code_of VarType.timer_done = pos 10
code_of VarType.timer_running = pos 11
code_of VarType.timer_preset = pos 230
code_of VarType.timer_value = pos 231
code_of VarType.monostable_running = pos 20
code_of VarType.monostable_preset = pos 240
code_of VarType.monostable_value = pos 241
code_of VarType.counter_done = pos 25
code_of VarType.counter_empty = pos 26
code_of VarType.counter_full = pos 27
code_of VarType.counter_preset = pos 250
code_of VarType.counter_value = pos 251
code_of VarType.register_empty = pos 80
code_of VarType.register_full = pos 81
code_of VarType.register_in_value = pos 300
code_of VarType.register_out_value = pos 301
code_of VarType.register_nbr_values = pos 302
code_of VarType.step_activity = pos 30
code_of VarType.step_time = pos 220
code_of VarType.unknown = negsuc 0
