-- ===== src/State/Globals.antt =====
-- The global arrays of src/global.h and the parts of `InfosGene` that the engine reads and writes.
use classicladder.Common.{ℤ, ℕ, Bool, List, String, ◌+◌}
use classicladder.State.Types.{
  VarType, Rung, Timer, Monostable, Counter, TimerIec, Register, Step, Transition, SeqComment,
  Section, InputFilterAndState, LadderState,
}

-- plc_sizeinfo_s
pub record Sizes : Type 0 where
  pub nbr_rungs : ℕ
  pub nbr_bits : ℕ
  pub nbr_words : ℕ
  pub nbr_timers : ℕ
  pub nbr_monostables : ℕ
  pub nbr_counters : ℕ
  pub nbr_timers_iec : ℕ
  pub nbr_registers : ℕ
  pub register_list_size : ℕ
  pub nbr_phys_inputs : ℕ
  pub nbr_phys_outputs : ℕ
  pub nbr_arithm_expr : ℕ
  pub nbr_sections : ℕ
  pub nbr_symbols : ℕ
  pub nbr_phys_words_inputs : ℕ
  pub nbr_phys_words_outputs : ℕ

abbrev pub nbr_vars_system : ℕ
nbr_vars_system = 50

abbrev pub nbr_vars_words_system : ℕ
nbr_vars_words_system = 20

abbrev pub nbr_users_leds : ℕ
nbr_users_leds = 1

abbrev pub nbr_steps : ℕ
nbr_steps = 128

abbrev pub nbr_transitions : ℕ
nbr_transitions = 256

abbrev pub nbr_switchs_max : ℕ
nbr_switchs_max = 10

abbrev pub nbr_seq_comments : ℕ
nbr_seq_comments = 50

abbrev pub nbr_sequential_pages : ℕ
nbr_sequential_pages = 5

abbrev pub rung_width : ℕ
rung_width = 12

abbrev pub rung_height : ℕ
rung_height = 8

-- SIZE_VAR_ARRAY, SIZE_VAR_WORD_ARRAY and SIZE_VAR_SET_ARRAY, with the sequential support
unfoldable pub size_var_array : Sizes → ℕ
size_var_array z = z.nbr_bits + z.nbr_phys_inputs + z.nbr_phys_outputs + nbr_vars_system + nbr_steps

unfoldable pub size_var_word_array : Sizes → ℕ
size_var_word_array z =
    z.nbr_words + z.nbr_phys_words_inputs + z.nbr_phys_words_outputs + nbr_vars_words_system
    + nbr_steps

unfoldable pub size_var_set_array : Sizes → ℕ
size_var_set_array z = z.nbr_phys_inputs + z.nbr_phys_outputs

-- StrSequential
pub record Sequential : Type 0 where
  pub step : ℤ → Step
  pub transition : ℤ → Transition
  pub seq_comment : ℤ → SeqComment
  pub page_comment : ℤ → String

-- The globals of the engine. `log_calls` lists the calls of VarStateChanged, the entry of the event
-- log (src/log_events.c), the latest first.
pub record Plc : Type 0 where
  pub sizes : Sizes
  pub var_array : ℤ → ℤ
  pub var_set_array : ℤ → ℕ
  pub var_word_array : ℤ → ℤ
  pub log_var_array : ℤ → Bool
  pub log_calls : List (VarType × ℤ × ℤ)
  pub user_led_var : ℤ → ℤ
  pub input_filter_and_state_array : ℤ → InputFilterAndState
  pub timer_array : ℤ → Timer
  pub monostable_array : ℤ → Monostable
  pub counter_array : ℤ → Counter
  pub new_timer_array : ℤ → TimerIec
  pub register_array : ℤ → Register
  pub registers_lists_datas : ℤ → ℤ
  pub arithm_expr : ℤ → String
  pub rung_array : ℤ → Rung
  pub section_array : ℤ → Section
  pub sequential : Sequential
  pub period_milli_secs_task_logic : ℤ
  pub ladder_state : LadderState
  pub rung_in_error : ℤ
  pub first_rung : ℤ
  pub last_rung : ℤ
  pub current_rung : ℤ
  pub cmd_refresh_vars_bits : Bool
  pub background_save_set_vars_list : Bool
  pub duration_of_last_scan : ℤ
  pub max_scan_duration : ℤ
