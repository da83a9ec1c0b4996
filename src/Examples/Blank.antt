-- ===== src/Examples/Blank.antt =====
-- A small PLC that has just been started.
use classicladder.Common.{pos, negsuc, true, false, []}
use classicladder.State.{
  Rung, Timer, Monostable, Counter, TimerMode, TimerIec, RegisterMode, Register, LadderState, Sizes,
  Sequential, Plc,
}
use classicladder.Scan.{free_element, no_section}
use classicladder.Sequential.{empty_step, empty_transition, empty_comment}

abbrev pub small_sizes : Sizes
small_sizes = record {
  nbr_rungs = 4;
  nbr_bits = 10;
  nbr_words = 10;
  nbr_timers = 2;
  nbr_monostables = 2;
  nbr_counters = 2;
  nbr_timers_iec = 2;
  nbr_registers = 2;
  register_list_size = 3;
  nbr_phys_inputs = 4;
  nbr_phys_outputs = 4;
  nbr_arithm_expr = 2;
  nbr_sections = 2;
  nbr_symbols = 0;
  nbr_phys_words_inputs = 1;
  nbr_phys_words_outputs = 1;
}

abbrev pub blank_rung : Rung
blank_rung = record {
  used = true;
  prev_rung = negsuc 0;
  next_rung = negsuc 0;
  nbr_lines_used = 8;
  label = "";
  comment = "";
  element = λ x y. free_element;
}

abbrev pub blank_timer : Timer
blank_timer = record {
  preset = pos 0;
  value = pos 0;
  base = pos 1000;
  display_format = "%.1fs";
  input_enable = false;
  input_control = false;
  output_done = false;
  output_running = false;
}

abbrev pub blank_monostable : Monostable
blank_monostable = record {
  preset = pos 0;
  value = pos 0;
  base = pos 1000;
  display_format = "%.1fs";
  input = false;
  input_bak = false;
  output_running = false;
}

abbrev pub blank_counter : Counter
blank_counter = record {
  preset = pos 3;
  value = pos 0;
  value_bak = pos 0;
  input_reset = false;
  input_preset = false;
  input_count_up = false;
  input_count_up_bak = false;
  input_count_down = false;
  input_count_down_bak = false;
  output_done = pos 0;
  output_empty = pos 0;
  output_full = pos 0;
}

abbrev pub blank_timer_iec : TimerIec
blank_timer_iec = record {
  preset = pos 0;
  value = pos 0;
  base = pos 1000;
  timer_mode = TimerMode.mode_on;
  display_format = "%.1fs";
  input = false;
  input_bak = false;
  output = pos 0;
  timer_started = false;
  value_to_reach_one_base_unit = pos 0;
}

abbrev pub blank_register : Register
blank_register = record {
  register_mode = RegisterMode.fifo;
  value_in = pos 0;
  value_out = pos 0;
  input_reset = false;
  input_in = false;
  input_in_bak = false;
  input_out = false;
  input_out_bak = false;
  output_empty = pos 0;
  output_full = pos 0;
  nbr_values_saved = pos 0;
  first_value_index = pos 0;
  latest_value_index = pos 0;
}

abbrev pub blank_sequential : Sequential
blank_sequential = record {
  step = λ i. empty_step;
  transition = λ i. empty_transition;
  seq_comment = λ i. empty_comment;
  page_comment = λ i. "";
}

abbrev pub blank : Plc
blank = record {
  sizes = small_sizes;
  var_array = λ i. pos 0;
  var_set_array = λ i. 0;
  var_word_array = λ i. pos 0;
  log_var_array = λ i. false;
  log_calls = [];
  user_led_var = λ i. pos 0;
  input_filter_and_state_array =
      λ i. record { filter_mask = 7; buff_raw_input = 0; input_state_for_logic = negsuc 0 };
  timer_array = λ i. blank_timer;
  monostable_array = λ i. blank_monostable;
  counter_array = λ i. blank_counter;
  new_timer_array = λ i. blank_timer_iec;
  register_array = λ i. blank_register;
  registers_lists_datas = λ i. pos 0;
  arithm_expr = λ i. "";
  rung_array = λ i. blank_rung;
  section_array = λ i. no_section;
  sequential = blank_sequential;
  period_milli_secs_task_logic = pos 50;
  ladder_state = LadderState.run;
  rung_in_error = negsuc 0;
  first_rung = pos 0;
  last_rung = pos 0;
  current_rung = pos 0;
  cmd_refresh_vars_bits = false;
  background_save_set_vars_list = false;
  duration_of_last_scan = pos 0;
  max_scan_duration = pos 0;
}
