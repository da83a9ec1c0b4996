-- ===== src/Vars/Init.antt =====
-- src/vars_access.c: InitVars and InitSetsVars.
use classicladder.Common.{ℤ, pos, negsuc, if◌then◌else◌, Bool, update, for_below}
use classicladder.State.{VarType, Plc, size_var_array, size_var_word_array, size_var_set_array}
use classicladder.Vars.Write.{write_var, put_bit, put_word, set_var_cell, ask_refresh}

abbrev pub reset_filter : Plc → ℤ → Plc
reset_filter s i = record s {
  input_filter_and_state_array =
      update s.input_filter_and_state_array i
        (record { filter_mask = 0x7; buff_raw_input = 0; input_state_for_logic = negsuc 0 });
}

unfoldable pub init_vars : Plc → Bool → Plc
unfolding for_below size_var_array size_var_word_array
init_vars s do_log_events =
    let s1 =
      for_below (size_var_array s.sizes)
        (λ k (p : Plc).
          if do_log_events
          then write_var p VarType.mem_bit (pos k) (pos 0)
          else put_bit p (pos k) (pos 0))
        s in
    let s2 =
      for_below (size_var_word_array s.sizes) (λ k (p : Plc). put_word p (pos k) (pos 0)) s1 in
    let s3 = for_below s.sizes.nbr_phys_inputs (λ k (p : Plc). reset_filter p (pos k)) s2 in
    ask_refresh s3

unfoldable pub init_sets_vars : Plc → Plc
unfolding for_below size_var_set_array
init_sets_vars s =
    for_below (size_var_set_array s.sizes) (λ k (p : Plc). set_var_cell p (pos k) 0) s
