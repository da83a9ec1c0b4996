-- ===== src/Sequential/Init.antt =====
-- src/calc_sequential.c: InitSequential and PrepareSequential.
use classicladder.Common.{ℤ, ℕ, pos, negsuc, false, replicate, update, for_below}
use classicladder.State.{
  VarType, Step, Transition, SeqComment, Plc, nbr_steps, nbr_transitions, nbr_switchs_max,
  nbr_seq_comments, nbr_sequential_pages,
}

abbrev pub put_step : Plc → ℤ → Step → Plc
put_step s i a = record s {
  sequential = record (s.sequential) { step = update s.sequential.step i a };
}

abbrev pub put_transition : Plc → ℤ → Transition → Plc
put_transition s i t = record s {
  sequential = record (s.sequential) { transition = update s.sequential.transition i t };
}

abbrev pub empty_step : Step
empty_step = record {
  init_step = false;
  step_number = pos 0;
  num_page = negsuc 0;
  posi_x = pos 0;
  posi_y = pos 0;
  activated = false;
  time_activated = pos 0;
  off_draw_cross_step = negsuc 0;
  off_draw_cross_step_offset_y = pos 0;
}

-- VAR_MEM_BIT is 0, the condition's type that InitSequential stores.
abbrev pub empty_transition : Transition
empty_transition = record {
  var_type_condi = VarType.mem_bit;
  var_num_condi = pos 0;
  num_step_to_activ = replicate nbr_switchs_max (negsuc 0);
  num_step_to_desactiv = replicate nbr_switchs_max (negsuc 0);
  num_trans_linked_for_start = replicate nbr_switchs_max (negsuc 0);
  num_trans_linked_for_end = replicate nbr_switchs_max (negsuc 0);
  num_page = negsuc 0;
  posi_x = pos 0;
  posi_y = pos 0;
  activated = false;
}

abbrev pub empty_comment : SeqComment
empty_comment = record { num_page = negsuc 0; posi_x = pos 0; posi_y = pos 0; comment = "" }

abbrev pub clear_comment : ℕ → Plc → Plc
clear_comment k s = record s {
  sequential = record (s.sequential) {
    seq_comment = update s.sequential.seq_comment (pos k) empty_comment;
  };
}

abbrev pub clear_page : ℕ → Plc → Plc
clear_page k s = record s {
  sequential = record (s.sequential) { page_comment = update s.sequential.page_comment (pos k) "" };
}

unfoldable pub init_sequential : Plc → Plc
unfolding for_below
init_sequential s =
    let a = for_below nbr_steps (λ k (p : Plc). put_step p (pos k) empty_step) s in
    let b =
      for_below nbr_transitions (λ k (p : Plc). put_transition p (pos k) empty_transition) a in
    let c = for_below nbr_seq_comments clear_comment b in
    for_below nbr_sequential_pages clear_page c

abbrev pub prepared_step : Step → Step
prepared_step a = record a { activated = a.init_step; time_activated = pos 0 }

abbrev pub prepare_step : ℕ → Plc → Plc
prepare_step k s = put_step s (pos k) (prepared_step (s.sequential.step (pos k)))

abbrev pub prepare_transition : ℕ → Plc → Plc
prepare_transition k s =
    put_transition s (pos k) (record (s.sequential.transition (pos k)) { activated = false })

unfoldable pub prepare_sequential : Plc → Plc
prepare_sequential s =
    for_below nbr_transitions prepare_transition (for_below nbr_steps prepare_step s)
