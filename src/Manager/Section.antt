-- ===== src/Manager/Section.antt =====
-- The operations of src/manager.c.
use classicladder.Common.{
  ℤ, ℕ, zero, suc, pos, negsuc, ◌==ℤ◌, sub_int, add_int, not, ◌&&◌, Bool, true, false, Option, none,
  some, String, update, for_below, ltb_ℤ, ◌-ℤ◌, if◌then◌else◌, replicate,
}
use classicladder.State.{
  Language, Section, Rung, Step, Transition, SeqComment, Plc, nbr_steps, nbr_transitions,
  nbr_seq_comments, nbr_switchs_max,
}
use classicladder.Sequential.{put_step, put_transition}
use classicladder.Scan.{put_rung, init_rung}
use classicladder.Manager.Search.{
  section, find, find_free_rung, find_free_sequential_page, is_sequential,
}

-- The variables of the program with what the windows keep in InfosGene of its sections
pub record Program : Type 0 where
  pub plc : Plc
  pub current_section : ℤ
  pub top_rung_displayed : ℤ
  pub ask_confirmation_to_quit : Bool
  pub has_been_modified_for_exit_code : Bool

abbrev pub put_section : Plc → ℤ → Section → Plc
put_section s k c = record s { section_array = update s.section_array k c }

abbrev pub modified : Program → Program
modified p = record p { ask_confirmation_to_quit = true; has_been_modified_for_exit_code = true }

unfoldable pub set_section_selected : Program → ℤ → Program
set_section_selected p k =
    let c = p.plc.section_array k in
    record p {
      plc = record (p.plc) {
        first_rung = c.first_rung;
        last_rung = c.last_rung;
        current_rung = c.first_rung;
      };
      current_section = k;
      top_rung_displayed = c.first_rung;
    }

-- InitBufferRungEdited (src/edit.c)
abbrev pub init_buffer_rung_edited : Rung → Rung
init_buffer_rung_edited r = record (init_rung r) { used = true }

-- InitSeqElementsOfPage (src/edit_sequential.c), one step, one transition and one comment
abbrev pub free_step : ℤ → Step → Step
free_step page a = if a.num_page ==ℤ page then record a { num_page = negsuc 0 } else a

abbrev pub free_transition : ℤ → Transition → Transition
free_transition page t =
    if t.num_page ==ℤ page
    then record t {
      num_page = negsuc 0;
      num_step_to_activ = replicate nbr_switchs_max (negsuc 0);
      num_step_to_desactiv = replicate nbr_switchs_max (negsuc 0);
      num_trans_linked_for_start = replicate nbr_switchs_max (negsuc 0);
      num_trans_linked_for_end = replicate nbr_switchs_max (negsuc 0);
    }
    else t

abbrev pub free_comment : ℤ → SeqComment → SeqComment
free_comment page c = if c.num_page ==ℤ page then record c { num_page = negsuc 0 } else c

abbrev pub put_comment : Plc → ℤ → SeqComment → Plc
put_comment s i c = record s {
  sequential = record (s.sequential) { seq_comment = update s.sequential.seq_comment i c };
}

abbrev pub free_step_at : ℤ → ℕ → Plc → Plc
free_step_at page k s = put_step s (pos k) (free_step page (s.sequential.step (pos k)))

abbrev pub free_transition_at : ℤ → ℕ → Plc → Plc
free_transition_at page k s =
    put_transition s (pos k) (free_transition page (s.sequential.transition (pos k)))

abbrev pub free_comment_at : ℤ → ℕ → Plc → Plc
free_comment_at page k s =
    put_comment s (pos k) (free_comment page (s.sequential.seq_comment (pos k)))

unfoldable pub init_seq_elements_of_page : Plc → ℤ → Plc
unfolding for_below
init_seq_elements_of_page s page =
    let a = for_below nbr_steps (free_step_at page) s in
    let b = for_below nbr_transitions (free_transition_at page) a in
    for_below nbr_seq_comments (free_comment_at page) b

-- what AddSection stores of a new section first
abbrev pub named_section : Section → String → Language → Section
named_section c name language = record c {
  name = name;
  language = language;
  first_rung = pos 0;
  last_rung = pos 0;
  sequential_page = pos 0;
}

-- the part of AddSection for a ladder: the section's own rung
unfoldable pub add_ladder : Plc → ℕ → Section → ℤ → Option ℕ → Plc × ℤ
unfolding init_rung
add_ladder s k c number none =
    (put_section s (pos k) (record c { sub_routine_number = number }), negsuc 0)
add_ladder s k c number (some r) =
    let s1 = put_section s (pos k) (record c {
      sub_routine_number = number;
      used = true;
      first_rung = pos r;
      last_rung = pos r;
    }) in
    (put_rung s1 (pos r) (init_buffer_rung_edited (s1.rung_array (pos r))), pos k)

-- the part for a chart: its page; the number of a sub-routine stays
unfoldable pub add_chart : Plc → ℕ → Section → Option ℕ → Plc × ℤ
unfolding init_seq_elements_of_page
add_chart s k c none = (put_section s (pos k) c, negsuc 0)
add_chart s k c (some page) = (
  init_seq_elements_of_page
      (put_section s (pos k) (record c { used = true; sequential_page = pos page })) (pos page),
  pos k,
)

unfoldable pub add_at : Plc → ℕ → String → Language → ℤ → Plc × ℤ
unfolding find_free_rung find_free_sequential_page add_ladder add_chart
add_at s k name language number =
    let c = named_section (section s k) name language in
    let s1 = put_section s (pos k) c in
    if is_sequential language
    then add_chart s1 k c (find_free_sequential_page s1)
    else add_ladder s1 k c number (find_free_rung s1)

unfoldable pub add_section : Program → String → Language → ℤ → Program × ℤ
unfolding find add_at
add_section p name language number =
    elim (find (λ k. not (section p.plc k).used) p.plc.sizes.nbr_sections) [
      | none ↦ (p, negsuc 0)
      | some k ↦
          let (s, r) = add_at p.plc k name language number in (modified (record p { plc = s }), r)
    ]

unfoldable pub modify_section_properties : Program → ℤ → String → Program
modify_section_properties p k name = record p {
  plc = put_section p.plc k (record (p.plc.section_array k) { name = name });
}

-- `while( ScanRung!=InfosGene->LastRung )`. The number is fuel.
unfoldable pub free_rungs : ℕ → Plc → ℤ → Option Plc
free_rungs zero s n = none
free_rungs (suc rounds) s n =
    let s' = put_rung s n (record (s.rung_array n) { used = false }) in
    elim (n ==ℤ s.last_rung) [
      | true ↦ some s'
      | false ↦ free_rungs rounds s' (s.rung_array n).next_rung
    ]

unfoldable pub deleted : Program → Option Plc → Option Program
deleted p none = none
deleted p (some s) = some (modified (record p { plc = s }))

-- The rungs that are freed are those of the section that is selected.
unfoldable pub del_section : ℕ → Program → ℤ → Option Program
unfolding free_rungs init_seq_elements_of_page deleted
del_section rounds p k =
    let c = p.plc.section_array k in
    let s = put_section p.plc k (record c { used = false }) in
    deleted p (
      if is_sequential c.language
      then some (init_seq_elements_of_page s c.sequential_page)
      else free_rungs rounds s s.first_rung)

unfoldable pub swap_sections : Program → ℤ → ℤ → Program
swap_sections p a b =
    let s = put_section p.plc a (p.plc.section_array b) in
    modified (record p { plc = put_section s b (p.plc.section_array a) })

-- One round of GetPrevNextSection.
unfoldable pub scan_neighbour : Plc → Bool → ℤ × ℤ → ℤ × ℤ
scan_neighbour s next (k, found) =
    let k' = if next then add_int k (pos 1) else sub_int k (pos 1) in
    (k', if (s.section_array k').used then k' else found)

-- `do { ... } while( ( NextSearch && ... ) && ( !NextSearch && ... ) )`. The number is fuel.
unfoldable pub neighbour_loop : ℕ → Plc → Bool → ℤ × ℤ → Option ℤ
unfolding scan_neighbour
neighbour_loop zero s next at = none
neighbour_loop (suc rounds) s next at =
    let (k, found) = scan_neighbour s next at in
    let more =
      (next && ltb_ℤ k (pos s.sizes.nbr_sections -ℤ pos 1)) && (not next && ltb_ℤ (pos 0) k) in
    elim more [ true ↦ neighbour_loop rounds s next (k, found) | false ↦ some found ]

unfoldable pub get_prev_next_section : ℕ → Plc → ℤ → Bool → Option ℤ
unfolding neighbour_loop
get_prev_next_section rounds s k next = neighbour_loop rounds s next (k, negsuc 0)
