-- ===== src/Examples/Programs.antt =====
-- The sections of programs: src/manager.c.
use classicladder.Common.{
  ℤ, pos, negsuc, refl, sym, subst, ◌<◌, ◌≡◌, true, false, some, arith, ◌==ℤ◌, update,
}
use classicladder.State.{Language, Plc}
use classicladder.Scan.{no_section, init_sections}
use classicladder.Manager.{Program, add_section, swap_sections, del_section, section, is_chart}
use classicladder.Manager.Added.{IsLadderAdded, add_section-IsLadderAdded}
use classicladder.Manager.Keep.{HasPages}
use classicladder.Manager.Reached.{Reached, init_sections-Reached-HasPages}
use classicladder.Manager.Selected.{del_section_frees_selected}
use classicladder.Examples.Blank.{blank}

abbrev program : Plc → Program
program s = record {
  plc = s;
  current_section = pos 0;
  top_rung_displayed = pos 0;
  ask_confirmation_to_quit = false;
  has_been_modified_for_exit_code = false;
}

-- a chart is added behind the first section, and takes its place
abbrev chart_added : Program
chart_added =
    (add_section (program (init_sections blank)) "Chart" Language.in_sequential (negsuc 0)).0

abbrev with_chart : Program
with_chart = swap_sections chart_added (pos 0) (pos 1)

two_sections : chart_added.plc.sizes.nbr_sections ≡ 2
unfolding add_section init_sections update
two_sections = refl

with_chart_lem : is_chart (section with_chart.plc 0) ≡ true
unfolding swap_sections add_section init_sections update
with_chart_lem = refl

init_sections-Reached-HasPages_example : HasPages with_chart.plc
unfolding add_section init_sections
init_sections-Reached-HasPages_example =
    init_sections-Reached-HasPages (program blank) with_chart blank (
      Reached.swapped (Reached.added Reached.here "Chart" Language.in_sequential (negsuc 0)) 0 1
        (subst (λ n. 0 < n) (sym two_sections) (omega arith))
        (subst (λ n. 1 < n) (sym two_sections) (omega arith)))

-- Section 1 has the rung 5, and section 0 is selected, which has the rung 3.
abbrev two_ladders : Plc
two_ladders = record blank {
  section_array =
      update (λ i. record no_section { used = true; first_rung = pos 3; last_rung = pos 3 }) (pos 1)
        (record no_section { used = true; first_rung = pos 5; last_rung = pos 5 });
  first_rung = pos 3;
  last_rung = pos 3;
}

del_section_frees_selected_example :
    (q : Program) × (del_section 1 (program two_ladders) (pos 1) ≡ some q)
    × ((q.plc.section_array (pos 1)).used ≡ false)
    × ((q.plc.rung_array (pos 3)).used ≡ false)
    × ((j : ℤ) → (pos 3 ==ℤ j) ≡ false → q.plc.rung_array j ≡ two_ladders.rung_array j)
unfolding update
del_section_frees_selected_example =
    del_section_frees_selected 0 (program two_ladders) (pos 1) (pos 3) refl refl refl

-- no rung is in use
abbrev empty : Plc
empty = record (init_sections blank) {
  rung_array = λ n. record (blank.rung_array n) { used = false };
}

abbrev ladder_added : Program × ℤ
ladder_added = add_section (program empty) "Sub" Language.in_ladder (pos 7)

ladder_added_lem : ladder_added.1 ≡ pos 1
unfolding add_section init_sections update
ladder_added_lem = refl

add_section-IsLadderAdded_example : IsLadderAdded empty ladder_added.0.plc "Sub" (pos 7) 1
unfolding add_section init_sections update
add_section-IsLadderAdded_example =
    add_section-IsLadderAdded (program empty) ladder_added.0 "Sub" (pos 7) 1 (omega arith)
      (omega arith) refl
