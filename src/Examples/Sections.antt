-- ===== src/Examples/Sections.antt =====
-- Sections and sub-routines: src/manager.c.
use classicladder.Common.{pos, true, arith, update}
use classicladder.State.{Plc}
use classicladder.Scan.{no_section}
use classicladder.Rung.{search_sub_routine_with_its_number}
use classicladder.Rung.SubRoutine.{IsSearchResult, search_sub_routine-IsSearchResult}
use classicladder.Examples.Blank.{blank}

-- Section 1 is the sub-routine 7.
abbrev with_sub_routine : Plc
with_sub_routine = record blank {
  section_array =
      update (λ i. no_section) (pos 1)
        (record no_section { used = true; sub_routine_number = pos 7 });
}

search_sub_routine-IsSearchResult_example :
    IsSearchResult with_sub_routine.section_array
      (pos 7)
      0
      2
      (search_sub_routine_with_its_number with_sub_routine (pos 7))
search_sub_routine-IsSearchResult_example =
    search_sub_routine-IsSearchResult with_sub_routine (pos 7) (omega arith)
