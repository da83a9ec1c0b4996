-- ===== src/Examples/Charts.antt =====
-- Sequential charts: src/calc_sequential.c.
use classicladder.Common.{
  ℤ, pos, negsuc, ◌≡◌, ◌↔◌, ◌&&◌, true, false, [], ◌∷◌, arith, update, some, refl, to_int, ◌+ℤ◌,
  if◌then◌else◌,
}
use classicladder.State.{VarType, Language, Plc}
use classicladder.Sequential.{empty_step, empty_transition, refresh_transi, prepare_sequential}
use classicladder.Sequential.Fire.{
  condition, is_listed, AreListedActive, refresh_transi_fires, prepare_sequential_lem,
}
use classicladder.Scan.{no_section, refresh_all_sections}
use classicladder.Scan.Charts.{IsActiveFor, nbr_charts, elapsed, refresh_all_sections-elapsed}
use classicladder.Examples.Blank.{blank}

-- Step 3 is initial and active, and transition 0 leads from it to the steps 4 and 5, when %B7 is on.
abbrev forked : Plc
forked = record blank {
  var_array = update (λ i. pos 0) (pos 7) (pos 1);
  sequential = record (blank.sequential) {
    step =
        update (λ i. empty_step) (pos 3)
          (record empty_step { init_step = true; activated = true; time_activated = pos 9 });
    transition = λ i. record empty_transition {
      var_type_condi = VarType.mem_bit;
      var_num_condi = pos 7;
      num_step_to_activ = pos 4 ∷ pos 5 ∷ negsuc 0 ∷ [];
      num_step_to_desactiv = pos 3 ∷ negsuc 0 ∷ [];
    };
  };
}

prepare_sequential_lem_example :
    let a = (prepare_sequential forked).sequential.step (pos 3) in
    (a.activated ≡ true) × (a.time_activated ≡ pos 0)
unfolding update
prepare_sequential_lem_example = prepare_sequential_lem forked 3 (omega arith)

refresh_transi_fires_example :
    let t = forked.sequential.transition (pos 0) in
    let (s', fired) = refresh_transi forked (pos 0) in
    ((fired ≡ true) ↔ (
      (condition forked (pos 0) ≡ true)
      × AreListedActive forked.sequential.step t.num_step_to_desactiv))
    × ((j : ℤ)
        → (s'.sequential.step j).activated ≡ (
            if fired && is_listed t.num_step_to_activ j
            then true
            else if fired && is_listed t.num_step_to_desactiv j
            then false
            else (forked.sequential.step j).activated))
refresh_transi_fires_example = refresh_transi_fires forked (pos 0)

-- Both sections are charts, and step 3 is active, on the page of the first one, where the transitions
-- lead from step 5 to step 4.
abbrev two_charts : Plc
two_charts = record blank {
  section_array = λ k. record no_section {
    used = true;
    language = Language.in_sequential;
    sequential_page = k;
  };
  sequential = record (blank.sequential) {
    step =
        update (λ i. empty_step) (pos 3)
          (record empty_step { num_page = pos 0; activated = true; time_activated = pos 9 });
    transition = λ i. record empty_transition {
      num_page = pos 0;
      num_step_to_activ = pos 4 ∷ negsuc 0 ∷ [];
      num_step_to_desactiv = pos 5 ∷ negsuc 0 ∷ [];
    };
  };
}

refresh_all_sections-elapsed_example :
    (u : Plc) × (refresh_all_sections 5 5 two_charts ≡ some u)
    × IsActiveFor two_charts.section_array
        (pos 50)
        (pos 3)
        (elapsed (nbr_charts two_charts.section_array 2 0) (pos 50) (pos 9))
        u
unfolding update
refresh_all_sections-elapsed_example =
    refresh_all_sections-elapsed two_charts.section_array (pos 50) 3 (omega arith) 5 5 (pos 9)
      two_charts (λ i h. refl)
      (record {
        active = refl;
        time = refl;
        on_page = refl;
        stays = λ i. refl;
        period_of = refl;
        sections = refl;
      })

-- two periods for one scan
two_periods : elapsed (nbr_charts two_charts.section_array 2 0) (pos 50) (pos 9) ≡ pos 109
unfolding to_int ◌+ℤ◌
two_periods = refl
