-- ===== src/Scan/Charts.antt =====
-- How long a step has been active after a scan of the charts of a program (RefreshSequentialPage,
-- src/calc_sequential.c, and ClassicLadder_RefreshAllSections, src/calc.c).
use classicladder.Common.{
  ℤ, ℕ, zero, suc, pos, negsuc, ◌+◌, ◌<◌, ◌≡◌, inl, inr, refl, ◌∙◌, ap, subst, Bool, Bool-cases,
  true, false, List, [], ◌∷◌, if◌then◌else◌, ◌&&◌, not, some, ltb_ℤ, ◌==ℤ◌, ==ℤ_iff, update,
  add_int, arith, for_below_keeps,
}
use classicladder.State.{Step, Transition, Section, Plc, nbr_steps, nbr_transitions}
use classicladder.Sequential.{
  all_steps_on, set_steps, refresh_transi, scan_transition, scan_transitions, page_loop,
  refresh_step_vars, refresh_steps_vars, refresh_sequential_page,
}
use classicladder.Sequential.Fire.{is_listed, condition, refresh_transi_fires}
use classicladder.Sequential.Time.{timed, refresh_steps_vars-timed, period-refresh_steps_vars}
use classicladder.Scan.Cycle.{
  is_ladder, refresh_main_section, refresh_sections, refresh_all_sections, note_duration,
}

-- A section in use that is a chart, and the count of the charts among `left` sections from `k` on.
abbrev pub is_chart : Section → Bool
is_chart c = c.used && not (is_ladder c.language)

abbrev pub nbr_charts : (ℤ → Section) → ℕ → ℕ → ℕ
nbr_charts a zero k = 0
nbr_charts a (suc left) k =
    let rest = nbr_charts a left (suc k) in if is_chart (a (pos k)) then suc rest else rest

-- a time to which a period has been added so often
abbrev pub elapsed : ℕ → ℤ → ℤ → ℤ
elapsed zero period t = t
elapsed (suc n) period t = elapsed n period (add_int t period)

-- Step `j` stands on a page, has been active for `t`, and no transition deactivates it; the period of
-- a scan and the sections are given.
pub record IsActiveFor (a : ℤ → Section) (period : ℤ) (j : ℤ) (t : ℤ) (s : Plc) : Type 0 where
  pub active : (s.sequential.step j).activated ≡ true
  pub time : (s.sequential.step j).time_activated ≡ t
  pub on_page : ((s.sequential.step j).num_page ==ℤ negsuc 0) ≡ false
  pub stays : (i : ℤ) → is_listed ((s.sequential.transition i).num_step_to_desactiv) j ≡ false
  pub period_of : s.period_milli_secs_task_logic ≡ period
  pub sections : s.section_array ≡ a

step_but_active :
    (b : Bool) (f : ℤ → Step) (k j : ℤ)
    → ((update f k (record (f k) { activated = b }) j).time_activated ≡ (f j).time_activated)
      × ((update f k (record (f k) { activated = b }) j).num_page ≡ (f j).num_page)
unfolding update
step_but_active b f k j = elim (Bool-cases (k ==ℤ j)) [
  | inl q ↦
      let p : k ≡ j = (==ℤ_iff k j).0 q in
      rw q (ap (λ i. (f i).time_activated) p, ap (λ i. (f i).num_page) p)
  | inr q ↦ rw q (refl, refl)
]

set_steps_keeps :
    (b : Bool) (f : ℤ → Step) (ks : List ℤ) (j : ℤ)
    → ((set_steps b f ks j).time_activated ≡ (f j).time_activated)
      × ((set_steps b f ks j).num_page ≡ (f j).num_page)
unfolding set_steps
set_steps_keeps b f [] j = (refl, refl)
set_steps_keeps b f (k ∷ ks) j = elim (Bool-cases (k ==ℤ negsuc 0)) [
  | inl e ↦ rw e (refl, refl)
  | inr e ↦
      let rest = set_steps_keeps b (update f k (record (f k) { activated = b })) ks j in
      let first = step_but_active b f k j in rw e (rest.0 ∙ first.0, rest.1 ∙ first.1)
]

-- What RefreshTransi leaves alone: the times and the pages of the steps, the lists of the
-- transitions, the period and the sections.
abbrev IsUntimed : Plc → Plc → Type 0
IsUntimed s u =
    ((j : ℤ) → (u.sequential.step j).time_activated ≡ (s.sequential.step j).time_activated)
    × ((j : ℤ) → (u.sequential.step j).num_page ≡ (s.sequential.step j).num_page)
    × ((i : ℤ)
        → (u.sequential.transition i).num_step_to_desactiv
          ≡ (s.sequential.transition i).num_step_to_desactiv)
    × (u.period_milli_secs_task_logic ≡ s.period_milli_secs_task_logic)
    × (u.section_array ≡ s.section_array)

lists_but_active :
    (b : Bool) (f : ℤ → Transition) (k i : ℤ)
    → (update f k (record (f k) { activated = b }) i).num_step_to_desactiv
      ≡ (f i).num_step_to_desactiv
unfolding update
lists_but_active b f k i = elim (Bool-cases (k ==ℤ i)) [
  | inl q ↦ rw q (ap (λ n. (f n).num_step_to_desactiv) ((==ℤ_iff k i).0 q))
  | inr q ↦ rw q refl
]

IsUntimed-refresh_transi : (s : Plc) (i : ℤ) → IsUntimed s (refresh_transi s i).0
unfolding refresh_transi
IsUntimed-refresh_transi s i =
    let t = s.sequential.transition i in
    let f = s.sequential.step in
    let lists = lists_but_active (condition s i) s.sequential.transition i in
    let off = set_steps false f t.num_step_to_desactiv in
    let moved = λ (j : ℤ). set_steps_keeps true off t.num_step_to_activ j in
    let left = λ (j : ℤ). set_steps_keeps false f t.num_step_to_desactiv j in
    elim (Bool-cases (condition s i && all_steps_on f t.num_step_to_desactiv)) [
      | inl e ↦
          rw e ((λ j. (moved j).0 ∙ (left j).0), (λ j. (moved j).1 ∙ (left j).1), lists, refl, refl)
      | inr e ↦ rw e ((λ j. refl), (λ j. refl), lists, refl, refl)
    ]

module _ (a : ℤ → Section) (period j t : ℤ) where
  IsActiveFor-refresh_transi :
      (s : Plc) (i : ℤ)
      → IsActiveFor a period j t s
      → IsActiveFor a period j t (refresh_transi s i).0
  IsActiveFor-refresh_transi s i h =
      let (times, pages, lists, periods, sects) = IsUntimed-refresh_transi s i in
      record {
        active = (refresh_transi_fires s i).1 j ∙ ground (arith, h.stays i, h.active);
        time = times j ∙ h.time;
        on_page = ap (λ p. p ==ℤ negsuc 0) (pages j) ∙ h.on_page;
        stays = λ k. ap (λ l. is_listed l j) (lists k) ∙ h.stays k;
        period_of = periods ∙ h.period_of;
        sections = sects ∙ h.sections;
      }

  IsActiveFor-scan_transition :
      (page : ℤ) (k : ℕ) (s : Plc) (changed : Bool)
      → IsActiveFor a period j t s
      → IsActiveFor a period j t (scan_transition page k (s, changed)).0
  unfolding scan_transition
  IsActiveFor-scan_transition page k s changed h =
      elim (Bool-cases ((s.sequential.transition (pos k)).num_page ==ℤ page)) [
        | inl e ↦ rw e (IsActiveFor-refresh_transi s (pos k) h)
        | inr e ↦ rw e h
      ]

  IsActiveFor-scan_transitions :
      (page : ℤ) (s : Plc)
      → IsActiveFor a period j t s
      → IsActiveFor a period j t (scan_transitions page s).0
  unfolding scan_transitions
  IsActiveFor-scan_transitions page s h =
      for_below_keeps (λ n (u : Plc × Bool). IsActiveFor a period j t u.0)
        {body = scan_transition page} h (λ k u g. IsActiveFor-scan_transition page k u.0 u.1 g)
        nbr_transitions

  IsActiveFor-page_loop :
      (rounds : ℕ) (page : ℤ) (s : Plc)
      → IsActiveFor a period j t s
      → IsActiveFor a period j t (page_loop rounds page s)
  unfolding page_loop
  IsActiveFor-page_loop zero page s h = h
  IsActiveFor-page_loop (suc rounds) page s h =
      let next = IsActiveFor-scan_transitions page s h in
      elim (Bool-cases (scan_transitions page s).1) [
        | inl e ↦ rw (e, page_loop) (IsActiveFor-page_loop rounds page _ next)
        | inr e ↦ rw (e, page_loop) next
      ]

-- What RefreshStepsVars leaves alone.
abbrev IsSameProgram : Plc → Plc → Type 0
IsSameProgram s u =
    (u.sequential.transition ≡ s.sequential.transition) × (u.section_array ≡ s.section_array)

IsSameProgram-refresh_step_vars : (s : Plc) (k : ℕ) → IsSameProgram s (refresh_step_vars k s)
unfolding refresh_step_vars
IsSameProgram-refresh_step_vars s k =
    elim (Bool-cases ((s.sequential.step (pos k)).num_page ==ℤ negsuc 0)) [
      | inl e ↦ rw e (refl, refl)
      | inr e ↦ rw e (refl, refl)
    ]

IsSameProgram-refresh_steps_vars : (s : Plc) → IsSameProgram s (refresh_steps_vars s)
unfolding refresh_steps_vars
IsSameProgram-refresh_steps_vars s =
    for_below_keeps (λ n u. IsSameProgram s u) {body = refresh_step_vars} {start = s} (refl, refl)
      (λ k u h. let next = IsSameProgram-refresh_step_vars u k in (next.0 ∙ h.0, next.1 ∙ h.1))
      nbr_steps

module _ (a : ℤ → Section) (period : ℤ) (j : ℕ) (below : j < nbr_steps) where
  timed_step :
      (t : ℤ) (s : Plc)
      → IsActiveFor a period (pos j) t s
      → timed s.period_milli_secs_task_logic (s.sequential.step (pos j))
        ≡ record (s.sequential.step (pos j)) { time_activated = add_int t period }
  timed_step t s h = rw (h.on_page, h.active, h.time, h.period_of) refl

  IsActiveFor-refresh_steps_vars :
      (t : ℤ) (s : Plc)
      → IsActiveFor a period (pos j) t s
      → IsActiveFor a period (pos j) (add_int t period) (refresh_steps_vars s)
  IsActiveFor-refresh_steps_vars t s h =
      let step = refresh_steps_vars-timed s j below ∙ timed_step t s h in
      let (transitions, sects) = IsSameProgram-refresh_steps_vars s in
      record {
        active = ap (λ (x : Step). x.activated) step ∙ h.active;
        time = ap (λ (x : Step). x.time_activated) step;
        on_page = ap (λ (x : Step). x.num_page ==ℤ negsuc 0) step ∙ h.on_page;
        stays =
            λ i. ap (λ f. is_listed ((f i).num_step_to_desactiv) (pos j)) transitions ∙ h.stays i;
        period_of = period-refresh_steps_vars s ∙ h.period_of;
        sections = sects ∙ h.sections;
      }

  IsActiveFor-refresh_sequential_page :
      (t : ℤ) (page : ℤ) (s : Plc)
      → IsActiveFor a period (pos j) t s
      → IsActiveFor a period (pos j) (add_int t period) (refresh_sequential_page s page)
  unfolding refresh_sequential_page
  IsActiveFor-refresh_sequential_page t page s h =
      IsActiveFor-refresh_steps_vars t _ (IsActiveFor-page_loop a period (pos j) t 50 page s h)

  -- the sections that follow are charts, or not in use
  abbrev pub AreCharts : ℕ → ℕ → Type 0
  AreCharts left k =
      (i : ℕ) → i < left → ((a (pos (k + i))).used && is_ladder (a (pos (k + i))).language) ≡ false

  main_section :
      (fuel depth k : ℕ) (s : Plc)
      → s.section_array ≡ a
      → ((a (pos k)).used && is_ladder (a (pos k)).language) ≡ false
      → refresh_main_section fuel depth (pos k) s
        ≡ some (
            if is_chart (a (pos k))
            then refresh_sequential_page s (a (pos k)).sequential_page
            else s)
  unfolding refresh_main_section
  main_section fuel depth k s e h =
      let c = a (pos k) in
      let no_ladder : (c.used && ((c.sub_routine_number ==ℤ negsuc 0) && is_ladder c.language))
          ≡ false =
        ground arith in
      elim (Bool-cases (is_chart c)) [
        | inl chart ↦ rw (e, no_ladder, chart, refresh_main_section) refl
        | inr other ↦ rw (e, no_ladder, other, refresh_main_section) refl
      ]

  IsActiveFor-refresh_sections :
      (fuel depth left k : ℕ) (t : ℤ) (s : Plc)
      → AreCharts left k
      → IsActiveFor a period (pos j) t s
      → (u : Plc) × (refresh_sections fuel left depth k s ≡ some u)
        × IsActiveFor a period (pos j) (elapsed (nbr_charts a left k) period t) u
  unfolding refresh_sections
  IsActiveFor-refresh_sections fuel depth zero k t s charts h = (s, refl, h)
  IsActiveFor-refresh_sections fuel depth (suc left) k t s charts h =
      let here : ((a (pos k)).used && is_ladder (a (pos k)).language) ≡ false =
        subst (λ n. ((a (pos n)).used && is_ladder (a (pos n)).language) ≡ false) (omega arith)
          (charts 0 (omega arith)) in
      let later : AreCharts left (suc k) = λ i l.
        subst (λ n. ((a (pos n)).used && is_ladder (a (pos n)).language) ≡ false) (omega arith)
          (charts (suc i) (omega arith)) in
      let one = main_section fuel depth k s h.sections here in
      elim (Bool-cases (is_chart (a (pos k)))) [
        | inl chart ↦
            let (u, done, g) =
              IsActiveFor-refresh_sections fuel depth left (suc k) (add_int t period) _ later
                (IsActiveFor-refresh_sequential_page t (a (pos k)).sequential_page s h) in
            (u, rw (one, chart, refresh_sections) done, rw chart g)
        | inr other ↦
            let (u, done, g) = IsActiveFor-refresh_sections fuel depth left (suc k) t s later h in
            (u, rw (one, other, refresh_sections) done, rw other g)
      ]

  IsActiveFor-note_duration :
      (t : ℤ) (s : Plc)
      → IsActiveFor a period (pos j) t s
      → IsActiveFor a period (pos j) t (note_duration s)
  unfolding note_duration
  IsActiveFor-note_duration t s h =
      elim (Bool-cases (ltb_ℤ s.max_scan_duration s.duration_of_last_scan)) [
        | inl longer ↦ rw longer (record {
          active = h.active;
          time = h.time;
          on_page = h.on_page;
          stays = h.stays;
          period_of = h.period_of;
          sections = h.sections;
        })
        | inr shorter ↦ rw shorter h
      ]

  -- A scan of a program of charts ends, and adds the period of a scan once for each chart to the time of
  -- a step that is active and that no transition deactivates: with two charts, its time runs twice
  -- as fast. The sections are charts or not in use, and the step stands on a page.
  pub refresh_all_sections-elapsed :
      (fuel depth : ℕ) (t : ℤ) (s : Plc)
      → AreCharts s.sizes.nbr_sections 0
      → IsActiveFor a period (pos j) t s
      → (u : Plc) × (refresh_all_sections fuel depth s ≡ some u)
        × IsActiveFor a period (pos j) (elapsed (nbr_charts a s.sizes.nbr_sections 0) period t) u
  unfolding refresh_all_sections
  refresh_all_sections-elapsed fuel depth t s charts h =
      let (u, done, g) =
        IsActiveFor-refresh_sections fuel depth s.sizes.nbr_sections 0 t s charts h in
      (note_duration u, rw (done, refresh_all_sections) refl, IsActiveFor-note_duration _ u g)
