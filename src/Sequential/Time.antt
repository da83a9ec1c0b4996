-- ===== src/Sequential/Time.antt =====
-- How long the steps of the charts have been active (RefreshStepsVars, src/calc_sequential.c).
use classicladder.Common.{
  ℤ, ℕ, suc, pos, negsuc, ◌<◌, ◌≡◌, refl, ◌∙◌, true, false, if◌then◌else◌, ltb, Bool-cases, inl,
  inr, ◌==ℤ◌, ==ℤ_iff, update, ap, ap₂, sym, ==_iff, ◌==◌, add_int, arith, for_below,
  for_below_keeps,
}
use classicladder.State.{Step, Plc, nbr_steps}
use classicladder.Sequential.Refresh.{refresh_step_vars, refresh_steps_vars}

-- a step after RefreshStepsVars: its time goes on while it is active, and starts again when it is not
abbrev pub timed : ℤ → Step → Step
timed period a = if a.num_page ==ℤ negsuc 0 then a else record a {
  time_activated = if a.activated then add_int a.time_activated period else pos 0;
}

one_step :
    (s : Plc) (k : ℕ) (j : ℤ)
    → ((refresh_step_vars k s).sequential.step j ≡ (
        if pos k ==ℤ j
        then timed s.period_milli_secs_task_logic (s.sequential.step (pos k))
        else s.sequential.step j))
      × ((refresh_step_vars k s).period_milli_secs_task_logic ≡ s.period_milli_secs_task_logic)
unfolding refresh_step_vars update
one_step s k j = elim (Bool-cases ((s.sequential.step (pos k)).num_page ==ℤ negsuc 0)) [
  | inl p ↦ elim (Bool-cases (pos k ==ℤ j)) [
    | inl q ↦ rw p (rw q (ap s.sequential.step (sym ((==ℤ_iff (pos k) j).0 q))), refl)
    | inr q ↦ rw p (rw q refl, refl)
  ]
  | inr p ↦ rw p (refl, refl)
]

-- the steps below `i` are timed, and the others are as in `s`
abbrev Timed : Plc → ℕ → Plc → Type 0
Timed s i u =
    ((j : ℕ)
      → u.sequential.step (pos j) ≡ (
          if ltb j i
          then timed s.period_milli_secs_task_logic (s.sequential.step (pos j))
          else s.sequential.step (pos j)))
    × (u.period_milli_secs_task_logic ≡ s.period_milli_secs_task_logic)

next-Timed : (s : Plc) (i : ℕ) (u : Plc) → Timed s i u → Timed s (suc i) (refresh_step_vars i u)
next-Timed s i u h = (
  (λ j. (one_step u i (pos j)).0 ∙ elim (Bool-cases (i == j)) [
    | inl q ↦
        let now : ltb j (suc i) ≡ true = ground arith in
        let before : ltb i i ≡ false = ground arith in
        let old : u.sequential.step (pos i) ≡ s.sequential.step (pos i) = h.0 i ∙ rw before refl in
        rw (q, now)
          (ap₂ timed h.1 old
            ∙ ap (λ n. timed s.period_milli_secs_task_logic (s.sequential.step (pos n)))
                ((==_iff i j).0 q))
    | inr q ↦ let same : ltb j (suc i) ≡ ltb j i = ground arith in rw (q, same) (h.0 j)
  ]),
  (one_step u i (pos i)).1 ∙ h.1,
)

steps-Timed : (s : Plc) → Timed s nbr_steps (for_below nbr_steps refresh_step_vars s)
steps-Timed s =
    for_below_keeps (Timed s)
      ((λ j. let never : ltb j 0 ≡ false = ground arith in rw never refl), refl) (next-Timed s)
      nbr_steps

-- RefreshStepsVars adds the period to the time of each active step.
pub refresh_steps_vars-timed :
    (s : Plc) (j : ℕ)
    → j < nbr_steps
    → (refresh_steps_vars s).sequential.step (pos j)
      ≡ timed s.period_milli_secs_task_logic (s.sequential.step (pos j))
unfolding refresh_steps_vars
refresh_steps_vars-timed s j h =
    let below : ltb j nbr_steps ≡ true = ground arith in (steps-Timed s).0 j ∙ rw below refl

pub period-refresh_steps_vars :
    (s : Plc) → (refresh_steps_vars s).period_milli_secs_task_logic ≡ s.period_milli_secs_task_logic
unfolding refresh_steps_vars
period-refresh_steps_vars s = (steps-Timed s).1
