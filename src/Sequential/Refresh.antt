-- ===== src/Sequential/Refresh.antt =====
-- src/calc_sequential.c: RefreshTransi, RefreshStepsVars and RefreshSequentialPage.
use classicladder.Common.{
  ℤ, ℕ, zero, suc, pos, negsuc, ◌==ℤ◌, ◌&&◌, ◌||◌, ◌/ℤ◌, if◌then◌else◌, Bool, true, false, List, [],
  ◌∷◌, to_bool, to_char, of_bool, add_int, update, for_below,
}
use classicladder.State.{VarType, Step, Plc, nbr_steps, nbr_transitions}
use classicladder.Vars.{read_var, write_var}
use classicladder.Sequential.Init.{put_step, put_transition}

-- `while( ScanStep<NBR_SWITCHS_MAX && list[ ScanStep ]!=-1 && AllStepsOn )`
unfoldable pub all_steps_on : (ℤ → Step) → List ℤ → Bool
all_steps_on steps [] = true
all_steps_on steps (k ∷ ks) =
    if k ==ℤ negsuc 0 then true else (steps k).activated && all_steps_on steps ks

-- `while( ScanStep<NBR_SWITCHS_MAX && list[ ScanStep ]!=-1 )`, each step set to `b`
unfoldable pub set_steps : Bool → (ℤ → Step) → List ℤ → ℤ → Step
unfolding update
set_steps b steps [] = steps
set_steps b steps (k ∷ ks) =
    let rest = set_steps b (update steps k (record (steps k) { activated = b })) ks in
    if k ==ℤ negsuc 0 then steps else rest

abbrev pub put_steps : Plc → (ℤ → Step) → Plc
put_steps s f = record s { sequential = record (s.sequential) { step = f } }

-- RefreshTransi of transition `i`, with `HasChanged`
unfoldable pub refresh_transi : Plc → ℤ → Plc × Bool
refresh_transi s i =
    let t = s.sequential.transition i in
    let condition = to_bool (to_char (read_var s t.var_type_condi t.var_num_condi)) in
    let s' = put_transition s i (record t { activated = condition }) in
    let steps = s'.sequential.step in
    if condition && all_steps_on steps t.num_step_to_desactiv
    then (
      put_steps s'
          (set_steps true (set_steps false steps t.num_step_to_desactiv) t.num_step_to_activ),
      true,
    )
    else (s', false)

-- one step of RefreshStepsVars
unfoldable pub refresh_step_vars : ℕ → Plc → Plc
unfolding write_var update
refresh_step_vars k s =
    let a = s.sequential.step (pos k) in
    let time =
      if a.activated then add_int a.time_activated s.period_milli_secs_task_logic else pos 0 in
    let s1 = put_step s (pos k) (record a { time_activated = time }) in
    let s2 = write_var s1 VarType.step_activity a.step_number (of_bool a.activated) in
    if a.num_page ==ℤ negsuc 0
    then s
    else write_var s2 VarType.step_time a.step_number (time /ℤ pos 1000)

unfoldable pub refresh_steps_vars : Plc → Plc
unfolding for_below refresh_step_vars
refresh_steps_vars s = for_below nbr_steps refresh_step_vars s

-- the `for` loop over the transitions of a page; the state is with `StateChanged`
unfoldable pub scan_transition : ℤ → ℕ → Plc × Bool → Plc × Bool
scan_transition page k (s, changed) =
    if (s.sequential.transition (pos k)).num_page ==ℤ page
    then (let (s', c) = refresh_transi s (pos k) in (s', c || changed))
    else (s, changed)

unfoldable pub scan_transitions : ℤ → Plc → Plc × Bool
scan_transitions page s = for_below nbr_transitions (scan_transition page) (s, false)

-- `while( StateChanged && LoopSecurity<50 )`; the number counts the rounds that are left
unfoldable pub page_loop : ℕ → ℤ → Plc → Plc
page_loop zero page s = s
page_loop (suc rounds) page s =
    let (s', changed) = scan_transitions page s in
    elim changed [ true ↦ page_loop rounds page s' | false ↦ s' ]

unfoldable pub refresh_sequential_page : Plc → ℤ → Plc
refresh_sequential_page s page = refresh_steps_vars (page_loop 50 page s)
