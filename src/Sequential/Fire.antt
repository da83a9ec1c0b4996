-- ===== src/Sequential/Fire.antt =====
-- When a transition of a sequential chart fires, and which steps it moves (RefreshTransi and
-- PrepareSequential, src/calc_sequential.c).
use classicladder.Common.{
  ℤ, ℕ, pos, negsuc, ◌<◌, ◌≡◌, ◌∙◌, refl, ◌↔◌, ◌⊎◌, inl, inr, ◌==ℤ◌, ==ℤ_iff, ==ℤ_refl, ◌||◌, ◌&&◌,
  if◌then◌else◌, Bool, true, false, List, [], ◌∷◌, arith, to_bool, to_char, update, Bool-cases,
  subst, for_below, for_below_keeps, ltb,
}
use classicladder.State.{Step, Plc, nbr_steps}
use classicladder.Vars.{read_var}
use classicladder.Sequential.Init.{prepare_step, prepare_transition, prepare_sequential}
use classicladder.Sequential.Refresh.{all_steps_on, set_steps, refresh_transi}

-- Step `j` stands in the list, in front of the first -1.
abbrev pub is_listed : List ℤ → ℤ → Bool
is_listed [] j = false
is_listed (k ∷ ks) j = if k ==ℤ negsuc 0 then false else (k ==ℤ j) || is_listed ks j

-- every listed step is active
abbrev pub AreListedActive : (ℤ → Step) → List ℤ → Type 0
AreListedActive f ks = (j : ℤ) → is_listed ks j ≡ true → (f j).activated ≡ true

set_steps_lem :
    (b : Bool) (f : ℤ → Step) (ks : List ℤ) (j : ℤ)
    → (set_steps b f ks j).activated ≡ (if is_listed ks j then b else (f j).activated)
unfolding set_steps
set_steps_lem b f [] j = refl
set_steps_lem b f (k ∷ ks) j = elim (Bool-cases (k ==ℤ negsuc 0)) [
  | inl e ↦ rw e refl
  | inr e ↦
      rw (e, set_steps_lem b (update f k (record (f k) { activated = b })) ks j)
        (first (Bool-cases (k ==ℤ j)))
]
  where
    first :
        ((k ==ℤ j) ≡ true) ⊎ ((k ==ℤ j) ≡ false)
        → (if is_listed ks j then b else (update f k (record (f k) { activated = b }) j).activated)
          ≡ (if (k ==ℤ j) || is_listed ks j then b else (f j).activated)
    first (inl e) = rw e (ground arith)
    first (inr e) = rw e refl

all_steps_on_sound : (f : ℤ → Step) (ks : List ℤ) → all_steps_on f ks ≡ true → AreListedActive f ks
unfolding all_steps_on
all_steps_on_sound f [] h j l = cc
all_steps_on_sound f (k ∷ ks) h j l = elim (Bool-cases (k ==ℤ negsuc 0)) [
  | inl e ↦ ground arith
  | inr e ↦ elim (Bool-cases (k ==ℤ j)) [
    | inl q ↦ subst (λ i. (f i).activated ≡ true) ((==ℤ_iff k j).0 q) (ground arith)
    | inr q ↦ all_steps_on_sound f ks (ground arith) j (ground arith)
  ]
]

all_steps_on_complete :
    (f : ℤ → Step) (ks : List ℤ) → AreListedActive f ks → all_steps_on f ks ≡ true
unfolding all_steps_on
all_steps_on_complete f [] h = refl
all_steps_on_complete f (k ∷ ks) h = elim (Bool-cases (k ==ℤ negsuc 0)) [
  | inl e ↦ rw e refl
  | inr e ↦
      rw
        (
          e,
          h k (rw (e, ==ℤ_refl k) refl),
          all_steps_on_complete f ks (λ j l. h j (rw (e, l) (ground arith))),
        )
        refl
]

-- the condition of a transition
abbrev pub condition : Plc → ℤ → Bool
condition s i =
    let t = s.sequential.transition i in
    to_bool (to_char (read_var s t.var_type_condi t.var_num_condi))

-- A transition fires exactly when its condition holds and every step that it would deactivate is
-- active. When it fires, the steps that it lists to activate are active, of the others those that it
-- lists to deactivate are not, and every other step is as it was; when it does not, all steps are.
pub refresh_transi_fires :
    (s : Plc) (i : ℤ)
    → let t = s.sequential.transition i in
      let (s', fired) = refresh_transi s i in
      ((fired ≡ true)
        ↔ ((condition s i ≡ true) × AreListedActive s.sequential.step t.num_step_to_desactiv))
      × ((j : ℤ)
          → (s'.sequential.step j).activated ≡ (
              if fired && is_listed t.num_step_to_activ j
              then true
              else if fired && is_listed t.num_step_to_desactiv j
              then false
              else (s.sequential.step j).activated))
unfolding refresh_transi
refresh_transi_fires s i =
    let t = s.sequential.transition i in
    let steps = s.sequential.step in
    let off = set_steps false steps t.num_step_to_desactiv in
    elim (Bool-cases (condition s i && all_steps_on steps t.num_step_to_desactiv)) [
      | inl e ↦ rw e (
        (
          (λ h. (ground arith, all_steps_on_sound steps t.num_step_to_desactiv (ground arith))),
          (λ h. refl),
        ),
        (λ j. ground (
          arith,
          set_steps_lem true off t.num_step_to_activ j,
          set_steps_lem false steps t.num_step_to_desactiv j,
        )),
      )
      | inr e ↦ rw e (
        ((λ h. cc), (λ h. ground (arith, all_steps_on_complete steps t.num_step_to_desactiv h.1))),
        (λ j. refl),
      )
    ]

prepare_step_lem :
    (s : Plc) (k : ℕ) (j : ℤ)
    → ((prepare_step k s).sequential.step j) ≡ (
        if pos k ==ℤ j
        then record (s.sequential.step j) {
          activated = (s.sequential.step j).init_step;
          time_activated = pos 0;
        }
        else s.sequential.step j)
unfolding update
prepare_step_lem s k j = elim (Bool-cases (pos k ==ℤ j)) [
  | inl e ↦ rw (e, (==ℤ_iff (pos k) j).0 e) refl
  | inr e ↦ rw e refl
]

-- the steps below `i` are prepared, and the others are as in `s`
abbrev Prepared : Plc → ℕ → Plc → Type 0
Prepared s i u =
    (j : ℕ)
    → (u.sequential.step (pos j)) ≡ (
        if ltb j i
        then record (s.sequential.step (pos j)) {
          activated = (s.sequential.step (pos j)).init_step;
          time_activated = pos 0;
        }
        else s.sequential.step (pos j))

steps-Prepared : (s : Plc) → Prepared s nbr_steps (for_below nbr_steps prepare_step s)
steps-Prepared s =
    for_below_keeps (Prepared s) (λ j. ground arith)
      (λ i u h j. prepare_step_lem u i (pos j) ∙ ground (arith, h j)) nbr_steps

same_steps :
    (s : Plc) (n : ℕ) → (for_below n prepare_transition s).sequential.step ≡ s.sequential.step
same_steps s n =
    for_below_keeps (λ i (u : Plc). u.sequential.step ≡ s.sequential.step) refl (λ i u h. h) n

-- Before a run exactly the initial steps are active, and every step's time starts from 0.
pub prepare_sequential_lem :
    (s : Plc) (j : ℕ)
    → j < nbr_steps
    → let a = (prepare_sequential s).sequential.step (pos j) in
      (a.activated ≡ (s.sequential.step (pos j)).init_step) × (a.time_activated ≡ pos 0)
unfolding prepare_sequential
prepare_sequential_lem s j h = rw same_steps (ground (arith, steps-Prepared s j))
