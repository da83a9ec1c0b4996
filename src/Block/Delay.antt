-- ===== src/Block/Delay.antt =====
-- The on-delay mode of the IEC timers (CalcTypeTimerIEC, src/calc.c): when its output comes.
use classicladder.Common.{
  ℤ, ℕ, zero, suc, pos, ◌-◌, ◌+◌, ◌*◌, ◌≤◌, ◌<◌, ◌≡◌, refl, ap, subst, ◌∙◌, true, false, ltb, leb,
  arith, ◌⊎◌, inl, inr, to_char, to_int, ◌+ℤ◌, ◌-ℤ◌, if◌then◌else◌, Bool-cases,
}
use classicladder.State.{TimerMode, TimerIec}
use classicladder.Block.TimerIec.{Timing, timer_iec_step}

-- What one CalcTypeTimerIEC does to its timer, once the input is stored.
abbrev pub timing : TimerIec → Timing
timing t = record {
  timer = t;
  current_value = t.value;
  output_result = t.output;
  do_inc_time = false;
}

abbrev pub publish : ℤ → Timing → TimerIec
publish preset w = record (w.timer) {
  output = to_char w.output_result;
  preset = preset;
  value = w.current_value;
}

unfoldable pub timer_cycle : ℤ → TimerIec → TimerIec
timer_cycle period t = publish t.preset (timer_iec_step period t.preset (timing t))

-- `n` scans with the input as it stands
unfoldable pub timer_cycles : ℕ → ℤ → TimerIec → TimerIec
timer_cycles zero period t = t
timer_cycles (suc n) period t = timer_cycle period (timer_cycles n period t)

-- An on-delay timer whose input is on: preset, base, value, milliseconds of the unit under way and
-- output, beside what the mode does not read.
abbrev pub on_delay : TimerIec → ℕ → ℕ → ℕ → ℕ → ℤ → TimerIec
on_delay t p b v a o = record t {
  preset = pos p;
  base = pos b;
  value = pos v;
  timer_mode = TimerMode.mode_on;
  input = true;
  output = o;
  value_to_reach_one_base_unit = pos a;
}

add_small : (m n : ℕ) → m ≤ 1000000000 → n ≤ 1000000000 → to_int (pos m +ℤ pos n) ≡ pos (m + n)
unfolding to_int ◌+ℤ◌
add_small m n h k = ground arith

sub_small : (m n : ℕ) → m ≤ 2000000000 → n ≤ m → to_int (pos m -ℤ pos n) ≡ pos (m - n)
unfolding to_int ◌-ℤ◌
sub_small m n h k = ground arith

module _ (p b d : ℕ) (slow : d ≤ b) (small_p : p ≤ 1000000000) (small_b : b ≤ 1000000000) where
  abbrev same_unit : TimerIec → ℕ → ℕ → TimerIec
  same_unit t v a = on_delay (record t { input_bak = true }) p b v (a + d) (pos 0)

  abbrev next_unit : TimerIec → ℕ → ℕ → TimerIec
  next_unit t v a = on_delay (record t { input_bak = true }) p b (v + 1) (a + d - b) (pos 0)

  cycle_counts :
      (t : TimerIec) (v a : ℕ)
      → v < p
      → a < b
      → timer_cycle (pos d) (on_delay t p b v a (pos 0))
        ≡ (if ltb (a + d) b then same_unit t v a else next_unit t v a)
  unfolding timer_cycle timer_iec_step to_char
  cycle_counts t v a h k =
      let l : ltb (v + 0) (p + 0) ≡ true = ground arith in
      rw (l, add_small a d (omega arith) (omega arith), add_small v 1 (omega arith) (omega arith))
        (ground (arith, sub_small (a + d) b))

  cycle_done :
      (t : TimerIec) (a : ℕ) (o : ℤ)
      → timer_cycle (pos d) (on_delay t p b p a o)
        ≡ on_delay (record t { input_bak = true }) p b p a (pos 1)
  unfolding timer_cycle timer_iec_step to_char
  cycle_done t a o = let l : ltb (p + 0) (p + 0) ≡ false = ground arith in rw l refl

  -- `e` milliseconds have passed, and the output is still off.
  record Counting (e : ℕ) (t : TimerIec) : Type 0 where
    other : TimerIec
    v : ℕ
    a : ℕ
    shape : t ≡ on_delay other p b v a (pos 0)
    passed : v * b + a ≡ e
    rest_small : a < b
    reachable : v ≤ p

  -- The preset is reached, and the output is on.
  record IsDone (t : TimerIec) : Type 0 where
    other : TimerIec
    a : ℕ
    shape : t ≡ on_delay other p b p a (pos 1)

  count_step :
      (e : ℕ) (t : TimerIec) (c : Counting e t) → c.v < p → Counting (e + d) (timer_cycle (pos d) t)
  count_step e t c h = elim (Bool-cases (ltb (c.a + d) b)) [
    | inl q ↦ record {
      other = record (c.other) { input_bak = true };
      v = c.v;
      a = c.a + d;
      shape =
          ap (timer_cycle (pos d)) c.shape
          ∙ cycle_counts c.other c.v c.a h c.rest_small
          ∙ rw q refl;
      passed = omega (arith, c.passed);
      rest_small = ground arith;
      reachable = c.reachable;
    }
    | inr q ↦ record {
      other = record (c.other) { input_bak = true };
      v = c.v + 1;
      a = c.a + d - b;
      shape =
          ap (timer_cycle (pos d)) c.shape
          ∙ cycle_counts c.other c.v c.a h c.rest_small
          ∙ rw q refl;
      passed = next_unit_passed c.v c.a e c.passed (ground arith);
      rest_small = omega (arith, c.rest_small);
      reachable = omega arith;
    }
  ]
    where
      next_unit_passed : (v a e : ℕ) → v * b + a ≡ e → b ≤ a + d → (v + 1) * b + (a + d - b) ≡ e + d
      next_unit_passed v a e h k = omega arith

  step-IsDone : (t : TimerIec) → IsDone t → IsDone (timer_cycle (pos d) t)
  step-IsDone t c = record {
    other = record (c.other) { input_bak = true };
    a = c.a;
    shape = ap (timer_cycle (pos d)) c.shape ∙ cycle_done c.other c.a (pos 1);
  }

  reach_step : (e : ℕ) (t : TimerIec) (c : Counting e t) → c.v ≡ p → IsDone (timer_cycle (pos d) t)
  reach_step e t c h = record {
    other = record (c.other) { input_bak = true };
    a = c.a;
    shape =
        ap (timer_cycle (pos d)) (c.shape ∙ ap (λ v. on_delay c.other p b v c.a (pos 0)) h)
        ∙ cycle_done c.other c.a (pos 0);
  }

  -- After `n` scans the timer counts, or it is done and the preset had passed before the last scan.
  Phase : ℕ → TimerIec → Type 0
  Phase n t = Counting (n * d) t ⊎ (IsDone t × (p * b + d ≤ n * d))

  full : (e v a : ℕ) → v * b + a ≡ e → v ≡ p → p * b ≤ e
  full e v a h q = rw (← q) (omega arith)

  step-Phase : (n : ℕ) (t : TimerIec) → Phase n t → Phase (suc n) (timer_cycle (pos d) t)
  unfolding Phase
  step-Phase n t (inl c) = elim (Bool-cases (ltb c.v p)) [
    | inl q ↦ inl (
        subst (λ e. Counting e (timer_cycle (pos d) t)) (omega arith)
          (count_step (n * d) t c (ground arith)))
    | inr q ↦
        let e : c.v ≡ p = ground (arith, c.reachable) in
        inr (reach_step (n * d) t c e, omega (arith, full (n * d) c.v c.a c.passed e))
  ]
  step-Phase n t (inr (c, h)) = inr (step-IsDone t c, omega arith)

  module _ (t : TimerIec) (fresh : 0 < b) where
    cycles-Phase : (n : ℕ) → Phase n (timer_cycles n (pos d) (on_delay t p b 0 0 (pos 0)))
    unfolding timer_cycles Phase
    cycles-Phase zero = inl (record {
      other = t;
      v = 0;
      a = 0;
      shape = refl;
      passed = omega arith;
      rest_small = fresh;
      reachable = omega arith;
    })
    cycles-Phase (suc n) = step-Phase n _ (cycles-Phase n)

    not_full : (e v a : ℕ) → v * b + a ≡ e → a < b → v < p → e < p * b
    not_full e v a h k l = grind arith

    next_output :
        (n : ℕ) (u : TimerIec)
        → Phase n u
        → (n * d < p * b → (timer_cycle (pos d) u).output ≡ pos 0)
          × (p * b ≤ n * d → (timer_cycle (pos d) u).output ≡ pos 1)
    unfolding Phase
    next_output n u (inl c) = elim (Bool-cases (ltb c.v p)) [
      | inl q ↦
          let below : n * d < p * b =
            not_full (n * d) c.v c.a c.passed c.rest_small (ground arith) in
          (
            (λ h. ap (λ (w : TimerIec). w.output) (count_step (n * d) u c (ground arith)).shape),
            (λ h. absurd (omega arith)),
          )
      | inr q ↦
          let e : c.v ≡ p = ground (arith, c.reachable) in
          let above : p * b ≤ n * d = full (n * d) c.v c.a c.passed e in
          (
            (λ h. absurd (omega arith)),
            (λ h. ap (λ (w : TimerIec). w.output) (reach_step (n * d) u c e).shape),
          )
    ]
    next_output n u (inr (c, k)) = (
      (λ h. absurd (omega arith)),
      (λ h. ap (λ (w : TimerIec). w.output) (step-IsDone u c).shape),
    )

    -- An on-delay timer that starts at 0 with its output off, and whose input stays on, is scanned
    -- every `d` milliseconds, where `d` is at most its base `b`, and the base is not 0. After `n + 1`
    -- scans its output is on exactly when `n * d` milliseconds make up its preset of `p` units of `b`
    -- milliseconds: the milliseconds that are left of a unit are carried over, so that no time is
    -- lost. (Preset and base are at most 10 ^ 9.)
    pub timer_on_delay :
        (n : ℕ)
        → let output = (timer_cycles (suc n) (pos d) (on_delay t p b 0 0 (pos 0))).output in
          output ≡ pos (if leb (p * b) (n * d) then 1 else 0)
    unfolding timer_cycles
    timer_on_delay n =
        let out =
          next_output n (timer_cycles n (pos d) (on_delay t p b 0 0 (pos 0))) (cycles-Phase n) in
        elim (Bool-cases (leb (p * b) (n * d))) [
          | inl e ↦ rw e (out.1 (ground arith))
          | inr e ↦ rw e (out.0 (ground arith))
        ]
