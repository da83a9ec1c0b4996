-- ===== src/Block/Pulse.antt =====
-- The pulse of a monostable (CalcTypeMonostable, src/calc.c), over many scans.
use classicladder.Common.{
  ℤ, ℕ, zero, suc, pos, negsuc, ◌-◌, ◌*◌, ◌≤◌, ◌<◌, ◌≡◌, ◌≢◌, ap, ◌∙◌, Bool, true, false, ltb, leb,
  arith, inl, inr, to_int, ◌-ℤ◌, sub_ℕ, Bool-cases,
}
use classicladder.State.{Monostable}
use classicladder.Block.Monostable.{monostable_step}

-- one scan with the given input
unfoldable pub monostable_cycle : ℤ → Bool → Monostable → Monostable
monostable_cycle period i m = monostable_step period (record m { input = i })

-- `n` scans, the input of each given by its number
unfoldable pub monostable_cycles : ℕ → ℤ → (ℕ → Bool) → Monostable → Monostable
monostable_cycles zero period input m = m
monostable_cycles (suc n) period input m =
    monostable_cycle period (input n) (monostable_cycles n period input m)

module _ (d : ℕ) (i : Bool) (m : Monostable) where
  cycle_running :
      (w : ℕ)
      → m.value ≡ pos (suc w)
      → ((monostable_cycle (pos d) i m).value ≡ to_int (pos (suc w) -ℤ pos d))
        × ((monostable_cycle (pos d) i m).output_running ≡ m.output_running)
  unfolding monostable_cycle monostable_step
  cycle_running w e = ground arith

  cycle_below :
      (w : ℕ)
      → m.value ≡ negsuc w
      → ((monostable_cycle (pos d) i m).value ≡ negsuc w)
        × ((monostable_cycle (pos d) i m).output_running ≡ false)
  unfolding monostable_cycle monostable_step
  cycle_below w e = ground arith

sub_int_lem : (p d : ℕ) → p ≤ 1000000000 → d ≤ 1000000000 → to_int (pos p -ℤ pos d) ≡ sub_ℕ p d
unfolding to_int ◌-ℤ◌
sub_int_lem p d h k = ground arith

cycle_trigger :
    (p d : ℕ) (m : Monostable)
    → 0 < p
    → m.value ≡ pos 0
    → m.input_bak ≡ false
    → m.preset ≡ pos p
    → ((monostable_cycle (pos d) true m).value ≡ to_int (pos p -ℤ pos d))
      × ((monostable_cycle (pos d) true m).output_running ≡ true)
unfolding monostable_cycle monostable_step
cycle_trigger p d m h v i e = ground arith

module _ (p d : ℕ) (f : ℕ → Bool) (m : Monostable) (some_preset : 0 < p)
    (small_preset : p ≤ 1000000000) (small_period : d ≤ 1000000000) (idle : m.value ≡ pos 0)
    (low : m.input_bak ≡ false) (edge : f 0 ≡ true) (preset : m.preset ≡ pos p) where
  after : ℕ → Monostable
  after n = monostable_cycles (suc n) (pos d) f m

  pulse_on :
      (n : ℕ)
      → n * d < p
      → ((after n).value ≡ sub_ℕ p (suc n * d)) × ((after n).output_running ≡ true)
  unfolding after monostable_cycles
  pulse_on zero h =
      let (v, r) = cycle_trigger p d m some_preset idle low preset in
      rw edge (v ∙ sub_int_lem p d small_preset small_period ∙ ap (sub_ℕ p) (omega arith), r)
  pulse_on (suc n) h =
      let (v, r) = pulse_on n (omega arith) in
      let w : ℕ = p - suc n * d - 1 in
      let e : (after n).value ≡ pos (suc w) = v ∙ positive in
      let (v', r') = cycle_running d (f (suc n)) (after n) w e in
      (v' ∙ sub_int_lem (suc w) d (omega arith) small_period ∙ shorter, r' ∙ r)
    where
      positive : sub_ℕ p (suc n * d) ≡ pos (suc (p - suc n * d - 1))
      positive = ground arith

      shorter : sub_ℕ (suc (p - suc n * d - 1)) d ≡ sub_ℕ p (suc (suc n) * d)
      shorter = ground arith

  pulse_off :
      (n : ℕ)
      → ((k : ℕ) → p ≢ k * d)
      → p ≤ n * d
      → (w : ℕ) × ((after n).value ≡ negsuc w) × ((after n).output_running ≡ false)
  unfolding after monostable_cycles
  pulse_off zero odd h = absurd (omega arith)
  pulse_off (suc n) odd h = elim (Bool-cases (leb p (n * d))) [
    | inl q ↦
        let (w, v, r) = pulse_off n odd (ground arith) in
        let (a, b) = cycle_below d (f (suc n)) (after n) w v in (w, a, b)
    | inr q ↦
        let (v, r) = pulse_on n (ground arith) in
        let w : ℕ = suc n * d - p - 1 in
        let b : sub_ℕ p (suc n * d) ≡ negsuc w = ground (arith, odd (suc n)) in
        let (a, c) = cycle_below d (f (suc n)) (after n) w (v ∙ b) in (w, a, c)
  ]

  -- A rising edge at the input of an idle monostable starts a pulse that its input cannot cut short or
  -- prolong: after scan `n + 1` its output is on as long as `n * d` milliseconds have not used up the
  -- preset of `p` milliseconds, and what is left of the preset is then the value. (The preset is not 0,
  -- and preset and period `d` are at most 10 ^ 9.)
  pub monostable_pulse :
      (n : ℕ)
      → n * d < p
      → let m' = monostable_cycles (suc n) (pos d) f m in
        (m'.output_running ≡ true) × (m'.value ≡ sub_ℕ p (suc n * d))
  unfolding after
  monostable_pulse n h = let (v, r) = pulse_on n h in (r, v)

  -- Where the preset is no multiple of the period, a monostable gives this one pulse and never
  -- another, whatever its input does: the output is on exactly until the preset is used up.
  pub monostable_single_pulse :
      ((k : ℕ) → p ≢ k * d)
      → (n : ℕ)
      → let m' = monostable_cycles (suc n) (pos d) f m in m'.output_running ≡ ltb (n * d) p
  unfolding after
  monostable_single_pulse odd n = elim (Bool-cases (ltb (n * d) p)) [
    | inl e ↦ rw e (pulse_on n (ground arith)).1
    | inr e ↦ rw e (pulse_off n odd (ground arith)).2
  ]
