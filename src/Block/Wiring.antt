-- ===== src/Block/Wiring.antt =====
-- How the function blocks of src/calc.c are wired: what reaches their inputs, and that their
-- variables hold the results.
use classicladder.Common.{
  ℤ, ℕ, pos, ◌-◌, ◌+◌, ◌≡◌, ◌==◌, ◌<◌, false, ◌==ℤ◌, ◌∙◌, refl, ap, Bool, arith, of_bool,
  to_char-of_bool, update_self, ==ℤ_refl, if◌then◌else◌,
}
use classicladder.State.{Counter, Plc}
use classicladder.Vars.{read_var, write_var}
use classicladder.Rung.{elem_at, put_elem, left_state}
use classicladder.Rung.Flow.{left_state-put_elem}
use classicladder.Block.Sense.{sense}
use classicladder.Block.Counter.{
  sense_counter, counter_inputs, counter_step, done_result, empty_result, full_result,
  calc_type_counter, publish_counter, show_counter, finish_counter,
}

-- Reading one input disturbs no other.
left_state-sense :
    (s : Plc) (n x : ℤ) (y : ℕ) (x' : ℤ) (y' : ℕ)
    → left_state (sense s n x y).0 n x' y' ≡ left_state s n x' y'
unfolding sense
left_state-sense s n x y x' y' =
    left_state-put_elem s n x y (record (elem_at s n x y) { dynamic_input = left_state s n x y }) x'
      y' refl refl

left_state-sense_counter :
    (f : Bool → Counter → Counter) (s : Plc) (n x : ℤ) (y : ℕ) (k x' : ℤ) (y' : ℕ)
    → left_state (sense_counter f s n x y k) n x' y' ≡ left_state s n x' y'
unfolding sense_counter
left_state-sense_counter f s n x y k x' y' = left_state-sense s n x y x' y'

counter_array-sense_counter :
    (f : Bool → Counter → Counter) (s : Plc) (n x : ℤ) (y : ℕ) (k : ℤ)
    → (sense_counter f s n x y k).counter_array k ≡ f (left_state s n x y) (s.counter_array k)
unfolding sense_counter put_elem
counter_array-sense_counter f s n x y k = update_self s.counter_array k _

-- The counter with the power at its four input lines, left of column `x + 1`.
abbrev pub with_inputs : Plc → ℤ → ℤ → ℕ → Counter → Counter
with_inputs s n x y c = record c {
  input_reset = left_state s n x y;
  input_preset = left_state s n x (y + 1);
  input_count_up = left_state s n x (y + 2);
  input_count_down = left_state s n x (y + 3);
}

counter_inputs_lem :
    (s : Plc) (n x : ℤ) (y : ℕ) (k : ℤ)
    → (counter_inputs s n x y k).counter_array k ≡ with_inputs s n x y (s.counter_array k)
unfolding counter_inputs
counter_inputs_lem s n x y k = simp (counter_array-sense_counter, left_state-sense_counter)

value-counter_step : (p v : ℤ) (c : Counter) → (counter_step p (c, v)).0.value ≡ c.value
unfolding counter_step
value-counter_step p v c = ground arith

publish_counter_lem :
    (s : Plc) (k v : ℤ) (done empty full : Bool)
    → (publish_counter s k v done empty full).counter_array k ≡ record (s.counter_array k) {
      value = v;
      output_done = of_bool done;
      output_empty = of_bool empty;
      output_full = of_bool full;
    }
unfolding publish_counter write_var
publish_counter_lem s k v done empty full = simp (update_self, to_char-of_bool)

counter_array-show_counter :
    (s : Plc) (n : ℤ) (x y : ℕ) (k p : ℤ) (c : Counter) (v : ℤ)
    → (show_counter s n x y k p (c, v)).counter_array k ≡ c
unfolding show_counter put_elem
counter_array-show_counter s n x y k p c v = update_self s.counter_array k c

-- The counter with its results.
abbrev pub with_results : ℤ → Counter → ℤ → Counter
with_results preset c v = record c {
  value = v;
  output_done = of_bool (done_result preset (c, v));
  output_empty = of_bool (empty_result (c, v));
  output_full = of_bool (full_result (c, v));
}

finish_counter_lem :
    (s : Plc) (n : ℤ) (x y : ℕ) (k p v0 : ℤ) (c : Counter) (v : ℤ)
    → c.value ≡ v0
    → (finish_counter s n x y k p v0 (c, v)).counter_array k ≡ with_results p c v
unfolding finish_counter
finish_counter_lem s n x y k p v0 c v e =
    let s1 = show_counter s n x y k p (c, v) in
    let h : s1.counter_array k ≡ c = counter_array-show_counter s n x y k p c v in
    let w : (if v0 ==ℤ (s1.counter_array k).value then v else (s1.counter_array k).value) ≡ v =
      rw (h, e, ==ℤ_refl v0) refl in
    publish_counter_lem s1 k _ _ _ _ ∙ (λ i. record (h i) {
      value = w i;
      output_done = of_bool (done_result p (c, v));
      output_empty = of_bool (empty_result (c, v));
      output_full = of_bool (full_result (c, v));
    })

-- A counter block past the first column takes its reset, preset, count-up and count-down inputs from
-- the power at its four lines, left of the column before it, steps by these from its stored value
-- and preset, and its variables hold the new value and the done, empty and full results.
pub calc_type_counter_wiring :
    (s : Plc) (n : ℤ) (x y : ℕ)
    → 0 < x
    → let k = (elem_at s n (pos x) y).var_num in
      let c = with_inputs s n (pos (x - 1)) y (s.counter_array k) in
      let (c', v) = counter_step c.preset (c, c.value) in
      (calc_type_counter s n x y).counter_array k ≡ with_results c.preset c' v
unfolding calc_type_counter read_var
calc_type_counter_wiring s n x y past =
    let k = (elem_at s n (pos x) y).var_num in
    let s1 = counter_inputs s n (pos (x - 1)) y k in
    let p = (s.counter_array k).preset in
    let v0 = (s.counter_array k).value in
    let h = counter_inputs_lem s n (pos (x - 1)) y k in
    let r = counter_step p (s1.counter_array k, v0) in
    let nz : (x == 0) ≡ false = ground arith in
    rw nz (
      (finish_counter_lem s1 n x y k p v0 r.0 r.1
        (value-counter_step p v0 (s1.counter_array k) ∙ ap (λ (c : Counter). c.value) h))
      ∙ ap (λ (a : Counter). with_results p (counter_step p (a, v0)).0 (counter_step p (a, v0)).1)
          h)
