-- ===== src/Block/Counter.antt =====
-- src/calc.c: the counters, InitCounters, PrepareCounters and CalcTypeCounter.
use classicladder.Common.{
  ℤ, ℕ, pos, ◌-◌, ◌+◌, ltb_ℤ, ◌==ℤ◌, ◌==◌, ◌&&◌, not, add_int, sub_int, if◌then◌else◌, Bool, false,
  of_bool, for_below,
}
use classicladder.State.{VarType, Counter, Plc}
use classicladder.Vars.{read_var, write_var, put_counter}
use classicladder.Rung.{elem_at}
use classicladder.Block.Sense.{sense, show_output}

unfoldable pub init_counters : Plc → Plc
unfolding for_below
init_counters s =
    for_below s.sizes.nbr_counters
      (λ k (p : Plc). put_counter p (pos k) (record (p.counter_array (pos k)) { preset = pos 0 })) s

abbrev pub prepared_counter : Counter → Counter
prepared_counter c = record c {
  value = pos 0;
  value_bak = pos 0;
  input_reset = false;
  input_preset = false;
  input_count_up = false;
  input_count_up_bak = false;
  input_count_down = false;
  input_count_down_bak = false;
  output_done = pos 0;
  output_empty = pos 0;
  output_full = pos 0;
}

unfoldable pub prepare_counters : Plc → Plc
unfolding for_below
prepare_counters s =
    for_below s.sizes.nbr_counters
      (λ k (p : Plc). put_counter p (pos k) (prepared_counter (p.counter_array (pos k)))) s

-- The counter with the local `CurrentValue`.
abbrev pub Counting : Type 0
Counting = Counter × ℤ

unfoldable pub count_up : Counting → Counting
count_up (c, v) =
    if c.input_count_up && not c.input_count_up_bak
    then (
      record c { value_bak = v },
      if ltb_ℤ (pos 9999) (add_int v (pos 1)) then pos 0 else add_int v (pos 1),
    )
    else (c, v)

unfoldable pub count_down : Counting → Counting
count_down (c, v) =
    if c.input_count_down && not c.input_count_down_bak
    then (
      record c { value_bak = v },
      if ltb_ℤ (sub_int v (pos 1)) (pos 0) then pos 9999 else sub_int v (pos 1),
    )
    else (c, v)

unfoldable pub count_preset : ℤ → Counting → Counting
count_preset preset (c, v) = if c.input_preset then (record c { value_bak = v }, preset) else (c, v)

unfoldable pub count_reset : Counting → Counting
count_reset (c, v) = if c.input_reset then (record c { value_bak = v }, pos 0) else (c, v)

unfoldable pub save_edges : Counting → Counting
save_edges (c, v) = (
  record c { input_count_up_bak = c.input_count_up; input_count_down_bak = c.input_count_down },
  v,
)

-- from the inputs to the new value
unfoldable pub counter_step : ℤ → Counting → Counting
unfolding count_up count_down count_preset count_reset save_edges
counter_step preset c = save_edges (count_reset (count_preset preset (count_down (count_up c))))

abbrev pub done_result : ℤ → Counting → Bool
done_result preset (c, v) = v ==ℤ preset

abbrev pub empty_result : Counting → Bool
empty_result (c, v) = (v ==ℤ pos 9999) && (c.value_bak ==ℤ pos 0)

abbrev pub full_result : Counting → Bool
full_result (c, v) = (v ==ℤ pos 0) && (c.value_bak ==ℤ pos 9999)

-- one input line, read and stored in the counter by `f`
unfoldable pub sense_counter : (Bool → Counter → Counter) → Plc → ℤ → ℤ → ℕ → ℤ → Plc
unfolding sense
sense_counter f s n x y k =
    let (a, state) = sense s n x y in put_counter a k (f state (a.counter_array k))

-- the four inputs, each read and stored in turn
unfoldable pub counter_inputs : Plc → ℤ → ℤ → ℕ → ℤ → Plc
counter_inputs s n x y k =
    let a = sense_counter (λ b c. record c { input_reset = b }) s n x y k in
    let b = sense_counter (λ b c. record c { input_preset = b }) a n x (y + 1) k in
    let c = sense_counter (λ b c. record c { input_count_up = b }) b n x (y + 2) k in
    sense_counter (λ b c. record c { input_count_down = b }) c n x (y + 3) k

-- the variables of the counter, written through WriteVar
unfoldable pub publish_counter : Plc → ℤ → ℤ → Bool → Bool → Bool → Plc
publish_counter s k v done empty full =
    let a = write_var s VarType.counter_value k v in
    let b = write_var a VarType.counter_done k (of_bool done) in
    let c = write_var b VarType.counter_empty k (of_bool empty) in
    write_var c VarType.counter_full k (of_bool full)

-- the counter stored, and its results shown at the three lines of its right column
unfoldable pub show_counter : Plc → ℤ → ℕ → ℕ → ℤ → ℤ → Counting → Plc
unfolding show_output
show_counter s n x y k preset_value (c, v) =
    let s1 = show_output (put_counter s k c) n (pos x) y (empty_result (c, v)) in
    let s2 = show_output s1 n (pos x) (y + 1) (done_result preset_value (c, v)) in
    show_output s2 n (pos x) (y + 2) (full_result (c, v))

-- the counter shown and published; `value_save` is the value at the start, to see whether another
-- task has changed it since
unfoldable pub finish_counter : Plc → ℤ → ℕ → ℕ → ℤ → ℤ → ℤ → Counting → Plc
unfolding read_var
finish_counter s n x y k preset_value value_save (c, v) =
    let s1 = show_counter s n x y k preset_value (c, v) in
    let now = read_var s1 VarType.counter_value k in
    publish_counter s1 k (if value_save ==ℤ now then v else now) (done_result preset_value (c, v))
      (empty_result (c, v)) (full_result (c, v))

unfoldable pub calc_type_counter : Plc → ℤ → ℕ → ℕ → Plc
calc_type_counter s n x y =
    let k = (elem_at s n (pos x) y).var_num in
    let preset_value = read_var s VarType.counter_preset k in
    let value_save = read_var s VarType.counter_value k in
    let s1 = if x == 0 then s else counter_inputs s n (pos (x - 1)) y k in
    finish_counter s1 n x y k preset_value value_save
      (counter_step preset_value (s1.counter_array k, value_save))
