-- ===== src/Block/Count.antt =====
-- What a counter (CalcTypeCounter, src/calc.c) counts.
use classicladder.Common.{
  ℕ, pos, negsuc, ◌+◌, ◌%◌, ◌≤◌, ◌≡◌, ◌&&◌, not, if◌then◌else◌, Bool, Bool-cases, inl, inr, refl,
  to_int, ◌+ℤ◌, ◌-ℤ◌, arith, ◌==◌, ◌-◌,
}
use classicladder.State.{Counter}
use classicladder.Block.Counter.{count_up, count_down, counter_step}

-- the edges that count
abbrev pub up_edge : Counter → Bool
up_edge c = c.input_count_up && not c.input_count_up_bak

abbrev pub down_edge : Counter → Bool
down_edge c = c.input_count_down && not c.input_count_down_bak

abbrev up_value : ℕ → ℕ
up_value n = if n == 9999 then 0 else n + 1

abbrev down_value : ℕ → ℕ
down_value n = if n == 0 then 9999 else n - 1

add_one : (n : ℕ) → n ≤ 9999 → to_int (pos n +ℤ pos 1) ≡ pos (n + 1)
unfolding to_int ◌+ℤ◌
add_one n h = ground arith

sub_one : (n : ℕ) → n ≤ 9999 → to_int (pos n -ℤ pos 1) ≡ (if n == 0 then negsuc 0 else pos (n - 1))
unfolding to_int ◌-ℤ◌
sub_one n h = ground arith

count_up_lem :
    (c : Counter) (n : ℕ)
    → n ≤ 9999
    → count_up (c, pos n) ≡ (
      record c { value_bak = if up_edge c then pos n else c.value_bak },
      pos (if up_edge c then up_value n else n),
    )
unfolding count_up
count_up_lem c n h = elim (Bool-cases (up_edge c)) [
  | inl e ↦ rw (e, add_one n h) (ground arith)
  | inr e ↦ rw e refl
]

count_down_lem :
    (c : Counter) (n : ℕ)
    → n ≤ 9999
    → count_down (c, pos n) ≡ (
      record c { value_bak = if down_edge c then pos n else c.value_bak },
      pos (if down_edge c then down_value n else n),
    )
unfolding count_down
count_down_lem c n h = elim (Bool-cases (down_edge c)) [
  | inl e ↦ rw (e, sub_one n h) (ground arith)
  | inr e ↦ rw e refl
]

-- what the counter does to its value: a reset wins over a preset, and a preset over the edges
abbrev pub counted : Counter → ℕ → ℕ → ℕ
counted c preset n =
    if c.input_reset
    then 0
    else if c.input_preset
    then preset
    else if up_edge c && not (down_edge c)
    then (n + 1) % 10000
    else if down_edge c && not (up_edge c)
    then (n + 9999) % 10000
    else n

-- A counter whose value lies in 0..9999 counts modulo 10000: an edge of the count-up input adds
-- one, an edge of the count-down input takes one off, both together leave it; a preset and a reset
-- override both. An edge counts once, since the inputs are remembered.
pub counter_step-counted :
    (c : Counter) (preset n : ℕ)
    → n ≤ 9999
    → ((counter_step (pos preset) (c, pos n)).1 ≡ pos (counted c preset n))
      × ((counter_step (pos preset) (c, pos n)).0.input_count_up_bak ≡ c.input_count_up)
      × ((counter_step (pos preset) (c, pos n)).0.input_count_down_bak ≡ c.input_count_down)
unfolding counter_step
counter_step-counted c preset n h =
    rw
      (
        count_up_lem c n h,
        count_down_lem (record c { value_bak = if up_edge c then pos n else c.value_bak })
            (if up_edge c then up_value n else n) (ground arith),
      )
      (ground arith, ground arith, ground arith)
