-- ===== src/Vars/RoundTrip.antt =====
-- ReadVar after WriteVar (src/vars_access.c): the variable that was written, and every other one.
use classicladder.Common.{
  ℤ, ℕ, pos, ◌≡◌, ◌≢◌, ◌⊎◌, ◌≤◌, refl, Bool, true, false, ltb_ℤ, update, to_char, arith, ◌+ℤ◌,
  ==ℤ_refl,
}
use classicladder.State.{VarType, Plc, Sizes}
use classicladder.Vars.Read.{
  phys_input_at, phys_output_at, system_at, step_activity_at, phys_word_input_at,
  phys_word_output_at, word_system_at, step_time_at, get_nbr_vars_for_type, read_var,
}
use classicladder.Vars.Write.{write_var, is_var_set}

-- An offset that the table of src/vars_access.c allows for the type.
abbrev pub IsOffset : Sizes → VarType → ℕ → Type 0
IsOffset z t i = ltb_ℤ (pos i) (get_nbr_vars_for_type z t) ≡ true

-- What a variable of the type holds after a value is written to it.
abbrev pub stored : VarType → ℤ → ℤ
stored VarType.mem_bit v = to_char v
stored VarType.phys_input v = to_char v
stored VarType.phys_output v = to_char v
stored VarType.user_led v = to_char v
stored VarType.system v = to_char v
stored VarType.step_activity v = to_char v
stored VarType.counter_done v = to_char v
stored VarType.counter_empty v = to_char v
stored VarType.counter_full v = to_char v
stored VarType.timer_iec_done v = to_char v
stored VarType.register_empty v = to_char v
stored VarType.register_full v = to_char v
stored _ v = v

-- The types that WriteVar stores as they are given. The presets of the old timers and monostables
-- are scaled by their base, and the other types are read only.
abbrev pub is_plain : VarType → Bool
is_plain VarType.timer_done = false
is_plain VarType.timer_running = false
is_plain VarType.monostable_running = false
is_plain VarType.timer_preset = false
is_plain VarType.timer_value = false
is_plain VarType.monostable_preset = false
is_plain VarType.monostable_value = false
is_plain VarType.unknown = false
is_plain _ = true

-- A variable that is not forced reads back the value that was written to it, reduced to a `char`
-- where the variable is one.
pub read_var-write_var :
    (s : Plc) (t : VarType) (i v : ℤ)
    → is_plain t ≡ true
    → is_var_set s t i ≡ false
    → read_var (write_var s t i v) t i ≡ stored t v
unfolding read_var write_var is_var_set update
read_var-write_var s VarType.mem_bit i v p q = ground (arith, ==ℤ_refl i)
read_var-write_var s _ i v p q = ground (
  arith,
  ==ℤ_refl i,
  ==ℤ_refl (phys_input_at s.sizes i),
  ==ℤ_refl (phys_output_at s.sizes i),
  ==ℤ_refl (system_at s.sizes i),
  ==ℤ_refl (step_activity_at s.sizes i),
  ==ℤ_refl (phys_word_input_at s.sizes i),
  ==ℤ_refl (phys_word_output_at s.sizes i),
  ==ℤ_refl (word_system_at s.sizes i),
  ==ℤ_refl (step_time_at s.sizes i),
)

-- A write to one variable, at an offset of its type, changes no other variable.
pub read_var-write_var_ne :
    (s : Plc) (t t' : VarType) (i j : ℕ) (v : ℤ)
    → IsOffset s.sizes t i
    → IsOffset s.sizes t' j
    → (t ≢ t') ⊎ (i ≢ j)
    → read_var (write_var s t (pos i) v) t' (pos j) ≡ read_var s t' (pos j)
unfolding read_var write_var update ◌+ℤ◌ get_nbr_vars_for_type
read_var-write_var_ne s VarType.mem_bit VarType.mem_bit i j v a b n = ground arith
read_var-write_var_ne s VarType.mem_bit _ i j v a b n = ground arith
read_var-write_var_ne s VarType.phys_input VarType.phys_input i j v a b n = ground arith
read_var-write_var_ne s _ _ i j v a b n = ground arith

-- A write keeps the layout and the forced variables.
pub sizes-write_var : (s : Plc) (t : VarType) (i v : ℤ) → (write_var s t i v).sizes ≡ s.sizes
unfolding write_var
sizes-write_var s VarType.mem_bit i v = ground arith
sizes-write_var s _ i v = refl

pub is_var_set-write_var :
    (s : Plc) (t t' : VarType) (i j v : ℤ) → is_var_set (write_var s t i v) t' j ≡ is_var_set s t' j
unfolding write_var is_var_set
is_var_set-write_var s VarType.mem_bit VarType.phys_input i j v = ground arith
is_var_set-write_var s VarType.mem_bit VarType.phys_output i j v = ground arith
is_var_set-write_var s VarType.mem_bit _ i j v = refl
is_var_set-write_var s _ VarType.phys_input i j v = refl
is_var_set-write_var s _ VarType.phys_output i j v = refl
is_var_set-write_var s _ _ i j v = refl

ltb_ℤ_below : (i j : ℕ) (n : ℤ) → ltb_ℤ (pos i) n ≡ true → j ≤ i → ltb_ℤ (pos j) n ≡ true
ltb_ℤ_below i j n h k = ground arith

pub IsOffset-below : (z : Sizes) (t : VarType) (i j : ℕ) → IsOffset z t i → j ≤ i → IsOffset z t j
IsOffset-below z t i j h k = ltb_ℤ_below i j (get_nbr_vars_for_type z t) h k
