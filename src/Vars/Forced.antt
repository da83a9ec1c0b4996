-- ===== src/Vars/Forced.antt =====
-- Forced ("set") inputs and outputs: SetVar, UnsetVar, IsVarSet (src/vars_access.c).
use classicladder.Common.{
  ℤ, pos, ◌<◌, ◌%◌, ◌≡◌, ◌==◌, refl, Bool, true, false, update, to_char, to_uchar, arith, bit_and,
  bit_or, ==ℤ_refl, for_below, is_accepted, is_accepted_sound, ◌&&◌,
}
use classicladder.State.{VarType, Plc}
use classicladder.Vars.Read.{
  phys_input_at, phys_output_at, set_output_at, read_var, is_setted, mask_var_setted,
}
use classicladder.Vars.Write.{write_var, set_var, unset_var, is_var_set}

to_uchar-lt : (v : ℤ) → to_uchar v < 256
unfolding to_uchar
to_uchar-lt v = ground arith

setted_table :
    is_accepted 256
      (λ u. is_setted (bit_or u mask_var_setted) && bit_and (bit_or u mask_var_setted) 1 == u % 2)
    ≡ true
unfolding is_accepted for_below is_setted
setted_table = refl

set_cell :
    (v : ℤ)
    → (is_setted (bit_or (to_uchar v) mask_var_setted) ≡ true)
      × (bit_and (bit_or (to_uchar v) mask_var_setted) 1 ≡ to_uchar v % 2)
set_cell v = ground (arith, is_accepted_sound 256 _ setted_table (to_uchar v) (to_uchar-lt v))

-- The types that can be forced.
abbrev pub is_forcible : VarType → Bool
is_forcible VarType.phys_input = true
is_forcible VarType.phys_output = true
is_forcible _ = false

-- A forced input or output is reported as set and reads as the low bit of the forced value, whatever
-- is written to any variable afterwards.
pub read_var-set_var :
    (s : Plc) (t t' : VarType) (i j v w : ℤ)
    → is_forcible t ≡ true
    → let s' = write_var (set_var s t i v) t' j w in
      (is_var_set s' t i ≡ true) × (read_var s' t i ≡ pos (to_uchar v % 2))
unfolding read_var write_var set_var is_var_set update
read_var-set_var s VarType.phys_input VarType.mem_bit i j v w f =
    ground (arith, ==ℤ_refl i, set_cell v)
read_var-set_var s VarType.phys_input _ i j v w f = ground (arith, ==ℤ_refl i, set_cell v)
read_var-set_var s VarType.phys_output VarType.mem_bit i j v w f =
    ground (arith, ==ℤ_refl (set_output_at s.sizes i), set_cell v)
read_var-set_var s VarType.phys_output _ i j v w f =
    ground (arith, ==ℤ_refl (set_output_at s.sizes i), set_cell v)
read_var-set_var s _ _ i j v w f = cc

-- What was written while the variable was forced is what it reads once it is no longer forced.
pub read_var-unset_var :
    (s : Plc) (t : VarType) (i v w : ℤ)
    → is_forcible t ≡ true
    → let s' = unset_var (write_var (set_var s t i v) t i w) t i in
      (is_var_set s' t i ≡ false) × (read_var s' t i ≡ to_char w)
unfolding read_var write_var set_var unset_var is_var_set update
read_var-unset_var s VarType.phys_input i v w f =
    ground (arith, ==ℤ_refl i, ==ℤ_refl (phys_input_at s.sizes i))
read_var-unset_var s VarType.phys_output i v w f =
    ground (arith, ==ℤ_refl (set_output_at s.sizes i), ==ℤ_refl (phys_output_at s.sizes i))
read_var-unset_var s _ i v w f = cc
