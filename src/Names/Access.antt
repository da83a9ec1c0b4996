-- ===== src/Names/Access.antt =====
-- The variables that may be written (src/vars_names.c, TestVarIsReadWrite), also as the target of an
-- operation whose syntax is verified (MakeCalc, src/arithm_eval.c).
use classicladder.Common.{
  ℤ, pos, ◌+ℤ◌, ◌&&◌, not, ltb_ℤ, ◌≡◌, refl, Bool-cases, inl, inr, Bool, true, false, arith,
  if◌then◌else◌,
}
use classicladder.State.{VarType, Sizes}
use classicladder.Vars.{get_nbr_vars_for_type}
use classicladder.Arithm.{Eval, var_type_of, store_result, syntax_error, ok}
use classicladder.Names.Table.{code_of}
use classicladder.Names.Search.{get_size_vars_for_type_var, test_var_is_read_write}

-- What a program may write: memory, outputs, LEDs, presets, the value of a counter and the input of a
-- register.
abbrev pub is_writable : VarType → Bool
is_writable VarType.mem_bit = true
is_writable VarType.mem_word = true
is_writable VarType.phys_output = true
is_writable VarType.phys_word_output = true
is_writable VarType.user_led = true
is_writable VarType.timer_iec_preset = true
is_writable VarType.timer_preset = true
is_writable VarType.monostable_preset = true
is_writable VarType.counter_preset = true
is_writable VarType.counter_value = true
is_writable VarType.register_in_value = true
is_writable _ = false

-- the numbers that the variables of a type have
abbrev pub is_numbered : Sizes → VarType → ℤ → Bool
is_numbered z t i = not (ltb_ℤ i (pos 0)) && ltb_ℤ i (get_nbr_vars_for_type z t)

-- The two tables of the counts of variables agree, and so do the numbers of the types.
pub get_size-get_nbr :
    (z : Sizes) (t : VarType) → get_size_vars_for_type_var z (code_of t) ≡ get_nbr_vars_for_type z t
unfolding get_size_vars_for_type_var get_nbr_vars_for_type
get_size-get_nbr z VarType.mem_bit = refl
get_size-get_nbr z _ = refl

accepted :
    (z : Sizes) (t : VarType) (i : ℤ)
    → test_var_is_read_write z (code_of t) i ≡ (is_writable t && is_numbered z t i)
unfolding test_var_is_read_write get_nbr_vars_for_type ◌+ℤ◌
accepted z VarType.mem_bit i = ground arith
accepted z _ i = ground arith

-- TestVarIsReadWrite accepts a variable exactly when a program may write its type (memory, outputs,
-- LEDs, presets, the value of a counter, the input of a register) and its number is one of that
-- type; and the verification of an operation accepts its target in the same cases, and notes an error
-- in all others.
pub verified_target :
    (s : Sizes) (t : VarType) (i v : ℤ) (e : Eval)
    → (test_var_is_read_write s (code_of t) i ≡ (is_writable t && is_numbered s t i))
      × (store_result (test_var_is_read_write s) true (code_of t) i v e ≡ (
          if is_writable t && is_numbered s t i
          then ok tt e
          else syntax_error "Target variable must be read/write !" e))
unfolding store_result
verified_target s t i v e = (
  accepted s t i,
  elim (Bool-cases (is_writable t && is_numbered s t i)) [
    | inl target ↦ rw (accepted s t i, target) refl
    | inr refused ↦ rw (accepted s t i, refused) refl
  ],
)

-- The number of a type is the one that names it in an expression.
var_type_of-code_of : (t : VarType) → var_type_of (code_of t) ≡ t
unfolding var_type_of
var_type_of-code_of VarType.mem_bit = refl
var_type_of-code_of _ = refl
