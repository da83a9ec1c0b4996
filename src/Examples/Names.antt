-- ===== src/Examples/Names.antt =====
-- Names of variables: src/vars_names.c.
use classicladder.Common.{pos, ◌≡◌, refl, true, false, ◌+ℤ◌, none}
use classicladder.State.{VarType}
use classicladder.Vars.{get_nbr_vars_for_type}
use classicladder.Arithm.{Eval, ok, store_result}
use classicladder.Names.{code_of, test_var_is_read_write}
use classicladder.Names.Access.{verified_target}
use classicladder.Examples.Blank.{blank, small_sizes}

-- 4 physical outputs may be written, physical inputs may not
outputs_only :
    (test_var_is_read_write small_sizes (pos 60) (pos 3) ≡ true)
    × (test_var_is_read_write small_sizes (pos 60) (pos 4) ≡ false)
    × (test_var_is_read_write small_sizes (pos 50) (pos 0) ≡ false)
unfolding test_var_is_read_write ◌+ℤ◌
outputs_only = (refl, refl, refl)

abbrev verifying : Eval
verifying = record {
  plc = blank;
  expr = none;
  error_desc = none;
  verify_error_desc = none;
  under_verify = true;
}

verified_target_example :
    (test_var_is_read_write small_sizes (code_of VarType.phys_output) (pos 3) ≡ true)
    × (store_result
          (test_var_is_read_write small_sizes)
          true
          (code_of VarType.phys_output)
          (pos 3)
          (pos 1)
          verifying
        ≡ ok tt verifying)
unfolding get_nbr_vars_for_type
verified_target_example = verified_target small_sizes VarType.phys_output (pos 3) (pos 1) verifying
