-- ===== src/Examples/Expressions.antt =====
-- Arithmetic expressions: src/arithm_eval.c.
use classicladder.Common.{
  ℤ, pos, ◌≡◌, refl, [], ◌∷◌, Bool, false, Option, none, some, String, arith, to_int, ◌+ℤ◌, ◌-ℤ◌,
  ◌*ℤ◌, ◌%ℤ◌,
}
use classicladder.State.{VarType}
use classicladder.Vars.{write_var}
use classicladder.Arithm.{
  Eval, Run, ok, overrun, out_of_fuel, codes, divide_by, var_type_of, eval_expression, eval_compare,
  make_calc,
}
use classicladder.Arithm.Syntax.{Operation, Tree, digits, text, apply, meaning}
use classicladder.Arithm.Denotes.{st}
use classicladder.Arithm.Within.{Within}
use classicladder.Arithm.Ends.{eval_expression_ends}
use classicladder.Arithm.Reads.{eval_expression-text}
use classicladder.Arithm.Compares.{Comparison, eval_compare-text}
use classicladder.Arithm.Assigns.{make_calc-text, make_calc_waits}
use classicladder.Arithm.Overruns.{mini_overruns}
use classicladder.Examples.Blank.{blank}

abbrev at_start : Eval
at_start = record {
  plc = blank;
  expr = none;
  error_desc = none;
  verify_error_desc = none;
  under_verify = false;
}

abbrev result : Run ℤ → Option (ℤ × Option String)
result (ok v e) = some (v, e.error_desc)
result _ = none

-- 7 - 2 * (3 - 5) | !0
abbrev tree : Tree
tree =
    Tree.binary Operation.any
      (Tree.binary Operation.subtract (Tree.number (pos 7)) (
        Tree.binary Operation.multiply (Tree.number (pos 2))
          (Tree.binary Operation.subtract (Tree.number (pos 3)) (Tree.number (pos 5)))))
      (Tree.inverse (Tree.number (pos 0)))

-- 10 / 0
abbrev division : Tree
division = Tree.binary Operation.divide (Tree.number (pos 10)) (Tree.number (pos 0))

text-tree : text tree ≡ codes "7-2*(3-5)|!0"
unfolding text digits
text-tree = refl

meaning-tree : meaning tree blank ≡ (pos 11, blank)
unfolding meaning apply to_int ◌+ℤ◌ ◌-ℤ◌ ◌*ℤ◌
meaning-tree = refl

missing_parenthesis :
    result (eval_expression (some (codes "(3,4")) at_start)
    ≡ some (pos 3, some "Missing parenthesis )")
unfolding eval_expression divide_by to_int ◌+ℤ◌ ◌*ℤ◌ ◌%ℤ◌
missing_parenthesis = refl

functions :
    result (eval_expression (some (codes "MAXI(3,-5,7)+POW(2,10)%1000")) at_start)
    ≡ some (pos 31, none)
unfolding eval_expression divide_by to_int ◌+ℤ◌ ◌*ℤ◌ ◌%ℤ◌
functions = refl

rotation :
    result (eval_expression (some (codes "ROL(-2147483648,1)")) at_start) ≡ some (pos 1, none)
unfolding eval_expression divide_by to_int ◌+ℤ◌ ◌*ℤ◌ ◌%ℤ◌
rotation = refl

eval_expression_ends_example : Within 4 (eval_expression (some (codes "(3*")) at_start)
eval_expression_ends_example = eval_expression_ends (some (codes "(3*")) at_start

eval_expression-text_example :
    eval_expression (some (codes "7-2*(3-5)|!0")) at_start ≡ ok (pos 11) (st blank none [])
unfolding text digits meaning apply to_int ◌+ℤ◌ ◌-ℤ◌ ◌*ℤ◌
eval_expression-text_example =
    eval_expression-text tree at_start
      ((omega arith, (omega arith, (omega arith, omega arith))), omega arith) refl

eval_compare-text_example :
    eval_compare (codes "10/0>=7-2*(3-5)|!0") at_start
    ≡ ok (pos 0) (st (write_var blank VarType.system (pos 7) (pos 1)) none [])
unfolding text digits meaning apply to_int ◌+ℤ◌ ◌-ℤ◌ ◌*ℤ◌
eval_compare-text_example =
    eval_compare-text Comparison.at_least division tree at_start (omega arith, omega arith)
      ((omega arith, (omega arith, (omega arith, omega arith))), omega arith) refl

abbrev read_only : ℤ → ℤ → Bool
read_only t o = false

make_calc-text_example :
    make_calc read_only 1 (codes "@200/3@:=10/0") false at_start
    ≡ ok tt (
        st
          (write_var
            (write_var blank VarType.system (pos 7) (pos 1))
            VarType.mem_word
            (pos 3)
            (pos 0))
          none
          [])
unfolding text digits meaning apply var_type_of
make_calc-text_example =
    make_calc-text read_only 0 200 3 division at_start (omega arith) (omega arith)
      (omega arith, omega arith) refl

make_calc_waits_example : make_calc read_only 1000 (codes "@200/3@+1") false at_start ≡ out_of_fuel
unfolding digits
make_calc_waits_example =
    make_calc_waits read_only 1000 200 3 b'+' (b'1' ∷ []) false at_start (omega arith) (omega arith)
      refl refl refl refl

mini_overruns_example : eval_expression (some (codes "MINI(34")) at_start ≡ overrun
unfolding digits
mini_overruns_example = mini_overruns 34 at_start (omega arith)
