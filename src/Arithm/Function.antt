-- ===== src/Arithm/Function.antt =====
-- src/arithm_eval.c: Function.
use Prim.Native.Char.{code}
use classicladder.Common.{
  ℤ, ℕ, zero, suc, pos, negsuc, ◌==◌, ◌==ℤ◌, ltb_ℤ, not, ◌&&◌, ◌||◌, List, [], ◌∷◌, Bool, true,
  false, Option, String, none, some, add_int, mul_int, ◌/ℤ◌, of_bool, bit_and, bit_or, on_bits,
  shift_left, shift_right, int_max, int_min, if◌then◌else◌,
}
use classicladder.State.{VarType}
use classicladder.Vars.{write_var}
use classicladder.Arithm.Machine.{
  Text, M, ok, out_of_fuel, pure, ◌>>=◌, ◌>>◌, peek, advance, set_expr, syntax_error, fail,
  update_plc, is_upper,
}
use classicladder.Arithm.Lexeme.{pow_int, scan, variable_or_constant}

-- the characters of a text
abbrev pub codes : String → List ℕ
codes String.[] = []
codes (String.◌∷◌ c s) = code c ∷ codes s

-- strcmp
unfoldable pub same_text : List ℕ → List ℕ → Bool
same_text [] [] = true
same_text (a ∷ l) (b ∷ m) = a == b && same_text l m
same_text _ _ = false

-- The name of a function, of at most 19 letters; the number is the space left in tcFonc.
unfoldable pub scan_name : ℕ → List ℕ → List ℕ × List ℕ
scan_name zero l = ([], l)
scan_name (suc space) [] = ([], [])
scan_name (suc space) (c ∷ l) =
    let (name, rest) = scan_name space l in if is_upper c then (c ∷ name, rest) else ([], c ∷ l)

-- what follows a parameter: the end of the parameters, or more of them
unfoldable pub params_next : {A : Type 0} → A → M A → ℕ → M A
unfolding advance
params_next res more c = if c == b')' then advance >> pure res else more

-- `do { Expr++; ... VariableOrConstant( ) ... } while( *Expr!=')' ); Expr++`: the values are put
-- together by `step`, and counted. The first number is fuel.
unfoldable pub fold_params : (ℤ → ℤ → ℤ) → ℕ → ℤ → ℕ → M (ℤ × ℕ)
unfolding advance variable_or_constant peek params_next
fold_params step zero res n = λ e. out_of_fuel
fold_params step (suc rounds) res n = do
  advance
  v ← variable_or_constant
  c ← peek
  params_next (step res v, suc n) (fold_params step rounds (step res v) (suc n)) c

-- The two parameters of POW and of the shifts. The second is 0 where the first one ends them.
unfoldable pub two_params : String → M (Option (ℤ × ℤ))
unfolding advance variable_or_constant peek syntax_error
two_params message = do
  advance
  a ← variable_or_constant
  c ← peek
  b ← (if c == b')' then pure (pos 0) else (advance >> variable_or_constant))
  d ← peek
  if d == b')' then advance >> pure (some (a, b)) else fail message none

abbrev pub abs_int : ℤ → ℤ
abs_int v = if ltb_ℤ v (pos 0) then mul_int v (negsuc 0) else v

unfoldable pub function_abs : M ℤ
unfolding advance variable_or_constant peek syntax_error
function_abs = do
  advance
  v ← variable_or_constant
  c ← peek
  if c == b')'
      then advance >> pure (abs_int v)
      else fail "Missing end ) after the only variable in ABS() function" (pos 0)

abbrev pub min_int : ℤ → ℤ → ℤ
min_int res v = if ltb_ℤ v res then v else res

abbrev pub max_int : ℤ → ℤ → ℤ
max_int res v = if ltb_ℤ res v then v else res

unfoldable pub function_mini : ℕ → M ℤ
unfolding fold_params
function_mini rounds = do r ← fold_params min_int rounds int_max 0; pure r.0

unfoldable pub function_maxi : ℕ → M ℤ
unfolding fold_params
function_maxi rounds = do r ← fold_params max_int rounds int_min 0; pure r.0

unfoldable pub function_avg : ℕ → M ℤ
unfolding fold_params
function_avg rounds = do r ← fold_params add_int rounds (pos 0) 0; pure (r.0 /ℤ pos r.1)

-- `return 0` where the parameters have an error
unfoldable pub on_params : (ℤ → ℤ → M ℤ) → Option (ℤ × ℤ) → M ℤ
on_params f none = pure (pos 0)
on_params f (some (a, b)) = f a b

unfoldable pub function_pow : M ℤ
unfolding two_params on_params pow_int
function_pow = do
  params ← two_params "Missing end ) in POW(a,b)"
  on_params (λ a b. pure (pow_int a b)) params

-- The bit that is shifted out goes to system variable 8, and in a rotation comes back in.
unfoldable pub shift_out : Bool → ℤ → ℤ → Bool → M ℤ
unfolding update_plc write_var
shift_out bit_out back res rotate = do
  update_plc (λ s. write_var s VarType.system (pos 8) (of_bool bit_out))
  pure (if rotate && bit_out then on_bits bit_or res back else res)

unfoldable pub function_left : Bool → M ℤ
unfolding two_params on_params shift_out
function_left rotate = do
  params ← two_params "Missing end ) in SLW(a,i) or ROL(a,i)"
  on_params (λ a b. shift_out (ltb_ℤ a (pos 0)) (pos 1) (shift_left a b) rotate) params

unfoldable pub function_right : Bool → M ℤ
unfolding two_params on_params shift_out
function_right rotate = do
  params ← two_params "Missing end ) in SRW(a,i) or ROR(a,i)"
  on_params
      (λ a b.
        shift_out (not (on_bits bit_and a (pos 1) ==ℤ pos 0)) int_min
          (on_bits bit_and (shift_right a b) int_max) rotate)
      params

unfoldable pub unknown_function : Text → M ℤ
unfolding set_expr syntax_error
unknown_function start = do set_expr start; fail "Unknown function" (pos 0)

abbrev pub is_name : List ℕ → String → Bool
is_name name s = same_text name (codes s)

-- The function of the name; `start` is where the name begins.
unfoldable pub call_function : ℕ → Text → List ℕ → M ℤ
unfolding same_text function_abs function_mini function_maxi function_avg function_pow function_left
    function_right unknown_function
call_function rounds start name =
    if is_name name "ABS"
    then function_abs
    else if is_name name "MINI"
    then function_mini rounds
    else if is_name name "MAXI"
    then function_maxi rounds
    else if is_name name "MOY" || is_name name "AVG"
    then function_avg rounds
    else if is_name name "POW"
    then function_pow
    else if is_name name "SHL" || is_name name "ROL"
    then function_left (is_name name "ROL")
    else if is_name name "SHR" || is_name name "ROR"
    then function_right (is_name name "ROR")
    else unknown_function start

unfoldable pub function : ℕ → M ℤ
unfolding call_function scan_name
function rounds = do
  start ← λ e. ok e.expr e
  name ← scan (scan_name 19)
  call_function rounds start name
