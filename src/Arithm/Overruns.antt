-- ===== src/Arithm/Overruns.antt =====
-- A function of expressions that is not closed (src/arithm_eval.c, Function).
use classicladder.Common.{
  subst, ◌==◌, arith, ℤ, ℕ, suc, pos, ◌≤◌, ◌≡◌, refl, ap, ◌∙◌, List, [], ◌∷◌, ◌++◌, length, true,
  false, Option, none, some, bit_and, bit_or, bit_xor, if◌then◌else◌,
}
use mathlib.Core.List.{append-nil}
use classicladder.Arithm.Machine.{Eval, ok, overrun, M, fail, then_run, peek, advance, is_digit}
use classicladder.Arithm.Lexeme.{constant, variable, variable_or_constant, is_constant_start}
use classicladder.Arithm.Function.{
  min_int, scan_name, same_text, params_next, fold_params, function_mini, call_function, function,
}
use classicladder.Arithm.Level.{
  Operator, level_loop, bits_operator, add_sub_operator, mul_div_mod_operator, finish_expression,
  level, or_level, xor_level, and_level, add_sub, mul_div_mod, term_of, term, eval_expression,
  eval_expression_within,
}
use classicladder.Arithm.Syntax.{digits}
use classicladder.Arithm.Compare.{head_char}
use classicladder.Arithm.Decimal.{at, head_char-digits, constant_pos, peek-at}

abbrev parameter_wrong : M ℤ
parameter_wrong = fail "Parameter in a function that is neither a variable nor a constant !" (pos 0)

parameter_of : ℕ → M ℤ
parameter_of c =
    if c == b'@' then variable else if is_constant_start c then constant else parameter_wrong

parameter_of_digit : (c : ℕ) → is_digit c ≡ true → parameter_of c ≡ constant
unfolding parameter_of is_constant_start
parameter_of_digit c h = let differs : (c == b'@') ≡ false = ground arith in rw (differs, h) refl

parameter_digit :
    (e : Eval) (l : List ℕ)
    → is_digit (head_char l) ≡ true
    → variable_or_constant (at e l) ≡ constant (at e l)
unfolding variable_or_constant parameter_of
parameter_digit e l h =
    ap (λ r. then_run r parameter_of) (peek-at e l)
    ∙ ap (λ (m : M ℤ). m (at e l)) (parameter_of_digit (head_char l) h)

constant_all :
    (e : Eval) (n : ℕ)
    → n ≤ 2147483647
    → variable_or_constant (at e (digits 10 n)) ≡ ok (pos n) (at e [])
constant_all e n h =
    subst (λ l. variable_or_constant (at e l) ≡ ok (pos n) (at e [])) (append-nil (digits 10 n))
      (parameter_digit e (digits 10 n ++ []) (head_char-digits 9 n []) ∙ constant_pos e n [] h refl)

fold_params_overruns :
    (step : ℤ → ℤ → ℤ) (rounds : ℕ) (res : ℤ) (k n : ℕ) (e : Eval)
    → n ≤ 2147483647
    → fold_params step (suc (suc rounds)) res k (at e (b'(' ∷ digits 10 n)) ≡ overrun
unfolding fold_params params_next advance
fold_params_overruns step rounds res k n e h = rw (constant_all e n h) refl

function_overruns :
    (f n : ℕ) (e : Eval)
    → n ≤ 2147483647
    → function (suc (suc f)) (at e (b'M' ∷ b'I' ∷ b'N' ∷ b'I' ∷ b'(' ∷ digits 10 n)) ≡ overrun
unfolding function call_function function_mini same_text scan_name
function_overruns f n e h = rw (fold_params_overruns min_int f (pos 2147483647) 0 n e h) refl

level_overruns :
    (operator : ℕ → Option Operator) (rounds : ℕ) (operand : M ℤ) (e : Eval)
    → operand e ≡ overrun
    → level operator rounds operand e ≡ overrun
unfolding level
level_overruns operator rounds operand e h =
    ap (λ r. then_run r (level_loop operator operand rounds)) h

or_level_overruns : (f : ℕ) (t : M ℤ) (e : Eval) → t e ≡ overrun → or_level f t e ≡ overrun
unfolding or_level xor_level and_level add_sub mul_div_mod
or_level_overruns f t e h = level_overruns (bits_operator b'|' bit_or) f (xor_level f t) e (
    level_overruns (bits_operator b'^' bit_xor) f (and_level f t) e (
      level_overruns (bits_operator b'&' bit_and) f (add_sub f t) e (
        level_overruns add_sub_operator f (mul_div_mod f t) e
          (level_overruns mul_div_mod_operator f t e h))))

term_calls :
    (f : ℕ) (e : Eval) (l : List ℕ)
    → term (suc f) (at e (b'M' ∷ l)) ≡ function (suc f) (at e (b'M' ∷ l))
unfolding term term_of peek is_constant_start
term_calls f e l = refl

-- A list of parameters that is not closed is read past the end of the expression, whatever the number in
-- it: nothing but a `)` ends the loop over the parameters.
pub mini_overruns :
    (n : ℕ) (e : Eval)
    → n ≤ 2147483647
    → eval_expression (some (b'M' ∷ b'I' ∷ b'N' ∷ b'I' ∷ b'(' ∷ digits 10 n)) e ≡ overrun
unfolding eval_expression eval_expression_within
mini_overruns n e h =
    let l = b'M' ∷ b'I' ∷ b'N' ∷ b'I' ∷ b'(' ∷ digits 10 n in
    let f = suc (length l) in
    let start : Eval = record e { error_desc = none } in
    let out = or_level_overruns (suc f) (term (suc f)) (at start l) (
      term_calls f start (b'I' ∷ b'N' ∷ b'I' ∷ b'(' ∷ digits 10 n)
      ∙ function_overruns (length l) n start h) in
    ap (λ r. then_run r finish_expression) out
