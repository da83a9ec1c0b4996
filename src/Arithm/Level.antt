-- ===== src/Arithm/Level.antt =====
-- src/arithm_eval.c: Term, MulDivMod, AddSub, And, Xor, Or and EvalExpression.
use classicladder.Common.{
  ℤ, ℕ, zero, suc, pos, ◌==◌, ◌==ℤ◌, Option, none, some, add_int, sub_int, mul_int, to_int, ◌/ℤ◌,
  ◌%ℤ◌, bit_and, bit_or, bit_xor, on_bits, to_bool, if◌then◌else◌,
}
use classicladder.State.{VarType}
use classicladder.Vars.{write_var}
use classicladder.Arithm.Machine.{
  Text, M, ok, out_of_fuel, pure, ◌>>=◌, ◌>>◌, peek, advance, syntax_error, failed, fail, is_upper,
  room,
}
use classicladder.Arithm.Lexeme.{constant, variable, is_constant_start}
use classicladder.Arithm.Function.{function}

-- What an operator does with the value so far and the value of its right side.
abbrev pub Operator : Type 0
Operator = ℤ → ℤ → M ℤ

-- WriteVar( VAR_SYSTEM, 7, TRUE ), unless the expression is only verified
unfoldable pub note_zero_divide : M (Unit {0})
unfolding write_var
note_zero_divide e = ok tt (
    if e.under_verify then e else record e { plc = write_var e.plc VarType.system (pos 7) (pos 1) })

-- A division, or a remainder, whose right side has an error leaves the value as it is. The smallest `int`
-- divided by -1, undefined in C, wraps here, and its remainder is 0.
unfoldable pub divide_by : (ℤ → ℤ → ℤ) → Operator
unfolding note_zero_divide failed
divide_by f res val = do
  error ← failed
  if error
      then pure res
      else if val ==ℤ pos 0
      then note_zero_divide >> pure (pos 0)
      else pure (f res val)

abbrev pub plain : (ℤ → ℤ → ℤ) → Operator
plain f res val = pure (f res val)

abbrev pub mul_div_mod_operator : ℕ → Option Operator
mul_div_mod_operator c =
    if c == b'*'
    then some (plain mul_int)
    else if c == b'/'
    then some (divide_by (λ a b. to_int (a /ℤ b)))
    else if c == b'%'
    then some (divide_by (λ a b. a %ℤ b))
    else none

abbrev pub add_sub_operator : ℕ → Option Operator
add_sub_operator c =
    if c == b'+' then some (plain add_int) else if c == b'-' then some (plain sub_int) else none

abbrev pub bits_operator : ℕ → (ℕ → ℕ → ℕ) → ℕ → Option Operator
bits_operator sign f c = if c == sign then some (plain (on_bits f)) else none

-- One round of the loop: an operator and its right side, or the end of the level.
unfoldable pub level_next : M ℤ → (ℤ → M ℤ) → ℤ → Option Operator → M ℤ
unfolding advance
level_next operand more res none = pure res
level_next operand more res (some f) = do advance; val ← operand; res' ← f res val; more res'

-- `while(1)` over the operators of one level. The number is fuel.
unfoldable pub level_loop : (ℕ → Option Operator) → M ℤ → ℕ → ℤ → M ℤ
unfolding failed peek level_next
level_loop operator operand zero res = λ e. out_of_fuel
level_loop operator operand (suc rounds) res = do
  error ← failed
  if error then pure res else (do
    c ← peek
    level_next operand (λ res'. level_loop operator operand rounds res') res (operator c))

unfoldable pub level : (ℕ → Option Operator) → ℕ → M ℤ → M ℤ
unfolding level_loop
level operator rounds operand = do res ← operand; level_loop operator operand rounds res

module _ (rounds : ℕ) (term : M ℤ) where
  unfoldable pub mul_div_mod : M ℤ
  unfolding level
  mul_div_mod = level mul_div_mod_operator rounds term

  unfoldable pub add_sub : M ℤ
  unfolding level mul_div_mod
  add_sub = level add_sub_operator rounds mul_div_mod

  unfoldable pub and_level : M ℤ
  unfolding level add_sub
  and_level = level (bits_operator b'&' bit_and) rounds add_sub

  unfoldable pub xor_level : M ℤ
  unfolding level and_level
  xor_level = level (bits_operator b'^' bit_xor) rounds and_level

  unfoldable pub or_level : M ℤ
  unfolding level xor_level
  or_level = level (bits_operator b'|' bit_or) rounds xor_level

unfoldable pub close_parenthesis : ℤ → M ℤ
unfolding advance peek syntax_error
close_parenthesis res = do
  c ← peek
  (if c == b')' then pure tt else syntax_error "Missing parenthesis )")
  advance
  pure res

-- `( ... )`
unfoldable pub parenthesis : M ℤ → M ℤ
unfolding advance close_parenthesis
parenthesis inner = do advance; res ← inner; close_parenthesis res

unfoldable pub negation : M ℤ → M ℤ
unfolding advance
negation inner = do advance; res ← inner; pure (if to_bool res then pos 0 else pos 1)

-- The kinds of terms, by their first character; `within` is what a parenthesis holds, `operand`
-- what a negation does.
unfoldable pub term_of : M ℤ → M ℤ → M ℤ → ℕ → M ℤ
unfolding parenthesis negation constant variable syntax_error is_constant_start
term_of within operand call c =
    if c == b'('
    then parenthesis within
    else if is_constant_start c
    then constant
    else if is_upper c
    then call
    else if c == b'@'
    then variable
    else if c == b'!'
    then negation operand
    else fail "Unknown term" (pos 0)

-- The number is fuel.
unfoldable pub term : ℕ → M ℤ
unfolding peek or_level term_of function
term zero = λ e. out_of_fuel
term (suc fuel) = do
  c ← peek
  term_of (λ e. or_level fuel (term fuel) e) (λ e. term fuel e) (function (suc fuel)) c

-- the check of what the expression leaves
unfoldable pub check_end : M (Unit {0})
unfolding peek syntax_error
check_end = do
  c ← peek
  if c == 0
      then pure tt
      else if c == b')'
      then syntax_error "Excess parenthesis )"
      else syntax_error "Unknown characters when evaluating !?"

-- Expr = text; ErrorDesc = NULL
abbrev pub start_at : Text → M (Unit {0})
start_at text e = ok tt (record e { expr = text; error_desc = none })

-- the end of EvalExpression: an error that there is already is kept
unfoldable pub finish_expression : ℤ → M ℤ
unfolding failed check_end
finish_expression res = do error ← failed; (if error then pure tt else check_end); pure res

unfoldable pub eval_expression_within : ℕ → Text → M ℤ
unfolding or_level term finish_expression
eval_expression_within fuel text = do
  start_at text
  res ← or_level fuel (term fuel)
  finish_expression res

-- EvalExpression, with fuel that is always enough
unfoldable pub eval_expression : Text → M ℤ
unfolding eval_expression_within
eval_expression text = eval_expression_within (suc (room text)) text
