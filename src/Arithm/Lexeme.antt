-- ===== src/Arithm/Lexeme.antt =====
-- src/arithm_eval.c: pow_int, Constant, the Identify functions, Variable and VariableOrConstant.
use classicladder.Common.{
  ℤ, ℕ, zero, suc, pos, negsuc, ◌-◌, ◌==◌, ◌==ℤ◌, leb, not, ◌&&◌, ◌||◌, List, [], ◌∷◌, Bool, Option,
  none, some, add_int, mul_int, to_char, if◌then◌else◌, for_below,
}
use classicladder.State.{VarType}
use classicladder.Vars.{read_var}
use classicladder.Arithm.Machine.{
  Text, next, M, ok, overrun, pure, ◌>>=◌, ◌>>◌, char_at, peek, advance, set_expr, syntax_error,
  fail, on_plc, is_digit,
}

-- the product of `b` factors, and `a` where `b` is negative
unfoldable pub pow_int : ℤ → ℤ → ℤ
unfolding for_below
pow_int a (pos zero) = pos 1
pow_int a (pos (suc b)) = for_below b (λ x res. mul_int res a) a
pow_int a (negsuc b) = a

-- a loop that consumes characters of Expr
abbrev pub scan : {A : Type 0} → (List ℕ → A × List ℕ) → M A
scan f e = elim e.expr [ none ↦ overrun | some l ↦ ok (f l).0 (record e { expr = some (f l).1 }) ]

unfoldable pub scan_decimal : ℤ → List ℕ → ℤ × List ℕ
scan_decimal res [] = (res, [])
scan_decimal res (c ∷ l) =
    let more = scan_decimal (add_int (mul_int (pos 10) res) (pos (c - 48))) l in
    if is_digit c then more else (res, c ∷ l)

-- the value of a hexadecimal digit
abbrev pub hexa_digit : ℕ → Option ℕ
hexa_digit c =
    if is_digit c
    then some (c - 48)
    else if leb b'A' c && leb c b'F'
    then some (c - 55)
    else if leb b'a' c && leb c b'f'
    then some (c - 87)
    else none

unfoldable pub scan_hexa : ℤ → List ℕ → ℤ × List ℕ
scan_hexa res [] = (res, [])
scan_hexa res (c ∷ l) = elim (hexa_digit c) [
  | none ↦ (res, c ∷ l)
  | some d ↦ scan_hexa (add_int (mul_int (pos 16) res) (pos d)) l
]

unfoldable pub scan_quoted : ℤ → List ℕ → ℤ × List ℕ
scan_quoted res [] = (res, [])
scan_quoted res (c ∷ l) =
    let more = scan_quoted (add_int (mul_int (pos 256) res) (to_char (pos c))) l in
    if c == 39 then (res, c ∷ l) else more

unfoldable pub advance_if : Bool → M (Unit {0})
unfolding advance
advance_if b e = if b then advance e else ok tt e

-- a character constant; its end quote stays in Expr
unfoldable pub character_constant : M ℤ
unfolding advance peek syntax_error scan_quoted
character_constant = do
  advance
  res ← scan (scan_quoted (pos 0))
  c ← peek
  if c == 39 then pure res else fail "Missing end ' in character constant" (pos 0)

unfoldable pub constant : M ℤ
unfolding peek advance advance_if scan_hexa scan_decimal character_constant
constant = do
  sign ← peek
  advance_if (sign == b'-')
  c ← peek
  res ←
      (if c == b'$'
        then advance >> scan (scan_hexa (pos 0))
        else if c == 39
        then character_constant
        else scan (scan_decimal (pos 0)))
  pure (if sign == b'-' then mul_int res (negsuc 0) else res)

-- `while( *p != stop && *p != 0 ) p++`
unfoldable pub seek : (ℕ → Bool) → List ℕ → List ℕ
seek stop [] = []
seek stop (c ∷ l) = let more = seek stop l in if stop c then c ∷ l else more

-- `do p++; while( *p != stop && *p != 0 )`, `none` where this reads past the end
unfoldable pub skip_to : (ℕ → Bool) → Text → Option (List ℕ)
unfolding seek
skip_to stop p = elim (next p) [ none ↦ none | some l ↦ some (seek stop l) ]

-- The atoi of this file, which is built where there is no C library.
unfoldable pub atoi : Text → ℤ
unfolding scan_decimal
atoi none = pos 0
atoi (some l) = (scan_decimal (pos 0) l).0

abbrev pub is_slash : ℕ → Bool
is_slash c = c == b'/'

abbrev pub is_var_end : ℕ → Bool
is_var_end c = c == b'@' || c == b'['

abbrev pub is_at : ℕ → Bool
is_at c = c == b'@'

-- what IdentifyVarContent finds at the end of the offset, and before that behind the type
unfoldable pub end_found : Text → List ℕ → Option (List ℕ) → M (Option (ℤ × ℤ × Text))
unfolding atoi syntax_error
end_found p after none = λ e. overrun
end_found p after (some []) = fail "Bad var coding (err=2), should be @xx/yy@" none
end_found p after (some (d ∷ end)) = pure (some (atoi p, atoi (some after), some (d ∷ end)))

unfoldable pub slash_found : Text → Option (List ℕ) → M (Option (ℤ × ℤ × Text))
unfolding skip_to end_found syntax_error
slash_found p none = λ e. overrun
slash_found p (some []) = fail "Bad var coding (err=1), should have a / for xx/yy form" none
slash_found p (some (c ∷ after)) = end_found p after (skip_to is_var_end (some after))

-- IdentifyVarContent: the type, the offset and the pointer to what ends them
unfoldable pub identify_var_content : Text → M (Option (ℤ × ℤ × Text))
unfolding skip_to slash_found
identify_var_content p = slash_found p (skip_to is_slash p)

-- The numbers of the types (src/classicladder.h).
unfoldable pub var_type_of : ℤ → VarType
var_type_of (negsuc n) = VarType.unknown
var_type_of (pos n) =
    if n == 0
    then VarType.mem_bit
    else if n == 10
    then VarType.timer_done
    else if n == 11
    then VarType.timer_running
    else if n == 15
    then VarType.timer_iec_done
    else if n == 20
    then VarType.monostable_running
    else if n == 25
    then VarType.counter_done
    else if n == 26
    then VarType.counter_empty
    else if n == 27
    then VarType.counter_full
    else if n == 30
    then VarType.step_activity
    else if n == 50
    then VarType.phys_input
    else if n == 60
    then VarType.phys_output
    else if n == 65
    then VarType.user_led
    else if n == 70
    then VarType.system
    else if n == 80
    then VarType.register_empty
    else if n == 81
    then VarType.register_full
    else if n == 200
    then VarType.mem_word
    else if n == 220
    then VarType.step_time
    else if n == 230
    then VarType.timer_preset
    else if n == 231
    then VarType.timer_value
    else if n == 240
    then VarType.monostable_preset
    else if n == 241
    then VarType.monostable_value
    else if n == 250
    then VarType.counter_preset
    else if n == 251
    then VarType.counter_value
    else if n == 260
    then VarType.timer_iec_preset
    else if n == 261
    then VarType.timer_iec_value
    else if n == 270
    then VarType.phys_word_input
    else if n == 280
    then VarType.phys_word_output
    else if n == 290
    then VarType.word_system
    else if n == 300
    then VarType.register_in_value
    else if n == 301
    then VarType.register_out_value
    else if n == 302
    then VarType.register_nbr_values
    else VarType.unknown

-- ResIndexType and ResIndexOffset are -1 without an index.
pub record FoundVar : Type 0 where
  pub type : ℤ
  pub offset : ℤ
  pub index_type : ℤ
  pub index_offset : ℤ

abbrev pub unknown_variable : M (Option FoundVar)
unknown_variable = fail "Bad var coding (unknown variable)" none

unfoldable pub index_of : ℤ → ℤ → Option (ℤ × ℤ × Text) → M (Option FoundVar)
unfolding syntax_error
index_of t o none = unknown_variable
index_of t o (some (it, io, q)) =
    pure (some (record { type = t; offset = o; index_type = it; index_offset = io }))

-- the index of a variable, at its `[`
unfoldable pub identify_index : ℤ → ℤ → Text → M (Option FoundVar)
unfolding identify_var_content index_of
identify_index t o p = do found ← identify_var_content (next p); index_of t o found

-- what follows the type and the offset
unfoldable pub with_index : Option (ℤ × ℤ × Text) → M (Option FoundVar)
unfolding identify_index syntax_error
with_index none = unknown_variable
with_index (some (t, o, q)) = do
  d ← char_at q
  if d == b'['
      then identify_index t o q
      else pure
          (some (record { type = t; offset = o; index_type = negsuc 0; index_offset = negsuc 0 }))

unfoldable pub identify_var_indexed_or_not : Text → M (Option FoundVar)
unfolding identify_var_content with_index syntax_error
identify_var_indexed_or_not p = do
  c ← char_at p
  if not (c == b'@')
      then fail "Bad var coding (err=0), should start with @ for @xx/yy@ form" none
      else (do found ← identify_var_content (next p); with_index found)

-- The variable of the text, at the index that its index variable holds.
unfoldable pub final_of : Option FoundVar → M (Option (ℤ × ℤ))
unfolding read_var var_type_of on_plc
final_of none = pure none
final_of (some v) = do
  index ← on_plc (λ s. read_var s (var_type_of v.index_type) v.index_offset)
  pure (
      some (
        v.type,
        if not (v.index_type ==ℤ negsuc 0) && not (v.index_offset ==ℤ negsuc 0)
            then add_int v.offset index
            else v.offset,
      ))

unfoldable pub identify_final_var : Text → M (Option (ℤ × ℤ))
unfolding identify_var_indexed_or_not final_of
identify_final_var p = do found ← identify_var_indexed_or_not p; final_of found

unfoldable pub flushed : Option (List ℕ) → M (Unit {0})
unfolding set_expr
flushed none = λ e. overrun
flushed (some l) = set_expr (next (some l))

-- `Expr++; do Expr++; while( *Expr!='@' && *Expr!='\0' ); Expr++`
unfoldable pub flush_var : M (Unit {0})
unfolding skip_to flushed
flush_var e = flushed (skip_to is_at (next e.expr)) e

unfoldable pub value_of : Option (ℤ × ℤ) → M ℤ
unfolding flush_var on_plc var_type_of read_var
value_of none = pure (pos 0)
value_of (some (t, o)) = do flush_var; on_plc (λ s. read_var s (var_type_of t) o)

unfoldable pub variable : M ℤ
unfolding identify_final_var value_of
variable = do found ← λ e. identify_final_var e.expr e; value_of found

unfoldable pub is_constant_start : ℕ → Bool
is_constant_start c = is_digit c || (c == b'-' || (c == b'$' || c == 39))

unfoldable pub variable_or_constant : M ℤ
unfolding peek variable constant syntax_error is_constant_start
variable_or_constant = do
  c ← peek
  if c == b'@'
      then variable
      else if is_constant_start c
      then constant
      else fail "Parameter in a function that is neither a variable nor a constant !" (pos 0)
