-- ===== src/Arithm/Syntax.antt =====
-- Arithmetic expressions as trees: how they are written, and what they mean.
use classicladder.Common.{
  ℤ, ℕ, zero, suc, pos, negsuc, ◌+◌, ◌-◌, ◌/◌, ◌%◌, ◌≤◌, ◌==ℤ◌, leb, ltb, List, [], ◌∷◌, ◌++◌, Bool,
  true, false, add_int, sub_int, mul_int, to_int, ◌/ℤ◌, ◌%ℤ◌, bit_and, bit_or, bit_xor, on_bits,
  to_bool, of_bool, not, if◌then◌else◌,
}
use classicladder.State.{VarType, Plc}
use classicladder.Vars.{read_var, write_var}
use classicladder.Arithm.Lexeme.{var_type_of}

pub data Operation : Type 0 where
  multiply divide remainder add subtract both either any : Operation

-- A variable has the numbers of its type and of its place.
pub data Tree : Type 0 where
  number : ℤ → Tree
  variable : ℕ → ℕ → Tree
  inverse : Tree → Tree
  binary : Operation → Tree → Tree → Tree

-- The levels of the operations, the tightest first.
abbrev pub level_of : Operation → ℕ
level_of multiply = 1
level_of divide = 1
level_of remainder = 1
level_of add = 2
level_of subtract = 2
level_of both = 3
level_of either = 4
level_of any = 5

abbrev pub sign : Operation → ℕ
sign multiply = b'*'
sign divide = b'/'
sign remainder = b'%'
sign add = b'+'
sign subtract = b'-'
sign both = b'&'
sign either = b'^'
sign any = b'|'

-- The decimal digits of a number below 10 ^ `rounds`
unfoldable pub digits : ℕ → ℕ → List ℕ
digits zero n = []
digits (suc rounds) n =
    if ltb n 10 then (48 + n) ∷ [] else digits rounds (n / 10) ++ (48 + n % 10) ∷ []

abbrev pub number_text : ℤ → List ℕ
number_text (pos n) = digits 10 n
number_text (negsuc n) = b'-' ∷ digits 10 (suc n)

abbrev pub height : Tree → ℕ
height (binary op a b) = level_of op
height _ = 0

abbrev pub wrap : Bool → List ℕ → List ℕ
wrap true l = l
wrap false l = b'(' ∷ (l ++ b')' ∷ [])

-- The text of an expression, with the parentheses that the levels need: operations of one level
-- group to the left.
unfoldable pub text : Tree → List ℕ
unfolding digits
text (number z) = number_text z
text (variable t i) = b'@' ∷ (digits 10 t ++ b'/' ∷ (digits 10 i ++ b'@' ∷ []))
text (inverse a) = b'!' ∷ wrap (leb (height a) 0) (text a)
text (binary op a b) =
    wrap (leb (height a) (level_of op)) (text a)
    ++ sign op ∷ wrap (leb (height b) (level_of op - 1)) (text b)

-- A division by zero gives 0, and is noted in system variable 7.
abbrev pub divided : (ℤ → ℤ → ℤ) → ℤ → ℤ → Plc → ℤ × Plc
divided f a b s =
    if b ==ℤ pos 0 then (pos 0, write_var s VarType.system (pos 7) (pos 1)) else (f a b, s)

unfoldable pub apply : Operation → ℤ → ℤ → Plc → ℤ × Plc
unfolding write_var
apply multiply a b s = (mul_int a b, s)
apply divide a b s = divided (λ x y. to_int (x /ℤ y)) a b s
apply remainder a b s = divided (λ x y. x %ℤ y) a b s
apply add a b s = (add_int a b, s)
apply subtract a b s = (sub_int a b, s)
apply both a b s = (on_bits bit_and a b, s)
apply either a b s = (on_bits bit_xor a b, s)
apply any a b s = (on_bits bit_or a b, s)

-- the value of an expression, and the state that its divisions by zero leave
unfoldable pub meaning : Tree → Plc → ℤ × Plc
unfolding apply read_var var_type_of
meaning (number z) s = (z, s)
meaning (variable t i) s = (read_var s (var_type_of (pos t)) (pos i), s)
meaning (inverse a) s = let (v, s') = meaning a s in (of_bool (not (to_bool v)), s')
meaning (binary op a b) s =
    let (v, s1) = meaning a s in let (w, s2) = meaning b s1 in apply op v w s2

-- The numbers of an expression are `int`s, and those of its variables are not negative.
abbrev pub IsWritable : Tree → Type 0
IsWritable (number (pos n)) = n ≤ 2147483647
IsWritable (number (negsuc n)) = n ≤ 2147483646
IsWritable (variable t i) = (t ≤ 2147483647) × (i ≤ 2147483647)
IsWritable (inverse a) = IsWritable a
IsWritable (binary op a b) = IsWritable a × IsWritable b
