-- ===== src/Common/Words.antt =====
-- C's integer types. A `char` and an `int` are signed, of 8 and 32 bits, and a value that does not
-- fit is reduced modulo 2 ^ 8 or 2 ^ 32, as gcc does for a conversion.
use Prim.Native.Nat.{ℕ, ◌+◌, ◌-◌, ◌/◌, ◌%◌, ◌^◌}
use mathlib.Core.Path.{◌≡◌, refl}
use mathlib.Core.Bool.{Bool, true, false, not}
use native.Mathlib.Omega.{arith}
use classicladder.Common.Tests.{ltb, if◌then◌else◌}
use classicladder.Common.Int.{ℤ, pos, negsuc, ◌+ℤ◌, ◌-ℤ◌, ◌*ℤ◌, ◌≤ℤ◌, ◌==ℤ◌}

-- the low bits of a two's complement number, as a number below `m`
abbrev pub mod_ℤ : ℤ → ℕ → ℕ
mod_ℤ (pos n) m = n % m
mod_ℤ (negsuc n) m = m - 1 - n % m

-- the signed number that a pattern below `h + h` stands for
abbrev pub signed : ℕ → ℕ → ℤ
signed h w = if ltb w h then pos w else negsuc (h + h - w - 1)

unfoldable pub to_char : ℤ → ℤ
to_char z = signed 128 (mod_ℤ z 256)

unfoldable pub to_int : ℤ → ℤ
to_int z = signed 2147483648 (mod_ℤ z 4294967296)

unfoldable pub to_uchar : ℤ → ℕ
to_uchar z = mod_ℤ z 256

abbrev pub int_max : ℤ
int_max = pos 2147483647

abbrev pub int_min : ℤ
int_min = negsuc 2147483647

-- int additions, subtractions and products
abbrev pub add_int : ℤ → ℤ → ℤ
add_int a b = to_int (a +ℤ b)

abbrev pub sub_int : ℤ → ℤ → ℤ
sub_int a b = to_int (a -ℤ b)

abbrev pub mul_int : ℤ → ℤ → ℤ
mul_int a b = to_int (a *ℤ b)

-- a bitwise operation on the patterns of two ints
abbrev pub on_bits : (ℕ → ℕ → ℕ) → ℤ → ℤ → ℤ
on_bits f a b = to_int (pos (f (mod_ℤ a 4294967296) (mod_ℤ b 4294967296)))

-- `a << n` and `a >> n`. A count outside 0..31 has no meaning in C; here, as on x86, its five low
-- bits count.
abbrev pub shift_left : ℤ → ℤ → ℤ
shift_left a n = to_int (a *ℤ pos (2 ^ mod_ℤ n 32))

abbrev pub shift_right : ℤ → ℤ → ℤ
shift_right (pos a) n = pos (a / 2 ^ mod_ℤ n 32)
shift_right (negsuc a) n = negsuc (a / 2 ^ mod_ℤ n 32)

-- a number as the condition of an `if`
abbrev pub to_bool : ℤ → Bool
to_bool z = not (z ==ℤ pos 0)

-- a condition as a number
abbrev pub of_bool : Bool → ℤ
of_bool true = pos 1
of_bool false = pos 0

pub to_int_lem : (z : ℤ) → int_min ≤ℤ z → z ≤ℤ int_max → to_int z ≡ z
unfolding to_int
to_int_lem (pos n) lo hi = ground arith
to_int_lem (negsuc n) lo hi = ground arith

pub to_char-of_bool : (b : Bool) → to_char (of_bool b) ≡ of_bool b
unfolding to_char
to_char-of_bool true = refl
to_char-of_bool false = refl
