-- ===== src/Arithm/Decimal.antt =====
-- Numbers and variables of expressions, written and read (src/arithm_eval.c, Constant and the
-- Identify functions).
use classicladder.Common.{
  ℕ, zero, suc, pos, negsuc, ◌+◌, ◌-◌, ◌*◌, ◌/◌, ◌%◌, ◌≤◌, ◌<◌, ◌≡◌, refl, ap, ◌∙◌, ◌==◌, ltb, List,
  [], ◌∷◌, ◌++◌, Bool, true, false, some, add_int, mul_int, to_int, ◌+ℤ◌, ◌*ℤ◌, Bool-cases, inl,
  inr, arith,
}
use mathlib.Core.List.{append_assoc}
use classicladder.Vars.{read_var}
use classicladder.Arithm.Machine.{Eval, ok, peek, advance, on_plc, set_expr, is_digit}
use classicladder.Arithm.Lexeme.{
  scan, scan_decimal, advance_if, constant, seek, skip_to, atoi, is_slash, is_var_end, is_at,
  slash_found, end_found, identify_var_content, with_index, final_of, value_of, flushed, flush_var,
  identify_var_indexed_or_not, identify_final_var, variable, var_type_of,
}
use classicladder.Arithm.Compare.{head_char}
use classicladder.Arithm.Syntax.{digits}

abbrev pub pow10 : ℕ → ℕ
pow10 zero = 1
pow10 (suc r) = 10 * pow10 r

-- one more digit
next_digit :
    (q d : ℕ)
    → q * 10 + d ≤ 2147483647
    → add_int (mul_int (pos 10) (pos q)) (pos d) ≡ pos (q * 10 + d)
unfolding to_int ◌+ℤ◌ ◌*ℤ◌
next_digit q d h = ground arith

scan_digit :
    (q d : ℕ) (rest : List ℕ)
    → d < 10
    → q * 10 + d ≤ 2147483647
    → scan_decimal (pos q) ((48 + d) ∷ rest) ≡ scan_decimal (pos (q * 10 + d)) rest
unfolding scan_decimal
scan_digit q d rest h k =
    let digit : is_digit (48 + d) ≡ true = ground arith in
    let value : 48 + d - 48 ≡ d = omega arith in rw (digit, value, next_digit q d k) refl

scan_digits :
    (r n : ℕ) (rest : List ℕ)
    → n < pow10 r
    → n ≤ 2147483647
    → scan_decimal (pos 0) (digits r n ++ rest) ≡ scan_decimal (pos n) rest
unfolding digits
scan_digits zero n rest h k = let z : n ≡ 0 = omega arith in rw z refl
scan_digits (suc r) n rest h k = elim (Bool-cases (ltb n 10)) [
  | inl s ↦
      let e : n ≡ 0 * 10 + n = omega arith in
      rw s (
        scan_digit 0 n rest (ground arith) (omega arith)
        ∙ ap (λ m. scan_decimal (pos m) rest) (omega arith))
  | inr s ↦
      let e : n / 10 * 10 + n % 10 ≡ n = omega arith in
      rw s (
        rw append_assoc (
          scan_digits r (n / 10) ((48 + n % 10) ∷ rest) (omega arith) (omega arith)
          ∙ scan_digit (n / 10) (n % 10) rest (omega arith) (omega arith)
          ∙ ap (λ m. scan_decimal (pos m) rest) e))
]

scan_stops :
    (n : ℕ) (rest : List ℕ)
    → is_digit (head_char rest) ≡ false
    → scan_decimal (pos n) rest ≡ (pos n, rest)
unfolding scan_decimal
scan_stops n [] h = refl
scan_stops n (c ∷ l) h = rw h refl

pub scan_number :
    (n : ℕ) (rest : List ℕ)
    → n ≤ 2147483647
    → is_digit (head_char rest) ≡ false
    → scan_decimal (pos 0) (digits 10 n ++ rest) ≡ (pos n, rest)
scan_number n rest h k = scan_digits 10 n rest (omega arith) h ∙ scan_stops n rest k

-- the characters are digits
abbrev AreDigits : List ℕ → Type 0
AreDigits [] = Unit {0}
AreDigits (c ∷ l) = (is_digit c ≡ true) × AreDigits l

AreDigits-append : (l : List ℕ) (c : ℕ) → AreDigits l → is_digit c ≡ true → AreDigits (l ++ c ∷ [])
AreDigits-append [] c h k = (k, tt)
AreDigits-append (d ∷ l) c h k = (h.0, AreDigits-append l c h.1 k)

digits-AreDigits : (r n : ℕ) → AreDigits (digits r n)
unfolding digits
digits-AreDigits zero n = tt
digits-AreDigits (suc r) n = elim (Bool-cases (ltb n 10)) [
  | inl s ↦ rw s (ground arith, tt)
  | inr s ↦ rw s (
      AreDigits-append (digits r (n / 10)) (48 + n % 10) (digits-AreDigits r (n / 10))
        (ground arith))
]

-- the first digit
pub head_char-digits :
    (r n : ℕ) (rest : List ℕ) → is_digit (head_char (digits (suc r) n ++ rest)) ≡ true
unfolding digits
head_char-digits zero n rest = elim (Bool-cases (ltb n 10)) [
  | inl s ↦ rw s (ground arith)
  | inr s ↦ rw s (ground arith)
]
head_char-digits (suc r) n rest = elim (Bool-cases (ltb n 10)) [
  | inl s ↦ rw s (ground arith)
  | inr s ↦ rw s (rw append_assoc (head_char-digits r (n / 10) ((48 + n % 10) ∷ rest)))
]

abbrev pub at : Eval → List ℕ → Eval
at e l = record e { expr = some l }

pub peek-at : (e : Eval) (l : List ℕ) → peek (at e l) ≡ ok (head_char l) (at e l)
unfolding peek
peek-at e [] = refl
peek-at e (c ∷ l) = refl

-- what starts with a digit is no sign, no `$` and no quote
digit_differs :
    (c : ℕ)
    → is_digit c ≡ true
    → ((c == b'-') ≡ false) × ((c == b'$') ≡ false) × ((c == 39) ≡ false)
digit_differs c h = (ground arith, ground arith, ground arith)

scan-at :
    (e : Eval) (n : ℕ) (rest : List ℕ)
    → n ≤ 2147483647
    → is_digit (head_char rest) ≡ false
    → scan (scan_decimal (pos 0)) (at e (digits 10 n ++ rest)) ≡ ok (pos n) (at e rest)
scan-at e n rest h k = rw (scan_number n rest h k) refl

negated : (n : ℕ) → n ≤ 2147483646 → mul_int (pos (suc n)) (negsuc 0) ≡ negsuc n
unfolding to_int ◌*ℤ◌
negated n h = ground arith

pub constant_pos :
    (e : Eval) (n : ℕ) (rest : List ℕ)
    → n ≤ 2147483647
    → is_digit (head_char rest) ≡ false
    → constant (at e (digits 10 n ++ rest)) ≡ ok (pos n) (at e rest)
unfolding constant advance_if
constant_pos e n rest h k =
    let l = digits 10 n ++ rest in
    let d = digit_differs (head_char l) (head_char-digits 9 n rest) in
    rw (peek-at e l, d.0, peek-at e l, d.1, d.2, scan-at e n rest h k) refl

pub constant_neg :
    (e : Eval) (n : ℕ) (rest : List ℕ)
    → n ≤ 2147483646
    → is_digit (head_char rest) ≡ false
    → constant (at e (b'-' ∷ (digits 10 (suc n) ++ rest))) ≡ ok (negsuc n) (at e rest)
unfolding constant advance_if advance peek
constant_neg e n rest h k =
    let l = digits 10 (suc n) ++ rest in
    let d = digit_differs (head_char l) (head_char-digits 9 (suc n) rest) in
    rw (peek-at e l, d.1, d.2) (rw (scan_number (suc n) rest (omega arith) k, negated n h) refl)

seek_over :
    (stop : ℕ → Bool) (l : List ℕ) (d : ℕ) (rest : List ℕ)
    → AreDigits l
    → ((c : ℕ) → is_digit c ≡ true → stop c ≡ false)
    → seek stop (l ++ d ∷ rest) ≡ seek stop (d ∷ rest)
unfolding seek
seek_over stop [] d rest h k = refl
seek_over stop (c ∷ l) d rest h k = rw (k c h.0) (seek_over stop l d rest h.1 k)

abbrev IsNonempty : List ℕ → Type 0
IsNonempty [] = ⊥
IsNonempty (c ∷ l) = Unit {0}

append-IsNonempty : (l : List ℕ) (c : ℕ) → IsNonempty (l ++ c ∷ [])
append-IsNonempty [] c = tt
append-IsNonempty (d ∷ l) c = tt

digits-IsNonempty : (r n : ℕ) → IsNonempty (digits (suc r) n)
unfolding digits
digits-IsNonempty r n = elim (Bool-cases (ltb n 10)) [
  | inl s ↦ rw s tt
  | inr s ↦ rw s (append-IsNonempty (digits r (n / 10)) (48 + n % 10))
]

-- The character that a pointer is on is passed unread.
skip_over :
    (stop : ℕ → Bool) (l : List ℕ) (d : ℕ) (rest : List ℕ)
    → IsNonempty l
    → AreDigits l
    → ((c : ℕ) → is_digit c ≡ true → stop c ≡ false)
    → skip_to stop (some (l ++ d ∷ rest)) ≡ some (seek stop (d ∷ rest))
unfolding skip_to
skip_over stop [] d rest n h k = elim n [ ]
skip_over stop (c ∷ l) d rest n h k = ap some (seek_over stop l d rest h.1 k)

-- the text of a variable behind its first `@`, with what follows it
abbrev pub coding : ℕ → ℕ → List ℕ → List ℕ
coding t i rest = digits 10 t ++ b'/' ∷ (digits 10 i ++ b'@' ∷ rest)

pos_scan :
    (n : ℕ) (rest : List ℕ)
    → n ≤ 2147483647
    → is_digit (head_char rest) ≡ false
    → (scan_decimal (pos 0) (digits 10 n ++ rest)).0 ≡ pos n
pos_scan n rest h k = ap (λ r. r.0) (scan_number n rest h k)

identify_coding :
    (e : Eval) (t i : ℕ) (rest : List ℕ)
    → t ≤ 2147483647
    → i ≤ 2147483647
    → identify_var_content (some (coding t i rest)) e
      ≡ ok (some (pos t, pos i, some (b'@' ∷ rest))) e
unfolding identify_var_content slash_found end_found atoi seek
identify_coding e t i rest h k =
    let one =
      skip_over is_slash (digits 10 t) b'/' (digits 10 i ++ b'@' ∷ rest) (digits-IsNonempty 9 t)
        (digits-AreDigits 10 t) (λ c d. ground arith) in
    let two =
      skip_over is_var_end (digits 10 i) b'@' rest (digits-IsNonempty 9 i) (digits-AreDigits 10 i)
        (λ c d. ground arith) in
    rw one (
      rw two (λ j.
        ok
          (some (
            pos_scan t (b'/' ∷ (digits 10 i ++ b'@' ∷ rest)) h refl j,
            pos_scan i (b'@' ∷ rest) k refl j,
            some (b'@' ∷ rest),
          ))
          e))

pub flush_coding :
    (e : Eval) (t i : ℕ) (rest : List ℕ)
    → flush_var (at e (b'@' ∷ coding t i rest)) ≡ ok tt (at e rest)
unfolding flush_var flushed seek set_expr
flush_coding e t i rest =
    let one =
      skip_over is_at (digits 10 t) b'/' (digits 10 i ++ b'@' ∷ rest) (digits-IsNonempty 9 t)
        (digits-AreDigits 10 t) (λ c d. ground arith) in
    let two =
      seek_over is_at (digits 10 i) b'@' rest (digits-AreDigits 10 i) (λ c d. ground arith) in
    rw (one, two) refl

pub final_coding :
    (e : Eval) (t i : ℕ) (rest : List ℕ)
    → t ≤ 2147483647
    → i ≤ 2147483647
    → identify_final_var (some (b'@' ∷ coding t i rest)) e ≡ ok (some (pos t, pos i)) e
unfolding identify_final_var identify_var_indexed_or_not with_index final_of on_plc
final_coding e t i rest h k = rw (identify_coding e t i rest h k) refl

pub variable-coding :
    (e : Eval) (t i : ℕ) (rest : List ℕ)
    → t ≤ 2147483647
    → i ≤ 2147483647
    → variable (at e (b'@' ∷ coding t i rest))
      ≡ ok (read_var e.plc (var_type_of (pos t)) (pos i)) (at e rest)
unfolding variable value_of on_plc
variable-coding e t i rest h k =
    rw (final_coding (at e (b'@' ∷ coding t i rest)) t i rest h k, flush_coding e t i rest) refl
