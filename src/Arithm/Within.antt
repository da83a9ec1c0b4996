-- ===== src/Arithm/Within.antt =====
-- The lexemes of src/arithm_eval.c end, and never move Expr back.
use classicladder.Common.{
  ℤ, ℕ, suc, pos, ◌-◌, ◌≤◌, ◌<◌, ◌≡◌, refl, ◌==◌, List, [], ◌∷◌, length, Bool, true, false, Option,
  none, some, String, arith, add_int, mul_int, to_char, Bool-cases, inl, inr, if◌then◌else◌,
}
use classicladder.State.{Plc}
use classicladder.Arithm.Machine.{
  Text, next, room, Eval, Run, M, ok, overrun, out_of_fuel, then_run, pure, ◌>>=◌, char_at, peek,
  advance, syntax_error, fail, on_plc, update_plc, is_digit,
}
use classicladder.Arithm.Lexeme.{
  scan, scan_decimal, hexa_digit, scan_hexa, scan_quoted, advance_if, character_constant, constant,
  seek, skip_to, is_slash, is_var_end, end_found, slash_found, identify_var_content, identify_index,
  index_of, with_index, final_of, value_of, unknown_variable, FoundVar, identify_var_indexed_or_not,
  identify_final_var, flush_var, flushed, variable, variable_or_constant, is_at,
}

-- The run does not run out of fuel, and where it gives a result it leaves Expr at most `n` to read.
abbrev pub Within : {A : Type 0} → ℕ → Run A → Type 0
Within n (ok a e) = room e.expr ≤ n
Within n overrun = Unit {0}
Within n out_of_fuel = ⊥

-- So does each part of the code that starts with at most `n` to read, for `n` below the bound.
pub record Keeps {A : Type 0} (bound : ℕ) (m : M A) : Type 0 where
  pub ends : (n : ℕ) (e : Eval) → n < bound → room e.expr ≤ n → Within n (m e)

pub Within-then_run :
    {A B : Type 0} (m n : ℕ) (r : Run A) (f : A → M B)
    → Within m r
    → ((a : A) (e : Eval) → room e.expr ≤ m → Within n (f a e))
    → Within n (then_run r f)
Within-then_run m n (ok a e) f h k = k a e h
Within-then_run m n overrun f h k = tt
Within-then_run m n out_of_fuel f h k = elim h [ ]

pub Within-mono : {A : Type 0} (m n : ℕ) (r : Run A) → m ≤ n → Within m r → Within n r
Within-mono m n (ok a e) h w = omega arith
Within-mono m n overrun h w = tt
Within-mono m n out_of_fuel h w = w

-- What is read is there.
pub Within-char_at :
    {B : Type 0} (n : ℕ) (p : Text) (e : Eval) (f : ℕ → M B)
    → ((c : ℕ) → 0 < room p → Within n (f c e))
    → Within n (then_run (char_at p e) f)
Within-char_at n none e f k = tt
Within-char_at n (some []) e f k = k 0 (omega arith)
Within-char_at n (some (c ∷ l)) e f k = k c (omega arith)

pub Within-peek :
    {B : Type 0} (n : ℕ) (e : Eval) (f : ℕ → M B)
    → ((c : ℕ) → 0 < room e.expr → Within n (f c e))
    → Within n (then_run (peek e) f)
unfolding peek
Within-peek n e f k = Within-char_at n e.expr e f k

room-next : (p : Text) (n : ℕ) → room p ≤ suc n → room (next p) ≤ n
room-next none n h = omega arith
room-next (some []) n h = omega arith
room-next (some (c ∷ l)) n h = omega arith

pub Within-advance : (n : ℕ) (e : Eval) → room e.expr ≤ suc n → Within n (advance e)
unfolding advance
Within-advance n e h = room-next e.expr n h

pub Keeps-advance : (bound : ℕ) → Keeps bound advance
Keeps-advance bound = record { ends = λ n e b h. Within-advance n e (omega arith) }

pub Keeps-syntax_error : (bound : ℕ) (message : String) → Keeps bound (syntax_error message)
unfolding syntax_error
Keeps-syntax_error bound message = record { ends = λ n e b h. h }

pub Keeps-fail : {A : Type 0} (bound : ℕ) (message : String) (a : A) → Keeps bound (fail message a)
unfolding syntax_error
Keeps-fail bound message a = record { ends = λ n e b h. h }

pub Keeps-update_plc : (bound : ℕ) (f : Plc → Plc) → Keeps bound (update_plc f)
unfolding update_plc
Keeps-update_plc bound f = record { ends = λ n e b h. h }

-- A loop over the characters leaves no more than it finds.
abbrev pub IsShortening : {A : Type 0} → (List ℕ → A × List ℕ) → Type 0
IsShortening f = (l : List ℕ) → length (f l).1 ≤ length l

scan_from :
    {A : Type 0} (f : List ℕ → A × List ℕ) (n : ℕ) (e : Eval) (p : Text)
    → IsShortening f
    → e.expr ≡ p
    → room p ≤ n
    → Within n (scan f e)
scan_from f n e none s q h = rw q tt
scan_from f n e (some l) s q h = rw q (omega (arith, s l))

pub Keeps-scan :
    {A : Type 0} (bound : ℕ) (f : List ℕ → A × List ℕ) → IsShortening f → Keeps bound (scan f)
Keeps-scan bound f s = record { ends = λ n e b h. scan_from f n e e.expr s refl h }

scan_decimal-IsShortening : (res : ℤ) → IsShortening (scan_decimal res)
unfolding scan_decimal
scan_decimal-IsShortening res [] = omega arith
scan_decimal-IsShortening res (c ∷ l) = elim (Bool-cases (is_digit c)) [
  | inl d ↦
      rw d
        (omega (arith, scan_decimal-IsShortening (add_int (mul_int (pos 10) res) (pos (c - 48))) l))
  | inr d ↦ rw d (omega arith)
]

scan_quoted-IsShortening : (res : ℤ) → IsShortening (scan_quoted res)
unfolding scan_quoted
scan_quoted-IsShortening res [] = omega arith
scan_quoted-IsShortening res (c ∷ l) = elim (Bool-cases (c == 39)) [
  | inl d ↦ rw d (omega arith)
  | inr d ↦ rw d (
      omega (arith, scan_quoted-IsShortening (add_int (mul_int (pos 256) res) (to_char (pos c))) l))
]

scan_hexa_step :
    (d : Option ℕ) (res : ℤ) (c : ℕ) (l : List ℕ)
    → ((v : ℕ) → length (scan_hexa (add_int (mul_int (pos 16) res) (pos v)) l).1 ≤ length l)
    → hexa_digit c ≡ d
    → length (scan_hexa res (c ∷ l)).1 ≤ suc (length l)
unfolding scan_hexa
scan_hexa_step none res c l k q = ground arith
scan_hexa_step (some v) res c l k q = ground (arith, k v)

scan_hexa-IsShortening : (res : ℤ) → IsShortening (scan_hexa res)
scan_hexa-IsShortening res [] = unfold scan_hexa in omega arith
scan_hexa-IsShortening res (c ∷ l) =
    scan_hexa_step (hexa_digit c) res c l
      (λ v. scan_hexa-IsShortening (add_int (mul_int (pos 16) res) (pos v)) l) refl

pub Keeps-pure : {A : Type 0} (bound : ℕ) (a : A) → Keeps bound (pure a)
Keeps-pure bound a = record { ends = λ n e b h. h }

pub Keeps-bind :
    {A B : Type 0} (bound : ℕ) (m : M A) (f : A → M B)
    → Keeps bound m
    → ((a : A) → Keeps bound (f a))
    → Keeps bound (m >>= f)
Keeps-bind bound m f k l = record {
  ends = λ n e b h. Within-then_run n n (m e) f (k.ends n e b h) (λ a e1 h1. (l a).ends n e1 b h1);
}

pub Keeps-if :
    {A : Type 0} (bound : ℕ) (c : Bool) (m m' : M A)
    → Keeps bound m
    → Keeps bound m'
    → Keeps bound (if c then m else m')
Keeps-if bound true m m' k k' = k
Keeps-if bound false m m' k k' = k'

pub Keeps-char_at : (bound : ℕ) (p : Text) → Keeps bound (char_at p)
Keeps-char_at bound none = record { ends = λ n e b h. tt }
Keeps-char_at bound (some []) = record { ends = λ n e b h. h }
Keeps-char_at bound (some (c ∷ l)) = record { ends = λ n e b h. h }

pub Keeps-peek : (bound : ℕ) → Keeps bound peek
unfolding peek
Keeps-peek bound = record { ends = λ n e b h. (Keeps-char_at bound e.expr).ends n e b h }

pub Keeps-advance_if : (bound : ℕ) (b : Bool) → Keeps bound (advance_if b)
unfolding advance_if
Keeps-advance_if bound true = record { ends = λ n e b h. (Keeps-advance bound).ends n e b h }
Keeps-advance_if bound false = record { ends = λ n e b h. h }

pub ruleset keeps = (
  Keeps-pure, Keeps-bind, Keeps-if, Keeps-char_at, Keeps-peek, Keeps-advance, Keeps-advance_if,
  Keeps-syntax_error, Keeps-update_plc, Keeps-scan,
)

Keeps-character_constant : (bound : ℕ) → Keeps bound character_constant
unfolding character_constant
Keeps-character_constant bound = search (keeps, scan_quoted-IsShortening)

pub Keeps-constant : (bound : ℕ) → Keeps bound constant
unfolding constant
Keeps-constant bound =
    search (keeps, Keeps-character_constant, scan_decimal-IsShortening, scan_hexa-IsShortening)
      depth 12

-- nothing is moved by what only reads a variable
Keeps-end_found :
    (bound : ℕ) (p : Text) (after : List ℕ) (found : Option (List ℕ))
    → Keeps bound (end_found p after found)
unfolding end_found
Keeps-end_found bound p after none = record { ends = λ n e b h. tt }
Keeps-end_found bound p after (some []) = search keeps
Keeps-end_found bound p after (some (d ∷ end)) = search keeps

Keeps-slash_found :
    (bound : ℕ) (p : Text) (found : Option (List ℕ)) → Keeps bound (slash_found p found)
unfolding slash_found
Keeps-slash_found bound p none = record { ends = λ n e b h. tt }
Keeps-slash_found bound p (some []) = search keeps
Keeps-slash_found bound p (some (c ∷ after)) =
    Keeps-end_found bound p after (skip_to is_var_end (some after))

Keeps-identify_var_content : (bound : ℕ) (p : Text) → Keeps bound (identify_var_content p)
unfolding identify_var_content
Keeps-identify_var_content bound p = Keeps-slash_found bound p (skip_to is_slash p)

Keeps-on_plc : {A : Type 0} (bound : ℕ) (f : Plc → A) → Keeps bound (on_plc f)
unfolding on_plc
Keeps-on_plc bound f = record { ends = λ n e b h. h }

Keeps-unknown : (bound : ℕ) → Keeps bound unknown_variable
Keeps-unknown bound = Keeps-fail bound "Bad var coding (unknown variable)" none

identified :
    (bound : ℕ) (t o : ℤ) (found : Option (ℤ × ℤ × Text)) → Keeps bound (index_of t o found)
unfolding index_of
identified bound t o none = Keeps-unknown bound
identified bound t o (some (it, io, q)) = Keeps-pure bound _

Keeps-identify_index : (bound : ℕ) (t o : ℤ) (p : Text) → Keeps bound (identify_index t o p)
unfolding identify_index
Keeps-identify_index bound t o p =
    Keeps-bind bound _ _ (Keeps-identify_var_content bound (next p)) (identified bound t o)

Keeps-with_index : (bound : ℕ) (found : Option (ℤ × ℤ × Text)) → Keeps bound (with_index found)
unfolding with_index
Keeps-with_index bound none = Keeps-unknown bound
Keeps-with_index bound (some (t, o, q)) = search (keeps, Keeps-identify_index)

Keeps-identify_var : (bound : ℕ) (p : Text) → Keeps bound (identify_var_indexed_or_not p)
unfolding identify_var_indexed_or_not
Keeps-identify_var bound p =
    search (keeps, Keeps-fail, Keeps-identify_var_content, Keeps-with_index) depth 8

Keeps-final_of : (bound : ℕ) (found : Option FoundVar) → Keeps bound (final_of found)
unfolding final_of
Keeps-final_of bound none = Keeps-pure bound none
Keeps-final_of bound (some v) = search (keeps, Keeps-on_plc)

pub Keeps-identify_final_var : (bound : ℕ) (p : Text) → Keeps bound (identify_final_var p)
unfolding identify_final_var
Keeps-identify_final_var bound p = search (keeps, Keeps-identify_var, Keeps-final_of)

length-seek : (stop : ℕ → Bool) (l : List ℕ) → length (seek stop l) ≤ length l
unfolding seek
length-seek stop [] = omega arith
length-seek stop (c ∷ l) = elim (Bool-cases (stop c)) [
  | inl d ↦ rw d (omega arith)
  | inr d ↦ rw d (omega (arith, length-seek stop l))
]

flush_from : (n : ℕ) (e : Eval) (p : Text) → room p ≤ n → Within n (flushed (skip_to is_at p) e)
unfolding flushed skip_to
flush_from n e none h = tt
flush_from n e (some []) h = tt
flush_from n e (some (c ∷ l)) h =
    room-next (some (seek is_at l)) n (omega (arith, length-seek is_at l))

pub Keeps-flush_var : (bound : ℕ) → Keeps bound flush_var
unfolding flush_var
Keeps-flush_var bound = record {
  ends = λ n e b h. flush_from n e (next e.expr) (room-next e.expr n (omega arith));
}

Keeps-value_of : (bound : ℕ) (found : Option (ℤ × ℤ)) → Keeps bound (value_of found)
unfolding value_of
Keeps-value_of bound none = Keeps-pure bound (pos 0)
Keeps-value_of bound (some (t, o)) = search (keeps, Keeps-flush_var, Keeps-on_plc)

pub Keeps-variable : (bound : ℕ) → Keeps bound variable
unfolding variable
Keeps-variable bound =
    Keeps-bind bound _ _
      (record { ends = λ n e b h. (Keeps-identify_final_var bound e.expr).ends n e b h })
      (Keeps-value_of bound)

pub Keeps-variable_or_constant : (bound : ℕ) → Keeps bound variable_or_constant
unfolding variable_or_constant
Keeps-variable_or_constant bound = search (keeps, Keeps-fail, Keeps-variable, Keeps-constant)
