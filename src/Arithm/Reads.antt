-- ===== src/Arithm/Reads.antt =====
-- The text of a tree is read as what the tree means (src/arithm_eval.c).
use classicladder.Common.{
  ℤ, ℕ, zero, suc, pos, negsuc, ◌+◌, ◌-◌, ◌≤◌, ◌<◌, ◌≡◌, refl, sym, ap, ◌∙◌, ◌==◌, leb, List, [],
  ◌∷◌, ◌++◌, length, length-append, Bool, true, false, Option, some, String, Bool-cases, inl, inr,
  arith, subst, if◌then◌else◌, not, to_bool, of_bool, ◌==ℤ◌, mul_int, add_int, sub_int, to_int,
  ◌/ℤ◌, ◌%ℤ◌, on_bits, bit_and, bit_or, bit_xor,
}
use classicladder.State.{Plc}
use classicladder.Arithm.Machine.{Eval, ok, M, then_run, peek, advance, failed, is_digit}
use classicladder.Arithm.Lexeme.{constant, is_constant_start}
use mathlib.Core.List.{append_assoc, append-nil}
use classicladder.Arithm.Function.{function}
use classicladder.Arithm.Level.{
  Operator, plain, note_zero_divide, divide_by, term_of, term, negation, or_level, xor_level,
  and_level, add_sub, mul_div_mod, eval_expression, eval_expression_within, finish_expression,
  check_end,
}
use classicladder.Arithm.Syntax.{
  Operation, multiply, divide, remainder, add, subtract, both, either, any, Tree, number, variable,
  inverse, binary, level_of, sign, digits, number_text, height, wrap, text, divided, apply, meaning,
  IsWritable,
}
use classicladder.Arithm.Compare.{head_char}
use classicladder.Arithm.Decimal.{head_char-digits, constant_pos, constant_neg, variable-coding}
use classicladder.Arithm.Denotes.{
  ops_at, level_at, st, Stops, Meaning, Denotes, Runs, Implements, both_of, Runs-operand,
  Denotes-Runs, Runs-step, Denotes-raise, Denotes-wrapped, peek-st,
}

-- Which levels read a text at once: the terms, or a loop with enough rounds left.
abbrev Reads : ℕ → ℕ → List ℕ → Meaning → Type 0
Reads f zero l μ = Denotes 0 (term f) l μ
Reads f (suc j) l μ = (r : ℕ) × (f ≤ r + length l) × Runs f j l μ r

abbrev IsRead : ℕ → List ℕ → Meaning → Type 0
IsRead h l μ = (f : ℕ) → length l < f → Reads f h l μ

Denotes-Reads :
    (f h : ℕ) (l : List ℕ) (μ : Meaning)
    → length l < f
    → Reads f h l μ
    → Denotes h (level_at f h) l μ
Denotes-Reads f zero l μ n d = d
Denotes-Reads f (suc j) l μ n (zero, h, run) = absurd (omega arith)
Denotes-Reads f (suc j) l μ n (suc r, h, run) = Denotes-Runs f j l μ r run

Denotes-read :
    (f h k : ℕ) (l : List ℕ) (μ : Meaning)
    → IsRead h l μ
    → h ≤ k
    → length l < f
    → Denotes k (level_at f k) l μ
Denotes-read zero h k l μ read up n = absurd (omega arith)
Denotes-read (suc f) h k l μ read up n =
    Denotes-raise f h k l μ up (Denotes-Reads (suc f) h l μ n (read (suc f) n))

length-wrapped : (l : List ℕ) → length (b'(' ∷ (l ++ b')' ∷ [])) ≡ suc (suc (length l))
length-wrapped l = ap suc (length-append l (b')' ∷ []) ∙ omega arith)

-- An operand, in parentheses where its own level is above that of its place
Denotes-operand :
    (f h k : ℕ) (l : List ℕ) (μ : Meaning)
    → IsRead h l μ
    → h ≤ 5
    → length (wrap (leb h k) l) < f
    → Denotes k (level_at f k) (wrap (leb h k) l) μ
Denotes-operand zero h k l μ read up n = absurd (omega arith)
Denotes-operand (suc f) h k l μ read up n = elim (Bool-cases (leb h k)) [
  | inl s ↦ rw s (
      Denotes-read (suc f) h k l μ read (ground arith) (subst (λ b. length (wrap b l) < suc f) s n))
  | inr s ↦
      let longer = subst (λ b. length (wrap b l) < suc f) s n in
      let shorter : length l < f = omega (arith, length-wrapped l) in
      rw s (
        Denotes-raise f 0 k (b'(' ∷ (l ++ b')' ∷ [])) μ (omega arith)
          (Denotes-wrapped f l μ (Denotes-read f h 5 l μ read up shorter)))
]

-- The left side of an operator is read in the same loop where it is of the same level.
Runs-left :
    (f h j : ℕ) (l : List ℕ) (μ : Meaning)
    → IsRead h l μ
    → h ≤ 5
    → length (wrap (leb h (suc j)) l) < f
    → (r : ℕ) × (f ≤ r + length (wrap (leb h (suc j)) l)) × Runs f j (wrap (leb h (suc j)) l) μ r
Runs-left f h j l μ read up n = elim (Bool-cases (h == suc j)) [
  | inl s ↦
      let e : suc j ≡ h = ground arith in
      let w : leb h (suc j) ≡ true = ground arith in
      let fits = subst (λ b. length (wrap b l) < f) w n in
      subst (λ b. (r : ℕ) × (f ≤ r + length (wrap b l)) × Runs f j (wrap b l) μ r) (sym w)
        (subst (λ i. Reads f i l μ) (sym e) (read f fits))
  | inr s ↦
      let w : leb h (suc j) ≡ leb h j = ground arith in
      let fits = subst (λ b. length (wrap b l) < f) w n in
      subst (λ b. (r : ℕ) × (f ≤ r + length (wrap b l)) × Runs f j (wrap b l) μ r) (sym w)
        (
          f,
          omega arith,
          Runs-operand f j (wrap (leb h j) l) μ (Denotes-operand f h j l μ read up fits),
        )
]

-- an operator of level `suc j` with its sides
Reads-binary :
    (f j c : ℕ) (g : Operator) (app : ℤ → ℤ → Meaning) (h k : ℕ) (l l' : List ℕ) (μ ν : Meaning)
    → Stops j (c ∷ [])
    → ops_at j c ≡ some g
    → Implements g app
    → IsRead h l μ
    → IsRead k l' ν
    → h ≤ 5
    → k ≤ 5
    → length (wrap (leb h (suc j)) l ++ c ∷ wrap (leb k j) l') < f
    → Reads f (suc j) (wrap (leb h (suc j)) l ++ c ∷ wrap (leb k j) l') (both_of app μ ν)
Reads-binary f j c g app h k l l' μ ν stops op imp left right up up' n =
    let w = wrap (leb h (suc j)) l in
    let w' = wrap (leb k j) l' in
    let e : length (w ++ c ∷ w') ≡ length w + suc (length w') = length-append w (c ∷ w') in
    let (r, more, run) = Runs-left f h j l μ left up (omega arith) in
    let some_round : r ≡ suc (r - 1) = omega arith in
    (
      r - 1,
      omega arith,
      Runs-step f j c g app w w' μ ν (r - 1) stops op imp (subst (Runs f j w μ) some_round run)
          (Denotes-operand f k j l' ν right up' (omega arith)),
    )

height_bound : (a : Tree) → height a ≤ 5
height_bound (binary multiply a b) = omega arith
height_bound (binary divide a b) = omega arith
height_bound (binary remainder a b) = omega arith
height_bound (binary add a b) = omega arith
height_bound (binary subtract a b) = omega arith
height_bound (binary both a b) = omega arith
height_bound (binary either a b) = omega arith
height_bound (binary any a b) = omega arith
height_bound (number z) = omega arith
height_bound (variable t i) = omega arith
height_bound (inverse a) = omega arith

divide_by-Implements : (q : ℤ → ℤ → ℤ) → Implements (divide_by q) (divided q)
unfolding divide_by note_zero_divide failed
divide_by-Implements q x y s v l = elim (Bool-cases (y ==ℤ pos 0)) [
  | inl e ↦ rw e refl
  | inr e ↦ rw e refl
]

Reads-operation :
    (op : Operation) (f h k : ℕ) (l l' : List ℕ) (μ ν : Meaning)
    → IsRead h l μ
    → IsRead k l' ν
    → h ≤ 5
    → k ≤ 5
    → length (wrap (leb h (level_of op)) l ++ sign op ∷ wrap (leb k (level_of op - 1)) l') < f
    → Reads f
        (level_of op)
        (wrap (leb h (level_of op)) l ++ sign op ∷ wrap (leb k (level_of op - 1)) l')
        (both_of (apply op) μ ν)
unfolding apply
Reads-operation multiply f h k l l' μ ν a b ha hb n =
    Reads-binary f 0 b'*' (plain mul_int) (apply multiply) h k l l' μ ν (refl, tt) refl
      (λ x y s v r. refl) a b ha hb n
Reads-operation divide f h k l l' μ ν a b ha hb n =
    Reads-binary f 0 b'/' (divide_by (λ x y. to_int (x /ℤ y))) (apply divide) h k l l' μ ν
      (refl, tt) refl (divide_by-Implements (λ x y. to_int (x /ℤ y))) a b ha hb n
Reads-operation remainder f h k l l' μ ν a b ha hb n =
    Reads-binary f 0 b'%' (divide_by (λ x y. x %ℤ y)) (apply remainder) h k l l' μ ν (refl, tt) refl
      (divide_by-Implements (λ x y. x %ℤ y)) a b ha hb n
Reads-operation add f h k l l' μ ν a b ha hb n =
    Reads-binary f 1 b'+' (plain add_int) (apply add) h k l l' μ ν (refl, (refl, tt)) refl
      (λ x y s v r. refl) a b ha hb n
Reads-operation subtract f h k l l' μ ν a b ha hb n =
    Reads-binary f 1 b'-' (plain sub_int) (apply subtract) h k l l' μ ν (refl, (refl, tt)) refl
      (λ x y s v r. refl) a b ha hb n
Reads-operation both f h k l l' μ ν a b ha hb n =
    Reads-binary f 2 b'&' (plain (on_bits bit_and)) (apply both) h k l l' μ ν
      (refl, (refl, (refl, tt))) refl (λ x y s v r. refl) a b ha hb n
Reads-operation either f h k l l' μ ν a b ha hb n =
    Reads-binary f 3 b'^' (plain (on_bits bit_xor)) (apply either) h k l l' μ ν
      (refl, (refl, (refl, (refl, tt)))) refl (λ x y s v r. refl) a b ha hb n
Reads-operation any f h k l l' μ ν a b ha hb n =
    Reads-binary f 4 b'|' (plain (on_bits bit_or)) (apply any) h k l l' μ ν
      (refl, (refl, (refl, (refl, (refl, tt))))) refl (λ x y s v r. refl) a b ha hb n

term_of_digit :
    (within operand call : M ℤ) (c : ℕ)
    → is_digit c ≡ true
    → term_of within operand call c ≡ constant
unfolding term_of is_constant_start
term_of_digit within operand call c h =
    let differs : (c == b'(') ≡ false = ground arith in rw (differs, h) refl

Denotes-number :
    (f : ℕ) (z : ℤ) → IsWritable (number z) → Denotes 0 (term (suc f)) (number_text z) (λ s. (z, s))
unfolding term term_of peek is_constant_start
Denotes-number f (pos n) k s v rest h =
    let c = head_char (digits 10 n ++ rest) in
    rw (peek-st s v (digits 10 n ++ rest)) (
      rw
        (term_of_digit (λ e. or_level f (term f) e) (λ e. term f e) (function (suc f)) c
          (head_char-digits 9 n rest))
        (constant_pos (st s v []) n rest k h.0))
Denotes-number f (negsuc n) k s v rest h = constant_neg (st s v []) n rest k h.0

Denotes-variable :
    (f t i : ℕ)
    → IsWritable (variable t i)
    → Denotes 0 (term (suc f)) (text (variable t i)) (meaning (variable t i))
unfolding term term_of peek is_constant_start text meaning
Denotes-variable f t i k s v rest h =
    rw (append_assoc, append_assoc) (variable-coding (st s v []) t i rest k.0 k.1)

inverse_value : (b : Bool) → (if b then pos 0 else pos 1) ≡ of_bool (not b)
inverse_value true = refl
inverse_value false = refl

Denotes-inverse :
    (f : ℕ) (l : List ℕ) (μ : Meaning)
    → Denotes 0 (term f) l μ
    → Denotes 0
        (term (suc f))
        (b'!' ∷ l)
        (λ s. let (x, s') = μ s in (of_bool (not (to_bool x)), s'))
unfolding term term_of peek advance negation is_constant_start
Denotes-inverse f l μ d s v rest h =
    rw (d s v rest h) (ap (λ x. ok x (st (μ s).1 v rest)) (inverse_value (to_bool (μ s).0)))

text-IsRead : (a : Tree) → IsWritable a → IsRead (height a) (text a) (meaning a)
unfolding text meaning
text-IsRead (number z) k zero n = absurd (omega arith)
text-IsRead (number z) k (suc f) n = Denotes-number f z k
text-IsRead (variable t i) k zero n = absurd (omega arith)
text-IsRead (variable t i) k (suc f) n = Denotes-variable f t i k
text-IsRead (inverse a) k zero n = absurd (omega arith)
text-IsRead (inverse a) k (suc f) n =
    Denotes-inverse f (wrap (leb (height a) 0) (text a)) (meaning a) (
      Denotes-operand f (height a) 0 (text a) (meaning a) (text-IsRead a k) (height_bound a)
        (omega arith))
text-IsRead (binary op a b) k f n =
    Reads-operation op f (height a) (height b) (text a) (text b) (meaning a) (meaning b)
      (text-IsRead a k.0) (text-IsRead b k.1) (height_bound a) (height_bound b) n

eval_expression-start :
    (l : List ℕ) (e : Eval)
    → e.under_verify ≡ false
    → eval_expression (some l) e
      ≡ then_run
          (level_at (suc (suc (length l))) 5 (st e.plc e.verify_error_desc l))
          finish_expression
unfolding eval_expression eval_expression_within or_level xor_level and_level add_sub mul_div_mod
eval_expression-start l e u = rw u refl

finish_expression_lem :
    (x : ℤ) (s : Plc) (v : Option String) → finish_expression x (st s v []) ≡ ok x (st s v [])
unfolding finish_expression failed check_end peek
finish_expression_lem x s v = refl

-- An expression that is written by the levels of its operations is evaluated to its value without an
-- error, and the divisions by zero in it are noted in the PLC: on an evaluator that does not verify.
pub eval_expression-text :
    (a : Tree) (e : Eval)
    → IsWritable a
    → e.under_verify ≡ false
    → eval_expression (some (text a)) e
      ≡ ok (meaning a e.plc).0 (st (meaning a e.plc).1 e.verify_error_desc [])
eval_expression-text a e k u =
    let f = suc (suc (length (text a))) in
    let read =
      Denotes-read f (height a) 5 (text a) (meaning a) (text-IsRead a k) (height_bound a)
        (omega arith) e.plc e.verify_error_desc []
        (refl, (refl, (refl, (refl, (refl, (refl, tt)))))) in
    let here =
      subst
        (λ l.
          level_at f 5 (st e.plc e.verify_error_desc l)
          ≡ ok (meaning a e.plc).0 (st (meaning a e.plc).1 e.verify_error_desc []))
        (append-nil (text a)) read in
    eval_expression-start (text a) e u
    ∙ rw here (finish_expression_lem (meaning a e.plc).0 (meaning a e.plc).1 e.verify_error_desc)
