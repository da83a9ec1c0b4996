-- ===== src/Arithm/Ends.antt =====
-- The evaluation of an expression ends (src/arithm_eval.c).
use classicladder.Common.{
  ℤ, ℕ, zero, suc, pos, ◌-◌, ◌≤◌, ◌<◌, ◌==◌, Bool, true, false, Option, none, some, arith,
  if◌then◌else◌, bit_and, bit_or, bit_xor, on_bits, add_int, sub_int, mul_int, to_int, to_bool,
  ◌/ℤ◌, ◌%ℤ◌,
}
use classicladder.Arithm.Machine.{
  Text, room, Eval, M, pure, ◌>>=◌, ◌>>◌, peek, advance, failed, is_error, fail, is_upper,
}
use classicladder.Arithm.Lexeme.{constant, variable, is_constant_start}
use classicladder.Arithm.Function.{function}
use classicladder.Arithm.Level.{
  Operator, plain, note_zero_divide, divide_by, level_next, level_loop, level, mul_div_mod_operator,
  add_sub_operator, bits_operator, mul_div_mod, add_sub, and_level, xor_level, or_level,
  close_parenthesis, parenthesis, negation, term_of, term, check_end, finish_expression,
  eval_expression_within, eval_expression,
}
use classicladder.Arithm.Within.{
  Within, Keeps, Within-then_run, Within-mono, Within-peek, Within-advance, Keeps-pure, Keeps-bind,
  Keeps-fail, Keeps-constant, Keeps-variable, keeps,
}
use classicladder.Arithm.Calls.{Within-if, Keeps-function}

-- Each operator keeps Expr where its right side left it.
abbrev KeepsOperator : Option Operator → Type 0
KeepsOperator none = Unit {0}
KeepsOperator (some f) = (bound : ℕ) (res val : ℤ) → Keeps bound (f res val)

abbrev KeepsOperators : (ℕ → Option Operator) → Type 0
KeepsOperators operator = (c : ℕ) → KeepsOperator (operator c)

Keeps-weaken :
    {A : Type 0} (bound bound' : ℕ) (m : M A) → bound ≤ bound' → Keeps bound' m → Keeps bound m
Keeps-weaken bound bound' m c k = record { ends = λ n e b h. k.ends n e (omega arith) h }

level_next_ends :
    (bound rounds n : ℕ) (operand : M ℤ) (more : ℤ → M ℤ) (res : ℤ) (f : Option Operator) (e : Eval)
    → Keeps bound operand
    → ((v : ℤ) → Keeps rounds (more v))
    → KeepsOperator f
    → rounds ≤ bound
    → n < suc rounds
    → 0 < room e.expr
    → room e.expr ≤ n
    → Within n (level_next operand more res f e)
unfolding level_next
level_next_ends bound rounds n operand more res none e o m k k2 b something h = h
level_next_ends bound rounds n operand more res (some f) e o m k k2 b something h =
    Within-then_run (n - 1) n (advance e) (λ u. operand >>= λ val. f res val >>= more)
      (Within-advance (n - 1) e (omega arith))
      λ u e1 h1. Within-mono (n - 1) n _ (omega arith) (
        (Keeps-bind rounds operand (λ val. f res val >>= more)
            (Keeps-weaken rounds bound operand k2 o)
            (λ val. Keeps-bind rounds (f res val) more (k rounds res val) m)).ends
          (n - 1) e1 (omega arith) h1)

Keeps-level_loop :
    (operator : ℕ → Option Operator) (bound : ℕ) (operand : M ℤ)
    → Keeps bound operand
    → KeepsOperators operator
    → (rounds : ℕ) → rounds ≤ bound
    → (res : ℤ) → Keeps rounds (level_loop operator operand rounds res)
unfolding level_loop failed
Keeps-level_loop operator bound operand o k zero c res = record {
  ends = λ n e b h. absurd (omega arith);
}
Keeps-level_loop operator bound operand o k (suc rounds) c res =
    let more = λ (v : ℤ). level_loop operator operand rounds v in
    record {
      ends = λ n e b h.
          Within-if n (is_error e.error_desc) (pure res)
            (peek >>= λ d. level_next operand more res (operator d)) e h
            (Within-peek n e (λ d. level_next operand more res (operator d))
              λ d something.
                level_next_ends bound rounds n operand more res (operator d) e o
                  (Keeps-level_loop operator bound operand o k rounds (omega arith)) (k d)
                  (omega arith) b something h);
    }

Keeps-level :
    (operator : ℕ → Option Operator) (bound : ℕ) (operand : M ℤ)
    → KeepsOperators operator
    → Keeps bound operand
    → Keeps bound (level operator bound operand)
unfolding level
Keeps-level operator bound operand k o =
    Keeps-bind bound operand (level_loop operator operand bound) o
      (Keeps-level_loop operator bound operand o k bound (omega arith))

Keeps-divide_by : (bound : ℕ) (f : ℤ → ℤ → ℤ) (res val : ℤ) → Keeps bound (divide_by f res val)
unfolding divide_by note_zero_divide failed
Keeps-divide_by bound f res val = record { ends = λ n e b h. ground arith }

-- `if c then some f else rest`
KeepsOperator-if :
    (c : Bool) (f : Operator) (rest : Option Operator)
    → ((bound : ℕ) (res val : ℤ) → Keeps bound (f res val))
    → KeepsOperator rest
    → KeepsOperator (if c then some f else rest)
KeepsOperator-if true f rest k r = k
KeepsOperator-if false f rest k r = r

Keeps-plain : (f : ℤ → ℤ → ℤ) (bound : ℕ) (res val : ℤ) → Keeps bound (plain f res val)
Keeps-plain f bound res val = Keeps-pure bound (f res val)

bits-KeepsOperators : (sign : ℕ) (f : ℕ → ℕ → ℕ) → KeepsOperators (bits_operator sign f)
bits-KeepsOperators sign f c =
    KeepsOperator-if (c == sign) (plain (on_bits f)) none (Keeps-plain (on_bits f)) tt

add_sub-KeepsOperators : KeepsOperators add_sub_operator
add_sub-KeepsOperators c =
    KeepsOperator-if (c == b'+') (plain add_int) (if c == b'-' then some (plain sub_int) else none)
      (Keeps-plain add_int)
      (KeepsOperator-if (c == b'-') (plain sub_int) none (Keeps-plain sub_int) tt)

mul_div_mod-KeepsOperators : KeepsOperators mul_div_mod_operator
unfolding divide_by
mul_div_mod-KeepsOperators c =
    let quotient = λ (a b : ℤ). to_int (a /ℤ b) in
    let rest = λ (a b : ℤ). a %ℤ b in
    let last : Option Operator = if c == b'%' then some (divide_by rest) else none in
    let more : Option Operator = if c == b'/' then some (divide_by quotient) else last in
    KeepsOperator-if (c == b'*') (plain mul_int) more (Keeps-plain mul_int) (
      KeepsOperator-if (c == b'/') (divide_by quotient) last
        (λ bound. Keeps-divide_by bound quotient)
        (KeepsOperator-if (c == b'%') (divide_by rest) none (λ bound. Keeps-divide_by bound rest)
          tt))

Keeps-or_level : (bound : ℕ) (t : M ℤ) → Keeps bound t → Keeps bound (or_level bound t)
unfolding or_level xor_level and_level add_sub mul_div_mod
Keeps-or_level bound t k =
    Keeps-level (bits_operator b'|' bit_or) bound (xor_level bound t)
      (bits-KeepsOperators b'|' bit_or)
      (Keeps-level (bits_operator b'^' bit_xor) bound (and_level bound t)
        (bits-KeepsOperators b'^' bit_xor)
        (Keeps-level (bits_operator b'&' bit_and) bound (add_sub bound t)
          (bits-KeepsOperators b'&' bit_and)
          (Keeps-level add_sub_operator bound (mul_div_mod bound t) add_sub-KeepsOperators
            (Keeps-level mul_div_mod_operator bound t mul_div_mod-KeepsOperators k))))

-- The same, where there is something left to read.
record Starts {A : Type 0} (bound : ℕ) (m : M A) : Type 0 where
  ends : (n : ℕ) (e : Eval) → n < bound → 0 < room e.expr → room e.expr ≤ n → Within n (m e)

Starts-Keeps : {A : Type 0} (bound : ℕ) (m : M A) → Keeps bound m → Starts bound m
Starts-Keeps bound m k = record { ends = λ n e b something h. k.ends n e b h }

Starts-if :
    {A : Type 0} (bound : ℕ) (c : Bool) (m m' : M A)
    → Starts bound m
    → Starts bound m'
    → Starts bound (if c then m else m')
Starts-if bound true m m' k k' = k
Starts-if bound false m m' k k' = k'

-- A character of a parenthesis or a negation is taken before its inside is evaluated.
Starts-advance :
    {B : Type 0} (bound : ℕ) (m : M B) → Keeps bound m → Starts (suc bound) (advance >> m)
Starts-advance bound m k = record {
  ends = λ n e b something h.
      Within-then_run (n - 1) n (advance e) (λ u. m) (Within-advance (n - 1) e (omega arith))
        λ u e1 h1. Within-mono (n - 1) n (m e1) (omega arith) (k.ends (n - 1) e1 (omega arith) h1);
}

Keeps-close : (bound : ℕ) (res : ℤ) → Keeps bound (close_parenthesis res)
unfolding close_parenthesis
Keeps-close bound res = search keeps depth 10

Starts-parenthesis :
    (bound : ℕ) (inner : M ℤ) → Keeps bound inner → Starts (suc bound) (parenthesis inner)
unfolding parenthesis
Starts-parenthesis bound inner k =
    Starts-advance bound (inner >>= close_parenthesis)
      (Keeps-bind bound inner close_parenthesis k (Keeps-close bound))

Starts-negation :
    (bound : ℕ) (inner : M ℤ) → Keeps bound inner → Starts (suc bound) (negation inner)
unfolding negation
Starts-negation bound inner k =
    let after = λ (res : ℤ). pure (if to_bool res then pos 0 else pos 1) in
    Starts-advance bound (inner >>= after) (
      Keeps-bind bound inner after k
        (λ res. Keeps-pure bound (if to_bool res then pos 0 else pos 1)))

Starts-term_of :
    (bound : ℕ) (within operand call : M ℤ) (c : ℕ)
    → Keeps bound within
    → Keeps bound operand
    → Keeps (suc bound) call
    → Starts (suc bound) (term_of within operand call c)
unfolding term_of
Starts-term_of bound within operand call c w o k =
    let wrong : M ℤ = fail "Unknown term" (pos 0) in
    let fourth : M ℤ = if c == b'!' then negation operand else wrong in
    let third : M ℤ = if c == b'@' then variable else fourth in
    let second : M ℤ = if is_upper c then call else third in
    let first : M ℤ = if is_constant_start c then constant else second in
    Starts-if (suc bound) (c == b'(') (parenthesis within) first (Starts-parenthesis bound within w)
      (Starts-if (suc bound) (is_constant_start c) constant second
        (Starts-Keeps (suc bound) constant (Keeps-constant (suc bound)))
        (Starts-if (suc bound) (is_upper c) call third (Starts-Keeps (suc bound) call k) (
          Starts-if (suc bound) (c == b'@') variable fourth
            (Starts-Keeps (suc bound) variable (Keeps-variable (suc bound)))
            (Starts-if (suc bound) (c == b'!') (negation operand) wrong
              (Starts-negation bound operand o)
              (Starts-Keeps (suc bound) wrong (Keeps-fail (suc bound) "Unknown term" (pos 0)))))))

-- A term takes no more fuel than there are characters left.
Keeps-term : (fuel : ℕ) → Keeps fuel (term fuel)
unfolding term
Keeps-term zero = record { ends = λ n e b h. absurd (omega arith) }
Keeps-term (suc fuel) =
    let t = Keeps-term fuel in
    let inner = Keeps-or_level fuel (term fuel) t in
    let of_char =
      term_of (λ e. or_level fuel (term fuel) e) (λ e. term fuel e) (function (suc fuel)) in
    record {
      ends = λ n e b h. Within-peek n e of_char λ c something.
          (Starts-term_of fuel (λ e. or_level fuel (term fuel) e) (λ e. term fuel e)
              (function (suc fuel)) c (record { ends = λ n e b h. inner.ends n e b h })
              (record { ends = λ n e b h. t.ends n e b h }) (Keeps-function (suc fuel))).ends
            n e b something h;
    }

Keeps-check_end : (bound : ℕ) → Keeps bound check_end
unfolding check_end
Keeps-check_end bound = search keeps depth 10

Keeps-failed : (bound : ℕ) → Keeps bound failed
unfolding failed
Keeps-failed bound = record { ends = λ n e b h. h }

Keeps-finish : (bound : ℕ) (res : ℤ) → Keeps bound (finish_expression res)
unfolding finish_expression
Keeps-finish bound res = search (keeps, Keeps-failed, Keeps-check_end) depth 10

-- The evaluation of an expression ends within as many steps as the text has characters, whatever the
-- text is: it never runs out of fuel. It gives a value, or it is stopped by a read past the end of
-- the text; where it gives a value, Expr still points into the text.
pub eval_expression_ends : (text : Text) (e : Eval) → Within (room text) (eval_expression text e)
unfolding eval_expression eval_expression_within
eval_expression_ends text e =
    let fuel = suc (room text) in
    let body = Keeps-or_level fuel (term fuel) (Keeps-term fuel) in
    let start : Eval = record e { expr = text; error_desc = none } in
    Within-then_run (room text) (room text) (or_level fuel (term fuel) start) finish_expression
      (body.ends (room text) start (omega arith) (omega arith))
      λ res e1 h1. (Keeps-finish fuel res).ends (room text) e1 (omega arith) h1
