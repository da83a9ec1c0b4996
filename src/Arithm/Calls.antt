-- ===== src/Arithm/Calls.antt =====
-- The functions of expressions end (src/arithm_eval.c, Function).
use classicladder.Common.{
  ℤ, ℕ, zero, suc, pos, ◌-◌, ◌≤◌, ◌<◌, ◌==◌, List, [], ◌∷◌, Bool, true, false, Option, none, some,
  String, arith, Bool-cases, inl, inr, if◌then◌else◌,
}
use classicladder.Arithm.Machine.{
  Text, room, Eval, M, pure, ◌>>=◌, ◌>>◌, peek, advance, set_expr, syntax_error, is_upper,
}
use classicladder.Arithm.Lexeme.{scan, variable_or_constant}
use classicladder.Arithm.Function.{
  scan_name, params_next, on_params, shift_out, fold_params, two_params, function_abs,
  function_mini, function_maxi, function_avg, function_pow, function_left, function_right,
  unknown_function, call_function, function,
}
use classicladder.Arithm.Within.{
  Within, Keeps, Within-then_run, Within-mono, Within-peek, Within-advance, IsShortening,
  Keeps-pure, Keeps-bind, Keeps-advance, Keeps-fail, Keeps-scan, Keeps-variable_or_constant, keeps,
}

scan_name-IsShortening : (space : ℕ) → IsShortening (scan_name space)
unfolding scan_name
scan_name-IsShortening zero l = omega arith
scan_name-IsShortening (suc space) [] = omega arith
scan_name-IsShortening (suc space) (c ∷ l) = elim (Bool-cases (is_upper c)) [
  | inl d ↦ rw d (omega (arith, scan_name-IsShortening space l))
  | inr d ↦ rw d (omega arith)
]

pub Within-if :
    {A : Type 0} (n : ℕ) (c : Bool) (m m' : M A) (e : Eval)
    → Within n (m e)
    → Within n (m' e)
    → Within n ((if c then m else m') e)
Within-if n true m m' e h h' = h
Within-if n false m m' e h h' = h'

params_next_ends :
    {A : Type 0} (bound n : ℕ) (res : A) (more : M A) (c : ℕ) (e : Eval)
    → Keeps bound more
    → n < suc bound
    → 0 < room e.expr
    → room e.expr ≤ n - 1
    → Within n (params_next res more c e)
unfolding params_next
params_next_ends bound n res more c e k b something h =
    Within-if n (c == b')') (advance >> pure res) more e
      ((Keeps-bind (suc bound) advance (λ u. pure res) (Keeps-advance (suc bound))
          (λ u. Keeps-pure (suc bound) res)).ends
        n e b (omega arith))
      (Within-mono (n - 1) n (more e) (omega arith) (k.ends (n - 1) e (omega arith) h))

-- Where the fuel is above what is left, each round of the parameters takes at least one character.
Keeps-fold_params :
    (step : ℤ → ℤ → ℤ) (rounds : ℕ) (res : ℤ) (k : ℕ) → Keeps rounds (fold_params step rounds res k)
unfolding fold_params
Keeps-fold_params step zero res k = record { ends = λ n e b h. absurd (omega arith) }
Keeps-fold_params step (suc rounds) res k =
    let after =
      λ (v : ℤ). params_next (step res v, suc k) (fold_params step rounds (step res v) (suc k)) in
    let read = λ (v : ℤ). peek >>= after v in
    record {
      ends = λ n e b h.
          Within-then_run (n - 1) n (advance e) (λ u. variable_or_constant >>= read)
            (Within-advance (n - 1) e (omega arith))
            λ u e1 h1.
              Within-then_run (n - 1) n (variable_or_constant e1) read
                ((Keeps-variable_or_constant (suc rounds)).ends (n - 1) e1 (omega arith) h1)
                λ v e2 h2. Within-peek n e2 (after v) λ c something.
                  params_next_ends rounds n (step res v, suc k)
                    (fold_params step rounds (step res v) (suc k)) c e2
                    (Keeps-fold_params step rounds (step res v) (suc k)) b something h2;
    }

Keeps-two_params : (bound : ℕ) (message : String) → Keeps bound (two_params message)
unfolding two_params
Keeps-two_params bound message = search (keeps, Keeps-fail, Keeps-variable_or_constant) depth 14

Keeps-on_params :
    (bound : ℕ) (f : ℤ → ℤ → M ℤ) (params : Option (ℤ × ℤ))
    → ((a b : ℤ) → Keeps bound (f a b))
    → Keeps bound (on_params f params)
unfolding on_params
Keeps-on_params bound f none k = Keeps-pure bound (pos 0)
Keeps-on_params bound f (some (a, b)) k = k a b

Keeps-shift_out :
    (bound : ℕ) (bit_out : Bool) (back res : ℤ) (rotate : Bool)
    → Keeps bound (shift_out bit_out back res rotate)
unfolding shift_out
Keeps-shift_out bound bit_out back res rotate = search keeps

Keeps-function_abs : (bound : ℕ) → Keeps bound function_abs
unfolding function_abs
Keeps-function_abs bound = search (keeps, Keeps-fail, Keeps-variable_or_constant) depth 10

-- The functions with any number of parameters, and those with two
Keeps-function_mini : (rounds : ℕ) → Keeps rounds (function_mini rounds)
unfolding function_mini
Keeps-function_mini rounds = search (keeps, Keeps-fold_params)

Keeps-function_maxi : (rounds : ℕ) → Keeps rounds (function_maxi rounds)
unfolding function_maxi
Keeps-function_maxi rounds = search (keeps, Keeps-fold_params)

Keeps-function_avg : (rounds : ℕ) → Keeps rounds (function_avg rounds)
unfolding function_avg
Keeps-function_avg rounds = search (keeps, Keeps-fold_params)

Keeps-function_pow : (bound : ℕ) → Keeps bound function_pow
unfolding function_pow
Keeps-function_pow bound = search (keeps, Keeps-two_params, Keeps-on_params)

Keeps-function_left : (bound : ℕ) (rotate : Bool) → Keeps bound (function_left rotate)
unfolding function_left
Keeps-function_left bound rotate =
    search (keeps, Keeps-two_params, Keeps-on_params, Keeps-shift_out)

Keeps-function_right : (bound : ℕ) (rotate : Bool) → Keeps bound (function_right rotate)
unfolding function_right
Keeps-function_right bound rotate =
    search (keeps, Keeps-two_params, Keeps-on_params, Keeps-shift_out)

-- The same, of what may move Expr back, but not beyond where `low` characters are left.
record KeepsFrom {A : Type 0} (low bound : ℕ) (m : M A) : Type 0 where
  ends : (n : ℕ) (e : Eval) → low ≤ n → n < bound → room e.expr ≤ n → Within n (m e)

KeepsFrom-Keeps : {A : Type 0} (low bound : ℕ) (m : M A) → Keeps bound m → KeepsFrom low bound m
KeepsFrom-Keeps low bound m k = record { ends = λ n e l b h. k.ends n e b h }

KeepsFrom-if :
    {A : Type 0} (low bound : ℕ) (c : Bool) (m m' : M A)
    → KeepsFrom low bound m
    → KeepsFrom low bound m'
    → KeepsFrom low bound (if c then m else m')
KeepsFrom-if low bound true m m' k k' = k
KeepsFrom-if low bound false m m' k k' = k'

KeepsFrom-unknown :
    (bound : ℕ) (start : Text) → KeepsFrom (room start) bound (unknown_function start)
unfolding unknown_function set_expr syntax_error
KeepsFrom-unknown bound start = record { ends = λ n e l b h. l }

KeepsFrom-call_function :
    (rounds : ℕ) (start : Text) (name : List ℕ)
    → KeepsFrom (room start) rounds (call_function rounds start name)
unfolding call_function
KeepsFrom-call_function rounds start name =
    search
      (
        KeepsFrom-if, KeepsFrom-unknown, KeepsFrom-Keeps, Keeps-function_abs, Keeps-function_mini,
        Keeps-function_maxi, Keeps-function_avg, Keeps-function_pow, Keeps-function_left,
        Keeps-function_right,
      )
      depth 12

pub Keeps-function : (rounds : ℕ) → Keeps rounds (function rounds)
unfolding function
Keeps-function rounds = record {
  ends = λ n e b h.
      Within-then_run n n (scan (scan_name 19) e) (call_function rounds e.expr)
        ((Keeps-scan rounds (scan_name 19) (scan_name-IsShortening 19)).ends n e b h)
        λ name e1 h1. (KeepsFrom-call_function rounds e.expr name).ends n e1 h b h1;
}
