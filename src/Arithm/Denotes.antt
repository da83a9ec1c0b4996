-- ===== src/Arithm/Denotes.antt =====
-- What it is for a level of the expression grammar to read a text as a value
-- (src/arithm_eval.c, MulDivMod to Or).
use classicladder.Common.{
  ℤ, ℕ, zero, suc, ◌+◌, ◌-◌, ◌≤◌, ◌≡◌, refl, ◌∙◌, List, [], ◌∷◌, ◌++◌, false, Option, none, some,
  String, bit_and, bit_or, bit_xor, arith, subst,
}
use mathlib.Core.List.{append_assoc}
use classicladder.State.{Plc}
use classicladder.Arithm.Machine.{Eval, ok, M, then_run, peek, advance, failed, is_digit}
use classicladder.Arithm.Level.{
  Operator, level_next, level_loop, level, mul_div_mod_operator, add_sub_operator, bits_operator,
  close_parenthesis, mul_div_mod, add_sub, and_level, xor_level, or_level, parenthesis, term_of,
  term,
}
use classicladder.Arithm.Compare.{head_char}
use classicladder.Arithm.Decimal.{peek-at}

-- the operators of a level, and the level on those below it
abbrev pub ops_at : ℕ → ℕ → Option Operator
ops_at zero c = mul_div_mod_operator c
ops_at (suc zero) c = add_sub_operator c
ops_at (suc (suc zero)) c = bits_operator b'&' bit_and c
ops_at (suc (suc (suc zero))) c = bits_operator b'^' bit_xor c
ops_at (suc (suc (suc (suc k)))) c = bits_operator b'|' bit_or c

abbrev pub level_at : ℕ → ℕ → M ℤ
level_at f zero = term f
level_at f (suc k) = level (ops_at k) f (level_at f k)

-- an evaluation without errors, at a text
abbrev pub st : Plc → Option String → List ℕ → Eval
st s v l = record {
  plc = s;
  expr = some l;
  error_desc = none;
  verify_error_desc = v;
  under_verify = false;
}

-- The character is no operator of the first levels.
abbrev pub Below : ℕ → ℕ → Type 0
Below zero c = Unit {0}
Below (suc k) c = (ops_at k c ≡ none) × Below k c

-- What follows a text of the level does not go on with it.
abbrev pub Stops : ℕ → List ℕ → Type 0
Stops k rest = (is_digit (head_char rest) ≡ false) × Below k (head_char rest)

abbrev pub Meaning : Type 0
Meaning = Plc → ℤ × Plc

abbrev pub Denotes : ℕ → M ℤ → List ℕ → Meaning → Type 0
Denotes k m l μ =
    (s : Plc) (v : Option String) (rest : List ℕ)
    → Stops k rest
    → m (st s v (l ++ rest)) ≡ ok (μ s).0 (st (μ s).1 v rest)

-- A level that has read a text goes on with a loop that has `r` rounds left.
abbrev pub Runs : ℕ → ℕ → List ℕ → Meaning → ℕ → Type 0
Runs f j l μ r =
    (s : Plc) (v : Option String) (rest : List ℕ)
    → Stops j rest
    → level_at f (suc j) (st s v (l ++ rest))
      ≡ level_loop (ops_at j) (level_at f j) r (μ s).0 (st (μ s).1 v rest)

-- An operator that does what `app` says.
abbrev pub Implements : Operator → (ℤ → ℤ → Meaning) → Type 0
Implements g app =
    (x y : ℤ) (s : Plc) (v : Option String) (l : List ℕ)
    → g x y (st s v l) ≡ ok (app x y s).0 (st (app x y s).1 v l)

abbrev pub both_of : (ℤ → ℤ → Meaning) → Meaning → Meaning → Meaning
both_of app μ ν s = let (x, s1) = μ s in let (y, s2) = ν s1 in app x y s2

pub peek-st :
    (s : Plc) (v : Option String) (l : List ℕ) → peek (st s v l) ≡ ok (head_char l) (st s v l)
peek-st s v l = peek-at (st s v l) l

loop_stops :
    (j : ℕ) (operand : M ℤ) (r : ℕ) (x : ℤ) (s : Plc) (v : Option String) (rest : List ℕ)
    → ops_at j (head_char rest) ≡ none
    → level_loop (ops_at j) operand (suc r) x (st s v rest) ≡ ok x (st s v rest)
unfolding level_loop failed level_next
loop_stops j operand r x s v rest h = rw (peek-st s v rest) (rw h refl)

pub Runs-operand :
    (f j : ℕ) (l : List ℕ) (μ : Meaning) → Denotes j (level_at f j) l μ → Runs f j l μ f
unfolding level
Runs-operand f j l μ d s v rest h = rw (d s v rest h) refl

pub Denotes-Runs :
    (f j : ℕ) (l : List ℕ) (μ : Meaning) (r : ℕ)
    → Runs f j l μ (suc r)
    → Denotes (suc j) (level_at f (suc j)) l μ
Denotes-Runs f j l μ r run s v rest h =
    run s v rest (h.0, h.1.1) ∙ loop_stops j (level_at f j) r (μ s).0 (μ s).1 v rest h.1.0

pub Runs-step :
    (f j : ℕ) (c : ℕ) (g : Operator) (app : ℤ → ℤ → Meaning) (l l' : List ℕ) (μ ν : Meaning) (r : ℕ)
    → Stops j (c ∷ [])
    → ops_at j c ≡ some g
    → Implements g app
    → Runs f j l μ (suc r)
    → Denotes j (level_at f j) l' ν
    → Runs f j (l ++ c ∷ l') (both_of app μ ν) r
unfolding level_loop failed level_next advance peek
Runs-step f j c g app l l' μ ν r stops op imp run d s v rest h = rw append_assoc (
    run s v (c ∷ (l' ++ rest)) stops
    ∙ rw op (rw (d (μ s).1 v rest h) (rw (imp (μ s).0 (ν (μ s).1).0 (ν (μ s).1).1 v rest) refl)))

Denotes-lift :
    (f k : ℕ) (l : List ℕ) (μ : Meaning)
    → Denotes k (level_at (suc f) k) l μ
    → Denotes (suc k) (level_at (suc f) (suc k)) l μ
Denotes-lift f k l μ d = Denotes-Runs (suc f) k l μ f (Runs-operand (suc f) k l μ d)

abbrev raised : ℕ → ℕ → ℕ
raised zero k = k
raised (suc d) k = suc (raised d k)

raised_lem : (d k : ℕ) → raised d k ≡ d + k
raised_lem zero k = omega arith
raised_lem (suc d) k = omega (arith, raised_lem d k)

Denotes-raised :
    (d f k : ℕ) (l : List ℕ) (μ : Meaning)
    → Denotes k (level_at (suc f) k) l μ
    → Denotes (raised d k) (level_at (suc f) (raised d k)) l μ
Denotes-raised zero f k l μ h = h
Denotes-raised (suc d) f k l μ h = Denotes-lift f (raised d k) l μ (Denotes-raised d f k l μ h)

-- A level reads what a level below it reads.
pub Denotes-raise :
    (f j k : ℕ) (l : List ℕ) (μ : Meaning)
    → j ≤ k
    → Denotes j (level_at (suc f) j) l μ
    → Denotes k (level_at (suc f) k) l μ
Denotes-raise f j k l μ h d =
    let e : raised (k - j) j ≡ k = raised_lem (k - j) j ∙ omega arith in
    subst (λ i. Denotes i (level_at (suc f) i) l μ) e (Denotes-raised (k - j) f j l μ d)

pub or_level_lem : (f : ℕ) → or_level f (term f) ≡ level_at f 5
unfolding or_level xor_level and_level add_sub mul_div_mod
or_level_lem f = refl

open_parenthesis :
    (f : ℕ) (s : Plc) (v : Option String) (l : List ℕ)
    → term (suc f) (st s v (b'(' ∷ l)) ≡ then_run (or_level f (term f) (st s v l)) close_parenthesis
unfolding term term_of parenthesis peek advance
open_parenthesis f s v l = refl

pub Denotes-wrapped :
    (f : ℕ) (l : List ℕ) (μ : Meaning)
    → Denotes 5 (level_at f 5) l μ
    → Denotes 0 (term (suc f)) (b'(' ∷ (l ++ b')' ∷ [])) μ
unfolding close_parenthesis advance peek
Denotes-wrapped f l μ d s v rest h =
    rw (open_parenthesis f s v ((l ++ b')' ∷ []) ++ rest), append_assoc, or_level_lem f)
      (rw (d s v (b')' ∷ rest) (refl, (refl, (refl, (refl, (refl, (refl, tt))))))) refl)
