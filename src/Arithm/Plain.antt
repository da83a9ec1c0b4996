-- ===== src/Arithm/Plain.antt =====
-- The characters of written expressions (src/arithm_eval.c).
use classicladder.Common.{
  ℕ, zero, suc, pos, negsuc, ◌+◌, ◌-◌, ◌/◌, ◌%◌, ◌<◌, ◌≡◌, refl, ◌==◌, leb, ltb, List, [], ◌∷◌,
  ◌++◌, Bool, true, false, Bool-cases, inl, inr, arith,
}
use classicladder.Arithm.Compare.{is_compare}
use classicladder.Arithm.Syntax.{
  Operation, multiply, divide, remainder, add, subtract, both, either, any, Tree, number, variable,
  inverse, binary, level_of, sign, digits, height, wrap, text,
}

-- A character of an expression is no comparison, no space and no `#`.
abbrev pub IsPlain : ℕ → Type 0
IsPlain c = (is_compare c ≡ false) × ((c == 32) ≡ false) × ((c == b'#') ≡ false)

abbrev pub ArePlain : List ℕ → Type 0
ArePlain [] = Unit {0}
ArePlain (c ∷ l) = IsPlain c × ArePlain l

-- something that starts with a character of an expression
abbrev pub StartsPlain : List ℕ → Type 0
StartsPlain [] = ⊥
StartsPlain (c ∷ l) = IsPlain c

IsPlain-digit : (d : ℕ) → d < 10 → IsPlain (48 + d)
IsPlain-digit d h = (ground arith, ground arith, ground arith)

ArePlain-append : (l m : List ℕ) → ArePlain l → ArePlain m → ArePlain (l ++ m)
ArePlain-append [] m h k = k
ArePlain-append (c ∷ l) m h k = (h.0, ArePlain-append l m h.1 k)

pub StartsPlain-append : (l m : List ℕ) → StartsPlain l → StartsPlain (l ++ m)
StartsPlain-append [] m h = elim h [ ]
StartsPlain-append (c ∷ l) m h = h

ArePlain-digits : (r n : ℕ) → ArePlain (digits r n)
unfolding digits
ArePlain-digits zero n = tt
ArePlain-digits (suc r) n = elim (Bool-cases (ltb n 10)) [
  | inl s ↦ rw s (IsPlain-digit n (ground arith), tt)
  | inr s ↦ rw s (
      ArePlain-append (digits r (n / 10)) ((48 + n % 10) ∷ []) (ArePlain-digits r (n / 10))
        (IsPlain-digit (n % 10) (omega arith), tt))
]

StartsPlain-digits : (r n : ℕ) → StartsPlain (digits (suc r) n)
unfolding digits
StartsPlain-digits zero n = elim (Bool-cases (ltb n 10)) [
  | inl s ↦ rw s (IsPlain-digit n (ground arith))
  | inr s ↦ rw s (IsPlain-digit (n % 10) (omega arith))
]
StartsPlain-digits (suc r) n = elim (Bool-cases (ltb n 10)) [
  | inl s ↦ rw s (IsPlain-digit n (ground arith))
  | inr s ↦ rw s (
      StartsPlain-append (digits (suc r) (n / 10)) ((48 + n % 10) ∷ [])
        (StartsPlain-digits r (n / 10)))
]

IsPlain-sign : (op : Operation) → IsPlain (sign op)
IsPlain-sign multiply = (refl, refl, refl)
IsPlain-sign divide = (refl, refl, refl)
IsPlain-sign remainder = (refl, refl, refl)
IsPlain-sign add = (refl, refl, refl)
IsPlain-sign subtract = (refl, refl, refl)
IsPlain-sign both = (refl, refl, refl)
IsPlain-sign either = (refl, refl, refl)
IsPlain-sign any = (refl, refl, refl)

ArePlain-wrap : (b : Bool) (l : List ℕ) → ArePlain l → ArePlain (wrap b l)
ArePlain-wrap true l h = h
ArePlain-wrap false l h =
    ((refl, refl, refl), ArePlain-append l (b')' ∷ []) h ((refl, refl, refl), tt))

StartsPlain-wrap : (b : Bool) (l : List ℕ) → StartsPlain l → StartsPlain (wrap b l)
StartsPlain-wrap true l h = h
StartsPlain-wrap false l h = (refl, refl, refl)

pub text-ArePlain : (a : Tree) → ArePlain (text a)
unfolding text
text-ArePlain (number (pos n)) = ArePlain-digits 10 n
text-ArePlain (number (negsuc n)) = ((refl, refl, refl), ArePlain-digits 10 (suc n))
text-ArePlain (variable t i) = (
  (refl, refl, refl),
  ArePlain-append (digits 10 t) (b'/' ∷ (digits 10 i ++ b'@' ∷ [])) (ArePlain-digits 10 t) (
    (refl, refl, refl),
    ArePlain-append (digits 10 i) (b'@' ∷ []) (ArePlain-digits 10 i) ((refl, refl, refl), tt),
  ),
)
text-ArePlain (inverse a) =
    ((refl, refl, refl), ArePlain-wrap (leb (height a) 0) (text a) (text-ArePlain a))
text-ArePlain (binary op a b) =
    let w = wrap (leb (height b) (level_of op - 1)) (text b) in
    ArePlain-append (wrap (leb (height a) (level_of op)) (text a)) (sign op ∷ w)
      (ArePlain-wrap (leb (height a) (level_of op)) (text a) (text-ArePlain a))
      (IsPlain-sign op, ArePlain-wrap (leb (height b) (level_of op - 1)) (text b) (text-ArePlain b))

pub text-StartsPlain : (a : Tree) → StartsPlain (text a)
unfolding text
text-StartsPlain (number (pos n)) = StartsPlain-digits 9 n
text-StartsPlain (number (negsuc n)) = (refl, refl, refl)
text-StartsPlain (variable t i) = (refl, refl, refl)
text-StartsPlain (inverse a) = (refl, refl, refl)
text-StartsPlain (binary op a b) =
    StartsPlain-append (wrap (leb (height a) (level_of op)) (text a))
      (sign op ∷ wrap (leb (height b) (level_of op - 1)) (text b))
      (StartsPlain-wrap (leb (height a) (level_of op)) (text a) (text-StartsPlain a))
