-- ===== src/Arithm/Compares.antt =====
-- Comparisons of written expressions (src/arithm_eval.c, EvalCompare).
use classicladder.Common.{
  ℤ, ℕ, pos, negsuc, ◌≡◌, refl, ap, ◌∙◌, ◌==◌, ◌==ℤ◌, ltb_ℤ, not, ◌||◌, List, [], ◌∷◌, ◌++◌, Bool,
  true, false, some, arith, of_bool,
}
use classicladder.Arithm.Machine.{Eval, ok}
use classicladder.Arithm.Level.{eval_expression}
use classicladder.Arithm.Compare.{
  is_null, is_compare, split_compare, second_expr, head_char, compare_result, eval_compare,
}
use classicladder.Arithm.Syntax.{Tree, text, meaning, IsWritable}
use classicladder.Arithm.Denotes.{st}
use classicladder.Arithm.Plain.{
  ArePlain, StartsPlain, StartsPlain-append, text-ArePlain, text-StartsPlain,
}
use classicladder.Arithm.Reads.{eval_expression-text}

-- the six comparisons
pub data Comparison : Type 0 where
  greater less equal at_least at_most different : Comparison

-- its first character, and the second one where there is one
abbrev pub sep_of : Comparison → ℕ
sep_of greater = b'>'
sep_of less = b'<'
sep_of equal = b'='
sep_of at_least = b'>'
sep_of at_most = b'<'
sep_of different = b'<'

abbrev pub after_of : Comparison → List ℕ
after_of at_least = b'=' ∷ []
after_of at_most = b'=' ∷ []
after_of different = b'>' ∷ []
after_of _ = []

abbrev pub holds : Comparison → ℤ → ℤ → Bool
holds greater a b = ltb_ℤ b a
holds less a b = ltb_ℤ a b
holds equal a b = a ==ℤ b
holds at_least a b = not (ltb_ℤ a b)
holds at_most a b = not (ltb_ℤ b a)
holds different a b = not (a ==ℤ b)

split_compare-plain :
    (l : List ℕ) (c : ℕ) (rest : List ℕ)
    → ArePlain l
    → is_compare c ≡ true
    → split_compare (l ++ c ∷ rest) ≡ some (l, c, rest)
unfolding split_compare
split_compare-plain [] c rest h k = rw k refl
split_compare-plain (d ∷ l) c rest h k = rw (h.0.0, split_compare-plain l c rest h.1 k) refl

is_null-plain : (l : List ℕ) → StartsPlain l → is_null l ≡ false
is_null-plain [] h = elim h [ ]
is_null-plain (c ∷ l) h = h.2

-- what stands behind a comparison of one character is not a comparison
second_expr-plain :
    (l : List ℕ)
    → StartsPlain l
    → (second_expr l ≡ l) × ((head_char l == b'=') ≡ false) × ((head_char l == b'>') ≡ false)
unfolding second_expr
second_expr-plain [] h = elim h [ ]
second_expr-plain (c ∷ l) h =
    let no_equal : (c == b'=') ≡ false = ground (arith, h.0) in
    let no_greater : (c == b'>') ≡ false = ground (arith, h.0) in
    (rw (no_equal, no_greater) refl, no_equal, no_greater)

-- The two values of a comparison, the second in the state that the first leaves
eval_compare-split :
    (l first : List ℕ) (sep : ℕ) (rest : List ℕ) (e e1 e2 : Eval) (x y : ℤ)
    → is_null l ≡ false
    → split_compare l ≡ some (first, sep, rest)
    → eval_expression (some first) e ≡ ok x e1
    → eval_expression (some (second_expr rest)) e1 ≡ ok y e2
    → eval_compare l e ≡ ok (of_bool (compare_result sep (head_char rest) x y)) e2
unfolding eval_compare
eval_compare-split l first sep rest e e1 e2 x y n sp a b = rw (n, sp) (rw a (rw b refl))

compare_values :
    (a : Tree) (sep : ℕ) (rest : List ℕ) (b : Tree) (e : Eval)
    → IsWritable a
    → IsWritable b
    → is_compare sep ≡ true
    → second_expr rest ≡ text b
    → e.under_verify ≡ false
    → eval_compare (text a ++ sep ∷ rest) e ≡ (
        let (x, s) = meaning a e.plc in
        let (y, s') = meaning b s in
        ok (of_bool (compare_result sep (head_char rest) x y)) (st s' e.verify_error_desc []))
compare_values a sep rest b e ka kb c second u =
    let (x, s) = meaning a e.plc in
    let (y, s') = meaning b s in
    let v = e.verify_error_desc in
    eval_compare-split (text a ++ sep ∷ rest) (text a) sep rest e (st s v []) (st s' v []) x y
      (is_null-plain (text a ++ sep ∷ rest)
        (StartsPlain-append (text a) (sep ∷ rest) (text-StartsPlain a)))
      (split_compare-plain (text a) sep rest (text-ArePlain a) c) (eval_expression-text a e ka u)
      (ap (λ l. eval_expression (some l) (st s v [])) second
        ∙ eval_expression-text b (st s v []) kb refl)

or_false : (b : Bool) → (b || false) ≡ b
or_false true = refl
or_false false = refl

-- equal, or else of one of the two orders
at_least_lem : (x y : ℤ) → (ltb_ℤ y x || (x ==ℤ y)) ≡ not (ltb_ℤ x y)
at_least_lem (pos a) (pos b) = ground arith
at_least_lem (pos a) (negsuc b) = ground arith
at_least_lem (negsuc a) (pos b) = ground arith
at_least_lem (negsuc a) (negsuc b) = ground arith

at_most_lem : (x y : ℤ) → (ltb_ℤ x y || (x ==ℤ y)) ≡ not (ltb_ℤ y x)
at_most_lem (pos a) (pos b) = ground arith
at_most_lem (pos a) (negsuc b) = ground arith
at_most_lem (negsuc a) (pos b) = ground arith
at_most_lem (negsuc a) (negsuc b) = ground arith

compare_two :
    (c : Comparison) (l : List ℕ) (x y : ℤ)
    → StartsPlain l
    → (is_compare (sep_of c) ≡ true)
      × (second_expr (after_of c ++ l) ≡ l)
      × (compare_result (sep_of c) (head_char (after_of c ++ l)) x y ≡ holds c x y)
unfolding compare_result second_expr
compare_two greater l x y h =
    let p = second_expr-plain l h in (refl, p.0, rw p.1 (or_false (ltb_ℤ y x)))
compare_two less l x y h =
    let p = second_expr-plain l h in (refl, p.0, rw (p.1, p.2) (or_false (ltb_ℤ x y)))
compare_two equal l x y h = let p = second_expr-plain l h in (refl, p.0, refl)
compare_two at_least l x y h = (refl, refl, at_least_lem x y)
compare_two at_most l x y h = (refl, refl, at_most_lem x y)
compare_two different l x y h = (refl, refl, or_false (not (x ==ℤ y)))

-- A comparison of two written expressions gives whether their values are so compared, the second value
-- taken in the state that the divisions by zero of the first one leave. No error is noted. This is on an
-- evaluator that does not verify.
pub eval_compare-text :
    (c : Comparison) (a b : Tree) (e : Eval)
    → IsWritable a
    → IsWritable b
    → e.under_verify ≡ false
    → eval_compare (text a ++ sep_of c ∷ (after_of c ++ text b)) e ≡ (
        let (x, s) = meaning a e.plc in
        let (y, s') = meaning b s in ok (of_bool (holds c x y)) (st s' e.verify_error_desc []))
eval_compare-text c a b e ka kb u =
    let (x, s) = meaning a e.plc in
    let (y, s') = meaning b s in
    let two = compare_two c (text b) x y (text-StartsPlain b) in
    compare_values a (sep_of c) (after_of c ++ text b) b e ka kb two.0 two.1 u
    ∙ ap (λ r. ok (of_bool r) (st s' e.verify_error_desc [])) two.2
