-- ===== src/Arithm/Assigns.antt =====
-- Operations with a written expression (src/arithm_eval.c, MakeCalc).
use classicladder.Common.{
  ℤ, ℕ, zero, suc, pos, ◌≤◌, ◌≡◌, refl, ap, ◌∙◌, ◌==◌, List, [], ◌∷◌, Bool, true, false, Option,
  none, some,
}
use classicladder.Vars.{write_var}
use classicladder.Arithm.Machine.{Eval, ok, out_of_fuel, set_expr, update_plc}
use classicladder.Arithm.Lexeme.{var_type_of, flush_var}
use classicladder.Arithm.Level.{eval_expression}
use classicladder.Arithm.Compare.{
  assign_round, skip_spaces, search_next, searched, search_from, search_assign, find_assign,
  store_result, assign_to, make_calc,
}
use classicladder.Arithm.Syntax.{Tree, text, meaning, IsWritable}
use classicladder.Arithm.Decimal.{at, coding, flush_coding, final_coding}
use classicladder.Arithm.Denotes.{st}
use classicladder.Arithm.Plain.{ArePlain, StartsPlain, text-ArePlain, text-StartsPlain}
use classicladder.Arithm.Reads.{eval_expression-text}

skip_spaces-plain : (l : List ℕ) → ArePlain l → skip_spaces l ≡ l
unfolding skip_spaces
skip_spaces-plain [] h = refl
skip_spaces-plain (c ∷ l) h = rw h.0.1 refl

-- `:=` in front of an expression is found in one round.
assign_round-plain : (l : List ℕ) → StartsPlain l → assign_round (b':' ∷ b'=' ∷ l) ≡ (true, l)
unfolding assign_round
assign_round-plain [] h = elim h [ ]
assign_round-plain (c ∷ l) h = rw h.1 refl

search_assign-plain :
    (rounds : ℕ) (l : List ℕ)
    → StartsPlain l
    → search_assign (suc rounds) (b':' ∷ b'=' ∷ l) ≡ some (true, l)
unfolding search_assign search_next
search_assign-plain rounds l h =
    ap (search_next (λ l'. search_assign rounds l')) (assign_round-plain l h)

find_assign-plain :
    (rounds : ℕ) (l : List ℕ) (e : Eval)
    → StartsPlain l
    → ArePlain l
    → find_assign (suc rounds) (at e (b':' ∷ b'=' ∷ l)) ≡ ok true (at e l)
unfolding find_assign search_from searched
find_assign-plain rounds l e h k =
    ap (λ r. searched r (at e (b':' ∷ b'=' ∷ l))) (search_assign-plain rounds l h)
    ∙ ap (λ m. ok true (at e m)) (skip_spaces-plain l k)

-- A character that does not belong to `:=` is not skipped.
assign_round_waits :
    (c : ℕ) (l : List ℕ)
    → (c == b':') ≡ false
    → (c == b'=') ≡ false
    → (c == 32) ≡ false
    → assign_round (c ∷ l) ≡ (false, c ∷ l)
unfolding assign_round
assign_round_waits c l colon equal space = rw colon (rw equal (rw space refl))

search_next_waits :
    (more : List ℕ → Option (Bool × List ℕ)) (c : ℕ) (l : List ℕ)
    → (c == 0) ≡ false
    → search_next more (false, c ∷ l) ≡ more (c ∷ l)
unfolding search_next
search_next_waits more c l end = rw (search_next, end) refl

search_assign_waits :
    (rounds c : ℕ) (l : List ℕ)
    → (c == b':') ≡ false
    → (c == b'=') ≡ false
    → (c == 32) ≡ false
    → (c == 0) ≡ false
    → search_assign rounds (c ∷ l) ≡ none
unfolding search_assign
search_assign_waits zero c l colon equal space end = refl
search_assign_waits (suc rounds) c l colon equal space end =
    ap (search_next (λ l'. search_assign rounds l')) (assign_round_waits c l colon equal space)
    ∙ search_next_waits (λ l'. search_assign rounds l') c l end
    ∙ search_assign_waits rounds c l colon equal space end

find_assign_waits :
    (rounds c : ℕ) (l : List ℕ) (e : Eval)
    → (c == b':') ≡ false
    → (c == b'=') ≡ false
    → (c == 32) ≡ false
    → (c == 0) ≡ false
    → find_assign rounds (at e (c ∷ l)) ≡ out_of_fuel
unfolding find_assign search_from searched
find_assign_waits rounds c l e colon equal space end =
    rw (search_assign_waits rounds c l colon equal space end) refl

module _ (test_var_is_read_write : ℤ → ℤ → Bool) where
  make_calc-from :
      (rounds t i : ℕ) (rest : List ℕ) (verify : Bool) (e : Eval)
      → t ≤ 2147483647
      → i ≤ 2147483647
      → make_calc test_var_is_read_write rounds (b'@' ∷ coding t i rest) verify e
        ≡ assign_to test_var_is_read_write rounds verify
            (pos t)
            (pos i)
            (at e (b'@' ∷ coding t i rest))
  unfolding make_calc set_expr
  make_calc-from rounds t i rest verify e h k =
      rw (final_coding (at e (b'@' ∷ coding t i rest)) t i rest h k) refl

  -- the three steps of an operation behind its variable
  assign_to-found :
      (rounds t i : ℕ) (l : List ℕ) (x : ℤ) (e e1 e2 e3 : Eval)
      → flush_var e ≡ ok tt e1
      → find_assign rounds e1 ≡ ok true (at e2 l)
      → eval_expression (some l) (at e2 l) ≡ ok x e3
      → assign_to test_var_is_read_write rounds false (pos t) (pos i) e
        ≡ ok tt (record e3 { plc = write_var e3.plc (var_type_of (pos t)) (pos i) x })
  unfolding assign_to store_result update_plc
  assign_to-found rounds t i l x e e1 e2 e3 f g h = rw f (rw g (rw h refl))

  assign_to_waits :
      (rounds : ℕ) (verify : Bool) (t o : ℤ) (e e1 : Eval)
      → flush_var e ≡ ok tt e1
      → find_assign rounds e1 ≡ out_of_fuel
      → assign_to test_var_is_read_write rounds verify t o e ≡ out_of_fuel
  unfolding assign_to
  assign_to_waits rounds verify t o e e1 f g = rw f (rw g refl)

  -- An operation evaluates its expression and writes the value to its variable, in the state that the
  -- divisions by zero of the expression leave, and notes no error. One round of the search of `:=` is
  -- enough. This is on an evaluator that does not verify.
  pub make_calc-text :
      (rounds t i : ℕ) (a : Tree) (e : Eval)
      → t ≤ 2147483647
      → i ≤ 2147483647
      → IsWritable a
      → e.under_verify ≡ false
      → make_calc test_var_is_read_write
          (suc rounds)
          (b'@' ∷ coding t i (b':' ∷ b'=' ∷ text a))
          false
          e
        ≡ (let (x, s) = meaning a e.plc in
            ok tt (st (write_var s (var_type_of (pos t)) (pos i) x) e.verify_error_desc []))
  make_calc-text rounds t i a e h k w u =
      let here = at e (text a) in
      make_calc-from (suc rounds) t i (b':' ∷ b'=' ∷ text a) false e h k
      ∙ assign_to-found (suc rounds) t i (text a) (meaning a e.plc).0
          (at e (b'@' ∷ coding t i (b':' ∷ b'=' ∷ text a))) (at e (b':' ∷ b'=' ∷ text a)) here
          (st (meaning a e.plc).1 e.verify_error_desc [])
          (flush_coding e t i (b':' ∷ b'=' ∷ text a))
          (find_assign-plain rounds (text a) e (text-StartsPlain a) (text-ArePlain a))
          (eval_expression-text a here w u)

  -- Where the variable of an operation is followed by a character that is no `:`, no `=` and no space, no
  -- number of rounds ends the search of `:=`: the operation does not return.
  pub make_calc_waits :
      (rounds t i c : ℕ) (l : List ℕ) (verify : Bool) (e : Eval)
      → t ≤ 2147483647
      → i ≤ 2147483647
      → (c == b':') ≡ false
      → (c == b'=') ≡ false
      → (c == 32) ≡ false
      → (c == 0) ≡ false
      → make_calc test_var_is_read_write rounds (b'@' ∷ coding t i (c ∷ l)) verify e ≡ out_of_fuel
  make_calc_waits rounds t i c l verify e h k colon equal space end =
      make_calc-from rounds t i (c ∷ l) verify e h k
      ∙ assign_to_waits rounds verify (pos t) (pos i) (at e (b'@' ∷ coding t i (c ∷ l)))
          (at e (c ∷ l)) (flush_coding e t i (c ∷ l))
          (find_assign_waits rounds c l e colon equal space end)
