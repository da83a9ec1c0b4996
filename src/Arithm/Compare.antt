-- ===== src/Arithm/Compare.antt =====
-- src/arithm_eval.c: EvalCompare, MakeCalc and the two functions that verify a syntax.
use classicladder.Common.{
  ℤ, ℕ, zero, suc, pos, ◌==◌, ◌==ℤ◌, ltb_ℤ, not, ◌&&◌, ◌||◌, List, [], ◌∷◌, Bool, true, false,
  Option, none, some, String, of_bool, if◌then◌else◌,
}
use classicladder.Vars.{write_var}
use classicladder.Arithm.Machine.{
  Text, M, ok, overrun, out_of_fuel, then_run, pure, ◌>>=◌, ◌>>◌, set_expr, syntax_error, fail,
  update_plc,
}
use classicladder.Arithm.Lexeme.{var_type_of, identify_final_var, flush_var}
use classicladder.Arithm.Level.{eval_expression}

-- no expression, or a comment
abbrev pub is_null : List ℕ → Bool
is_null [] = true
is_null (c ∷ l) = c == b'#'

abbrev pub is_compare : ℕ → Bool
is_compare c = c == b'>' || (c == b'<' || c == b'=')

-- The text in front of the first comparison character, that character, and the text after it.
unfoldable pub split_compare : List ℕ → Option (List ℕ × ℕ × List ℕ)
split_compare [] = none
split_compare (c ∷ l) =
    let more = split_compare l in
    if is_compare c
    then some ([], c, l)
    else elim more [ none ↦ none | some (first, sep, rest) ↦ some (c ∷ first, sep, rest) ]

-- `*(SearchSep+1)`
abbrev pub head_char : List ℕ → ℕ
head_char [] = 0
head_char (c ∷ l) = c

-- The second expression starts after a `=` or a `>` that follows.
unfoldable pub second_expr : List ℕ → List ℕ
second_expr [] = []
second_expr (c ∷ l) = if c == b'=' || c == b'>' then l else c ∷ l

-- the four tests at the end of EvalCompare
unfoldable pub compare_result : ℕ → ℕ → ℤ → ℤ → Bool
compare_result sep after a b =
    (sep == b'>' && ltb_ℤ b a)
    || ((sep == b'<' && (not (after == b'>') && ltb_ℤ a b))
        || ((sep == b'<' && (after == b'>' && not (a ==ℤ b)))
            || ((sep == b'=' || after == b'=') && (a ==ℤ b))))

unfoldable pub eval_compare : List ℕ → M ℤ
unfolding split_compare second_expr compare_result eval_expression syntax_error
eval_compare text = if is_null text then pure (pos 0) else elim (split_compare text) [
  | none ↦ fail "Missing < or > or = or ... to make compare" (pos 0)
  | some (first, sep, rest) ↦ do
    a ← eval_expression (some first)
    b ← eval_expression (some (second_expr rest))
    pure (of_bool (compare_result sep (head_char rest) a b))
]

-- One round of the search of `:=`, which skips a `:`, a `=` and a space: whether the `=` was found.
abbrev pub skip : ℕ → List ℕ → List ℕ
skip k [] = []
skip k (c ∷ l) = if c == k then l else c ∷ l

abbrev pub starts_with : ℕ → List ℕ → Bool
starts_with k l = head_char l == k

unfoldable pub assign_round : List ℕ → Bool × List ℕ
assign_round l = let after = skip b':' l in (starts_with b'=' after, skip 32 (skip b'=' after))

unfoldable pub skip_spaces : List ℕ → List ℕ
skip_spaces [] = []
skip_spaces (c ∷ l) = let more = skip_spaces l in if c == 32 then more else c ∷ l

unfoldable pub search_next :
    (List ℕ → Option (Bool × List ℕ)) → Bool × List ℕ → Option (Bool × List ℕ)
search_next more (found, l) = elim (found || starts_with 0 l) [
  | true ↦ some (found, l)
  | false ↦ more l
]

-- `do { ... } while( !Found && *Expr!='\0' )`, and whether the `=` was found. The number is fuel:
-- another character in front of the `=` is not skipped, and the loop goes on for ever.
unfoldable pub search_assign : ℕ → List ℕ → Option (Bool × List ℕ)
unfolding assign_round search_next
search_assign zero l = none
search_assign (suc rounds) l = search_next (λ l'. search_assign rounds l') (assign_round l)

unfoldable pub searched : Option (Bool × List ℕ) → M Bool
unfolding skip_spaces
searched none e = out_of_fuel
searched (some (found, l)) e = ok found (record e { expr = some (skip_spaces l) })

unfoldable pub search_from : ℕ → Text → M Bool
unfolding search_assign searched
search_from rounds none = λ e. overrun
search_from rounds (some l) = searched (search_assign rounds l)

unfoldable pub find_assign : ℕ → M Bool
unfolding search_from
find_assign rounds e = search_from rounds e.expr e

-- TestVarIsReadWrite of src/vars_names.c is a parameter, by the numbers of the type and the variable.
module _ (test_var_is_read_write : ℤ → ℤ → Bool) where
  -- the end of MakeCalc, with the value of the expression
  unfoldable pub store_result : Bool → ℤ → ℤ → ℤ → M (Unit {0})
  unfolding update_plc syntax_error var_type_of write_var
  store_result verify t o v =
      if not verify
      then update_plc (λ s. write_var s (var_type_of t) o v)
      else if test_var_is_read_write t o
      then pure tt
      else syntax_error "Target variable must be read/write !"

  -- MakeCalc from the variable on
  unfoldable pub assign_to : ℕ → Bool → ℤ → ℤ → M (Unit {0})
  unfolding flush_var find_assign eval_expression store_result syntax_error
  assign_to rounds verify t o = do
    flush_var
    found ← find_assign rounds
    text ← λ e. ok e.expr e
    if found
        then (do v ← eval_expression text; store_result verify t o v)
        else syntax_error "Missing := to make operate"

  -- MakeCalc. ErrorDesc is not reset before the variable is read.
  unfoldable pub make_calc : ℕ → List ℕ → Bool → M (Unit {0})
  unfolding set_expr identify_final_var assign_to
  make_calc rounds text verify = if is_null text then pure tt else do
    set_expr (some text)
    found ← identify_final_var (some text)
    elim found [ none ↦ pure tt | some (t, o) ↦ assign_to rounds verify t o ]

  -- UnderVerify and VerifyErrorDesc around the evaluation
  abbrev pub under_verify : M (Unit {0}) → M (Option String)
  under_verify m e =
      then_run (m (record e { under_verify = true; verify_error_desc = none }))
        (λ u e'. ok e'.verify_error_desc (record e' { under_verify = false }))

  -- VerifySyntaxForEvalCompare; what is wrong stands in Expr
  unfoldable pub verify_syntax_for_eval_compare : List ℕ → M (Option String)
  unfolding eval_compare
  verify_syntax_for_eval_compare text = under_verify (do res ← eval_compare text; pure tt)

  unfoldable pub verify_syntax_for_make_calc : ℕ → List ℕ → M (Option String)
  unfolding make_calc
  verify_syntax_for_make_calc rounds text = under_verify (make_calc rounds text true)
