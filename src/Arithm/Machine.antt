-- ===== src/Arithm/Machine.antt =====
-- The state of the evaluator (src/arithm_eval.c): its globals, and what it does to them.
use classicladder.Common.{
  ℕ, suc, leb, ◌&&◌, List, [], ◌∷◌, length, Bool, true, false, Option, none, some, String,
  if◌then◌else◌,
}
use classicladder.State.{Plc}

-- A `char *`: what stands from it on, up to the NUL that ends the text, or `none` where it points
-- past that NUL.
abbrev pub Text : Type 0
Text = Option (List ℕ)

abbrev pub next : Text → Text
next none = none
next (some []) = none
next (some (c ∷ l)) = some l

-- What a pointer can still be moved over.
abbrev pub room : Text → ℕ
room none = 0
room (some l) = suc (length l)

-- Expr, ErrorDesc, VerifyErrorDesc and UnderVerify, with the variables of the PLC.
pub record Eval : Type 0 where
  pub plc : Plc
  pub expr : Text
  pub error_desc : Option String
  pub verify_error_desc : Option String
  pub under_verify : Bool

-- `overrun` is a read past the end of a text, `out_of_fuel` is no result of the code at all.
pub data Run (A : Type 0) : Type 0 where
  ok : A → Eval → Run A
  overrun out_of_fuel : Run A

abbrev pub M : Type 0 → Type 0
M A = Eval → Run A

abbrev pub then_run : {A B : Type 0} → Run A → (A → Eval → Run B) → Run B
then_run (ok a e) f = f a e
then_run overrun f = overrun
then_run out_of_fuel f = out_of_fuel

abbrev pub pure : {A : Type 0} → A → M A
pure a e = ok a e

infixl 5 ◌>>=◌ ◌>>◌
abbrev pub ◌>>=◌ : {A B : Type 0} → M A → (A → M B) → M B
◌>>=◌ m f e = then_run (m e) f

abbrev pub ◌>>◌ : {B : Type 0} → M (Unit {0}) → M B → M B
m >> k = m >>= λ _. k

-- `*p`; the NUL reads as 0
abbrev pub char_at : Text → M ℕ
char_at none e = overrun
char_at (some []) e = ok 0 e
char_at (some (c ∷ l)) e = ok c e

-- `*Expr`
unfoldable pub peek : M ℕ
peek e = char_at e.expr e

-- `Expr++`
unfoldable pub advance : M (Unit {0})
advance e = ok tt (record e { expr = next e.expr })

unfoldable pub set_expr : Text → M (Unit {0})
set_expr p e = ok tt (record e { expr = p })

unfoldable pub syntax_error : String → M (Unit {0})
syntax_error message e = ok tt (record e {
  error_desc = some message;
  verify_error_desc = if e.under_verify then some message else e.verify_error_desc;
})

-- `return 0` after an error
abbrev pub fail : {A : Type 0} → String → A → M A
fail message a = syntax_error message >> pure a

abbrev pub is_error : Option String → Bool
is_error none = false
is_error (some message) = true

unfoldable pub failed : M Bool
failed e = ok (is_error e.error_desc) e

-- the PLC's variables
unfoldable pub on_plc : {A : Type 0} → (Plc → A) → M A
on_plc f e = ok (f e.plc) e

unfoldable pub update_plc : (Plc → Plc) → M (Unit {0})
update_plc f e = ok tt (record e { plc = f e.plc })

abbrev pub is_digit : ℕ → Bool
is_digit c = leb b'0' c && leb c b'9'

abbrev pub is_upper : ℕ → Bool
is_upper c = leb b'A' c && leb c b'Z'
