-- ===== src/Names/Symbols.antt =====
-- src/symbols.c: the symbols that stand for names of variables. A text is the list of its characters.
use classicladder.Common.{
  ℕ, zero, suc, pos, ◌-◌, ◌==◌, ◌&&◌, ◌||◌, not, leb, if◌then◌else◌, Bool, true, false, List, [],
  ◌∷◌, ◌++◌, Option, none, some, length, for_below, ℤ, update, ◌≡◌, refl,
}

abbrev pub lgt_var_name : ℕ
lgt_var_name = 10

abbrev pub lgt_symbol_string : ℕ
lgt_symbol_string = 10

-- StrSymbol
pub record Symbol : Type 0 where
  pub var_name : List ℕ
  pub symbol : List ℕ
  pub comment : List ℕ

abbrev pub empty_symbol : Symbol
empty_symbol = record { var_name = []; symbol = []; comment = [] }

-- `n` is NBR_SYMBOLS.
unfoldable pub init_symbols : ℕ → (ℤ → Symbol) → ℤ → Symbol
unfolding for_below
init_symbols n symbols = for_below n (λ k array. update array (pos k) empty_symbol) symbols

-- strcmp
unfoldable pub same_text : List ℕ → List ℕ → Bool
same_text [] [] = true
same_text (c ∷ rest) (d ∷ more) = (c == d) && same_text rest more
same_text [] (d ∷ more) = false
same_text (c ∷ rest) [] = false

abbrev pub is_separator : ℕ → Bool
is_separator c = c == b'.'

-- the characters up to the first that `stop` holds of, and those from the first separator on
unfoldable pub text_before : (ℕ → Bool) → List ℕ → List ℕ
text_before stop [] = []
text_before stop (c ∷ rest) = let more = text_before stop rest in if stop c then [] else c ∷ more

unfoldable pub text_from : (ℕ → Bool) → List ℕ → List ℕ
text_from stop [] = []
text_from stop (c ∷ rest) = let more = text_from stop rest in if stop c then c ∷ rest else more

-- The do-while loops take the first character whatever it is. An empty text is read past its end
-- there, which has no meaning in C.
unfoldable pub partial_name : (ℕ → Bool) → List ℕ → List ℕ
unfolding text_before
partial_name stop [] = []
partial_name stop (c ∷ rest) = c ∷ text_before stop rest

unfoldable pub attribute_of : List ℕ → List ℕ
unfolding text_from
attribute_of [] = []
attribute_of (c ∷ rest) = text_from is_separator rest

-- the loop over the symbols: one round at least
unfoldable pub find_symbol : (Symbol → Bool) → (ℤ → Symbol) → ℕ → ℕ → Option Symbol
find_symbol test symbols zero k = none
find_symbol test symbols (suc rounds) k =
    let rest = find_symbol test symbols rounds (suc k) in
    if test (symbols (pos k)) then some (symbols (pos k)) else rest

module _ (n : ℕ) (symbols : ℤ → Symbol) where
  unfoldable pub conv_var_name_in_symbol_ptr : List ℕ → Option Symbol
  unfolding partial_name same_text find_symbol
  conv_var_name_in_symbol_ptr [] = none
  conv_var_name_in_symbol_ptr (c ∷ rest) =
      let name = c ∷ rest in
      let partial = partial_name is_separator name in
      if (c == b'%') && not (leb lgt_var_name (length name))
      then find_symbol (λ s. same_text name (s.var_name) || same_text partial (s.var_name)) symbols
          (suc (n - 1)) 0
      else none

  unfoldable pub conv_symbol_param_in_symbol_ptr : List ℕ → Option Symbol
  unfolding partial_name same_text find_symbol
  conv_symbol_param_in_symbol_ptr text =
      let partial = partial_name (λ c. is_separator c || (c == b'[')) text in
      if leb lgt_symbol_string (length text)
      then none
      else find_symbol
          (λ s.
            not (same_text (s.symbol) [])
            && (same_text text (s.symbol) || same_text partial (s.symbol)))
          symbols (suc (n - 1)) 0

  unfoldable pub conv_var_name_to_symbol : List ℕ → Option (List ℕ)
  unfolding conv_var_name_in_symbol_ptr attribute_of
  conv_var_name_to_symbol name = elim (conv_var_name_in_symbol_ptr name) [
    | none ↦ none
    | some s ↦
        some (if same_text name (s.var_name) then s.symbol else s.symbol ++ attribute_of name)
  ]

  unfoldable pub conv_symbol_to_var_name : List ℕ → Option (List ℕ)
  unfolding conv_symbol_param_in_symbol_ptr attribute_of
  conv_symbol_to_var_name text = elim (conv_symbol_param_in_symbol_ptr text) [
    | none ↦ none
    | some s ↦
        some (if same_text text (s.symbol) then s.var_name else s.var_name ++ attribute_of text)
  ]

-- %TM1 is called "pump": its attribute follows the symbol.
attribute_kept :
    let pump : ℤ → Symbol = λ k. record {
      var_name = b'%' ∷ b'T' ∷ b'M' ∷ b'1' ∷ [];
      symbol = b'p' ∷ b'u' ∷ b'm' ∷ b'p' ∷ [];
      comment = [];
    } in
    (conv_var_name_to_symbol 1 pump (b'%' ∷ b'T' ∷ b'M' ∷ b'1' ∷ b'.' ∷ b'V' ∷ [])
      ≡ some (b'p' ∷ b'u' ∷ b'm' ∷ b'p' ∷ b'.' ∷ b'V' ∷ []))
    × (conv_symbol_to_var_name 1 pump (b'p' ∷ b'u' ∷ b'm' ∷ b'p' ∷ b'.' ∷ b'V' ∷ [])
        ≡ some (b'%' ∷ b'T' ∷ b'M' ∷ b'1' ∷ b'.' ∷ b'V' ∷ []))
unfolding conv_var_name_to_symbol conv_symbol_to_var_name
attribute_kept = (refl, refl)
