-- ===== src/Modbus/Spared.antt =====
-- What a Modbus request that writes words leaves alone (src/protocol_modbus_slave.c).
use classicladder.Common.{
  ℕ, zero, suc, pos, ◌+◌, ◌%◌, ◌≤◌, ◌<◌, ◌≡◌, ◌≢◌, ◌⊎◌, inl, inr, refl, sym, subst, ◌∙◌, arith,
  Bool-cases, if◌then◌else◌, ◌==◌, ltb,
}
use classicladder.State.{VarType, Plc}
use classicladder.Vars.{read_var, get_nbr_vars_for_type}
use classicladder.Vars.RoundTrip.{IsOffset, read_var-write_var_ne, sizes-write_var}
use classicladder.Modbus.Access.{
  Function, function_of, set_var_from_modbus_slave, get_modbus_slave_nbr_vars,
}
use classicladder.Modbus.Frame.{Buffer, word_at, write_word_list}
use classicladder.Modbus.Respond.{
  respond, respond_write_words, write_words_code, nbr_words_written, modbus_request_to_respond,
}

-- Variable `j` of type `t` is none of the `n` memory words behind number `first`.
abbrev pub IsOutside : ℕ → ℕ → VarType → ℕ → Type 0
IsOutside first n t j = (t ≢ VarType.mem_word) ⊎ ((j ≤ first) ⊎ (first + n < j))

-- a written word is another variable
other_variable :
    (first n : ℕ) (t : VarType) (j : ℕ)
    → IsOutside first (suc n) t j
    → (VarType.mem_word ≢ t) ⊎ ((first + 1) ≢ j)
other_variable first n t j (inl other) = inl (λ e. other (sym e))
other_variable first n t j (inr (inl below)) = inr (λ e. omega arith)
other_variable first n t j (inr (inr above)) = inr (λ e. omega arith)

IsOutside-suc :
    (first n : ℕ) (t : VarType) (j : ℕ) → IsOutside first (suc n) t j → IsOutside (suc first) n t j
IsOutside-suc first n t j (inl other) = inl other
IsOutside-suc first n t j (inr (inl below)) = inr (inl (omega arith))
IsOutside-suc first n t j (inr (inr above)) = inr (inr (omega arith))

set_word_spares :
    (s : Plc) (num n v : ℕ) (t : VarType) (j : ℕ)
    → num + 1 < s.sizes.nbr_words
    → IsOffset s.sizes t j
    → IsOutside num (suc n) t j
    → read_var (set_var_from_modbus_slave s Function.write_words num (pos v)) t (pos j)
      ≡ read_var s t (pos j)
unfolding set_var_from_modbus_slave get_nbr_vars_for_type
set_word_spares s num n v t j below offset outside =
    read_var-write_var_ne s VarType.mem_word t (num + 1) j (pos v) (ground arith) offset
      (other_variable num n t j outside)

sizes-set_word :
    (s : Plc) (num v : ℕ)
    → (set_var_from_modbus_slave s Function.write_words num (pos v)).sizes ≡ s.sizes
unfolding set_var_from_modbus_slave
sizes-set_word s num v = sizes-write_var s VarType.mem_word (pos (num + 1)) (pos v)

list_spares :
    (q : Buffer) (n : ℕ) (s : Plc) (first off v : ℕ) (t : VarType) (j : ℕ)
    → first + 1 + n ≤ s.sizes.nbr_words
    → IsOffset s.sizes t j
    → IsOutside first n t j
    → read_var (write_word_list q n s first off v).0 t (pos j) ≡ read_var s t (pos j)
unfolding write_word_list
list_spares q zero s first off v t j in_range offset outside = refl
list_spares q (suc n) s first off v t j in_range offset outside =
    let value = word_at q off in
    let s' = set_var_from_modbus_slave s Function.write_words first (pos value) in
    let same = sizes-set_word s first value in
    list_spares q n s' (suc first) (off + 2) value t j
      (subst (λ z. suc first + 1 + n ≤ z.nbr_words) (sym same) (omega arith))
      (subst (λ z. IsOffset z t j) (sym same) offset) (IsOutside-suc first n t j outside)
    ∙ set_word_spares s first n value t j (omega arith) offset outside

granted_in_range :
    (q : Buffer) (lgt : ℕ) (s : Plc) (c : ℕ)
    → write_words_code q lgt s c ≡ 0
    → word_at q 1 + 1 + nbr_words_written q lgt s c ≤ s.sizes.nbr_words
unfolding write_words_code get_modbus_slave_nbr_vars
granted_in_range q lgt s c granted = ground arith

-- A request to write words, of one word or of several, granted or refused, changes no variable but
-- the memory words from the number after the one of the request on, one or as many as the request
-- counts.
pub write_words_spares :
    (s : Plc) (q : Buffer) (lgt : ℕ) (t : VarType) (j : ℕ)
    → function_of (q 0 % 256) ≡ Function.write_words
    → IsOffset s.sizes t j
    → IsOutside (word_at q 1) (if q 0 % 256 == 16 then word_at q 3 else 1) t j
    → read_var (modbus_request_to_respond s q lgt).0 t (pos j) ≡ read_var s t (pos j)
unfolding modbus_request_to_respond respond respond_write_words
write_words_spares s q lgt t j function offset outside =
    let c = q 0 % 256 in
    let n = nbr_words_written q lgt s c in
    elim (Bool-cases (ltb 0 (write_words_code q lgt s c))) [
      | inl refused ↦ rw (function, refused) refl
      | inr granted ↦
          rw (function, granted)
            (list_spares q n s (word_at q 1) (if c == 16 then 6 else 3) 0 t j
              (granted_in_range q lgt s c (ground arith)) offset outside)
    ]
