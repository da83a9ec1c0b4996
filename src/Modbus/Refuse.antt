-- ===== src/Modbus/Refuse.antt =====
-- Refused Modbus requests (src/protocol_modbus_slave.c).
use classicladder.Common.{
  ℕ, ◌+◌, ◌*◌, ◌/◌, ◌%◌, ◌≤◌, ◌<◌, ◌≡◌, ◌⊎◌, refl, arith, if◌then◌else◌, leb,
}
use classicladder.State.{Plc}
use classicladder.Modbus.Access.{Function, function_of, get_modbus_slave_nbr_vars, illegal_function}
use classicladder.Modbus.Frame.{Buffer, word_at}
use classicladder.Modbus.Respond.{
  exception, read_bits_code, read_words_code, force_coil_code, force_coils_code, write_words_code,
  respond_read_bits, respond_read_words, respond_force_coil, respond_force_coils,
  respond_write_words, respond, modbus_request_to_respond,
}

-- The code of the exception that a request gets, by its function, 0 where it is granted.
abbrev pub refusal : Buffer → ℕ → Plc → ℕ → Function → ℕ
refusal q lgt s c Function.read_bits = read_bits_code q lgt s c
refusal q lgt s c Function.read_words = read_words_code q lgt s c
refusal q lgt s c Function.force_coil = if leb 5 lgt then force_coil_code q lgt s c else 0
refusal q lgt s c Function.force_coils = if leb 7 lgt then force_coils_code q lgt s c else 0
refusal q lgt s c Function.write_words = write_words_code q lgt s c
refusal q lgt s c Function.illegal = illegal_function

refused :
    (q : Buffer) (lgt : ℕ) (s : Plc) (c : ℕ) (f : Function)
    → 0 < refusal q lgt s c f
    → respond q lgt s c f ≡ (s, exception c (refusal q lgt s c f))
unfolding respond
refused q lgt s c Function.read_bits h = unfold respond_read_bits in ground arith
refused q lgt s c Function.read_words h = unfold respond_read_words in ground arith
refused q lgt s c Function.force_coil h = unfold respond_force_coil in ground arith
refused q lgt s c Function.force_coils h = unfold respond_force_coils in ground arith
refused q lgt s c Function.write_words h = unfold respond_write_words in ground arith
refused q lgt s c Function.illegal h = refl

-- What a request must meet, by its function: the length, and the range of the variables that it
-- names by their first number and their count.
abbrev pub Fits : Buffer → ℕ → Plc → ℕ → Function → Type 0
Fits q lgt s c Function.read_bits =
    (5 ≤ lgt)
    × (word_at q 1 + 1 + (word_at q 3 + 7) / 8 * 8 ≤ s.sizes.nbr_bits)
    × (word_at q 3 ≤ 2000)
Fits q lgt s c Function.read_words =
    (5 ≤ lgt) × (word_at q 1 + 1 + word_at q 3 ≤ s.sizes.nbr_words) × (word_at q 3 ≤ 200)
Fits q lgt s c Function.force_coil =
    (word_at q 1 + 1 ≤ s.sizes.nbr_bits) × ((word_at q 3 ≡ 0xff00) ⊎ (word_at q 3 ≡ 0))
Fits q lgt s c Function.force_coils =
    (word_at q 1 + 1 + word_at q 3 ≤ s.sizes.nbr_bits)
    × (word_at q 3 ≤ 2000)
    × ((word_at q 3 + 7) / 8 ≤ q 5 % 256)
Fits q lgt s c Function.write_words =
    (((c ≡ 6) × (5 ≤ lgt) × (word_at q 1 + 2 ≤ s.sizes.nbr_words))
      ⊎ ((c ≡ 16)
          × (8 ≤ lgt)
          × (word_at q 1 + 1 + word_at q 3 ≤ s.sizes.nbr_words)
          × (word_at q 3 ≤ 200)
          × (word_at q 3 * 2 ≤ q 5 % 256)))
Fits q lgt s c Function.illegal = ⊥

-- The two functions that force coils do not answer to a request that is too short.
abbrev pub IsAnswered : ℕ → Function → Type 0
IsAnswered lgt Function.force_coil = 5 ≤ lgt
IsAnswered lgt Function.force_coils = 7 ≤ lgt
IsAnswered lgt _ = Unit {0}

refusal_bound :
    (q : Buffer) (lgt : ℕ) (s : Plc) (c : ℕ) (f : Function)
    → IsAnswered lgt f
    → ¬ Fits q lgt s c f
    → (0 < refusal q lgt s c f) × (refusal q lgt s c f ≤ 3)
unfolding read_bits_code read_words_code force_coil_code force_coils_code write_words_code
    get_modbus_slave_nbr_vars
refusal_bound q lgt s c Function.read_bits a h = ground arith
refusal_bound q lgt s c Function.read_words a h = ground arith
refusal_bound q lgt s c Function.force_coil a h = ground arith
refusal_bound q lgt s c Function.force_coils a h = ground arith
refusal_bound q lgt s c Function.write_words a h = ground arith
refusal_bound q lgt s c Function.illegal a h = ground arith

-- A request that does not fit changes no variable, and its response is an exception: the function
-- code with its highest bit set, and one of the codes 1 to 3. (Of the two functions that force coils,
-- this needs a request that is long enough to be answered.)
pub modbus_refuses :
    (s : Plc) (q : Buffer) (lgt : ℕ)
    → let c = q 0 % 256 in
      let f = function_of c in
      IsAnswered lgt f
      → ¬ Fits q lgt s c f
      → (code : ℕ) × (0 < code)
        × (code ≤ 3)
        × (modbus_request_to_respond s q lgt ≡ (s, exception c code))
unfolding modbus_request_to_respond
modbus_refuses s q lgt a h =
    let c = q 0 % 256 in
    let f = function_of c in
    let (some_code, small) = refusal_bound q lgt s c f a h in
    (refusal q lgt s c f, some_code, small, refused q lgt s c f some_code)
