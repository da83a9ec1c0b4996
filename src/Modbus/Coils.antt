-- ===== src/Modbus/Coils.antt =====
-- Coils over Modbus (src/protocol_modbus_slave.c): the bits of a response, and what forcing a coil
-- does beside it.
use classicladder.Common.{
  ℕ, zero, suc, pos, ◌+◌, ◌*◌, ◌/◌, ◌%◌, ◌≤◌, ◌<◌, ◌≡◌, refl, ap, ◌∙◌, Bool, true, false, List, [],
  ◌∷◌, arith, if◌then◌else◌, ◌==◌, for_below, is_accepted, is_accepted_sound, ◌⊎◌, to_char, update,
  bit_or, ◌+ℤ◌, to_bool,
}
use classicladder.State.{VarType, Plc}
use classicladder.Vars.{read_var, write_var, is_var_set}
use classicladder.Modbus.Access.{
  Function, function_of, set_var_from_modbus_slave, get_modbus_slave_nbr_vars,
  get_var_for_modbus_slave,
}
use classicladder.Modbus.Frame.{Buffer, word_at, pack_bits, bytes_of_bits}
use classicladder.Modbus.Respond.{
  respond, respond_read_bits, read_bits_code, respond_force_coil, force_coil_code,
  modbus_request_to_respond,
}

abbrev bit_value : Bool → ℕ
bit_value true = 1
bit_value false = 0

-- the byte that eight bits make, the first one lowest
abbrev byte_of : Bool → Bool → Bool → Bool → Bool → Bool → Bool → Bool → ℕ
byte_of a b c d e f g h =
    bit_value a
    + 2 * bit_value b
    + 4 * bit_value c
    + 8 * bit_value d
    + 16 * bit_value e
    + 32 * bit_value f
    + 64 * bit_value g
    + 128 * bit_value h

abbrev or_if : Bool → ℕ → ℕ → ℕ
or_if b mask values = if b then bit_or values mask else values

bit_value_le : (b : Bool) → bit_value b ≤ 1
bit_value_le true = omega arith
bit_value_le false = omega arith

-- The next bit is not set yet, so that the mask is added.
or_mask :
    (m : ℕ) (b : Bool) (v : ℕ)
    → is_accepted m (λ u. bit_or u m == u + m) ≡ true
    → v < m
    → or_if b m v ≡ v + m * bit_value b
or_mask m true v table h = ground (arith, is_accepted_sound m _ table v h)
or_mask m false v table h = omega arith

or_bits :
    (a b c d e f g h : Bool)
    → or_if h 128
        (or_if g 64 (or_if f 32 (or_if e 16 (or_if d 8 (or_if c 4 (or_if b 2 (or_if a 1 0)))))))
      ≡ byte_of a b c d e f g h
unfolding is_accepted for_below
or_bits a b c d e f g h =
    let v0 : ℕ = or_if a 1 0 in
    let e0 : (v0 ≡ bit_value a) × (v0 < 2) =
      let o = or_mask 1 a 0 refl (omega arith) in
      (omega (arith, o), omega (arith, o, bit_value_le a)) in
    let v1 : ℕ = or_if b 2 v0 in
    let e1 : (v1 ≡ bit_value a + 2 * bit_value b) × (v1 < 4) =
      let o = or_mask 2 b v0 refl (e0.1) in
      (omega (arith, o, e0.0), omega (arith, o, e0.1, bit_value_le b)) in
    let v2 : ℕ = or_if c 4 v1 in
    let e2 : (v2 ≡ bit_value a + 2 * bit_value b + 4 * bit_value c) × (v2 < 8) =
      let o = or_mask 4 c v1 refl (e1.1) in
      (omega (arith, o, e1.0), omega (arith, o, e1.1, bit_value_le c)) in
    let v3 : ℕ = or_if d 8 v2 in
    let e3 : (v3 ≡ bit_value a + 2 * bit_value b + 4 * bit_value c + 8 * bit_value d) × (v3 < 16) =
      let o = or_mask 8 d v2 refl (e2.1) in
      (omega (arith, o, e2.0), omega (arith, o, e2.1, bit_value_le d)) in
    let v4 : ℕ = or_if e 16 v3 in
    let e4 : (v4
          ≡ bit_value a + 2 * bit_value b + 4 * bit_value c + 8 * bit_value d + 16 * bit_value e)
        × (v4 < 32) =
      let o = or_mask 16 e v3 refl (e3.1) in
      (omega (arith, o, e3.0), omega (arith, o, e3.1, bit_value_le e)) in
    let v5 : ℕ = or_if f 32 v4 in
    let e5 : (v5
          ≡ bit_value a
            + 2 * bit_value b
            + 4 * bit_value c
            + 8 * bit_value d
            + 16 * bit_value e
            + 32 * bit_value f)
        × (v5 < 64) =
      let o = or_mask 32 f v4 refl (e4.1) in
      (omega (arith, o, e4.0), omega (arith, o, e4.1, bit_value_le f)) in
    let v6 : ℕ = or_if g 64 v5 in
    let e6 : (v6
          ≡ bit_value a
            + 2 * bit_value b
            + 4 * bit_value c
            + 8 * bit_value d
            + 16 * bit_value e
            + 32 * bit_value f
            + 64 * bit_value g)
        × (v6 < 128) =
      let o = or_mask 64 g v5 refl (e5.1) in
      (omega (arith, o, e5.0), omega (arith, o, e5.1, bit_value_le g)) in
    let v7 : ℕ = or_if h 128 v6 in
    let e7 : (v7
          ≡ bit_value a
            + 2 * bit_value b
            + 4 * bit_value c
            + 8 * bit_value d
            + 16 * bit_value e
            + 32 * bit_value f
            + 64 * bit_value g
            + 128 * bit_value h)
        × (v7 < 256) =
      let o = or_mask 128 h v6 refl (e6.1) in
      (omega (arith, o, e6.0), omega (arith, o, e6.1, bit_value_le h)) in
    e7.0

pack_bits_lem :
    (bit : ℕ → Bool) (n : ℕ)
    → pack_bits bit 8 n 0 1
      ≡ byte_of
          (bit n)
          (bit (suc n))
          (bit (suc (suc n)))
          (bit (suc (suc (suc n))))
          (bit (suc (suc (suc (suc n)))))
          (bit (suc (suc (suc (suc (suc n))))))
          (bit (suc (suc (suc (suc (suc (suc n)))))))
          (bit (suc (suc (suc (suc (suc (suc (suc n))))))))
unfolding pack_bits
pack_bits_lem bit n = or_bits _ _ _ _ _ _ _ _

-- the bit of weight `m` in a byte
abbrev pub bit_at : ℕ → ℕ → Bool
bit_at m v = v / m % 2 == 1

-- the bits of a byte, and of a list of bytes, the lowest first
abbrev pub unpack : List ℕ → List Bool
unpack [] = []
unpack (v ∷ vs) =
    bit_at 1 v
    ∷ bit_at 2 v
    ∷ bit_at 4 v
    ∷ bit_at 8 v
    ∷ bit_at 16 v
    ∷ bit_at 32 v
    ∷ bit_at 64 v
    ∷ bit_at 128 v
    ∷ unpack vs

-- `count` values of a function from `n` on
abbrev pub values_from : (ℕ → Bool) → ℕ → ℕ → List Bool
values_from bit zero n = []
values_from bit (suc count) n = bit n ∷ values_from bit count (suc n)

bit_at_lem : (b : Bool) (m v : ℕ) → v / m % 2 ≡ bit_value b → bit_at m v ≡ b
bit_at_lem true m v h = ground arith
bit_at_lem false m v h = ground arith

bits_of_byte :
    (a b c d e f g h : Bool) (vs : List ℕ)
    → unpack (byte_of a b c d e f g h ∷ vs) ≡ a ∷ b ∷ c ∷ d ∷ e ∷ f ∷ g ∷ h ∷ unpack vs
bits_of_byte a b c d e f g h vs =
    let la = bit_value_le a in
    let lb = bit_value_le b in
    let lc = bit_value_le c in
    let ld = bit_value_le d in
    let le = bit_value_le e in
    let lf = bit_value_le f in
    let lg = bit_value_le g in
    let lh = bit_value_le h in
    rw
      (
        bit_at_lem a 1 (byte_of a b c d e f g h) (omega arith),
        bit_at_lem b 2 (byte_of a b c d e f g h) (omega arith),
        bit_at_lem c 4 (byte_of a b c d e f g h) (omega arith),
        bit_at_lem d 8 (byte_of a b c d e f g h) (omega arith),
        bit_at_lem e 16 (byte_of a b c d e f g h) (omega arith),
        bit_at_lem f 32 (byte_of a b c d e f g h) (omega arith),
        bit_at_lem g 64 (byte_of a b c d e f g h) (omega arith),
        bit_at_lem h 128 (byte_of a b c d e f g h) (omega arith),
      )
      refl

-- the bytes of the loop, bit by bit
unpack-bytes_of_bits :
    (bit : ℕ → Bool) (bytes count first : ℕ)
    → count ≡ bytes * 8
    → unpack (bytes_of_bits bit bytes first) ≡ values_from bit count first
unfolding bytes_of_bits
unpack-bytes_of_bits bit zero count first h = let z : count ≡ 0 = omega arith in rw z refl
unpack-bytes_of_bits bit (suc bytes) count first h =
    let e : count ≡ suc (suc (suc (suc (suc (suc (suc (suc (bytes * 8)))))))) = omega arith in
    let n : first + 8 ≡ suc (suc (suc (suc (suc (suc (suc (suc first))))))) = omega arith in
    rw (e, n, pack_bits_lem bit first)
      (bits_of_byte _ _ _ _ _ _ _ _ _
        ∙ ap
            (λ (l : List Bool).
              bit first
              ∷ bit (suc first)
              ∷ bit (suc (suc first))
              ∷ bit (suc (suc (suc first)))
              ∷ bit (suc (suc (suc (suc first))))
              ∷ bit (suc (suc (suc (suc (suc first)))))
              ∷ bit (suc (suc (suc (suc (suc (suc first))))))
              ∷ bit (suc (suc (suc (suc (suc (suc (suc first)))))))
              ∷ l)
            (unpack-bytes_of_bits bit bytes (bytes * 8)
              (suc (suc (suc (suc (suc (suc (suc (suc first)))))))) refl))

-- what follows the function code and the count of bytes
abbrev pub response_data : List ℕ → List ℕ
response_data (code ∷ count ∷ values) = values
response_data _ = []

-- a memory bit of the PLC, as a truth value
abbrev pub mem_bit_on : Plc → ℕ → Bool
mem_bit_on s i = to_bool (read_var s VarType.mem_bit (pos i))

values_from_shift :
    (bit : ℕ → Bool) (count n : ℕ)
    → values_from (λ i. bit (i + 1)) count n ≡ values_from bit count (n + 1)
values_from_shift bit zero n = refl
values_from_shift bit (suc count) n =
    let one : n + 1 ≡ suc n = omega arith in
    let next : suc (suc n) ≡ suc n + 1 = omega arith in
    rw one (ap (λ l. bit (suc n) ∷ l) (values_from_shift bit count (suc n) ∙ rw next refl))

-- the answer to a request that reads bits in range
read_bits_answer :
    (s : Plc) (q : Buffer) (lgt : ℕ)
    → function_of (q 0 % 256) ≡ Function.read_bits
    → 5 ≤ lgt
    → word_at q 1 + 1 + (word_at q 3 + 7) / 8 * 8 ≤ s.sizes.nbr_bits
    → word_at q 3 ≤ 2000
    → modbus_request_to_respond s q lgt ≡ (
      s,
      q 0 % 256
          ∷ (word_at q 3 + 7) / 8
          ∷ bytes_of_bits (λ i. mem_bit_on s (i + 1)) ((word_at q 3 + 7) / 8) (word_at q 1),
    )
unfolding modbus_request_to_respond respond respond_read_bits read_bits_code
    get_modbus_slave_nbr_vars get_var_for_modbus_slave
read_bits_answer s q lgt function long in_range few = rw function (ground arith)

-- A request to read bits that is long enough, in range and for at most 2000 bits changes nothing. The
-- response is the function code, the count of its data bytes, and data that hold, the lowest bit of each byte
-- first, the memory bits from the number after the one of the request on: as many as are asked for,
-- rounded up to whole bytes.
pub read_bits_response :
    (s : Plc) (q : Buffer) (lgt : ℕ)
    → function_of (q 0 % 256) ≡ Function.read_bits
    → 5 ≤ lgt
    → word_at q 1 + 1 + (word_at q 3 + 7) / 8 * 8 ≤ s.sizes.nbr_bits
    → word_at q 3 ≤ 2000
    → let (s', response) = modbus_request_to_respond s q lgt in
      let bytes = (word_at q 3 + 7) / 8 in
      (s' ≡ s)
      × (response ≡ q 0 % 256 ∷ bytes ∷ response_data response)
      × (unpack (response_data response) ≡ values_from (mem_bit_on s) (bytes * 8) (word_at q 1 + 1))
read_bits_response s q lgt function long in_range few =
    let bytes = (word_at q 3 + 7) / 8 in
    rw (read_bits_answer s q lgt function long in_range few) (
      refl,
      refl,
      unpack-bytes_of_bits (λ i. mem_bit_on s (i + 1)) bytes (bytes * 8) (word_at q 1) refl
          ∙ values_from_shift (mem_bit_on s) (bytes * 8) (word_at q 1),
    )

module _ (s : Plc) (q : Buffer) (lgt : ℕ) (function : q 0 % 256 ≡ 5) (long : 5 ≤ lgt)
    (on_or_off : (word_at q 3 ≡ 0xff00) ⊎ (word_at q 3 ≡ 0)) where
  forced_value : ℕ
  forced_value = if word_at q 3 == 0 then 0 else 1

  force_answer :
      word_at q 1 + 1 ≤ s.sizes.nbr_bits
      → (modbus_request_to_respond s q lgt).0
        ≡ set_var_from_modbus_slave s Function.force_coil (word_at q 1) (pos forced_value)
  unfolding modbus_request_to_respond respond respond_force_coil force_coil_code function_of
      get_modbus_slave_nbr_vars forced_value
  force_answer h = rw function (ground arith)

  -- A granted request to force one coil also overwrites the memory word of the same number with the
  -- value 0 or 1 of the coil.
  pub force_coil_overwrites_word :
      word_at q 1 + 1 ≤ s.sizes.nbr_bits
      → let s' = (modbus_request_to_respond s q lgt).0 in
        (read_var s' VarType.mem_bit (pos (word_at q 1 + 1))
          ≡ pos (if word_at q 3 == 0 then 0 else 1))
        × (read_var s' VarType.mem_word (pos (word_at q 1 + 1))
            ≡ pos (if word_at q 3 == 0 then 0 else 1))
  unfolding set_var_from_modbus_slave read_var write_var update forced_value to_char
  force_coil_overwrites_word h = rw (force_answer h) (ground arith, ground arith)

  -- The test of the range lets one coil too many through: forcing the coil that stands one below the
  -- count of memory bits is granted, and what it writes, beside a word, is the first physical input.
  pub force_coil_past_end :
      word_at q 1 + 1 ≡ s.sizes.nbr_bits
      → is_var_set s VarType.phys_input (pos 0) ≡ false
      → read_var (modbus_request_to_respond s q lgt).0 VarType.phys_input (pos 0)
        ≡ pos (if word_at q 3 == 0 then 0 else 1)
  unfolding set_var_from_modbus_slave read_var write_var update forced_value to_char is_var_set ◌+ℤ◌
  force_coil_past_end h u = rw (force_answer (omega arith)) (ground arith)
