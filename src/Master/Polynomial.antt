-- ===== src/Master/Polynomial.antt =====
-- CRC16 of src/protocol_modbus_master.c against the division by its polynomial, bit by bit.
use classicladder.Common.{
  ℕ, zero, suc, ◌+◌, ◌*◌, ◌/◌, ◌%◌, ◌<◌, ◌≡◌, refl, ap, ◌∙◌, sym, List, [], ◌∷◌, bit_xor, get_or,
  arith, if◌then◌else◌, ◌==◌, ltb, ◌&&◌, Bool, true, is_accepted, is_accepted_sound, Bool-cases,
  inl, inr,
}
use classicladder.Common.Xor.{
  shifted, bit_xor_fields, bit_xor_low, bit_xor_comm, bit_xor_half, bit_xor_parity,
  bit_xor_right_comm,
}
use classicladder.Master.Crc.{auch_crc_hi, auch_crc_lo, crc_loop, crc16}

-- One bit is shifted out of the register; when it is set, the polynomial is added.
unfoldable pub divide_bit : ℕ → ℕ
divide_bit r = if r % 2 == 1 then bit_xor (r / 2) 0xa001 else r / 2

unfoldable pub divide_bits : ℕ → ℕ → ℕ
divide_bits zero r = r
divide_bits (suc k) r = divide_bits k (divide_bit r)

-- the register after the bytes of a message
unfoldable pub remainder : List ℕ → ℕ → ℕ
unfolding divide_bits
remainder [] r = r
remainder (byte ∷ message) r = remainder message (divide_bits 8 (bit_xor r byte))

-- the register with its two bytes exchanged, as it is sent
abbrev pub exchange_bytes : ℕ → ℕ
exchange_bytes r = r % 256 * 256 + r / 256

unfoldable pub is_bytes : List ℕ → Bool
is_bytes [] = true
is_bytes (byte ∷ message) = ltb byte 256 && is_bytes message

-- the high digits of the register go through the shifts unchanged
divide_bit-bit_xor : (x h : ℕ) → divide_bit (bit_xor x (2 * h)) ≡ bit_xor (divide_bit x) h
unfolding divide_bit
divide_bit-bit_xor x h =
    let half : bit_xor x (2 * h) / 2 ≡ bit_xor (x / 2) h =
      bit_xor_half x (2 * h) ∙ ap (bit_xor (x / 2)) (omega arith) in
    let parity : bit_xor x (2 * h) % 2 ≡ x % 2 = omega (arith, bit_xor_parity x (2 * h)) in
    rw (half, parity)
      (elim (Bool-cases (x % 2 == 1)) [
        | inl odd ↦ rw odd (bit_xor_right_comm (x / 2) h 0xa001)
        | inr even ↦ rw even refl
      ])

divide_bits-bit_xor :
    (k x h : ℕ) → divide_bits k (bit_xor x (shifted k h)) ≡ bit_xor (divide_bits k x) h
unfolding divide_bits
divide_bits-bit_xor zero x h = refl
divide_bits-bit_xor (suc k) x h =
    ap (divide_bits k) (divide_bit-bit_xor x (shifted k h)) ∙ divide_bits-bit_xor k (divide_bit x) h

-- what the tables say of an index
abbrev is_tabled : ℕ → Bool
unfolding divide_bits
is_tabled x =
    (divide_bits 8 x == get_or auch_crc_lo x 0 * 256 + get_or auch_crc_hi x 0)
    && (ltb (get_or auch_crc_hi x 0) 256 && ltb (get_or auch_crc_lo x 0) 256)

tabled : is_accepted 256 is_tabled ≡ true
unfolding is_accepted divide_bits divide_bit
tabled = refl

abbrev hi_of : ℕ → ℕ
hi_of x = get_or auch_crc_hi x 0

abbrev lo_of : ℕ → ℕ
lo_of x = get_or auch_crc_lo x 0

table :
    (x : ℕ)
    → x < 256
    → (divide_bits 8 x ≡ lo_of x * 256 + hi_of x) × (hi_of x < 256) × (lo_of x < 256)
unfolding divide_bits is_tabled
table x h = tests (divide_bits 8 x) (lo_of x) (hi_of x) (is_accepted_sound 256 is_tabled tabled x h)
  where
    tests :
        (r lo hi : ℕ)
        → ((r == lo * 256 + hi) && (ltb hi 256 && ltb lo 256)) ≡ true
        → (r ≡ lo * 256 + hi) × (hi < 256) × (lo < 256)
    tests r lo hi e = (ground arith, ground arith, ground arith)

-- one byte, by the tables
module _ (hi lo byte : ℕ) (hi_fits : hi < 256) (lo_fits : lo < 256) (byte_fits : byte < 256) where
  index_of :
      (bit_xor (hi + shifted 8 lo) byte ≡ bit_xor hi byte + shifted 8 lo) × (bit_xor hi byte < 256)
  index_of = let e = bit_xor_low 8 hi byte lo hi_fits byte_fits in (e.0, e.1)

  byte_step :
      (divide_bits 8 (bit_xor (lo * 256 + hi) byte)
        ≡ lo_of (bit_xor hi byte) * 256 + bit_xor lo (hi_of (bit_xor hi byte)))
      × (bit_xor lo (hi_of (bit_xor hi byte)) < 256)
      × (lo_of (bit_xor hi byte) < 256)
  byte_step =
      let i = bit_xor hi byte in
      let (entry, hi_small, lo_small) = table i index_of.1 in
      let below = bit_xor_low 8 (hi_of i) lo (lo_of i) hi_small lo_fits in
      let swapped : bit_xor lo (hi_of i) ≡ bit_xor (hi_of i) lo = bit_xor_comm lo (hi_of i) in
      let start : bit_xor (lo * 256 + hi) byte ≡ bit_xor i (shifted 8 lo) =
        ap (λ r. bit_xor r byte) (omega arith)
        ∙ index_of.0
        ∙ sym (bit_xor_fields 8 i lo index_of.1) in
      let shifts =
        ap (divide_bits 8) start ∙ divide_bits-bit_xor 8 i lo ∙ ap (λ r. bit_xor r lo) entry in
      (
        shifts ∙ ap (λ r. bit_xor r lo) (omega arith) ∙ below.0 ∙ omega (arith, swapped),
        omega (arith, swapped, below.1),
        lo_small,
      )

crc_loop-remainder :
    (message : List ℕ) (hi lo : ℕ)
    → is_bytes message ≡ true
    → hi < 256
    → lo < 256
    → let (hi', lo') = crc_loop message hi lo in
      (remainder message (lo * 256 + hi) ≡ lo' * 256 + hi') × (hi' < 256) × (lo' < 256)
unfolding crc_loop remainder is_bytes
crc_loop-remainder [] hi lo b h l = (refl, h, l)
crc_loop-remainder (byte ∷ message) hi lo b h l =
    let (first, hi_small, lo_small) = byte_step hi lo byte h l (ground arith) in
    let (rest, hi_last, lo_last) =
      crc_loop-remainder message (bit_xor lo (hi_of (bit_xor hi byte))) (lo_of (bit_xor hi byte))
        (ground arith) hi_small lo_small in
    (ap (remainder message) first ∙ rest, hi_last, lo_last)

-- The checksum by the tables is the remainder of the division by the Modbus polynomial (0xA001, bits
-- reversed), from 0xFFFF on, with its two bytes exchanged, for every message of bytes.
pub crc16-remainder :
    (message : List ℕ)
    → is_bytes message ≡ true
    → crc16 message ≡ exchange_bytes (remainder message 0xffff)
unfolding crc16
crc16-remainder message b =
    let (e, h, l) = crc_loop-remainder message 0xff 0xff b (omega arith) (omega arith) in
    omega (arith, e, h, l)
