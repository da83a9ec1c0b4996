-- ===== src/Modbus/Frame.antt =====
-- The bytes of a Modbus request and of its response (src/protocol_modbus_slave.c).
use classicladder.Common.{
  ℤ, ℕ, zero, suc, ◌+◌, ◌*◌, ◌/◌, ◌%◌, ◌==◌, leb, if◌then◌else◌, Bool, not, List, [], ◌∷◌, bit_and,
  bit_or, mod_ℤ, pos, get_or,
}
use classicladder.State.{Plc}
use classicladder.Modbus.Access.{Function, set_var_from_modbus_slave}

-- The buffer of the request, byte by byte. What stands behind the request's length is still read
-- where the code reads it.
abbrev pub Buffer : Type 0
Buffer = ℕ → ℕ

-- a list of bytes, as a buffer
abbrev pub buffer : List ℕ → Buffer
buffer l i = get_or l i 0

-- (Question[i]<<8) | Question[i+1]
unfoldable pub word_at : Buffer → ℕ → ℕ
word_at q i = q i % 256 * 256 + q (suc i) % 256

-- (unsigned char)(v>>8) and (unsigned char)v of a number that is not negative
abbrev pub high_byte : ℕ → ℕ
high_byte v = v / 256 % 256

abbrev pub low_byte : ℕ → ℕ
low_byte v = v % 256

-- the same of an `int` variable
abbrev pub high_byte_of_int : ℤ → ℕ
high_byte_of_int v = mod_ℤ v 65536 / 256

abbrev pub low_byte_of_int : ℤ → ℕ
low_byte_of_int v = mod_ℤ v 256

-- the loop over the bits of one byte, with `BitsValues` and `Mask`
unfoldable pub pack_bits : (ℕ → Bool) → ℕ → ℕ → ℕ → ℕ → ℕ
pack_bits bit zero ele values mask = values
pack_bits bit (suc rounds) ele values mask =
    pack_bits bit rounds (suc ele) (if bit ele then bit_or values mask else values) (mask * 2 % 256)

-- the loop over the bytes; `ele` is FirstBit+ScanEle
unfoldable pub bytes_of_bits : (ℕ → Bool) → ℕ → ℕ → List ℕ
bytes_of_bits bit zero ele = []
bytes_of_bits bit (suc bytes) ele = pack_bits bit 8 ele 0 1 ∷ bytes_of_bits bit bytes (ele + 8)

-- the loop over the words that are read
unfoldable pub bytes_of_words : (ℕ → ℤ) → ℕ → ℕ → List ℕ
bytes_of_words word zero ele = []
bytes_of_words word (suc words) ele =
    high_byte_of_int (word ele) ∷ low_byte_of_int (word ele) ∷ bytes_of_words word words (suc ele)

-- The loop that writes bits: `scan_byte`, `scan_bit` and `mask` walk over the data of the request,
-- and `current` over the variables.
unfoldable pub write_bits : Buffer → ℕ → Plc → ℕ → ℕ → ℕ → ℕ → Plc
write_bits q zero s current scan_byte scan_bit mask = s
write_bits q (suc rounds) s current scan_byte scan_bit mask =
    let on = not (bit_and (q scan_byte % 256) mask == 0) in
    let s' =
      set_var_from_modbus_slave s Function.force_coils current (if on then pos 1 else pos 0) in
    let last = leb 8 (suc scan_bit) in
    write_bits q rounds s' (suc current) (if last then suc scan_byte else scan_byte)
      (if last then 0 else suc scan_bit) (if last then 1 else mask * 2 % 256)

-- The loop that writes words, with the last `ValueWord`.
unfoldable pub write_word_list : Buffer → ℕ → Plc → ℕ → ℕ → ℕ → Plc × ℕ
write_word_list q zero s word offset value = (s, value)
write_word_list q (suc rounds) s word offset value =
    write_word_list q rounds
      (set_var_from_modbus_slave s Function.write_words word (pos (word_at q offset))) (suc word)
      (offset + 2) (word_at q offset)
