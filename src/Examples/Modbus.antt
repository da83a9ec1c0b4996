-- ===== src/Examples/Modbus.antt =====
-- Modbus requests: src/protocol_modbus_slave.c.
use classicladder.Common.{
  ℕ, pos, ◌+◌, ◌*◌, ◌%◌, ◌/◌, ◌<◌, ◌≤◌, ◌≡◌, refl, inl, inr, [], ◌∷◌, arith, ◌==◌, if◌then◌else◌,
}
use classicladder.State.{VarType}
use classicladder.Vars.{read_var, is_var_set, get_nbr_vars_for_type}
use classicladder.Modbus.{
  Buffer, buffer, function_of, word_at, exception, modbus_request_to_respond,
}
use classicladder.Modbus.Refuse.{modbus_refuses}
use classicladder.Modbus.Spared.{write_words_spares}
use classicladder.Modbus.Words.{data_bytes, words_roundtrip}
use classicladder.Modbus.Coils.{
  unpack, values_from, response_data, mem_bit_on, read_bits_response, force_coil_overwrites_word,
  force_coil_past_end,
}
use classicladder.Examples.Blank.{blank}

-- 20 bits from number 0, of 10
abbrev too_many : Buffer
too_many = buffer (1 ∷ 0 ∷ 0 ∷ 0 ∷ 20 ∷ [])

modbus_refuses_example :
    (code : ℕ) × (0 < code)
    × (code ≤ 3)
    × (modbus_request_to_respond blank too_many 5 ≡ (blank, exception 1 code))
unfolding function_of word_at
modbus_refuses_example = modbus_refuses blank too_many 5 tt (λ h. omega (arith, h.1))

abbrev one_bit : Buffer
one_bit = buffer (1 ∷ 0 ∷ 0 ∷ 0 ∷ 8 ∷ [])

abbrev write_two : Buffer
write_two = buffer (16 ∷ 0 ∷ 1 ∷ 0 ∷ 2 ∷ 4 ∷ 0x12 ∷ 0x34 ∷ 0xff ∷ 0xfe ∷ [])

abbrev read_two : Buffer
read_two = buffer (3 ∷ 0 ∷ 1 ∷ 0 ∷ 2 ∷ [])

words_roundtrip_example :
    (modbus_request_to_respond (modbus_request_to_respond blank write_two 10).0 read_two 5).1
    ≡ 3 ∷ word_at write_two 3 * 2 % 256 ∷ data_bytes write_two (word_at write_two 3) 6
unfolding word_at
words_roundtrip_example =
    words_roundtrip blank write_two read_two 10 5 refl refl refl refl (omega arith) (omega arith)
      (omega arith) (omega arith) (omega arith)

read_bits_response_example :
    let (s', response) = modbus_request_to_respond blank one_bit 5 in
    let bytes = (word_at one_bit 3 + 7) / 8 in
    (s' ≡ blank)
    × (response ≡ one_bit 0 % 256 ∷ bytes ∷ response_data response)
    × (unpack (response_data response)
        ≡ values_from (mem_bit_on blank) (bytes * 8) (word_at one_bit 1 + 1))
unfolding function_of word_at
read_bits_response_example =
    read_bits_response blank one_bit 5 refl (omega arith) (omega arith) (omega arith)

write_words_spares_example :
    read_var (modbus_request_to_respond blank write_two 10).0 VarType.mem_word (pos 4)
    ≡ read_var blank VarType.mem_word (pos 4)
unfolding function_of word_at get_nbr_vars_for_type
write_words_spares_example =
    write_words_spares blank write_two 10 VarType.mem_word 4 refl refl (inr (inr (omega arith)))

-- coil 3 on
abbrev force_three : Buffer
force_three = buffer (5 ∷ 0 ∷ 3 ∷ 0xff ∷ 0 ∷ [])

force_coil_overwrites_word_example :
    let s' = (modbus_request_to_respond blank force_three 5).0 in
    (read_var s' VarType.mem_bit (pos (word_at force_three 1 + 1))
      ≡ pos (if word_at force_three 3 == 0 then 0 else 1))
    × (read_var s' VarType.mem_word (pos (word_at force_three 1 + 1))
        ≡ pos (if word_at force_three 3 == 0 then 0 else 1))
unfolding word_at
force_coil_overwrites_word_example =
    force_coil_overwrites_word blank force_three 5 refl (omega arith) (inl refl) (omega arith)

-- coil 9 on, of 10
abbrev force_last : Buffer
force_last = buffer (5 ∷ 0 ∷ 9 ∷ 0xff ∷ 0 ∷ [])

force_coil_past_end_example :
    read_var (modbus_request_to_respond blank force_last 5).0 VarType.phys_input (pos 0)
    ≡ pos (if word_at force_last 3 == 0 then 0 else 1)
unfolding word_at is_var_set
force_coil_past_end_example =
    force_coil_past_end blank force_last 5 refl (omega arith) (inl refl) refl refl
