-- ===== src/Modbus/Respond.antt =====
-- src/protocol_modbus_slave.c: ModbusRequestToRespond.
use classicladder.Common.{
  ℕ, suc, pos, ◌+◌, ◌-◌, ◌*◌, ◌/◌, ◌%◌, ◌==◌, ltb, leb, ◌&&◌, ◌||◌, not, if◌then◌else◌, Bool, List,
  [], ◌∷◌, bit_or, to_bool,
}
use classicladder.State.{Plc}
use classicladder.Modbus.Access.{
  Function, function_of, illegal_function, illegal_data_address, illegal_data_value, modbus_bit_on,
  modbus_bit_off, get_modbus_slave_nbr_vars, get_var_for_modbus_slave, set_var_from_modbus_slave,
}
use classicladder.Modbus.Frame.{
  Buffer, word_at, high_byte, low_byte, bytes_of_bits, bytes_of_words, write_bits, write_word_list,
}

-- the error code, where a later test that fails has the last word
abbrev pub check : Bool → ℕ → ℕ → ℕ
check failed code before = if failed then code else before

-- a response with an exception
abbrev pub exception : ℕ → ℕ → List ℕ
exception c code = bit_or 0x80 c ∷ code ∷ []

-- The state and the response that stand at the end, where an error code replaces the response.
abbrev pub finish : ℕ → ℕ → Plc → Plc × List ℕ → Plc × List ℕ
finish c code s answer = if ltb 0 code then (s, exception c code) else answer

module _ (q : Buffer) (lgt : ℕ) (s : Plc) (c : ℕ) where
  unfoldable pub read_bits_code : ℕ
  read_bits_code =
      if leb 5 lgt
      then check (ltb 2000 (word_at q 3)) illegal_data_address (
          check
            (ltb (get_modbus_slave_nbr_vars s Function.read_bits)
              (word_at q 1 + 1 + (word_at q 3 + 7) / 8 * 8))
            illegal_data_address 0)
      else illegal_data_address

  unfoldable pub respond_read_bits : Plc × List ℕ
  respond_read_bits =
      let bytes = (word_at q 3 + 7) / 8 in
      finish c read_bits_code s (
        s,
        c
            ∷ bytes % 256
            ∷ bytes_of_bits (λ i. to_bool (get_var_for_modbus_slave s Function.read_bits i)) bytes
                (word_at q 1),
      )

  unfoldable pub read_words_code : ℕ
  read_words_code =
      if leb 5 lgt
      then check (ltb 200 (word_at q 3)) illegal_data_address (
          check
            (ltb (get_modbus_slave_nbr_vars s Function.read_words) (word_at q 1 + 1 + word_at q 3))
            illegal_data_address 0)
      else illegal_data_address

  unfoldable pub respond_read_words : Plc × List ℕ
  respond_read_words = finish c read_words_code s (
    s,
    c
        ∷ word_at q 3 * 2 % 256
        ∷ bytes_of_words (get_var_for_modbus_slave s Function.read_words) (word_at q 3)
            (word_at q 1),
  )

  unfoldable pub force_coil_code : ℕ
  force_coil_code =
      check (not (word_at q 3 == modbus_bit_on) && not (word_at q 3 == modbus_bit_off))
        illegal_data_value
        (check (ltb (get_modbus_slave_nbr_vars s Function.force_coil) (word_at q 1 + 1))
          illegal_data_address 0)

  -- A request that is too short gets no response at all.
  unfoldable pub respond_force_coil : Plc × List ℕ
  respond_force_coil =
      if leb 5 lgt
      then finish c force_coil_code s (
        set_var_from_modbus_slave s Function.force_coil (word_at q 1)
            (if word_at q 3 == 0 then pos 0 else pos 1),
        c
            ∷ high_byte (word_at q 1)
            ∷ low_byte (word_at q 1)
            ∷ high_byte (word_at q 3)
            ∷ low_byte (word_at q 3)
            ∷ [],
      )
      else (s, [])

  unfoldable pub force_coils_code : ℕ
  force_coils_code = check (ltb (q 5 % 256) ((word_at q 3 + 7) / 8)) illegal_data_value (
      check (ltb 2000 (word_at q 3)) illegal_data_address (
        check
          (ltb (get_modbus_slave_nbr_vars s Function.force_coils) (word_at q 1 + 1 + word_at q 3))
          illegal_data_address 0))

  -- The loop is a `do` loop: it writes one bit at least.
  unfoldable pub respond_force_coils : Plc × List ℕ
  respond_force_coils =
      if leb 7 lgt
      then finish c force_coils_code s (
        write_bits q (suc (word_at q 3 - 1)) s (word_at q 1) 6 0 1,
        c
            ∷ high_byte (word_at q 1)
            ∷ low_byte (word_at q 1)
            ∷ high_byte (word_at q 3)
            ∷ low_byte (word_at q 3)
            ∷ [],
      )
      else (s, [])

  -- one word, or `NbrWords` of the request
  abbrev pub nbr_words_written : ℕ
  nbr_words_written = if c == 16 then word_at q 3 else 1

  unfoldable pub write_words_code : ℕ
  write_words_code =
      if (leb 5 lgt && (c == 6)) || (leb 8 lgt && (c == 16))
      then check (ltb 200 nbr_words_written) illegal_data_address (
          check
            (ltb (get_modbus_slave_nbr_vars s Function.write_words)
              (word_at q 1 + 1 + nbr_words_written))
            illegal_data_address
            (check ((c == 16) && ltb (q 5 % 256) (word_at q 3 * 2)) illegal_data_value 0))
      else illegal_data_address

  unfoldable pub respond_write_words : Plc × List ℕ
  respond_write_words =
      let (s', value) =
        write_word_list q nbr_words_written s (word_at q 1) (if c == 16 then 6 else 3) 0 in
      let echoed = if c == 16 then word_at q 3 else value in
      finish c write_words_code s (
        s',
        c
            ∷ high_byte (word_at q 1)
            ∷ low_byte (word_at q 1)
            ∷ high_byte echoed
            ∷ low_byte echoed
            ∷ [],
      )

-- the `switch` on the function code
unfoldable pub respond : Buffer → ℕ → Plc → ℕ → Function → Plc × List ℕ
respond q lgt s c Function.read_bits = respond_read_bits q lgt s c
respond q lgt s c Function.read_words = respond_read_words q lgt s c
respond q lgt s c Function.force_coil = respond_force_coil q lgt s c
respond q lgt s c Function.force_coils = respond_force_coils q lgt s c
respond q lgt s c Function.write_words = respond_write_words q lgt s c
respond q lgt s c Function.illegal = (s, exception c illegal_function)

-- The state after the request, and the bytes of the response.
unfoldable pub modbus_request_to_respond : Plc → Buffer → ℕ → Plc × List ℕ
modbus_request_to_respond s q lgt = respond q lgt s (q 0 % 256) (function_of (q 0 % 256))
