-- ===== src/Master/Serial.antt =====
-- The answers on a serial line (src/protocol_modbus_master.c, ExtractUsefullDatasInSerial and
-- TreatModbusMasterResponse).
use classicladder.Common.{
  ℤ, ℕ, zero, suc, pos, pos_part, ◌+◌, ◌%◌, ◌≡◌, refl, ◌⊎◌, inl, inr, Bool, true, false, Bool-cases,
  ◌&&◌, ◌==◌, ==_iff, ==ℤ_refl, ◌==ℤ◌, ltb_ℤ, leb, ◌+ℤ◌, ◌-ℤ◌, none, some, bit_and,
}
use classicladder.Modbus.{Buffer}
use classicladder.Master.Config.{Master}
use classicladder.Master.Next.{no_req}
use classicladder.Master.Ask.{is_serial, slave_number}
use classicladder.Master.Treat.{treat_pure_modbus_response, get_modbus_response_lenght_to_receive}
use classicladder.Master.Receive.{
  find_address, frame_size_expected, is_crc_right, extract_usefull_datas_in_serial, useful_part,
  treat_frame, treat_modbus_master_response,
}

and_false : (a b : Bool) → b ≡ false → (a && b) ≡ false
and_false true b h = h
and_false false b h = refl

-- an answer to the write of one register that is not five bytes long
refused_size :
    (m : Master) (resp : Buffer) (size : ℤ)
    → m.current_func_code ≡ 6
    → (size ==ℤ pos 5) ≡ false
    → (treat_pure_modbus_response m resp size).1 ≡ false
unfolding treat_pure_modbus_response
refused_size m resp size asked short =
    rw asked (elim (Bool-cases (bit_and (resp 0 % 256) 0x80 == 0)) [
      | inr exception ↦ rw exception refl
      | inl regular ↦ rw regular (elim (Bool-cases (resp 0 % 256 == 6)) [
        | inr other ↦ rw other refl
        | inl same ↦
            let code : resp 0 % 256 ≡ 6 = (==_iff (resp 0 % 256) 6).0 same in
            rw code (and_false _ (size ==ℤ pos 5) short)
      ])
    ])

module _ (m : Master) (resp : Buffer) (serial : is_serial m ≡ true)
    (current : (m.current_req ==ℤ no_req) ≡ false) (asked : m.current_func_code ≡ 6)
    (address : pos (resp 0 % 256) ≡ slave_number m) where
  expected : frame_size_expected m ≡ pos 8
  unfolding frame_size_expected get_modbus_response_lenght_to_receive ◌+ℤ◌
  expected = rw (current, asked) refl

  found_first : (k : ℕ) → find_address resp (slave_number m) (suc k) (suc k) 0 ≡ some 0
  unfolding find_address
  found_first k = rw address (rw (==ℤ_refl (slave_number m)) refl)

  extracted :
      (size : ℕ)
      → (extract_usefull_datas_in_serial m resp size ≡ none)
        ⊎ (extract_usefull_datas_in_serial m resp size ≡ some (1, pos 8))
  unfolding extract_usefull_datas_in_serial
  extracted zero = inl refl
  extracted (suc k) = elim (Bool-cases (leb 4 (suc k))) [
    | inr short ↦ inl (rw short refl)
    | inl long ↦
        rw (long, found_first k)
          (elim (Bool-cases (is_crc_right m resp 0)) [
            | inl right ↦ inr (rw (right, expected) refl)
            | inr wrong ↦ inl (rw wrong refl)
          ])
  ]

  frame_refused : (lgt : ℤ) → (treat_frame m resp lgt).1 ≡ false
  unfolding treat_frame useful_part ◌-ℤ◌
  frame_refused lgt = elim (Bool-cases (ltb_ℤ (pos 0) lgt)) [
    | inr empty ↦ rw empty refl
    | inl some_bytes ↦
        rw (some_bytes, serial)
          (elim (extracted (pos_part lgt)) [
            | inl nothing ↦ rw nothing refl
            | inr frame ↦ rw frame (refused_size m (λ i. resp (1 + i)) (pos 8 -ℤ pos 1) asked refl)
          ])
  ]

  -- On a serial line the answer to the write of one register is refused, whatever it holds, when it
  -- starts with the number of the slave that is asked: the bytes of the checksum are counted too, and
  -- the code wants exactly five.
  pub serial_refuses_write : (lgt : ℤ) → (treat_modbus_master_response m resp lgt).1 ≡ false
  unfolding treat_modbus_master_response
  serial_refuses_write lgt = rw current (rw (frame_refused lgt) refl)
