-- ===== src/Master/Treat.antt =====
-- src/protocol_modbus_master.c: TreatPureModbusResponse and GetModbusResponseLenghtToReceive.
use classicladder.Common.{
  ℤ, ℕ, zero, suc, pos, negsuc, ◌+◌, ◌*◌, ◌/◌, ◌%◌, ◌+ℤ◌, ◌*ℤ◌, ◌==ℤ◌, ◌==◌, ◌&&◌, ◌||◌, ltb_ℤ, not,
  if◌then◌else◌, Bool, true, false, bit_and,
}
use classicladder.State.{Plc}
use classicladder.Modbus.{Buffer, word_at}
use classicladder.Master.Config.{MasterReq, ModbusConfig, Master}
use classicladder.Master.Next.{no_req}
use classicladder.Master.Access.{first_ele, nbr_real_bytes, set_var_from_modbus}
use classicladder.Master.Ask.{req_of}

-- a size of at least `n` bytes
abbrev pub is_long : ℕ → ℤ → Bool
is_long n size = not (ltb_ℤ size (pos n))

module _ (c : ModbusConfig) (req : MasterReq) (resp : Buffer) where
  -- the loop over the bits of one byte, with ScanEle
  unfoldable pub read_bits_of_byte : ℕ → ℕ → ℕ → Plc × ℕ → Plc × ℕ
  unfolding set_var_from_modbus
  read_bits_of_byte values zero mask (s, ele) = (s, ele)
  read_bits_of_byte values (suc rounds) mask (s, ele) =
      let on = not (bit_and values mask == 0) in
      let value = if req.logic_inverted then not on else on in
      let after =
        if ltb_ℤ (pos ele) req.nbr_modbus_elements
        then (
          set_var_from_modbus c s req (first_ele c req +ℤ pos ele) (if value then pos 1 else pos 0),
          suc ele,
        )
        else (s, ele) in
      read_bits_of_byte values rounds (mask * 2 % 256) after

  -- the loop over the bytes, from `offset` on
  unfoldable pub read_bits_bytes : ℕ → ℕ → Plc × ℕ → Plc × ℕ
  unfolding read_bits_of_byte
  read_bits_bytes zero offset state = state
  read_bits_bytes (suc bytes) offset state =
      read_bits_bytes bytes (suc offset) (read_bits_of_byte (resp offset % 256) 8 1 state)

  -- the loop over the words: as many as the answer announces
  unfoldable pub read_words : ℕ → ℕ → Plc → Plc
  unfolding set_var_from_modbus word_at
  read_words zero i s = s
  read_words (suc words) i s =
      read_words words (suc i)
        (set_var_from_modbus c s req (first_ele c req +ℤ pos i) (pos (word_at resp (2 + i * 2))))

  -- the acknowledgement of a request that writes one element, or many
  unfoldable pub names_first : Bool
  unfolding word_at
  names_first = pos (word_at resp 1) ==ℤ first_ele c req

  unfoldable pub names_count : Bool
  unfolding word_at
  names_count = pos (word_at resp 3) ==ℤ req.nbr_modbus_elements

  module _ (s : Plc) (size : ℤ) where
    unfoldable pub treat_read_bits : Plc × Bool
    unfolding read_bits_bytes
    treat_read_bits =
        let bytes = resp 1 % 256 in
        if (pos bytes ==ℤ nbr_real_bytes req) && is_long (2 + bytes) size
        then ((read_bits_bytes bytes 2 (s, 0)).0, true)
        else (s, false)

    unfoldable pub treat_read_words : Plc × Bool
    unfolding read_words
    treat_read_words = (read_words (resp 1 % 256 / 2) 0 s, true)

    unfoldable pub treat_read_status : Plc × Bool
    unfolding set_var_from_modbus
    treat_read_status =
        if is_long 2 size
        then (set_var_from_modbus c s req (pos 0) (pos (resp 1 % 256)), true)
        else (s, false)

    unfoldable pub treat_diagnostics : Plc × Bool
    unfolding set_var_from_modbus word_at
    treat_diagnostics =
        if is_long 5 size
        then (set_var_from_modbus c s req (negsuc 0) (pos (word_at resp 3)), true)
        else (s, false)

    -- the `switch` on the function code of the answer
    unfoldable pub treat_by_code : ℕ → Plc × Bool
    unfolding treat_read_bits treat_read_words treat_read_status treat_diagnostics names_first
        names_count
    treat_by_code code =
        if (code == 1) || (code == 2)
        then treat_read_bits
        else if (code == 3) || (code == 4)
        then treat_read_words
        else if code == 5
        then (s, names_first && is_long 3 size)
        else if (code == 15) || (code == 16)
        then (s, names_first && is_long 5 size && names_count)
        else if code == 6
        then (s, names_first && (size ==ℤ pos 5))
        else if code == 7
        then treat_read_status
        else if code == 8
        then treat_diagnostics
        else (s, false)

-- The variables after the answer, and whether it is accepted.
unfoldable pub treat_pure_modbus_response : Master → Buffer → ℤ → Plc × Bool
unfolding treat_by_code
treat_pure_modbus_response m resp size =
    let code = resp 0 % 256 in
    if not (bit_and code 0x80 == 0)
    then (m.plc, false)
    else if not (code == m.current_func_code)
    then (m.plc, false)
    else treat_by_code (m.modbus_config) (req_of m) resp (m.plc) size code

-- the length of the answer, after the function code
abbrev pub length_by_code : MasterReq → ℕ → ℤ
length_by_code req code =
    let n = req.nbr_modbus_elements in
    if (code == 1) || (code == 2)
    then pos 1 +ℤ nbr_real_bytes req
    else if (code == 3) || (code == 4)
    then n *ℤ pos 2 +ℤ pos 1
    else if (code == 5) || (code == 15) || (code == 6)
    then pos 4
    else if code == 16
    then n *ℤ pos 2 +ℤ pos 2
    else if code == 7
    then pos 1
    else if code == 8
    then pos 4
    else pos 0

unfoldable pub get_modbus_response_lenght_to_receive : Master → ℤ
get_modbus_response_lenght_to_receive m =
    if m.current_req ==ℤ no_req
    then pos 0
    else pos 1 +ℤ length_by_code (req_of m) (m.current_func_code)
