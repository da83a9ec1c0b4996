-- ===== src/Master/Ask.antt =====
-- src/protocol_modbus_master.c: PrepPureModbusAskForCurrentReq and ModbusMasterAsk.
use classicladder.Common.{
  ℤ, ℕ, suc, pos, negsuc, pos_part, ◌+◌, ◌-◌, false, ◌*◌, ◌+ℤ◌, ◌*ℤ◌, ◌==ℤ◌, ◌&&◌, ltb_ℤ, ltb, ◌==◌,
  leb, ◌||◌, if◌then◌else◌, not, Bool, List, [], ◌∷◌, ◌++◌, length, to_bool, sub_ℕ,
}
use classicladder.State.{Plc}
use classicladder.Modbus.{
  bytes_of_bits, bytes_of_words, high_byte, low_byte, high_byte_of_int, low_byte_of_int,
}
use classicladder.Master.Config.{TypeReq, MasterReq, ModbusConfig, Master, is_empty}
use classicladder.Master.Crc.{crc16}
use classicladder.Master.Next.{no_req, slave_in_req, find_next_req_from_table}
use classicladder.Master.Access.{first_ele, nbr_real_bytes, get_var_for_modbus}

-- the request that CurrentReq names
abbrev pub req_of : Master → MasterReq
req_of m = m.modbus_master_req (m.current_req)

-- FunctionCode; 0 for a type that no case names
abbrev pub function_code : TypeReq → ℤ → ℕ
function_code TypeReq.inputs_read n = 2
function_code TypeReq.coils_write n = if n ==ℤ pos 1 then 5 else 15
function_code TypeReq.input_regs_read n = 4
function_code TypeReq.hold_regs_write n = if n ==ℤ pos 1 then 6 else 16
function_code TypeReq.coils_read n = 1
function_code TypeReq.hold_regs_read n = 3
function_code TypeReq.read_status n = 7
function_code TypeReq.diagnostics n = 8
function_code TypeReq.other n = 0

abbrev pub two_bytes : ℤ → List ℕ
two_bytes v = high_byte_of_int v ∷ low_byte_of_int v ∷ []

module _ (c : ModbusConfig) (s : Plc) (req : MasterReq) where
  abbrev first : ℤ
  first = first_ele c req

  abbrev nbr_eles : ℤ
  nbr_eles = req.nbr_modbus_elements

  -- a variable of the request, by its place in the request
  unfoldable pub var_of_ele : ℕ → ℤ
  unfolding get_var_for_modbus
  var_of_ele i = get_var_for_modbus c s req (first +ℤ pos i)

  unfoldable pub ask_read : List ℕ
  ask_read = two_bytes first ++ two_bytes nbr_eles

  unfoldable pub ask_force_coil : List ℕ
  unfolding var_of_ele
  ask_force_coil =
      two_bytes first ++ two_bytes (if to_bool (var_of_ele 0) then pos 0xff00 else pos 0)

  unfoldable pub ask_force_coils : List ℕ
  unfolding var_of_ele bytes_of_bits
  ask_force_coils =
      two_bytes first
      ++ two_bytes nbr_eles
      ++ (low_byte_of_int (nbr_real_bytes req)
          ∷ bytes_of_bits (λ i. to_bool (var_of_ele i) && ltb_ℤ (pos i) nbr_eles)
              (pos_part (nbr_real_bytes req)) 0)

  unfoldable pub ask_write_hold_reg : List ℕ
  unfolding var_of_ele
  ask_write_hold_reg = two_bytes first ++ two_bytes (var_of_ele 0)

  unfoldable pub ask_write_hold_regs : List ℕ
  unfolding var_of_ele bytes_of_words
  ask_write_hold_regs =
      two_bytes first
      ++ two_bytes nbr_eles
      ++ (low_byte_of_int (nbr_eles *ℤ pos 2) ∷ bytes_of_words var_of_ele (pos_part nbr_eles) 0)

  -- The cast stands before the shift in the source: the first byte is 0.
  unfoldable pub ask_diagnostics : List ℕ
  unfolding get_var_for_modbus
  ask_diagnostics =
      high_byte (low_byte_of_int (req.first_modbus_element))
      ∷ low_byte_of_int (req.first_modbus_element)
      ∷ two_bytes (get_var_for_modbus c s req (negsuc 0))

  -- the `switch` on the function code
  unfoldable pub ask_data : ℕ → List ℕ
  unfolding ask_read ask_force_coil ask_force_coils ask_write_hold_reg ask_write_hold_regs
      ask_diagnostics
  ask_data code =
      if leb 1 code && leb code 4
      then ask_read
      else if code == 5
      then ask_force_coil
      else if code == 15
      then ask_force_coils
      else if code == 6
      then ask_write_hold_reg
      else if code == 16
      then ask_write_hold_regs
      else if code == 8
      then ask_diagnostics
      else []

unfoldable pub prep_pure_modbus_ask_for_current_req : Master → Master × List ℕ
unfolding ask_data
prep_pure_modbus_ask_for_current_req m =
    let req = req_of m in
    let code = function_code (req.type_req) (req.nbr_modbus_elements) in
    if ltb 0 code
    then (record m { current_func_code = code }, code ∷ ask_data (m.modbus_config) (m.plc) req code)
    else (m, [])

-- atoi of the C library: blanks, a sign and digits
abbrev pub libc_atoi_digits : List ℕ → ℕ → ℕ
libc_atoi_digits [] n = n
libc_atoi_digits (c ∷ rest) n =
    let more = libc_atoi_digits rest (n * 10 + (c - 48)) in if leb 48 c && leb c 57 then more else n

abbrev pub libc_atoi_signed : List ℕ → ℤ
libc_atoi_signed [] = pos 0
libc_atoi_signed (c ∷ rest) =
    if c == 45
    then sub_ℕ 0 (libc_atoi_digits rest 0)
    else pos (libc_atoi_digits (if c == 43 then rest else c ∷ rest) 0)

unfoldable pub libc_atoi : List ℕ → ℤ
libc_atoi [] = pos 0
libc_atoi (c ∷ rest) =
    let more = libc_atoi rest in
    if (c == 32) || (leb 9 c && leb c 13) then more else libc_atoi_signed (c ∷ rest)

abbrev pub is_serial : Master → Bool
is_serial m = not (is_empty (m.modbus_config.modbus_serial_port_name_used))

-- the number of the slave of a request
unfoldable pub slave_number : Master → ℤ
unfolding libc_atoi
slave_number m = libc_atoi (m.modbus_slave_list (slave_in_req m (m.current_req))).slave_adr

-- the frame on a serial line: the slave's number, the question, and their checksum
unfoldable pub serial_frame : ℤ → List ℕ → List ℕ
unfolding crc16
serial_frame slave question =
    let message = low_byte_of_int slave ∷ question in
    let crc = crc16 message in message ++ (high_byte crc ∷ low_byte crc ∷ [])

-- the frame over IP: the invocation and protocol identifiers, the length and the unit
unfoldable pub ip_frame : ℕ → List ℕ → List ℕ
ip_frame invocation question =
    high_byte invocation
    ∷ low_byte invocation
    ∷ 0
    ∷ 0
    ∷ high_byte (length question + 1)
    ∷ low_byte (length question + 1)
    ∷ 1
    ∷ question

abbrev pub next_invocation : ℕ → ℕ
next_invocation n = if leb 65536 (suc n) then 0 else suc n

-- what ModbusMasterAsk does once there is a request
unfoldable pub ask_current_req : Master → ℤ → Master × ℤ × List ℕ
unfolding prep_pure_modbus_ask_for_current_req serial_frame ip_frame slave_number
ask_current_req m slave_index =
    let (m', question) = prep_pure_modbus_ask_for_current_req m in
    if is_empty question
    then (m', slave_index, [])
    else if is_serial m
    then (m', slave_in_req m (m.current_req), serial_frame (slave_number m) question)
    else (
      record m' { invoq_identif_header_ip = next_invocation (m.invoq_identif_header_ip) },
      slave_in_req m (m.current_req),
      ip_frame (next_invocation (m.invoq_identif_header_ip)) question,
    )

-- The state, the index of the slave that is asked (`slave_index` when none is), and the frame.
unfoldable pub modbus_master_ask : Master → ℤ → Master × ℤ × List ℕ
unfolding ask_current_req find_next_req_from_table
modbus_master_ask m slave_index =
    let m' = if m.current_req ==ℤ no_req then find_next_req_from_table m false else m in
    if m'.current_req ==ℤ no_req then (m', slave_index, []) else ask_current_req m' slave_index
