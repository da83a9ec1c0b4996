-- ===== src/Master/Receive.antt =====
-- src/protocol_modbus_master.c: ExtractUsefullDatasInSerial and TreatModbusMasterResponse.
use classicladder.Common.{
  ℤ, ℕ, zero, suc, pos, pos_part, ◌+◌, ◌+ℤ◌, ◌-ℤ◌, ◌==ℤ◌, ◌==◌, ◌%◌, leb, ltb_ℤ, not, add_int,
  if◌then◌else◌, Bool, true, false, Option, none, some, List, [], ◌∷◌, mod_ℤ, to_bool,
}
use classicladder.State.{Plc}
use classicladder.Modbus.{Buffer, word_at}
use classicladder.Master.Config.{Master}
use classicladder.Master.Crc.{crc16}
use classicladder.Master.Next.{no_req, slave_in_req, find_next_req_from_table}
use classicladder.Master.Access.{set_error_var_modbus_slave, get_error_var_modbus_slave}
use classicladder.Master.Ask.{is_serial, slave_number}
use classicladder.Master.Treat.{treat_pure_modbus_response, get_modbus_response_lenght_to_receive}

abbrev pub lgt_modbus_ip_header : ℕ
lgt_modbus_ip_header = 7

-- ScanChar where the address of the slave stands: the first byte, or one with more than four
-- bytes behind it. The size is at least 4, and bounds the rounds.
unfoldable pub find_address : Buffer → ℤ → ℕ → ℕ → ℕ → Option ℕ
find_address resp address size zero scan = none
find_address resp address size (suc rounds) scan =
    let rest = find_address resp address size rounds (suc scan) in
    if pos (resp scan % 256) ==ℤ address
    then some scan
    else if leb size (suc scan + 4)
    then none
    else rest

-- `n` bytes of the buffer
unfoldable pub bytes_from : Buffer → ℕ → ℕ → List ℕ
bytes_from resp scan zero = []
bytes_from resp scan (suc n) = resp scan % 256 ∷ bytes_from resp (suc scan) n

-- FrameSizeExpected
unfoldable pub frame_size_expected : Master → ℤ
unfolding get_modbus_response_lenght_to_receive
frame_size_expected m = pos 1 +ℤ get_modbus_response_lenght_to_receive m +ℤ pos 2

-- whether the two bytes behind the expected frame are its checksum
unfoldable pub is_crc_right : Master → Buffer → ℕ → Bool
unfolding frame_size_expected crc16 bytes_from word_at
is_crc_right m resp scan =
    let size = frame_size_expected m -ℤ pos 2 in
    crc16 (bytes_from resp scan (mod_ℤ size 65536)) == word_at resp (pos_part (pos scan +ℤ size))

-- The start and the size of the frame, when it is right.
unfoldable pub extract_usefull_datas_in_serial : Master → Buffer → ℕ → Option (ℕ × ℤ)
unfolding find_address is_crc_right slave_number frame_size_expected
extract_usefull_datas_in_serial m resp size =
    if leb 4 size
    then elim (find_address resp (slave_number m) size size 0) [
      | none ↦ none
      | some scan ↦
          if is_crc_right m resp scan then some (suc scan, frame_size_expected m) else none
    ]
    else none

-- the same over IP: the header, and the identifier of the question
unfoldable pub check_ip_header : Master → Buffer → ℕ → Option (ℕ × ℤ)
unfolding word_at
check_ip_header m resp size =
    if leb (lgt_modbus_ip_header + 1) size
    then (if word_at resp 0 == m.invoq_identif_header_ip
        then some (lgt_modbus_ip_header, pos size)
        else none)
    else none

unfoldable pub useful_part : Master → Buffer → ℕ → Option (ℕ × ℤ)
unfolding extract_usefull_datas_in_serial check_ip_header
useful_part m resp size =
    if is_serial m then extract_usefull_datas_in_serial m resp size else check_ip_header m resp size

-- the variables after the answer, and whether it is right
unfoldable pub treat_frame : Master → Buffer → ℤ → Plc × Bool
unfolding useful_part treat_pure_modbus_response
treat_frame m resp lgt =
    if ltb_ℤ (pos 0) lgt
    then elim (useful_part m resp (pos_part lgt)) [
      | none ↦ (m.plc, false)
      | some frame ↦
          treat_pure_modbus_response m (λ i. resp (frame.0 + i)) (frame.1 -ℤ pos (frame.0))
    ]
    else (m.plc, false)

abbrev pub put_plc : Master → Plc → Master
put_plc m s = record m { plc = s }

-- a right answer: the next request, and the slave is no longer in error
unfoldable pub accept_response : Master → Master
unfolding find_next_req_from_table set_error_var_modbus_slave
accept_response m =
    let slave = slave_in_req m (m.current_req) in
    let m' = find_next_req_from_table (record m { error_cnt = pos 0 }) false in
    put_plc m' (set_error_var_modbus_slave (m'.plc) slave (pos 0))

-- no answer, or a wrong one: the third in a row, or one of a slave already in error, gives up
unfoldable pub count_error : Master → Bool → Master
unfolding find_next_req_from_table set_error_var_modbus_slave get_error_var_modbus_slave
count_error m another =
    let slave = slave_in_req m (m.current_req) in
    let already = to_bool (get_error_var_modbus_slave (m.plc) slave) in
    let cnt = add_int (m.error_cnt) (pos 1) in
    if not (ltb_ℤ cnt (if already then pos 1 else pos 3))
    then (let m' = find_next_req_from_table (record m { error_cnt = pos 0 }) another in
        put_plc m' (set_error_var_modbus_slave (m'.plc) slave (pos 1)))
    else record m { error_cnt = cnt }

-- The state after the answer, and RepOk.
unfoldable pub treat_modbus_master_response : Master → Buffer → ℤ → Master × Bool
unfolding treat_frame accept_response count_error
treat_modbus_master_response m resp lgt =
    if m.current_req ==ℤ no_req
    then (m, false)
    else let (s, right) = treat_frame m resp lgt in
      if right
      then (accept_response (put_plc m s), true)
      else (count_error (put_plc m s) (lgt ==ℤ pos 0), false)
