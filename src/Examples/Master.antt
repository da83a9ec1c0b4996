-- ===== src/Examples/Master.antt =====
-- Requests of the Modbus master: src/protocol_modbus_master.c.
use classicladder.Common.{
  ℤ, ℕ, pos, negsuc, ◌+◌, ◌≡◌, refl, true, false, List, [], ◌∷◌, arith, mod_ℤ, ◌==ℤ◌, ◌+ℤ◌, ◌-ℤ◌,
  if◌then◌else◌,
}
use classicladder.State.{VarType, Plc}
use classicladder.Vars.{read_var, is_var_set, get_nbr_vars_for_type}
use classicladder.Vars.RoundTrip.{stored}
use classicladder.Modbus.{Buffer, buffer}
use classicladder.Master.{
  Slave, TypeReq, MasterReq, ModbusConfig, Master, crc16, slave_in_req, find_next_req_from_table,
  slave_number, get_error_var_modbus_slave, treat_modbus_master_response, modbus_master_ask,
}
use classicladder.Master.Polynomial.{crc16-remainder, exchange_bytes, remainder, is_bytes}
use classicladder.Master.Chosen.{IsChosen, start_of, find_next_req_from_table_lem}
use classicladder.Master.Read.{exchange, master_reads_words}
use classicladder.Master.Write.{master_writes_words}
use classicladder.Master.Serial.{serial_refuses_write}
use classicladder.Master.Errors.{no_answer, GivesUp, three_silences}
use classicladder.Examples.Blank.{blank}

abbrev no_slave : Slave
no_slave = record {
  slave_adr = [];
  slave_port_ip = negsuc 0;
  use_udp_instead_of_tcp = false;
  name_info = [];
  stats_nbr_errors_no_response = pos 0;
  stats_nbr_errors_modbus_treat = pos 0;
  stats_nbr_frames = pos 0;
  stats_start_time = pos 0;
  stats_current_time = pos 0;
}

-- the slaves 0, at address 7, and 1, at address 9
abbrev two_slaves : ℤ → Slave
two_slaves k =
    if k ==ℤ pos 0
    then record no_slave { slave_adr = b'7' ∷ [] }
    else if k ==ℤ pos 1
    then record no_slave { slave_adr = b'9' ∷ [] }
    else no_slave

abbrev request : ℤ → TypeReq → ℤ → ℤ → MasterReq
request slave type first n = record {
  slave_list_num = slave;
  type_req = type;
  first_modbus_element = first;
  nbr_modbus_elements = n;
  logic_inverted = false;
  offset_var_mapped = pos 2;
}

abbrev no_request : MasterReq
no_request = request (negsuc 0) TypeReq.inputs_read (pos 1) (pos 1)

-- requests 3, 4 and 5
abbrev three_requests : ℤ → MasterReq
three_requests k =
    if k ==ℤ pos 3
    then request (pos 0) TypeReq.hold_regs_read (pos 2) (pos 3)
    else if k ==ℤ pos 4
    then request (pos 0) TypeReq.hold_regs_write (pos 2) (pos 3)
    else if k ==ℤ pos 5
    then request (pos 1) TypeReq.hold_regs_write (pos 4) (pos 1)
    else no_request

abbrev settings : List ℕ → ModbusConfig
settings port = record {
  modbus_serial_port_name_used = port;
  modbus_serial_speed = pos 9600;
  modbus_serial_data_bits = pos 8;
  modbus_serial_parity = pos 0;
  modbus_serial_stop_bits = pos 1;
  modbus_serial_use_rts_to_send = pos 0;
  modbus_time_inter_frame = pos 100;
  modbus_time_out_receipt = pos 500;
  modbus_time_after_transmit = pos 0;
  modbus_ele_offset = pos 1;
  modbus_debug_level = pos 3;
  map_type_for_read_inputs = VarType.phys_input;
  map_type_for_read_coils = VarType.phys_output;
  map_type_for_write_coils = VarType.phys_output;
  map_type_for_read_input_regs = VarType.phys_word_input;
  map_type_for_read_hold_regs = VarType.mem_word;
  map_type_for_write_hold_regs = VarType.mem_word;
}

abbrev master_at : List ℕ → ℤ → Master
master_at port current = record {
  plc = blank;
  modbus_master_req = three_requests;
  modbus_slave_list = two_slaves;
  modbus_config = settings port;
  current_req = current;
  invoq_identif_header_ip = 65535;
  current_func_code = 6;
  error_cnt = pos 0;
  current_slave_stats_asked = negsuc 0;
}

-- The next requests after each request, and for another slave.
next_of_three :
    ((find_next_req_from_table (master_at [] (negsuc 0)) false).current_req ≡ pos 3)
    × ((find_next_req_from_table (master_at [] (pos 5)) false).current_req ≡ pos 3)
    × ((find_next_req_from_table (master_at [] (pos 3)) true).current_req ≡ pos 5)
unfolding find_next_req_from_table ◌+ℤ◌
next_of_three = (refl, refl, refl)

-- The frames over IP and on a serial line of the request 3.
asked_over_ip :
    let (m', slave, frame) = modbus_master_ask (master_at [] (pos 3)) (pos 9) in
    (slave ≡ pos 0) × (frame ≡ 0 ∷ 0 ∷ 0 ∷ 0 ∷ 0 ∷ 6 ∷ 1 ∷ 3 ∷ 0 ∷ 1 ∷ 0 ∷ 3 ∷ [])
unfolding modbus_master_ask ◌+ℤ◌ ◌-ℤ◌
asked_over_ip = (refl, refl)

asked_on_serial :
    let (m', slave, frame) = modbus_master_ask (master_at (b'x' ∷ []) (pos 3)) (pos 9) in
    (slave ≡ pos 0) × (frame ≡ 7 ∷ 3 ∷ 0 ∷ 1 ∷ 0 ∷ 3 ∷ 0x54 ∷ 0x6d ∷ [])
unfolding modbus_master_ask ◌+ℤ◌ ◌-ℤ◌
asked_on_serial = (refl, refl)

crc16-remainder_example :
    crc16 (7 ∷ 3 ∷ 0 ∷ 1 ∷ 0 ∷ 3 ∷ [])
    ≡ exchange_bytes (remainder (7 ∷ 3 ∷ 0 ∷ 1 ∷ 0 ∷ 3 ∷ []) 0xffff)
unfolding is_bytes
crc16-remainder_example = crc16-remainder (7 ∷ 3 ∷ 0 ∷ 1 ∷ 0 ∷ 3 ∷ []) refl

abbrev at_five : Master
at_five = master_at [] (pos 5)

find_next_req_from_table_lem_example :
    IsChosen at_five true
      (slave_in_req at_five (at_five.current_req))
      (start_of (at_five.current_req))
      20
      (find_next_req_from_table at_five true).current_req
find_next_req_from_table_lem_example =
    find_next_req_from_table_lem at_five true (omega arith) (omega arith)

-- the slave holds 1000, 1001, ... in its words
abbrev counting : Plc
counting = record blank { var_word_array = λ i. pos 1000 +ℤ i }

abbrev at_three : Master
at_three = master_at [] (pos 3)

master_reads_words_example :
    let (mine, s', right) = exchange at_three counting in
    (right ≡ true)
    × (s' ≡ counting)
    × (read_var mine VarType.mem_word (pos (2 + 1))
        ≡ stored VarType.mem_word
            (pos (mod_ℤ (read_var counting VarType.mem_word (pos (1 + 1 + 1))) 65536)))
unfolding is_var_set ◌+ℤ◌ ◌-ℤ◌ get_nbr_vars_for_type
master_reads_words_example =
    master_reads_words at_three counting VarType.mem_word 2 1 3 refl refl refl refl refl
      (omega arith) (omega arith) (omega arith) (λ k h. ground arith) (λ j. refl) refl 1
      (omega arith)

abbrev at_four : Master
at_four = record at_three { plc = counting; current_req = pos 4 }

master_writes_words_example :
    let (mine, s', right) = exchange at_four blank in
    (right ≡ true)
    × (mine ≡ counting)
    × (read_var s' VarType.mem_word (pos (1 + 2 + 1))
        ≡ pos (mod_ℤ (read_var counting VarType.mem_word (pos (2 + 2))) 65536))
unfolding ◌+ℤ◌ ◌-ℤ◌
master_writes_words_example =
    master_writes_words at_four blank VarType.mem_word 2 1 3 refl refl refl refl refl (omega arith)
      (omega arith) (omega arith) (omega arith) 2 (omega arith)

-- slave 9 echoes the write of 0x1234 to its register 3
abbrev at_nine : Buffer
at_nine = buffer (9 ∷ 6 ∷ 0 ∷ 3 ∷ 0x12 ∷ 0x34 ∷ 0x75 ∷ 0xf5 ∷ [])

serial_refuses_write_example :
    (treat_modbus_master_response (master_at (b'x' ∷ []) (pos 5)) at_nine (pos 8)).1 ≡ false
unfolding slave_number
serial_refuses_write_example =
    serial_refuses_write (master_at (b'x' ∷ []) (pos 5)) at_nine refl refl refl refl (pos 8)

three_silences_example :
    let m2 = no_answer at_nine (no_answer at_nine at_three) in
    (m2 ≡ record at_three { error_cnt = pos 2 }) × GivesUp at_three (no_answer at_nine m2)
unfolding get_error_var_modbus_slave
three_silences_example = three_silences at_nine at_three refl refl refl
