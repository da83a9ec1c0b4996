-- ===== src/Master/Config.antt =====
-- src/protocol_modbus_master.h: the slaves, the requests and the settings of the Modbus master.
-- src/protocol_modbus_master.c: its globals, and the functions that set them at the start.
use classicladder.Common.{
  ℤ, ℕ, pos, negsuc, ◌&&◌, ltb_ℤ, not, if◌then◌else◌, Bool, true, false, List, [], ◌∷◌, update,
  for_below,
}
use classicladder.State.{VarType, Plc}

abbrev pub nbr_modbus_master_req : ℕ
nbr_modbus_master_req = 20

abbrev pub nbr_modbus_slaves : ℕ
nbr_modbus_slaves = 10

-- StrModbusSlave. The strings are the characters before their end.
pub record Slave : Type 0 where
  pub slave_adr : List ℕ
  pub slave_port_ip : ℤ
  pub use_udp_instead_of_tcp : Bool
  pub name_info : List ℕ
  pub stats_nbr_errors_no_response : ℤ
  pub stats_nbr_errors_modbus_treat : ℤ
  pub stats_nbr_frames : ℤ
  pub stats_start_time : ℤ
  pub stats_current_time : ℤ

-- MODBUS_REQ_..., `other` for any other number
pub data TypeReq : Type 0 where
  inputs_read coils_write input_regs_read hold_regs_write : TypeReq
  coils_read hold_regs_read read_status diagnostics other : TypeReq

-- StrModbusMasterReq. No slave is -1.
pub record MasterReq : Type 0 where
  pub slave_list_num : ℤ
  pub type_req : TypeReq
  pub first_modbus_element : ℤ
  pub nbr_modbus_elements : ℤ
  pub logic_inverted : Bool
  pub offset_var_mapped : ℤ

-- StrModbusConfig
pub record ModbusConfig : Type 0 where
  pub modbus_serial_port_name_used : List ℕ
  pub modbus_serial_speed : ℤ
  pub modbus_serial_data_bits : ℤ
  pub modbus_serial_parity : ℤ
  pub modbus_serial_stop_bits : ℤ
  pub modbus_serial_use_rts_to_send : ℤ
  pub modbus_time_inter_frame : ℤ
  pub modbus_time_out_receipt : ℤ
  pub modbus_time_after_transmit : ℤ
  pub modbus_ele_offset : ℤ
  pub modbus_debug_level : ℤ
  pub map_type_for_read_inputs : VarType
  pub map_type_for_read_coils : VarType
  pub map_type_for_write_coils : VarType
  pub map_type_for_read_input_regs : VarType
  pub map_type_for_read_hold_regs : VarType
  pub map_type_for_write_hold_regs : VarType

-- The globals of the file, with the variables of the PLC.
pub record Master : Type 0 where
  pub plc : Plc
  pub modbus_master_req : ℤ → MasterReq
  pub modbus_slave_list : ℤ → Slave
  pub modbus_config : ModbusConfig
  pub current_req : ℤ
  pub invoq_identif_header_ip : ℕ
  pub current_func_code : ℕ
  pub error_cnt : ℤ
  pub current_slave_stats_asked : ℤ

-- a string that starts with its end
abbrev pub is_empty : List ℕ → Bool
is_empty [] = true
is_empty (c ∷ rest) = false

unfoldable pub init_modbus_master_before_read_conf : Master → Master
init_modbus_master_before_read_conf m = record m {
  modbus_config = record (m.modbus_config) {
    modbus_serial_port_name_used = [];
    modbus_serial_speed = pos 9600;
    modbus_serial_data_bits = pos 8;
    modbus_serial_parity = pos 0;
    modbus_serial_stop_bits = pos 1;
    modbus_serial_use_rts_to_send = pos 0;
    modbus_ele_offset = pos 1;
    modbus_time_inter_frame = pos 100;
    modbus_time_out_receipt = pos 500;
    modbus_time_after_transmit = pos 0;
    modbus_debug_level = pos 3;
    map_type_for_read_inputs = VarType.phys_input;
    map_type_for_read_coils = VarType.phys_output;
    map_type_for_write_coils = VarType.phys_output;
    map_type_for_read_input_regs = VarType.phys_word_input;
    map_type_for_read_hold_regs = VarType.phys_word_output;
    map_type_for_write_hold_regs = VarType.phys_word_output;
  };
}

abbrev pub put_slave : Master → ℤ → Slave → Master
put_slave m k a = record m { modbus_slave_list = update (m.modbus_slave_list) k a }

abbrev pub put_req : Master → ℤ → MasterReq → Master
put_req m k r = record m { modbus_master_req = update (m.modbus_master_req) k r }

unfoldable pub init_stats_for_slave : Master → ℤ → Master
init_stats_for_slave m slave =
    if not (ltb_ℤ slave (pos 0)) && ltb_ℤ slave (pos nbr_modbus_slaves)
    then put_slave m slave (record (m.modbus_slave_list slave) {
      stats_nbr_errors_no_response = pos 0;
      stats_nbr_errors_modbus_treat = pos 0;
      stats_nbr_frames = pos 0;
      stats_start_time = pos 0;
      stats_current_time = pos 0;
    })
    else m

-- one round of each loop of InitModbusMasterParams
abbrev pub init_req : ℕ → Master → Master
init_req k m = put_req m (pos k) (record {
  slave_list_num = negsuc 0;
  type_req = TypeReq.inputs_read;
  first_modbus_element = pos 1;
  nbr_modbus_elements = pos 1;
  logic_inverted = false;
  offset_var_mapped = pos 0;
})

unfoldable pub init_slave : ℕ → Master → Master
unfolding init_stats_for_slave
init_slave k m =
    let m' = put_slave m (pos k) (record (m.modbus_slave_list (pos k)) {
      slave_adr = [];
      slave_port_ip = negsuc 0;
      use_udp_instead_of_tcp = false;
      name_info = [];
    }) in
    init_stats_for_slave m' (pos k)

unfoldable pub init_modbus_master_params : Master → Master
unfolding init_slave
init_modbus_master_params m =
    let m' = for_below nbr_modbus_slaves init_slave (for_below nbr_modbus_master_req init_req m) in
    record m' {
      current_req = negsuc 0;
      invoq_identif_header_ip = 0;
      current_func_code = 0;
      error_cnt = pos 0;
    }
