-- ===== src/Master/Access.antt =====
-- src/protocol_modbus_master.c: the variables that a request reads and writes.
-- The sums of offsets are exact: one that does not fit an `int` has no meaning in C.
use classicladder.Common.{ℤ, pos, ◌+ℤ◌, ◌-ℤ◌, ◌/ℤ◌, ltb_ℤ, if◌then◌else◌, update}
use classicladder.State.{VarType, Plc}
use classicladder.Vars.{read_var, write_var}
use classicladder.Master.Config.{TypeReq, MasterReq, ModbusConfig}

-- FirstEle: the number of the first element in the frames
abbrev pub first_ele : ModbusConfig → MasterReq → ℤ
first_ele c req =
    let first = req.first_modbus_element -ℤ c.modbus_ele_offset in
    if ltb_ℤ first (pos 0) then pos 0 else first

-- NbrRealBytes: the bytes that hold the bits of a request
abbrev pub nbr_real_bytes : MasterReq → ℤ
nbr_real_bytes req = (req.nbr_modbus_elements +ℤ pos 7) /ℤ pos 8

-- VarNum
abbrev pub var_num : ModbusConfig → MasterReq → ℤ → ℤ
var_num c req num = num -ℤ first_ele c req +ℤ req.offset_var_mapped

-- a value that is read into a bit: past the filter, for an input
unfoldable pub put_read_bit : Plc → VarType → ℤ → ℤ → Plc
unfolding write_var
put_read_bit s VarType.phys_input i v = record s {
  input_filter_and_state_array =
      update (s.input_filter_and_state_array) i
        (record (s.input_filter_and_state_array i) { input_state_for_logic = v });
}
put_read_bit s t i v = write_var s t i v

-- the `switch` on the type of the request
unfoldable pub put_by_type : ModbusConfig → Plc → MasterReq → TypeReq → ℤ → ℤ → Plc
unfolding put_read_bit
put_by_type c s req TypeReq.diagnostics num v =
    write_var s VarType.phys_word_input (req.offset_var_mapped) v
put_by_type c s req TypeReq.inputs_read num v =
    put_read_bit s (c.map_type_for_read_inputs) (var_num c req num) v
put_by_type c s req TypeReq.coils_read num v =
    put_read_bit s (c.map_type_for_read_coils) (var_num c req num) v
put_by_type c s req TypeReq.input_regs_read num v =
    write_var s (c.map_type_for_read_input_regs) (var_num c req num) v
put_by_type c s req TypeReq.hold_regs_read num v =
    write_var s (c.map_type_for_read_hold_regs) (var_num c req num) v
put_by_type c s req TypeReq.read_status num v =
    write_var s VarType.phys_word_input (var_num c req num) v
put_by_type c s req _ num v = s

unfoldable pub set_var_from_modbus : ModbusConfig → Plc → MasterReq → ℤ → ℤ → Plc
unfolding put_by_type
set_var_from_modbus c s req num v = put_by_type c s req (req.type_req) num v

unfoldable pub get_by_type : ModbusConfig → Plc → MasterReq → TypeReq → ℤ → ℤ
unfolding read_var
get_by_type c s req TypeReq.diagnostics num =
    read_var s VarType.phys_word_output (req.offset_var_mapped)
get_by_type c s req TypeReq.coils_write num =
    read_var s (c.map_type_for_write_coils) (var_num c req num)
get_by_type c s req TypeReq.hold_regs_write num =
    read_var s (c.map_type_for_write_hold_regs) (var_num c req num)
get_by_type c s req _ num = pos 0

unfoldable pub get_var_for_modbus : ModbusConfig → Plc → MasterReq → ℤ → ℤ
unfolding get_by_type
get_var_for_modbus c s req num = get_by_type c s req (req.type_req) num

-- the system variable that says that a slave is in error
unfoldable pub set_error_var_modbus_slave : Plc → ℤ → ℤ → Plc
unfolding write_var
set_error_var_modbus_slave s slave error = write_var s VarType.system (pos 10 +ℤ slave) error

unfoldable pub get_error_var_modbus_slave : Plc → ℤ → ℤ
unfolding read_var
get_error_var_modbus_slave s slave = read_var s VarType.system (pos 10 +ℤ slave)
