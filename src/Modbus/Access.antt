-- ===== src/Modbus/Access.antt =====
-- src/protocol_modbus_slave.c: the variables that a function code reads and writes.
-- src/protocol_modbus_defines.h: the codes.
use classicladder.Common.{ℤ, ℕ, pos, ◌+◌, ◌==◌, ◌||◌, if◌then◌else◌}
use classicladder.State.{VarType, Plc}
use classicladder.Vars.{read_var, write_var}

-- the cases of the `switch` of ModbusRequestToRespond
pub data Function : Type 0 where
  read_bits read_words force_coil force_coils write_words illegal : Function

unfoldable pub function_of : ℕ → Function
function_of c =
    if (c == 1) || (c == 2)
    then Function.read_bits
    else if (c == 3) || (c == 4)
    then Function.read_words
    else if c == 5
    then Function.force_coil
    else if c == 15
    then Function.force_coils
    else if (c == 6) || (c == 16)
    then Function.write_words
    else Function.illegal

abbrev pub illegal_function : ℕ
illegal_function = 1

abbrev pub illegal_data_address : ℕ
illegal_data_address = 2

abbrev pub illegal_data_value : ℕ
illegal_data_value = 3

abbrev pub modbus_bit_on : ℕ
modbus_bit_on = 0xff00

abbrev pub modbus_bit_off : ℕ
modbus_bit_off = 0

abbrev pub offset_for_vars : ℕ
offset_for_vars = 1

unfoldable pub get_modbus_slave_nbr_vars : Plc → Function → ℕ
get_modbus_slave_nbr_vars s Function.read_bits = s.sizes.nbr_bits
get_modbus_slave_nbr_vars s Function.force_coil = s.sizes.nbr_bits
get_modbus_slave_nbr_vars s Function.force_coils = s.sizes.nbr_bits
get_modbus_slave_nbr_vars s Function.read_words = s.sizes.nbr_words
get_modbus_slave_nbr_vars s Function.write_words = s.sizes.nbr_words
get_modbus_slave_nbr_vars s Function.illegal = 0

abbrev pub write_word_var : Plc → ℕ → ℤ → Plc
write_word_var s num v = write_var s VarType.mem_word (pos (num + offset_for_vars)) v

-- The case of the bits has no `break`: it goes on into the case of the words.
abbrev pub write_bit_var : Plc → ℕ → ℤ → Plc
write_bit_var s num v =
    write_word_var (write_var s VarType.mem_bit (pos (num + offset_for_vars)) v) num v

unfoldable pub set_var_from_modbus_slave : Plc → Function → ℕ → ℤ → Plc
unfolding write_var
set_var_from_modbus_slave s Function.read_bits num v = write_bit_var s num v
set_var_from_modbus_slave s Function.force_coil num v = write_bit_var s num v
set_var_from_modbus_slave s Function.force_coils num v = write_bit_var s num v
set_var_from_modbus_slave s Function.read_words num v = write_word_var s num v
set_var_from_modbus_slave s Function.write_words num v = write_word_var s num v
set_var_from_modbus_slave s Function.illegal num v = s

abbrev pub read_bit_var : Plc → ℕ → ℤ
read_bit_var s num = read_var s VarType.mem_bit (pos (num + offset_for_vars))

abbrev pub read_word_var : Plc → ℕ → ℤ
read_word_var s num = read_var s VarType.mem_word (pos (num + offset_for_vars))

unfoldable pub get_var_for_modbus_slave : Plc → Function → ℕ → ℤ
unfolding read_var
get_var_for_modbus_slave s Function.read_bits num = read_bit_var s num
get_var_for_modbus_slave s Function.force_coil num = read_bit_var s num
get_var_for_modbus_slave s Function.force_coils num = read_bit_var s num
get_var_for_modbus_slave s Function.read_words num = read_word_var s num
get_var_for_modbus_slave s Function.write_words num = read_word_var s num
get_var_for_modbus_slave s Function.illegal num = pos 0
