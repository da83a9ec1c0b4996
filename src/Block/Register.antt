-- ===== src/Block/Register.antt =====
-- src/calc.c: the registers (stacks and queues), InitRegisters, PrepareRegisters, CalcTypeRegister.
use classicladder.Common.{
  ℤ, ℕ, pos, ◌-◌, ◌+◌, ◌+ℤ◌, ltb_ℤ, ◌==ℤ◌, ◌==◌, ◌&&◌, not, add_int, sub_int, mul_int,
  if◌then◌else◌, false, of_bool, update, for_below,
}
use classicladder.State.{VarType, RegisterMode, Register, Plc}
use classicladder.Vars.{read_var, write_var, put_register}
use classicladder.Rung.{elem_at}
use classicladder.Block.Sense.{sense, show_output}

unfoldable pub init_registers : Plc → Plc
unfolding for_below
init_registers s =
    for_below s.sizes.nbr_registers
      (λ k (p : Plc).
        put_register p (pos k)
          (record (p.register_array (pos k)) { register_mode = RegisterMode.undef }))
      s

abbrev pub prepared_register : Register → Register
prepared_register r = record r {
  value_in = pos 0;
  value_out = pos 0;
  input_reset = false;
  input_in = false;
  input_in_bak = false;
  input_out = false;
  input_out_bak = false;
  output_empty = pos 0;
  output_full = pos 0;
  nbr_values_saved = pos 0;
  first_value_index = pos 0;
  latest_value_index = pos 0;
}

unfoldable pub prepare_registers : Plc → Plc
unfolding for_below
prepare_registers s =
    for_below s.sizes.nbr_registers
      (λ k (p : Plc). put_register p (pos k) (prepared_register (p.register_array (pos k)))) s

-- `RegisterNbr*REGISTER_LIST_SIZE+index`, the cell of RegistersListsDatas
abbrev pub list_at : Plc → ℤ → ℤ → ℤ
list_at s k i = mul_int k (pos s.sizes.register_list_size) +ℤ i

-- an index that passed the end goes back to 0, as the code tests it
abbrev pub wrap_index : Plc → ℤ → ℤ
wrap_index s i = if ltb_ℤ (pos s.sizes.register_list_size) i then pos 0 else i

-- one value is saved
unfoldable pub register_push : Plc → ℤ → Plc
unfolding read_var update
register_push s k =
    let r = s.register_array k in
    let s1 =
      put_register s k (record r { nbr_values_saved = add_int r.nbr_values_saved (pos 1) }) in
    let s2 = record s1 {
      registers_lists_datas =
          update s1.registers_lists_datas (list_at s1 k r.first_value_index)
            (read_var s1 VarType.register_in_value k);
    } in
    put_register s2 k (record (s2.register_array k) {
      first_value_index = wrap_index s2 (add_int r.first_value_index (pos 1));
    })

-- one value is given back, by the mode
unfoldable pub pop_mode : RegisterMode → Plc → ℤ → Plc
unfolding write_var
pop_mode RegisterMode.fifo s k =
    let latest = (s.register_array k).latest_value_index in
    let s1 =
      write_var s VarType.register_out_value k (s.registers_lists_datas (list_at s k latest)) in
    put_register s1 k
      (record (s1.register_array k) { latest_value_index = wrap_index s1 (add_int latest (pos 1)) })
pop_mode RegisterMode.lifo s k =
    let below = sub_int (s.register_array k).first_value_index (pos 1) in
    let first =
      if ltb_ℤ below (pos 0) then sub_int (pos s.sizes.register_list_size) (pos 1) else below in
    let s1 = put_register s k (record (s.register_array k) { first_value_index = first }) in
    write_var s1 VarType.register_out_value k (s1.registers_lists_datas (list_at s1 k first))
pop_mode RegisterMode.undef s k = s

unfoldable pub register_pop : Plc → ℤ → Plc
unfolding pop_mode
register_pop s k =
    let r = s.register_array k in
    pop_mode r.register_mode
      (put_register s k (record r { nbr_values_saved = sub_int r.nbr_values_saved (pos 1) })) k

-- the three inputs
unfoldable pub register_in : Plc → ℤ → Plc
register_in s k =
    let r = s.register_array k in
    if r.input_in
      && (not r.input_in_bak && ltb_ℤ r.nbr_values_saved (pos s.sizes.register_list_size))
    then register_push s k
    else s

unfoldable pub register_out : Plc → ℤ → Plc
register_out s k =
    let r = s.register_array k in
    if r.input_out && (not r.input_out_bak && ltb_ℤ (pos 0) r.nbr_values_saved)
    then register_pop s k
    else s

unfoldable pub register_reset : Plc → ℤ → Plc
unfolding write_var
register_reset s k =
    let r = s.register_array k in
    if r.input_reset
    then write_var
        (put_register s k (record r {
          nbr_values_saved = pos 0;
          first_value_index = pos 0;
          latest_value_index = pos 0;
        }))
        VarType.register_out_value k (pos 0)
    else s

unfoldable pub save_register_edges : Plc → ℤ → Plc
save_register_edges s k =
    let r = s.register_array k in
    put_register s k (record r { input_in_bak = r.input_in; input_out_bak = r.input_out })

unfoldable pub register_step : Plc → ℤ → Plc
register_step s k = save_register_edges (register_reset (register_out (register_in s k) k) k) k

unfoldable pub register_inputs : Plc → ℤ → ℕ → ℕ → ℤ → Plc
register_inputs s n x y k =
    let (a, reset) = sense s n (pos (x - 1)) y in
    let a' = put_register a k (record (a.register_array k) { input_reset = reset }) in
    let (b, i) = sense a' n (pos (x - 1)) (y + 1) in
    let b' = put_register b k (record (b.register_array k) { input_in = i }) in
    let (c, o) = sense b' n (pos (x - 1)) (y + 2) in
    put_register c k (record (c.register_array k) { input_out = o })

unfoldable pub calc_type_register : Plc → ℤ → ℕ → ℕ → Plc
calc_type_register s n x y =
    let k = (elem_at s n (pos x) y).var_num in
    let s1 = if x == 0 then s else register_inputs s n x y k in
    let s2 = register_step s1 k in
    let nbr = (s2.register_array k).nbr_values_saved in
    let empty = nbr ==ℤ pos 0 in
    let full = nbr ==ℤ pos s2.sizes.register_list_size in
    let s3 = show_output s2 n (pos x) y empty in
    let s4 = show_output s3 n (pos x) (y + 1) full in
    let s5 = write_var s4 VarType.register_empty k (of_bool empty) in
    write_var s5 VarType.register_full k (of_bool full)
