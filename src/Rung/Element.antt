-- ===== src/Rung/Element.antt =====
-- src/calc.c: the elements of the rungs, and the variables that they name.
use classicladder.Common.{ℤ, ℕ, ◌==ℤ◌, ◌==◌, ◌&&◌, if◌then◌else◌, Bool, none, some, add_int, update}
use classicladder.State.{VarType, Element, Plc}
use classicladder.Vars.{read_var, write_var, is_var_set}

-- the element of rung `n` at column `x` and line `y`
unfoldable pub elem_at : Plc → ℤ → ℤ → ℕ → Element
elem_at s n x y = (s.rung_array n).element x y

-- the write of one cell of a grid
unfoldable pub put_cell : (ℤ → ℕ → Element) → ℤ → ℕ → Element → ℤ → ℕ → Element
put_cell g x y e i j = if (x ==ℤ i) && (y == j) then e else g i j

unfoldable pub put_elem : Plc → ℤ → ℤ → ℕ → Element → Plc
unfolding put_cell update
put_elem s n x y e =
    let r = s.rung_array n in
    record s {
      rung_array = update s.rung_array n (record r { element = put_cell r.element x y e });
    }

-- the offset that an element names, with the content of its index variable added
unfoldable pub var_offset : Plc → Element → ℤ
unfolding read_var
var_offset s e = elim e.indexed_var_type [
  | none ↦ e.var_num
  | some t ↦ add_int e.var_num (read_var s t e.indexed_var_num)
]

unfoldable pub read_var_for_element : Plc → Element → ℤ
unfolding read_var var_offset
read_var_for_element s e = read_var s e.var_type (var_offset s e)

-- what ReadVarForElement leaves in `*pInfoVarIsSet`, which held `old`
unfoldable pub info_var_is_set : Plc → Element → Bool → Bool
unfolding is_var_set var_offset
info_var_is_set s e old = elim e.var_type [
  | VarType.phys_input ↦ is_var_set s e.var_type (var_offset s e)
  | VarType.phys_output ↦ is_var_set s e.var_type (var_offset s e)
  | _ ↦ old
]

unfoldable pub write_var_for_element : Plc → Element → ℤ → Plc
unfolding write_var var_offset
write_var_for_element s e v = write_var s e.var_type (var_offset s e) v

-- CopyElementToElement
unfoldable pub copy_element_to_element : Element → Element → Element
copy_element_to_element src dest = record dest {
  type = src.type;
  connected_with_top = src.connected_with_top;
  var_type = src.var_type;
  var_num = src.var_num;
  indexed_var_type = src.indexed_var_type;
  indexed_var_num = src.indexed_var_num;
}
