-- ===== src/Rung/Contact.antt =====
-- src/calc.c: contacts, connections and coils, and the jump and call coils.
use classicladder.Common.{
  ℤ, ℕ, zero, suc, pos, negsuc, ◌-◌, ◌==◌, ◌==ℤ◌, ◌&&◌, if◌then◌else◌, Bool, true, false, not,
  to_char, to_bool, of_bool,
}
use classicladder.State.{Section, Plc}
use classicladder.Rung.Element.{
  elem_at, put_elem, read_var_for_element, info_var_is_set, write_var_for_element,
}
use classicladder.Rung.Left.{state_on_left}

-- StateOnLeft( x, y, &RungArray[ n ] )
unfoldable pub left_state : Plc → ℤ → ℤ → ℕ → Bool
unfolding state_on_left
left_state s n x y = state_on_left x y (s.rung_array n)

-- Elements : -| |- and -|/|- , with their edges
unfoldable pub calc_type_input : Plc → ℤ → ℕ → ℕ → Bool → Bool → Plc × Bool
unfolding elem_at put_elem read_var_for_element info_var_is_set left_state
calc_type_input s n x y is_not only_fronts =
    let e = elem_at s n (pos x) y in
    let read = to_bool (to_char (read_var_for_element s e)) in
    let state_var = if is_not then not read else read in
    let state_element =
      if only_fronts
      then if state_var && e.dynamic_var_bak then false else state_var
      else state_var in
    let input = if x == 0 then e.dynamic_input else left_state s n (pos x) y in
    let state = if x == 0 then state_element else state_element && input in
    (
      put_elem s n (pos x) y (record e {
        dynamic_var_setted = info_var_is_set s e e.dynamic_var_setted;
        dynamic_state = state_element;
        dynamic_input = input;
        dynamic_output = state;
        dynamic_var_bak = state_var;
      }),
      state,
    )

-- Element : ---
unfoldable pub calc_type_connection : Plc → ℤ → ℕ → ℕ → Plc × Bool
unfolding elem_at put_elem left_state
calc_type_connection s n x y =
    let e = elem_at s n (pos x) y in
    let input = if x == 0 then e.dynamic_input else left_state s n (pos x) y in
    let state = if x == 0 then true else input in
    (
      put_elem s n (pos x) y
          (record e { dynamic_input = input; dynamic_state = state; dynamic_output = state }),
      state,
    )

-- Elements : -( )- and -(/)- . The element is stored before the variable is written, and its state
-- after it, as in the code.
unfoldable pub calc_type_output : Plc → ℤ → ℕ → ℕ → Bool → Plc × Bool
unfolding elem_at put_elem read_var_for_element info_var_is_set write_var_for_element left_state
calc_type_output s n x y is_not =
    let e = elem_at s n (pos x) y in
    let state_element_if_setted = to_bool (to_char (read_var_for_element s e)) in
    let input = left_state s n (pos x) y in
    let e' = record e {
      dynamic_var_setted = info_var_is_set s e e.dynamic_var_setted;
      dynamic_input = input;
    } in
    let written = if is_not then not input else input in
    let s' = write_var_for_element (put_elem s n (pos x) y e') e' (of_bool written) in
    let state = if e'.dynamic_var_setted then state_element_if_setted else written in
    (put_elem s' n (pos x) y (record e' { dynamic_state = state }), state)

-- Elements : -(S)- and -(R)-
unfoldable pub calc_type_output_set_reset : Plc → ℤ → ℕ → ℕ → Bool → Plc × Bool
unfolding elem_at put_elem write_var_for_element left_state
calc_type_output_set_reset s n x y is_reset =
    let e = elem_at s n (pos x) y in
    let input = left_state s n (pos x) y in
    let e' = record e { dynamic_input = input; dynamic_state = input } in
    let s' = put_elem s n (pos x) y e' in
    if input
    then (write_var_for_element s' e' (of_bool (not is_reset)), not is_reset)
    else (s', false)

-- what the jump and the call coil store
abbrev pub show_state : Plc → ℤ → ℕ → ℕ → Bool → Plc
show_state s n x y state =
    put_elem s n (pos x) y
      (record (elem_at s n (pos x) y) { dynamic_input = state; dynamic_state = state })

-- Element : -(J)- ; the result is the rung to go to, or -1
unfoldable pub calc_type_output_jump : Plc → ℤ → ℕ → ℕ → Plc × ℤ
unfolding elem_at put_elem left_state
calc_type_output_jump s n x y =
    let state = left_state s n (pos x) y in
    (show_state s n x y state, if state then (elem_at s n (pos x) y).var_num else negsuc 0)

-- SearchSubRoutineWithItsNumber (src/manager.c); the first number counts the rounds left
unfoldable pub search_sub_routine_from : (ℤ → Section) → ℤ → ℕ → ℕ → ℤ
search_sub_routine_from sections number zero k = negsuc 0
search_sub_routine_from sections number (suc rounds) k =
    let rest = search_sub_routine_from sections number rounds (suc k) in
    if (sections (pos k)).used && ((sections (pos k)).sub_routine_number ==ℤ number)
    then pos k
    else rest

-- A `do` loop: at least one round.
unfoldable pub search_sub_routine_with_its_number : Plc → ℤ → ℤ
unfolding search_sub_routine_from
search_sub_routine_with_its_number s number =
    search_sub_routine_from s.section_array number (suc (s.sizes.nbr_sections - 1)) 0

-- Element : -(C)- ; the result is the section to call, or -1
unfoldable pub calc_type_output_call : Plc → ℤ → ℕ → ℕ → Plc × ℤ
unfolding elem_at put_elem left_state search_sub_routine_with_its_number
calc_type_output_call s n x y =
    let state = left_state s n (pos x) y in
    (
      show_state s n x y state,
      if state
          then search_sub_routine_with_its_number s (elem_at s n (pos x) y).var_num
          else negsuc 0,
    )
