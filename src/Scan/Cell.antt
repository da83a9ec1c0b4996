-- ===== src/Scan/Cell.antt =====
-- src/calc.c: CalcTypeCompar and CalcTypeOutputOperate, and the `switch` of RefreshRung.
use classicladder.Common.{
  ℤ, ℕ, zero, pos, negsuc, ◌==◌, ◌&&◌, if◌then◌else◌, Bool, true, false, Option, none, some, List,
  to_bool, to_char, sub_ℕ,
}
use classicladder.State.{EleType, Plc}
use classicladder.Rung.{
  elem_at, put_elem, left_state, calc_type_input, calc_type_connection, calc_type_output,
  calc_type_output_set_reset, calc_type_output_jump, calc_type_output_call,
}
use classicladder.Block.{
  sense, calc_type_timer, calc_type_monostable, calc_type_counter, calc_type_timer_iec,
  calc_type_register,
}
use classicladder.Arithm.{Eval, ok, room, codes, eval_compare, make_calc}

abbrev pub is_sub_routine : ℤ → Bool
is_sub_routine (pos a) = true
is_sub_routine (negsuc a) = false

-- A call of a section that is used as a sub-routine refreshes it, by `call`; `none` means that this
-- does not end within the fuel.
unfoldable pub call_section : (ℤ → Plc → Option Plc) → ℤ → Plc → Option Plc
call_section call (negsuc zero) s = some s
call_section call k s =
    if (s.section_array k).used && is_sub_routine (s.section_array k).sub_routine_number
    then call k s
    else some s

-- a calculation that asks for no jump
abbrev pub stay : Plc → Option (Plc × ℤ)
stay s = some (s, negsuc 0)

-- a calculation that may not give a result
abbrev pub stay_if : Option Plc → Option (Plc × ℤ)
stay_if none = none
stay_if (some s) = stay s

-- The evaluator at work, which is not the verification of a syntax.
abbrev pub evaluator : Plc → Eval
evaluator s = record {
  plc = s;
  expr = none;
  error_desc = none;
  verify_error_desc = none;
  under_verify = false;
}

-- the expression of a comparison or an operation
abbrev pub expression_at : Plc → ℤ → ℕ → ℕ → List ℕ
unfolding elem_at
expression_at s n x y = codes (s.arithm_expr (elem_at s n (pos x) y).var_num)

-- A block of three cells; its first column is `x-2`, left of the rung where `x < 2`.
unfoldable pub show_compar : ℤ → Plc → ℤ → ℕ → ℕ → Plc
unfolding elem_at put_elem sense
show_compar result s1 n x y =
    let state_element = to_bool (to_char result) in
    let s2 =
      put_elem s1 n (pos x) y (record (elem_at s1 n (pos x) y) { dynamic_state = state_element }) in
    let (s3, input) = sense s2 n (sub_ℕ x 2) y in
    let s4 = if x == 2 then s2 else s3 in
    put_elem s4 n (pos x) y (record (elem_at s4 n (pos x) y) {
      dynamic_output = if x == 2 then state_element else state_element && input;
    })

unfoldable pub calc_type_compar : Plc → ℤ → ℕ → ℕ → Option Plc
unfolding elem_at eval_compare show_compar
calc_type_compar s n x y = elim (eval_compare (expression_at s n x y) (evaluator s)) [
  | ok result e ↦ some (show_compar result e.plc n x y)
  | _ ↦ none
]

unfoldable pub show_operate : Bool → Plc → ℤ → ℕ → ℕ → Plc
unfolding elem_at put_elem
show_operate state s1 n x y =
    put_elem s1 n (pos x) y
      (record (elem_at s1 n (pos x) y) { dynamic_input = state; dynamic_state = state })

-- The rounds that MakeCalc gets are as many as its text has characters.
unfoldable pub calc_type_output_operate : Plc → ℤ → ℕ → ℕ → Option Plc
unfolding elem_at left_state make_calc show_operate
calc_type_output_operate s n x y =
    let text = expression_at s n x y in
    if left_state s n (sub_ℕ x 2) y
    then elim (make_calc (λ t o. false) (room (some text)) text false (evaluator s)) [
      | ok u e ↦ some (show_operate true e.plc n x y)
      | _ ↦ none
    ]
    else some (show_operate false s n x y)

-- a free cell shows whether power reaches it
unfoldable pub calc_free : Plc → ℤ → ℕ → ℕ → Plc
unfolding elem_at put_elem left_state
calc_free s n x y =
    put_elem s n (pos x) y
      (record (elem_at s n (pos x) y) { dynamic_input = left_state s n (pos x) y })

-- the `switch` on the type of one element; the result has the rung to jump to, or -1
unfoldable pub calc_element : (ℤ → Plc → Option Plc) → EleType → Plc → ℤ → ℕ → ℕ → Option (Plc × ℤ)
unfolding calc_free calc_type_compar calc_type_output_operate call_section calc_type_input
    calc_type_connection calc_type_output calc_type_output_set_reset calc_type_output_jump
    calc_type_output_call calc_type_timer calc_type_monostable calc_type_counter calc_type_timer_iec
    calc_type_register
calc_element call EleType.free s n x y = stay (calc_free s n x y)
calc_element call EleType.unusable s n x y = stay (calc_free s n x y)
calc_element call EleType.input s n x y = stay (calc_type_input s n x y false false).0
calc_element call EleType.input_not s n x y = stay (calc_type_input s n x y true false).0
calc_element call EleType.rising_input s n x y = stay (calc_type_input s n x y false true).0
calc_element call EleType.falling_input s n x y = stay (calc_type_input s n x y true true).0
calc_element call EleType.connection s n x y = stay (calc_type_connection s n x y).0
calc_element call EleType.timer s n x y = stay (calc_type_timer s n x y)
calc_element call EleType.monostable s n x y = stay (calc_type_monostable s n x y)
calc_element call EleType.counter s n x y = stay (calc_type_counter s n x y)
calc_element call EleType.timer_iec s n x y = stay (calc_type_timer_iec s n x y)
calc_element call EleType.register s n x y = stay (calc_type_register s n x y)
calc_element call EleType.compar s n x y = stay_if (calc_type_compar s n x y)
calc_element call EleType.output s n x y = stay (calc_type_output s n x y false).0
calc_element call EleType.output_not s n x y = stay (calc_type_output s n x y true).0
calc_element call EleType.output_set s n x y = stay (calc_type_output_set_reset s n x y false).0
calc_element call EleType.output_reset s n x y = stay (calc_type_output_set_reset s n x y true).0
calc_element call EleType.output_jump s n x y = some (calc_type_output_jump s n x y)
calc_element call EleType.output_call s n x y =
    let (s', k) = calc_type_output_call s n x y in
    elim (call_section call k s') [ none ↦ none | some s'' ↦ stay s'' ]
calc_element call EleType.output_operate s n x y = stay_if (calc_type_output_operate s n x y)
calc_element call EleType.other s n x y = stay s
