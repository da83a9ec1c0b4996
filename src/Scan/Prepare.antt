-- ===== src/Scan/Prepare.antt =====
-- src/calc.c: InitRungs, InitRung, PrepareRungs, PrepareAllDatasBeforeRun, InitArithmExpr and
-- CopyRungToRung; src/manager.c: InitSections.
use classicladder.Common.{
  ℤ, ℕ, pos, negsuc, ltb, if◌then◌else◌, ◌&&◌, Bool, true, false, not, none, to_bool, to_char,
  update, for_below,
}
use classicladder.State.{
  VarType, EleType, Element, Rung, Language, Section, Plc, rung_height, rung_width,
}
use classicladder.Rung.{elem_at, put_elem, read_var_for_element}
use classicladder.Block.{
  prepare_timers, prepare_monostables, prepare_counters, prepare_timers_iec, prepare_registers,
}
use classicladder.Sequential.{prepare_sequential}

abbrev pub put_rung : Plc → ℤ → Rung → Plc
put_rung s n r = record s { rung_array = update s.rung_array n r }

-- The number 0 of the type is VAR_MEM_BIT.
abbrev pub free_element : Element
free_element = record {
  type = EleType.free;
  connected_with_top = false;
  var_type = VarType.mem_bit;
  var_num = pos 0;
  indexed_var_type = none;
  indexed_var_num = pos 0;
  dynamic_input = false;
  dynamic_state = false;
  dynamic_var_bak = false;
  dynamic_output = false;
  dynamic_var_setted = false;
}

abbrev pub in_grid : ℤ → ℕ → Bool
in_grid (pos x) y = ltb x rung_width && ltb y rung_height
in_grid (negsuc x) y = false

-- InitRung: its two loops write every cell of the grid.
unfoldable pub init_rung : Rung → Rung
init_rung r = record r {
  element = λ x y. if in_grid x y then free_element else r.element x y;
  label = "";
  comment = "";
  used = false;
  nbr_lines_used = rung_height;
  prev_rung = negsuc 0;
  next_rung = negsuc 0;
}

unfoldable pub init_rungs : Plc → Plc
unfolding init_rung for_below
init_rungs s =
    let s1 =
      for_below s.sizes.nbr_rungs
        (λ k (p : Plc). put_rung p (pos k) (init_rung (p.rung_array (pos k)))) s in
    let s2 = record s1 { first_rung = pos 0; last_rung = pos 0; current_rung = pos 0 } in
    put_rung s2 (pos 0) (record (s2.rung_array (pos 0)) { used = true })

-- the body of PrepareRungs: the memory of an edge is the state before the first scan
unfoldable pub prepare_element : ℕ → ℕ → ℕ → Plc → Plc
unfolding elem_at put_elem read_var_for_element
prepare_element n y x s =
    let e = elem_at s (pos n) (pos x) y in
    let state = to_bool (to_char (read_var_for_element s e)) in
    elim e.type [
      | EleType.rising_input ↦ put_elem s (pos n) (pos x) y (record e { dynamic_var_bak = state })
      | EleType.falling_input ↦
          put_elem s (pos n) (pos x) y (record e { dynamic_var_bak = not state })
      | _ ↦ s
    ]

unfoldable pub prepare_rungs : Plc → Plc
unfolding prepare_element for_below
prepare_rungs s =
    for_below s.sizes.nbr_rungs
      (λ n. for_below rung_height (λ y. for_below rung_width (λ x. prepare_element n y x))) s

unfoldable pub prepare_all_datas_before_run : Plc → Plc
unfolding prepare_timers prepare_monostables prepare_counters prepare_timers_iec prepare_registers
    prepare_rungs prepare_sequential
prepare_all_datas_before_run s = prepare_sequential (
    prepare_rungs (
      prepare_registers
        (prepare_timers_iec (prepare_counters (prepare_monostables (prepare_timers s))))))

unfoldable pub init_arithm_expr : Plc → Plc
unfolding for_below
init_arithm_expr s =
    for_below s.sizes.nbr_arithm_expr
      (λ k (p : Plc). record p { arithm_expr = update p.arithm_expr (pos k) "" }) s

abbrev pub no_section : Section
no_section = record {
  used = false;
  name = "";
  language = Language.in_ladder;
  sub_routine_number = negsuc 0;
  first_rung = pos 0;
  last_rung = pos 0;
  sequential_page = pos 0;
}

unfoldable pub init_sections : Plc → Plc
unfolding for_below
init_sections s =
    let s1 =
      for_below s.sizes.nbr_sections
        (λ k (p : Plc). record p { section_array = update p.section_array (pos k) no_section }) s in
    record s1 {
      section_array =
          update s1.section_array (pos 0) (record no_section { used = true; name = "Prog1" });
    }
