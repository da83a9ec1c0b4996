-- ===== src/Scan/Cycle.antt =====
-- src/calc.c: RefreshRung, RefreshASection and ClassicLadder_RefreshAllSections.
use classicladder.Common.{
  ℤ, ℕ, zero, suc, pos, negsuc, ◌-◌, ltb, ltb_ℤ, ◌==ℤ◌, ◌&&◌, not, if◌then◌else◌, Bool, true, false,
  Option, none, some, to_bool, to_char,
}
use classicladder.State.{VarType, Language, LadderState, Section, Plc, rung_width}
use classicladder.Vars.{read_var}
use classicladder.Rung.{elem_at}
use classicladder.Sequential.{refresh_sequential_page}
use classicladder.Scan.Cell.{calc_element}

-- MadLoopBreak's limit, a value of `99999` in the code
abbrev pub mad_loop_limit : ℕ
mad_loop_limit = 99999

-- ReadVar( VAR_SYSTEM, 7 ), the division by zero
unfoldable pub divided_by_zero : Plc → Bool
unfolding read_var
divided_by_zero s = to_bool (to_char (read_var s VarType.system (pos 7)))

-- the rung of the first division by zero is remembered
unfoldable pub note_error : Bool → ℤ → Plc → Plc
unfolding divided_by_zero
note_error before n s =
    if not before && divided_by_zero s then record s { rung_in_error = n } else s

module _ (call : ℤ → Plc → Option Plc) where
  -- `do { ... y++; } while( y<NbrLinesUsed && JumpToRung==-1 )`; the first number counts the lines
  -- left
  unfoldable pub refresh_column : ℕ → Plc → ℤ → ℕ → ℕ → Option (Plc × ℤ)
  unfolding calc_element elem_at
  refresh_column zero s n x y = some (s, negsuc 0)
  refresh_column (suc lines) s n x y =
      elim (calc_element call (elem_at s n (pos x) y).type s n x y) [
        | none ↦ none
        | some (s', jump) ↦ elim (jump ==ℤ negsuc 0) [
          | true ↦ refresh_column lines s' n x (suc y)
          | false ↦ some (s', jump)
        ]
      ]

  -- `do { ... x++; } while( x<RUNG_WIDTH && JumpToRung==-1 )`; the first number counts the columns
  -- left. A `do` loop makes one round at least.
  unfoldable pub refresh_columns : ℕ → Plc → ℤ → ℕ → Option (Plc × ℤ)
  unfolding refresh_column
  refresh_columns zero s n x = some (s, negsuc 0)
  refresh_columns (suc columns) s n x =
      elim (refresh_column (suc ((s.rung_array n).nbr_lines_used - 1)) s n x 0) [
        | none ↦ none
        | some (s', jump) ↦ elim (jump ==ℤ negsuc 0) [
          | true ↦ refresh_columns columns s' n (suc x)
          | false ↦ some (s', jump)
        ]
      ]

  -- RefreshRung of rung `n`, with `*JumpTo`
  unfoldable pub refresh_rung : Plc → ℤ → Option (Plc × ℤ)
  unfolding refresh_columns
  refresh_rung s n = refresh_columns rung_width s n 0

  -- The loop of RefreshASection. The first number is fuel; `mad` is MadLoopBreak.
  unfoldable pub section_loop : ℕ → Section → Plc → ℤ → ℕ → Bool → Option Plc
  unfolding refresh_rung note_error divided_by_zero
  section_loop zero sec s n mad err = none
  section_loop (suc fuel) sec s n mad err = elim (refresh_rung s n) [
    | none ↦ none
    | some (s', goto) ↦
        let err' : Bool = if not err && divided_by_zero s' then true else err in
        let s1 : Plc = note_error err n s' in
        elim (goto ==ℤ negsuc 0) [
          | true ↦ elim (n ==ℤ sec.last_rung) [
            | true ↦ some s1
            | false ↦ section_loop fuel sec s1 (s1.rung_array n).next_rung mad err'
          ]
          | false ↦ elim (ltb mad_loop_limit (suc mad)) [
            | true ↦ some (record s1 { ladder_state = LadderState.stop })
            | false ↦ elim (s1.rung_array goto).used [
              | true ↦ section_loop fuel sec s1 goto (suc mad) err'
              | false ↦ some s1
            ]
          ]
        ]
  ]

abbrev pub is_ladder : Language → Bool
is_ladder Language.in_ladder = true
is_ladder Language.in_sequential = false

-- the longest scan
unfoldable pub note_duration : Plc → Plc
note_duration s =
    if ltb_ℤ s.max_scan_duration s.duration_of_last_scan
    then record s { max_scan_duration = s.duration_of_last_scan }
    else s

module _ (fuel : ℕ) where
  -- RefreshASection of section `k`; the number bounds how deep the sub-routines call one another.
  unfoldable pub refresh_a_section : ℕ → ℤ → Plc → Option Plc
  unfolding section_loop divided_by_zero
  refresh_a_section zero k s = none
  refresh_a_section (suc depth) k s =
      section_loop (refresh_a_section depth) fuel (s.section_array k) s
        (s.section_array k).first_rung 0 (divided_by_zero s)

  -- one round of the `for` loop over the sections, with `depth` for the sub-routines
  unfoldable pub refresh_main_section : ℕ → ℤ → Plc → Option Plc
  refresh_main_section depth k s =
      let sec = s.section_array k in
      elim (if sec.used && ((sec.sub_routine_number ==ℤ negsuc 0) && is_ladder sec.language)
        then refresh_a_section depth k s
        else some s) [
          | none ↦ none
          | some s' ↦
              let sec' = s'.section_array k in
              if sec'.used && not (is_ladder sec'.language)
              then some (refresh_sequential_page s' sec'.sequential_page)
              else some s'
        ]

  -- the `for` loop; the first number counts the sections left
  unfoldable pub refresh_sections : ℕ → ℕ → ℕ → Plc → Option Plc
  refresh_sections zero depth k s = some s
  refresh_sections (suc left) depth k s = elim (refresh_main_section depth (pos k) s) [
    | none ↦ none
    | some s' ↦ refresh_sections left depth (suc k) s'
  ]

  -- ClassicLadder_RefreshAllSections, without the measure of the time under a real-time system
  unfoldable pub refresh_all_sections : ℕ → Plc → Option Plc
  refresh_all_sections depth s = elim (refresh_sections s.sizes.nbr_sections depth 0 s) [
    | none ↦ none
    | some s' ↦ some (note_duration s')
  ]
