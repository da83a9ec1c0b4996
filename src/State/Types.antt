-- ===== src/State/Types.antt =====
-- The structs of src/classicladder.h and src/sequential.h.
-- A `char` that the code only tests, and fills with conditions, is a `Bool`. A `char` that is read
-- and written as a variable of the PLC is a number.
use classicladder.Common.{ℤ, ℕ, Bool, String, List, Option}

-- The VAR_... types of the variables. `unknown` stands for every other number, which the functions
-- over the types treat by their `default` case.
pub data VarType : Type 0 where
  mem_bit timer_done timer_running timer_iec_done monostable_running : VarType
  counter_done counter_empty counter_full step_activity : VarType
  phys_input phys_output user_led system register_empty register_full : VarType
  mem_word step_time timer_preset timer_value monostable_preset monostable_value : VarType
  counter_preset counter_value timer_iec_preset timer_iec_value : VarType
  phys_word_input phys_word_output word_system : VarType
  register_in_value register_out_value register_nbr_values : VarType
  unknown : VarType

-- The ELE_... types of the elements of a rung. `other` is any other number.
pub data EleType : Type 0 where
  free input input_not rising_input falling_input connection : EleType
  timer monostable counter timer_iec register compar : EleType
  output output_not output_set output_reset output_jump output_call output_operate : EleType
  unusable other : EleType

-- StrElement. `indexed_var_type` is `none` for -1, which means that there is no index.
pub record Element : Type 0 where
  pub type : EleType
  pub connected_with_top : Bool
  pub var_type : VarType
  pub var_num : ℤ
  pub indexed_var_type : Option VarType
  pub indexed_var_num : ℤ
  pub dynamic_input : Bool
  pub dynamic_state : Bool
  pub dynamic_var_bak : Bool
  pub dynamic_output : Bool
  pub dynamic_var_setted : Bool

-- StrRung, its elements by column and line; the code also reads columns left of the grid
pub record Rung : Type 0 where
  pub used : Bool
  pub prev_rung : ℤ
  pub next_rung : ℤ
  pub nbr_lines_used : ℕ
  pub label : String
  pub comment : String
  pub element : ℤ → ℕ → Element

pub record Timer : Type 0 where
  pub preset : ℤ
  pub value : ℤ
  pub base : ℤ
  pub display_format : String
  pub input_enable : Bool
  pub input_control : Bool
  pub output_done : Bool
  pub output_running : Bool

pub record Monostable : Type 0 where
  pub preset : ℤ
  pub value : ℤ
  pub base : ℤ
  pub display_format : String
  pub input : Bool
  pub input_bak : Bool
  pub output_running : Bool

pub record Counter : Type 0 where
  pub preset : ℤ
  pub value : ℤ
  pub value_bak : ℤ
  pub input_reset : Bool
  pub input_preset : Bool
  pub input_count_up : Bool
  pub input_count_up_bak : Bool
  pub input_count_down : Bool
  pub input_count_down_bak : Bool
  pub output_done : ℤ
  pub output_empty : ℤ
  pub output_full : ℤ

-- TIMER_IEC_MODE_..., `mode_other` for a number that no case of the code names
pub data TimerMode : Type 0 where
  mode_on mode_off mode_pulse mode_other : TimerMode

pub record TimerIec : Type 0 where
  pub preset : ℤ
  pub value : ℤ
  pub base : ℤ
  pub timer_mode : TimerMode
  pub display_format : String
  pub input : Bool
  pub input_bak : Bool
  pub output : ℤ
  pub timer_started : Bool
  pub value_to_reach_one_base_unit : ℤ

-- REGISTER_MODE_...
pub data RegisterMode : Type 0 where
  undef fifo lifo : RegisterMode

pub record Register : Type 0 where
  pub register_mode : RegisterMode
  pub value_in : ℤ
  pub value_out : ℤ
  pub input_reset : Bool
  pub input_in : Bool
  pub input_in_bak : Bool
  pub input_out : Bool
  pub input_out_bak : Bool
  pub output_empty : ℤ
  pub output_full : ℤ
  pub nbr_values_saved : ℤ
  pub first_value_index : ℤ
  pub latest_value_index : ℤ

-- StrStep; the offsets that only the drawing uses are left out
pub record Step : Type 0 where
  pub init_step : Bool
  pub step_number : ℤ
  pub num_page : ℤ
  pub posi_x : ℤ
  pub posi_y : ℤ
  pub activated : Bool
  pub time_activated : ℤ
  pub off_draw_cross_step : ℤ
  pub off_draw_cross_step_offset_y : ℤ

-- StrTransition; each list holds the NBR_SWITCHS_MAX numbers of its array
pub record Transition : Type 0 where
  pub var_type_condi : VarType
  pub var_num_condi : ℤ
  pub num_step_to_activ : List ℤ
  pub num_step_to_desactiv : List ℤ
  pub num_trans_linked_for_start : List ℤ
  pub num_trans_linked_for_end : List ℤ
  pub num_page : ℤ
  pub posi_x : ℤ
  pub posi_y : ℤ
  pub activated : Bool

pub record SeqComment : Type 0 where
  pub num_page : ℤ
  pub posi_x : ℤ
  pub posi_y : ℤ
  pub comment : String

-- SECTION_IN_LADDER and SECTION_IN_SEQUENTIAL
pub data Language : Type 0 where
  in_ladder in_sequential : Language

pub record Section : Type 0 where
  pub used : Bool
  pub name : String
  pub language : Language
  pub sub_routine_number : ℤ
  pub first_rung : ℤ
  pub last_rung : ℤ
  pub sequential_page : ℤ

pub record InputFilterAndState : Type 0 where
  pub filter_mask : ℕ
  pub buff_raw_input : ℕ
  pub input_state_for_logic : ℤ

-- STATE_...
pub data LadderState : Type 0 where
  loading stop run run_freeze run_for_one_cycle : LadderState
