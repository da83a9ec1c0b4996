-- ===== src/Event/Types.antt =====
-- src/classicladder.h: the event log, its settings and the alarms that it sends.
-- src/log_events.c: the globals of the event log.
use classicladder.Common.{ℤ, ℕ, pos, Bool, String, if◌then◌else◌, ltb_ℤ, ◌+ℤ◌, ◌-ℤ◌}
use classicladder.State.{Plc}

abbrev pub nbr_events_in_log : ℕ
nbr_events_in_log = 100

abbrev pub nbr_config_events_log : ℕ
nbr_config_events_log = 20

abbrev pub nbr_current_defs_max : ℕ
nbr_current_defs_max = 30

abbrev pub nbr_alarms_slots : ℕ
nbr_alarms_slots = 8

-- StrEventLog. An event is not finished when its end is the time 0.
pub record Event : Type 0 where
  pub id_event : ℤ
  pub start_time : ℕ
  pub end_time : ℕ
  pub start_time_milli_secs : ℤ
  pub end_time_milli_secs : ℤ
  pub config_array_num : ℤ
  pub parameter : ℤ
  pub old_event_that_could_not_be_destroyed : Bool
  pub start_transmit_alarms_flags : ℕ
  pub end_transmit_alarms_flags : ℕ

-- StrLog
pub record Log : Type 0 where
  pub event : ℤ → Event
  pub last_event : ℤ
  pub nbr_events : ℤ

-- StrConfigEventLog
pub record ConfigEvent : Type 0 where
  pub first_var_num : ℤ
  pub nbr_vars : ℤ
  pub event_level : ℤ
  pub symbol : String
  pub text : String
  pub remote_alarms_forward_slot : ℤ

-- ALARMS_TYPE_...
pub data AlarmType : Type 0 where
  no_alarm sms email other_alarm : AlarmType

-- StrRemoteAlarms
pub record RemoteAlarms : Type 0 where
  pub global_enabled : Bool
  pub slot_name : ℤ → String
  pub alarm_type : ℤ → AlarmType
  pub telephone_number : ℤ → String
  pub center_server_sms : String
  pub email_address : ℤ → String
  pub smtp_server_for_emails : String
  pub smtp_server_user_name : String
  pub smtp_server_password : String
  pub email_sender_address : String

-- The globals of src/log_events.c and what it sets in InfosGene, with the variables of the PLC.
pub record Logger : Type 0 where
  pub plc : Plc
  pub log : Log
  pub config_event_log : ℤ → ConfigEvent
  pub list_current_def_type : ℤ → ℕ
  pub list_current_def_param : ℤ → ℤ
  pub remote_alarms_config : RemoteAlarms
  pub background_save_log_events_data : Bool
  pub log_content_modified : Bool
  pub default_log_list_modified : Bool
  pub transmit_alarms_global_flag_for_sms : Bool
  pub transmit_alarms_global_flag_for_emails : Bool

abbrev pub put_log : Logger → Log → Logger
put_log l g = record l { log = g }

-- ScanEvent--, with the wrap at the start of the list
abbrev pub slot_before : ℤ → ℤ
slot_before k = if ltb_ℤ (k -ℤ pos 1) (pos 0) then pos 99 else k -ℤ pos 1

-- LastEvent++, with the wrap at its end
abbrev pub slot_after : ℤ → ℤ
slot_after k = if ltb_ℤ (k +ℤ pos 1) (pos nbr_events_in_log) then k +ℤ pos 1 else pos 0
