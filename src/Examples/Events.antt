-- ===== src/Examples/Events.antt =====
-- Events of a log: src/log_events.c.
use classicladder.Common.{
  ℤ, ℕ, pos, negsuc, ◌+ℤ◌, ◌-ℤ◌, ◌≡◌, refl, ◌⊎◌, true, false, length, arith, some, if◌then◌else◌,
  ◌==ℤ◌, update, to_char,
}
use classicladder.Event.{
  Log, ConfigEvent, AlarmType, RemoteAlarms, Logger, init_log_datas, new_event, put_event,
  is_pending, is_same_pending, create_event_log, var_state_changed, find_current_defaults,
  is_default, advance_in_log, find_config, log_change, start_event,
}
use classicladder.Event.Keep.{unmarked}
use classicladder.Event.Finish.{back, IsLatest, IsAbsent, finished, end_event_finishes}
use classicladder.Event.Defaults.{
  selected, member_at, at_most, IsEntry, defaults, find_current_defaults_lem,
}
use classicladder.Event.Reached.{at_start, changed, Reached-pending_spared}
use classicladder.Examples.Blank.{blank}

abbrev no_alarms : RemoteAlarms
no_alarms = record {
  global_enabled = false;
  slot_name = λ k. "";
  alarm_type = λ k. AlarmType.no_alarm;
  telephone_number = λ k. "";
  center_server_sms = "";
  email_address = λ k. "";
  smtp_server_for_emails = "";
  smtp_server_user_name = "";
  smtp_server_password = "";
  email_sender_address = "";
}

-- setting 0: bits 4 and 5, a default
abbrev two_bits : ℤ → ConfigEvent
two_bits k = record {
  first_var_num = if k ==ℤ pos 0 then pos 4 else negsuc 0;
  nbr_vars = if k ==ℤ pos 0 then pos 2 else pos 0;
  event_level = pos 1;
  symbol = "PUMP";
  text = "";
  remote_alarms_forward_slot = pos 1;
}

abbrev empty_log : Log
empty_log = record {
  event = λ k. new_event (pos 0) 0 (negsuc 0) (negsuc 0) 0;
  last_event = negsuc 0;
  nbr_events = pos 0;
}

abbrev quiet : Logger
quiet = record {
  plc = blank;
  log = empty_log;
  config_event_log = two_bits;
  list_current_def_type = λ k. 0;
  list_current_def_param = λ k. pos 0;
  remote_alarms_config = no_alarms;
  background_save_log_events_data = false;
  log_content_modified = false;
  default_log_list_modified = false;
  transmit_alarms_global_flag_for_sms = false;
  transmit_alarms_global_flag_for_emails = false;
}

-- bit 5 is set at the time 100
abbrev one_event : Logger
unfolding init_log_datas var_state_changed find_config log_change create_event_log start_event
    advance_in_log
one_event = var_state_changed (init_log_datas quiet) 100 (pos 5) (pos 1)

one_event_pending :
    (one_event.log.nbr_events ≡ pos 1) × (is_pending (one_event.log.event (pos 0)) ≡ true)
unfolding one_event update ◌+ℤ◌ ◌-ℤ◌ to_char
one_event_pending = (refl, refl)

Reached-pending_spared_example :
    unmarked ((create_event_log one_event 200 (pos 0) (pos 0) true).log.event (pos 0))
    ≡ unmarked (one_event.log.event (pos 0))
unfolding one_event
Reached-pending_spared_example =
    Reached-pending_spared one_event 200 (pos 0) (pos 0) 1 0
      (changed (init_log_datas quiet) 100 (pos 5) (pos 1) (at_start quiet)) one_event_pending.0
      (omega arith) one_event_pending.1

end_event_finishes_example :
    let same = is_same_pending (pos 0) (pos 1) in
    let last = one_event.log.last_event in
    let log' = (create_event_log one_event 300 (pos 0) (pos 1) false).log in
    ((j : ℕ) × IsLatest same one_event.log 1 last j
      × (log'
          ≡ put_event one_event.log
              (back last j)
              (finished one_event 300 (pos 0) (one_event.log.event (back last j)))))
    ⊎ (IsAbsent same one_event.log 1 last × (log' ≡ one_event.log))
end_event_finishes_example = end_event_finishes one_event 300 (pos 0) (pos 1) 0 one_event_pending.0

found_default :
    member_at
      (selected
        (is_default (one_event.config_event_log))
        one_event.log
        1
        (one_event.log.last_event))
      0
    ≡ some (one_event.log.event (pos 0))
unfolding one_event update ◌+ℤ◌ ◌-ℤ◌ to_char selected
found_default = refl

find_current_defaults_lem_example :
    let (l', found) = find_current_defaults one_event in
    (found ≡ at_most 30 (length (defaults one_event)))
    × IsEntry one_event l' 0 (member_at (defaults one_event) 0)
find_current_defaults_lem_example = find_current_defaults_lem one_event 0 (omega arith)
