-- ===== src/Event/Create.antt =====
-- src/log_events.c: CreateEventLog and VarStateChanged.
use classicladder.Common.{
  ℤ, ℕ, zero, suc, pos, negsuc, ◌+ℤ◌, ◌-ℤ◌, ◌==ℤ◌, ◌==◌, ◌^◌, ◌&&◌, ltb_ℤ, not, add_int, to_uchar,
  to_bool, to_char, if◌then◌else◌, Bool, true, false, Option, none, some, bit_and, update,
  for_below, pos_part, ◌-◌,
}
use classicladder.Event.Types.{
  Event, Log, ConfigEvent, AlarmType, Logger, put_log, nbr_events_in_log, nbr_config_events_log,
  nbr_alarms_slots, slot_before, slot_after,
}

abbrev pub put_event : Log → ℤ → Event → Log
put_event g k e = record g { event = update (g.event) k e }

abbrev pub advance_last : Log → Log
advance_last g = record g { last_event = slot_after (g.last_event) }

-- one round over a full log: whether the next slot is free, and its mark
abbrev pub is_pending : Event → Bool
is_pending e = e.end_time == 0

abbrev pub mark_slot : Log → Log
mark_slot g =
    let g' = advance_last g in
    let e = g'.event (g'.last_event) in
    put_event g' (g'.last_event) (record e { old_event_that_could_not_be_destroyed = is_pending e })

-- the loop, for the rounds that are left
unfoldable pub find_finished : ℕ → Log → Log × Bool
find_finished zero g = (g, false)
find_finished (suc rounds) g =
    let g' = mark_slot g in
    let rest = find_finished rounds g' in
    if (g'.event (g'.last_event)).old_event_that_could_not_be_destroyed then rest else (g', true)

-- The log where LastEvent is the slot found, and EventSlotFound.
unfoldable pub advance_in_log : Log → Log × Bool
unfolding find_finished
advance_in_log g =
    if ltb_ℤ (g.nbr_events) (pos nbr_events_in_log)
    then (advance_last (record g { nbr_events = g.nbr_events +ℤ pos 1 }), true)
    else find_finished nbr_events_in_log g

-- the alarms of the slots selected
abbrev pub set_flag_of_slot : ℕ → ℕ → Logger → Logger
set_flag_of_slot slots k l =
    if bit_and slots (2 ^ k) == 0 then l else elim (l.remote_alarms_config.alarm_type (pos k)) [
      | AlarmType.sms ↦ record l { transmit_alarms_global_flag_for_sms = true }
      | AlarmType.email ↦ record l { transmit_alarms_global_flag_for_emails = true }
      | _ ↦ l
    ]

unfoldable pub set_transmit_alarms_global_flag : Logger → ℕ → Logger
set_transmit_alarms_global_flag l slots = for_below nbr_alarms_slots (set_flag_of_slot slots) l

-- the alarms that an event of a setting sends
abbrev pub forwarded : Logger → ℤ → ℕ
forwarded l config = to_uchar (l.config_event_log config).remote_alarms_forward_slot

-- the number after that of the last event
abbrev pub next_id : Log → ℤ
next_id g =
    let last = if ltb_ℤ (pos 0) (g.nbr_events) then (g.event (g.last_event)).id_event else pos 0 in
    let next = add_int last (pos 1) in if ltb_ℤ (pos 0) next then next else pos 1

abbrev pub new_event : ℤ → ℕ → ℤ → ℤ → ℕ → Event
new_event id now config parameter flags = record {
  id_event = id;
  start_time = now;
  end_time = 0;
  start_time_milli_secs = pos 0;
  end_time_milli_secs = pos 0;
  config_array_num = config;
  parameter = parameter;
  old_event_that_could_not_be_destroyed = false;
  start_transmit_alarms_flags = flags;
  end_transmit_alarms_flags = 0;
}

-- the event is started where a slot is found
unfoldable pub start_event : Logger → ℕ → ℤ → ℤ → Logger
unfolding advance_in_log
start_event l now config parameter =
    let id = next_id (l.log) in
    let (g, found) = advance_in_log (l.log) in
    let enabled = l.remote_alarms_config.global_enabled in
    let flags = if enabled then forwarded l config else 0 in
    let l' = put_log l (put_event g (g.last_event) (new_event id now config parameter flags)) in
    if found
    then (if enabled then set_transmit_alarms_global_flag l' flags else l')
    else put_log l g

-- what the search for the start of an event looks for
abbrev pub is_same_pending : ℤ → ℤ → Event → Bool
is_same_pending config parameter e =
    (e.config_array_num ==ℤ config) && (e.parameter ==ℤ parameter) && is_pending e

-- the slot of an event, from the last one back, for the events that remain
unfoldable pub find_back : (Event → Bool) → Log → ℕ → ℤ → Option ℤ
find_back test g zero k = none
find_back test g (suc remaining) k =
    let rest = find_back test g remaining (slot_before k) in
    if test (g.event k) then some k else rest

-- the rounds of a `do` loop that counts the events down: one at least
abbrev pub rounds_of : Log → ℕ
rounds_of g = suc (pos_part (g.nbr_events) - 1)

-- the event in the slot found is finished
unfoldable pub finish_found : Logger → ℕ → ℤ → Option ℤ → Logger
finish_found l now config none = l
finish_found l now config (some k) =
    let e = record (l.log.event k) { end_time = now } in
    if l.remote_alarms_config.global_enabled
    then set_transmit_alarms_global_flag
        (put_log l
          (put_event (l.log) k (record e { end_transmit_alarms_flags = forwarded l config })))
        (forwarded l config)
    else put_log l (put_event (l.log) k e)

unfoldable pub end_event : Logger → ℕ → ℤ → ℤ → Logger
end_event l now config parameter =
    if ltb_ℤ (pos 0) (l.log.nbr_events)
    then finish_found l now config (
        find_back (is_same_pending config parameter) (l.log) (rounds_of (l.log)) (l.log.last_event))
    else l

-- `now` is the current time.
unfoldable pub create_event_log : Logger → ℕ → ℤ → ℤ → Bool → Logger
create_event_log l now config parameter start_new_one =
    let l' =
      if start_new_one
      then start_event l now config parameter
      else end_event l now config parameter in
    record l' { background_save_log_events_data = true }

-- the setting that a variable belongs to
abbrev pub is_logged_by : ConfigEvent → ℤ → Bool
is_logged_by c num =
    not (c.first_var_num ==ℤ negsuc 0)
    && ltb_ℤ (pos 0) (c.nbr_vars)
    && not (ltb_ℤ num (c.first_var_num))
    && ltb_ℤ num (c.first_var_num +ℤ c.nbr_vars)

unfoldable pub find_config : Logger → ℤ → ℕ → ℕ → Option ℕ
find_config l num zero k = none
find_config l num (suc rounds) k =
    let rest = find_config l num rounds (suc k) in
    if is_logged_by (l.config_event_log (pos k)) num then some k else rest

-- what is done for the setting found
unfoldable pub log_change : Logger → ℕ → ℤ → ℤ → Option ℕ → Logger
log_change l now num new_state_value none = l
log_change l now num new_state_value (some k) =
    let c = l.config_event_log (pos k) in
    let parameter = if ltb_ℤ (pos 1) (c.nbr_vars) then num -ℤ c.first_var_num else negsuc 0 in
    let l' = create_event_log l now (pos k) parameter (to_bool (to_char new_state_value)) in
    record l' {
      log_content_modified = true;
      default_log_list_modified =
          if ltb_ℤ (pos 0) (c.event_level) then true else l'.default_log_list_modified;
    }

unfoldable pub var_state_changed : Logger → ℕ → ℤ → ℤ → Logger
var_state_changed l now num new_state_value =
    log_change l now num new_state_value (find_config l num nbr_config_events_log 0)
