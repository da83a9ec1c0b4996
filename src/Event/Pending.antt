-- ===== src/Event/Pending.antt =====
-- src/log_events.c: the scans over the events of the log.
use classicladder.Common.{
  ℤ, ℕ, zero, suc, pos, negsuc, ◌+ℤ◌, ◌==ℤ◌, ◌==◌, ◌&&◌, ◌||◌, ltb_ℤ, ltb, not, to_uchar,
  if◌then◌else◌, Bool, true, Option, none, some, update,
}
use classicladder.State.{Plc}
use classicladder.Vars.{write_bool_var_without_log}
use classicladder.Event.Types.{
  Event, Log, ConfigEvent, Logger, put_log, slot_before, nbr_current_defs_max,
}
use classicladder.Event.Create.{put_event, is_pending, find_back, rounds_of}

-- an event whose setting is no longer there
abbrev pub is_old_config : ConfigEvent → Event → Bool
is_old_config c e =
    (c.first_var_num ==ℤ negsuc 0)
    || (c.nbr_vars ==ℤ pos 0)
    || not (ltb_ℤ (e.parameter) (c.nbr_vars))

abbrev pub killed : Event → Event
killed e = record e {
  start_time = 0;
  end_time = 0;
  start_transmit_alarms_flags = 0;
  end_transmit_alarms_flags = 0;
}

-- the first loop, from slot `k` back
unfoldable pub kill_old_events : (ℤ → ConfigEvent) → ℕ → ℤ → Log → Log
kill_old_events config zero k g = g
kill_old_events config (suc remaining) k g =
    let e = g.event k in
    let g' =
      if is_old_config (config (e.config_array_num)) e then put_event g k (killed e) else g in
    kill_old_events config remaining (slot_before k) g'

abbrev pub has_started : Event → Bool
has_started e = not (e.start_time == 0)

-- the log is empty where no event has started
abbrev pub emptied : Log → Option ℤ → Log
emptied g (some k) = g
emptied g none = record g { last_event = negsuc 0; nbr_events = pos 0 }

unfoldable pub cleanup_events_log : Logger → Logger
cleanup_events_log l =
    let rounds = rounds_of (l.log) in
    let g = kill_old_events (l.config_event_log) rounds (l.log.last_event) (l.log) in
    if ltb_ℤ (pos 0) (l.log.nbr_events)
    then record (put_log l (emptied g (find_back has_started g rounds (g.last_event)))) {
      log_content_modified = true;
    }
    else l

-- the variable that an event belongs to
abbrev pub var_of_event : ConfigEvent → Event → ℤ
var_of_event c e =
    if ltb_ℤ (pos 1) (c.nbr_vars) then c.first_var_num +ℤ e.parameter else c.first_var_num

unfoldable pub write_pending_vars : (ℤ → ConfigEvent) → Log → ℕ → ℤ → Plc → Plc
unfolding write_bool_var_without_log
write_pending_vars config g zero k s = s
write_pending_vars config g (suc remaining) k s =
    let e = g.event k in
    let s' =
      if has_started e && is_pending e
      then write_bool_var_without_log s (var_of_event (config (e.config_array_num)) e) (pos 1)
      else s in
    write_pending_vars config g remaining (slot_before k) s'

unfoldable pub write_bool_vars_to_1_from_pending_events_log : Logger → Logger
unfolding write_pending_vars
write_bool_vars_to_1_from_pending_events_log l =
    if ltb_ℤ (pos 0) (l.log.nbr_events)
    then record l {
      plc =
          write_pending_vars (l.config_event_log) (l.log) (rounds_of (l.log)) (l.log.last_event)
            (l.plc);
    }
    else l

-- an event that is not finished and whose setting is a default
abbrev pub is_default : (ℤ → ConfigEvent) → Event → Bool
is_default config e = is_pending e && ltb_ℤ (pos 0) (config (e.config_array_num)).event_level

abbrev pub put_default : Logger → ℕ → Event → Logger
put_default l n e = record l {
  list_current_def_type = update (l.list_current_def_type) (pos n) (to_uchar (e.config_array_num));
  list_current_def_param = update (l.list_current_def_param) (pos n) (e.parameter);
}

-- the loop, with NbrDefsFound
unfoldable pub list_defaults : Log → ℕ → ℤ → Logger → ℕ → Logger × ℕ
list_defaults g zero k l n = (l, n)
list_defaults g (suc remaining) k l n =
    let e = g.event k in
    let test = is_default (l.config_event_log) e in
    let l' = if test then put_default l n e else l in
    let n' = if test then suc n else n in
    let rest = list_defaults g remaining (slot_before k) l' n' in
    if ltb n' nbr_current_defs_max then rest else (l', n')

-- The copy of the log is the log itself: its memory is always given.
unfoldable pub find_current_defaults : Logger → Logger × ℕ
find_current_defaults l =
    if ltb_ℤ (pos 0) (l.log.nbr_events)
    then list_defaults (l.log) (rounds_of (l.log)) (l.log.last_event) l 0
    else (l, 0)
