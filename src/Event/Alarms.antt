-- ===== src/Event/Alarms.antt =====
-- src/log_events.c: the alarms that are still to be sent.
use classicladder.Common.{
  ◌&&◌, ℤ, ℕ, zero, suc, pos, ◌-◌, ◌^◌, ◌==ℤ◌, ◌==◌, not, ltb_ℤ, if◌then◌else◌, Bool, true, false,
  none, some, bit_and, for_below,
}
use classicladder.Event.Types.{
  Event, Log, AlarmType, Logger, put_log, slot_before, nbr_alarms_slots,
}
use classicladder.Event.Create.{put_event, find_back, rounds_of}

unfoldable pub remote_alarms_check_transmit_flag : ℕ → Bool → Event → Bool
remote_alarms_check_transmit_flag slot for_end e = not (
    bit_and (if for_end then e.end_transmit_alarms_flags else e.start_transmit_alarms_flags)
      (2 ^ slot)
    == 0)

-- flags & ~(1<<slot)
abbrev pub without_flag : ℕ → ℕ → ℕ
without_flag slot flags = flags - bit_and flags (2 ^ slot)

abbrev pub reset_flag : ℕ → Bool → Event → Event
reset_flag slot for_end e =
    if for_end
    then record e { end_transmit_alarms_flags = without_flag slot (e.end_transmit_alarms_flags) }
    else record e {
      start_transmit_alarms_flags = without_flag slot (e.start_transmit_alarms_flags);
    }

unfoldable pub remote_alarms_reset_transmit_flag : ℕ → Bool → ℤ → Logger → Logger
unfolding find_back
remote_alarms_reset_transmit_flag slot for_end id l =
    elim (find_back (λ e. e.id_event ==ℤ id) (l.log) (rounds_of (l.log)) (l.log.last_event)) [
      | none ↦ l
      | some k ↦
          record (put_log l (put_event (l.log) k (reset_flag slot for_end (l.log.event k)))) {
            background_save_log_events_data = true;
          }
    ]

-- The loop over the events of the copy `g`; `send` is the function to call.
module _ (send : ℕ → Bool → Event → Logger → Logger) (g : Log) where
  abbrev pub send_slots : Event → Logger → Logger
  unfolding for_below
  send_slots e l =
      if (e.start_transmit_alarms_flags == 0) && (e.end_transmit_alarms_flags == 0)
      then l
      else for_below nbr_alarms_slots (λ slot m. send slot true e (send slot false e m)) l

  unfoldable pub send_events : ℕ → ℤ → Logger → Logger
  unfolding send_slots
  send_events zero k l = l
  send_events (suc remaining) k l = send_events remaining (slot_before k) (send_slots (g.event k) l)

unfoldable pub remote_alarms_transmit_scan_all_events :
    (ℕ → Bool → Event → Logger → Logger) → Logger → Logger
unfolding send_events
remote_alarms_transmit_scan_all_events send l =
    if ltb_ℤ (pos 0) (l.log.nbr_events)
    then send_events send (l.log) (rounds_of (l.log)) (l.log.last_event) l
    else l

abbrev pub is_email : AlarmType → Bool
is_email AlarmType.email = true
is_email _ = false

-- The message, and the commands that send it, are output.
unfoldable pub remote_alarms_transmit_send_email_if_event_concerned :
    ℕ → Bool → Event → Logger → Logger
unfolding remote_alarms_check_transmit_flag remote_alarms_reset_transmit_flag
remote_alarms_transmit_send_email_if_event_concerned slot for_end e l =
    if remote_alarms_check_transmit_flag slot for_end e
      && is_email (l.remote_alarms_config.alarm_type (pos slot))
    then remote_alarms_reset_transmit_flag slot for_end (e.id_event) l
    else l

unfoldable pub remote_alarms_transmit_for_emails : Logger → Logger
unfolding remote_alarms_transmit_scan_all_events
    remote_alarms_transmit_send_email_if_event_concerned
remote_alarms_transmit_for_emails l =
    if l.transmit_alarms_global_flag_for_emails
    then remote_alarms_transmit_scan_all_events remote_alarms_transmit_send_email_if_event_concerned
        (record l { transmit_alarms_global_flag_for_emails = false })
    else l
