-- ===== src/Event/Reached.antt =====
-- The logs that the program reaches (src/log_events.c).
use classicladder.Common.{
  ℤ, ℕ, zero, suc, pos, ◌<◌, ◌≡◌, refl, sym, inl, inr, Bool, true, false, Bool-cases, arith, subst,
  if◌then◌else◌, ltb_ℤ, Option, none, some, to_bool, to_char,
}
use classicladder.Event.Types.{Event, Log, Logger, ConfigEvent, slot_before}
use classicladder.Event.Start.{init_log_datas}
use classicladder.Event.Create.{
  put_event, is_pending, find_back, rounds_of, is_same_pending, finish_found, end_event,
  create_event_log, log_change, var_state_changed,
}
use classicladder.Event.Pending.{
  is_old_config, killed, emptied, kill_old_events, cleanup_events_log,
}
use classicladder.Event.Keep.{IsLog, unmarked, start_event-IsLog, pending_spared}
use classicladder.Event.Finish.{log-finish_found}

-- A log is reached from InitLogDatas by the events that are logged and by CleanupEventsLog.
pub data Reached : Logger → Type 0 where
  at_start : (l : Logger) → Reached (init_log_datas l)
  changed : (l : Logger) (now : ℕ) (num v : ℤ) → Reached l → Reached (var_state_changed l now num v)
  cleaned : (l : Logger) → Reached l → Reached (cleanup_events_log l)

end_event-IsLog :
    (l : Logger) (now : ℕ) (config parameter : ℤ)
    → IsLog l.log
    → IsLog (end_event l now config parameter).log
unfolding end_event finish_found
end_event-IsLog l now config parameter h = elim (Bool-cases (ltb_ℤ (pos 0) (l.log.nbr_events))) [
  | inr empty ↦ rw empty h
  | inl some_events ↦ rw some_events (
      of_found (
        find_back (is_same_pending config parameter) (l.log) (rounds_of (l.log))
          (l.log.last_event)))
]
  where
    of_found : (found : Option ℤ) → IsLog (finish_found l now config found).log
    of_found none = h
    of_found (some k) = subst IsLog (sym (log-finish_found l now config k)) h

log_change-IsLog :
    (l : Logger) (now : ℕ) (num v : ℤ) (found : Option ℕ)
    → IsLog l.log
    → IsLog (log_change l now num v found).log
unfolding log_change create_event_log
log_change-IsLog l now num v none h = h
log_change-IsLog l now num v (some k) h = elim (Bool-cases (to_bool (to_char v))) [
  | inl on ↦ rw on (start_event-IsLog l now (pos k) _ h)
  | inr off ↦ rw off (end_event-IsLog l now (pos k) _ h)
]

put-IsLog :
    (g : Log) (k : ℤ) (e : Event) (b : Bool) → IsLog g → IsLog (if b then put_event g k e else g)
put-IsLog g k e true h = h
put-IsLog g k e false h = h

kill-IsLog :
    (config : ℤ → ConfigEvent) (rounds : ℕ) (k : ℤ) (g : Log)
    → IsLog g
    → IsLog (kill_old_events config rounds k g)
unfolding kill_old_events
kill-IsLog config zero k g h = h
kill-IsLog config (suc rounds) k g h =
    let e = g.event k in
    kill-IsLog config rounds (slot_before k) _
      (put-IsLog g k (killed e) (is_old_config (config (e.config_array_num)) e) h)

emptied-IsLog : (g : Log) (found : Option ℤ) → IsLog g → IsLog (emptied g found)
emptied-IsLog g none h = inl (0, omega arith, refl, refl)
emptied-IsLog g (some k) h = h

cleanup-IsLog : (l : Logger) → IsLog l.log → IsLog (cleanup_events_log l).log
unfolding cleanup_events_log
cleanup-IsLog l h = elim (Bool-cases (ltb_ℤ (pos 0) (l.log.nbr_events))) [
  | inr empty ↦ rw empty h
  | inl some_events ↦ rw some_events (
      emptied-IsLog _ _
        (kill-IsLog (l.config_event_log) (rounds_of (l.log)) (l.log.last_event) (l.log) h))
]

pub Reached-IsLog : (l : Logger) → Reached l → IsLog l.log
unfolding init_log_datas var_state_changed
Reached-IsLog _ (at_start l) = inl (0, omega arith, refl, refl)
Reached-IsLog _ (changed l now num v r) = log_change-IsLog l now num v _ (Reached-IsLog l r)
Reached-IsLog _ (cleaned l r) = cleanup-IsLog l (Reached-IsLog l r)

-- In each log that is reached from InitLogDatas by the changes of variables and the cleanups, an event that
-- is started overwrites no event that is not finished: each of them keeps its slot and all that is
-- known of it, but for the mark that the search for a slot leaves on it.
pub Reached-pending_spared :
    (l : Logger) (now : ℕ) (config parameter : ℤ) (n i : ℕ)
    → Reached l
    → l.log.nbr_events ≡ pos n
    → i < n
    → is_pending (l.log.event (pos i)) ≡ true
    → unmarked ((create_event_log l now config parameter true).log.event (pos i))
      ≡ unmarked (l.log.event (pos i))
Reached-pending_spared l now config parameter n i r used below pending =
    pending_spared l now config parameter n i (Reached-IsLog l r) used below pending
