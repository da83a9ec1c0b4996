-- ===== src/Event/Keep.antt =====
-- The events that are not finished stay in the log (src/log_events.c, CreateEventLog).
use classicladder.Common.{
  ℤ, ℕ, zero, suc, pos, negsuc, ◌+◌, ◌%◌, ◌<◌, ◌≡◌, refl, sym, ap, ◌∙◌, ◌⊎◌, inl, inr, Bool, true,
  false, Bool-cases, if◌then◌else◌, ◌+ℤ◌, ◌==ℤ◌, ==ℤ_iff, ==ℤ_refl, arith, for_below_keeps, update,
  ltb_ℤ,
}
use classicladder.Event.Types.{Event, Log, Logger, slot_after}
use classicladder.Event.Create.{
  put_event, set_flag_of_slot, is_pending, mark_slot, find_finished, advance_in_log, new_event,
  next_id, start_event, create_event_log, set_transmit_alarms_global_flag, forwarded,
}

-- the last slot of a log of `n` events that has never been full
abbrev pub slot_below : ℕ → ℤ
slot_below zero = negsuc 0
slot_below (suc n) = pos n

-- The slots in use are those below the count of events, and the last one that was filled is the
-- last of these, or any of them once the log is full.
abbrev pub IsFilling : Log → Type 0
IsFilling g = (n : ℕ) × (n < 100) × (g.nbr_events ≡ pos n) × (g.last_event ≡ slot_below n)

abbrev pub IsFull : Log → Type 0
IsFull g = (j : ℕ) × (j < 100) × (g.nbr_events ≡ pos 100) × (g.last_event ≡ pos j)

abbrev pub IsLog : Log → Type 0
IsLog g = IsFilling g ⊎ IsFull g

-- an event without its mark
abbrev pub unmarked : Event → Event
unmarked e = record e { old_event_that_could_not_be_destroyed = false }

-- the search of a finished event keeps all the events but for their marks
abbrev pub AreSame : Log → Log → Type 0
AreSame g g' = (k : ℤ) → unmarked (g'.event k) ≡ unmarked (g.event k)

mark_same : (g : Log) → AreSame g (mark_slot g)
unfolding update
mark_same g k = elim (Bool-cases (slot_after (g.last_event) ==ℤ k)) [
  | inl here ↦
      rw here (ap (λ j. unmarked (g.event j)) ((==ℤ_iff (slot_after (g.last_event)) k).0 here))
  | inr other ↦ rw other refl
]

slot_after_in : (j : ℕ) → j < 100 → (i : ℕ) × (i < 100) × (slot_after (pos j) ≡ pos i)
unfolding ◌+ℤ◌
slot_after_in j h = ((j + 1) % 100, omega arith, ground arith)

mark_self :
    (g : Log)
    → let e = (mark_slot g).event (slot_after (g.last_event)) in
      e.old_event_that_could_not_be_destroyed ≡ is_pending e
unfolding update
mark_self g = rw (==ℤ_refl (slot_after (g.last_event))) refl

-- what the search gives: the events are the same, and where a slot is found, its event is finished
abbrev Found : Log → Log × Bool → Type 0
Found g (g', found) =
    AreSame g g'
    × (g'.nbr_events ≡ g.nbr_events)
    × ((i : ℕ) × (i < 100) × (g'.last_event ≡ pos i))
    × ((found ≡ false) ⊎ (is_pending (g'.event (g'.last_event)) ≡ false))

find_finished_keeps :
    (rounds : ℕ) (g : Log) (j : ℕ)
    → j < 100
    → g.last_event ≡ pos j
    → Found g (find_finished rounds g)
unfolding find_finished
find_finished_keeps zero g j h last = ((λ k. refl), refl, (j, h, last), inl refl)
find_finished_keeps (suc rounds) g j h last =
    let g' = mark_slot g in
    let (i, below, next) = slot_after_in j h in
    let last' : g'.last_event ≡ pos i = ap slot_after last ∙ next in
    let mark = (g'.event (g'.last_event)).old_event_that_could_not_be_destroyed in
    elim (Bool-cases mark) [
      | inl kept ↦
          let (same, count, place, finished) = find_finished_keeps rounds g' i below last' in
          rw kept ((λ k. same k ∙ mark_same g k), count, place, finished)
      | inr free ↦ rw free (mark_same g, refl, (i, below, last'), inr (sym (mark_self g) ∙ free))
    ]

pub log-set_transmit :
    (l : Logger) (slots : ℕ) → (set_transmit_alarms_global_flag l slots).log ≡ l.log
unfolding set_transmit_alarms_global_flag
log-set_transmit l slots =
    for_below_keeps (λ n (m : Logger). m.log ≡ l.log) {body = set_flag_of_slot slots} {start = l}
      refl (λ k m same. log_of_slot slots k m ∙ same) 8
  where
    log_of_slot : (slots k : ℕ) (m : Logger) → (set_flag_of_slot slots k m).log ≡ m.log
    log_of_slot slots k m = ground arith

-- the log after an event is started
abbrev started : Log → Log × Bool → Event → Log
started g (g', found) e = if found then put_event g' (g'.last_event) e else g'

log-start_event :
    (l : Logger) (now : ℕ) (config parameter : ℤ)
    → (start_event l now config parameter).log
      ≡ started (l.log) (advance_in_log (l.log)) (
          new_event
            (next_id (l.log))
            now
            config
            parameter
            (if l.remote_alarms_config.global_enabled then forwarded l config else 0))
unfolding start_event
log-start_event l now config parameter = elim (Bool-cases (advance_in_log (l.log)).1) [
  | inr none ↦ rw none refl
  | inl found ↦ rw found (elim (Bool-cases l.remote_alarms_config.global_enabled) [
    | inr quiet ↦ rw quiet refl
    | inl enabled ↦ rw enabled (log-set_transmit _ (forwarded l config))
  ])
]

slot_after_below : (n : ℕ) → n < 100 → slot_after (slot_below n) ≡ pos n
unfolding ◌+ℤ◌
slot_after_below zero h = refl
slot_after_below (suc n) h = ground arith

count_after : (n : ℕ) → pos n +ℤ pos 1 ≡ pos (suc n)
unfolding ◌+ℤ◌
count_after n = ground arith

-- what the search for a slot does to an event that is not finished
abbrev IsSpared : Log → Log × Bool → ℕ → Type 0
IsSpared g (g', found) i =
    (unmarked (g'.event (pos i)) ≡ unmarked (g.event (pos i)))
    × ((found ≡ false) ⊎ ((g'.last_event ==ℤ pos i) ≡ false))

advance_filling :
    (g : Log) (n : ℕ)
    → n < 100
    → g.nbr_events ≡ pos n
    → g.last_event ≡ slot_below n
    → advance_in_log g ≡ (record g { nbr_events = pos (suc n); last_event = pos n }, true)
unfolding advance_in_log
advance_filling g n h count last =
    let room : ltb_ℤ (pos n) (pos 100) ≡ true = ground arith in
    rw (count, last) (rw (room, slot_after_below n h, count_after n) refl)

advance_full : (g : Log) → g.nbr_events ≡ pos 100 → advance_in_log g ≡ find_finished 100 g
unfolding advance_in_log
advance_full g count = rw count refl

advance-IsLog : (g : Log) → IsLog g → IsLog (advance_in_log g).0
advance-IsLog g (inl (n, h, count, last)) =
    rw (advance_filling g n h count last) (elim (room_cases) [
      | inl more ↦ inl (suc n, more, refl, refl)
      | inr full ↦ inr (n, h, ap pos (omega arith), refl)
    ])
  where
    room_cases : (suc n < 100) ⊎ (suc n ≡ 100)
    room_cases = ground arith
advance-IsLog g (inr (j, h, count, last)) =
    let (same, count', (i, below, last'), finished) = find_finished_keeps 100 g j h last in
    rw (advance_full g count) (inr (i, below, count' ∙ count, last'))

advance-IsSpared :
    (g : Log) (n i : ℕ)
    → IsLog g
    → g.nbr_events ≡ pos n
    → i < n
    → is_pending (g.event (pos i)) ≡ true
    → IsSpared g (advance_in_log g) i
advance-IsSpared g n i (inl (k, h, count, last)) used below pending =
    let same : pos k ≡ pos n = sym count ∙ used in
    rw (advance_filling g k h count last) (refl, inr (ground arith))
advance-IsSpared g n i (inr (j, h, count, last)) used below pending =
    let (same, count', place, finished) = find_finished_keeps 100 g j h last in
    let (g', found) = find_finished 100 g in
    rw (advance_full g count) (
      same (pos i),
      elim finished [
        | inl none ↦ inl none
        | inr over ↦ elim (Bool-cases ((find_finished 100 g).0.last_event ==ℤ pos i)) [
          | inr other ↦ inr other
          | inl here ↦
              let clash : true ≡ false =
                sym pending
                ∙ ap is_pending (sym (same (pos i)))
                ∙ ap (λ k. is_pending ((find_finished 100 g).0.event k))
                    (sym ((==ℤ_iff ((find_finished 100 g).0.last_event) (pos i)).0 here))
                ∙ over in
              absurd cc
        ]
      ],
    )

pub start_event-IsLog :
    (l : Logger) (now : ℕ) (config parameter : ℤ)
    → IsLog l.log
    → IsLog (start_event l now config parameter).log
start_event-IsLog l now config parameter h =
    rw (log-start_event l now config parameter) (elim (Bool-cases (advance_in_log (l.log)).1) [
      | inl found ↦ rw found (advance-IsLog (l.log) h)
      | inr none ↦ rw none (advance-IsLog (l.log) h)
    ])

pub pending_spared :
    (l : Logger) (now : ℕ) (config parameter : ℤ) (n i : ℕ)
    → IsLog l.log
    → l.log.nbr_events ≡ pos n
    → i < n
    → is_pending (l.log.event (pos i)) ≡ true
    → unmarked ((create_event_log l now config parameter true).log.event (pos i))
      ≡ unmarked (l.log.event (pos i))
unfolding create_event_log update
pending_spared l now config parameter n i h used below pending =
    let (same, missed) = advance-IsSpared (l.log) n i h used below pending in
    rw (log-start_event l now config parameter) (elim missed [
      | inl none ↦ rw none same
      | inr other ↦ elim (Bool-cases (advance_in_log (l.log)).1) [
        | inl found ↦ rw (found, other) same
        | inr none ↦ rw none same
      ]
    ])
