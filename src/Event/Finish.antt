-- ===== src/Event/Finish.antt =====
-- Which event an end belongs to (src/log_events.c, CreateEventLog).
use classicladder.Common.{
  ℤ, ℕ, zero, suc, pos, ◌-◌, ◌<◌, ◌≡◌, refl, ap, ◌∙◌, ◌⊎◌, inl, inr, Bool, true, false, Bool-cases,
  if◌then◌else◌, arith, ltb_ℤ, pos_part, Option, none, some,
}
use classicladder.Event.Types.{Event, Log, Logger, slot_before}
use classicladder.Event.Create.{
  put_event, finish_found, is_same_pending, find_back, rounds_of, end_event, create_event_log,
  forwarded,
}
use classicladder.Event.Keep.{log-set_transmit}

-- the slot that is `i` before another
abbrev pub back : ℤ → ℕ → ℤ
back k zero = k
back k (suc i) = back (slot_before k) i

-- the first of the `n` events from slot `k` back that `test` holds of
abbrev pub IsLatest : (Event → Bool) → Log → ℕ → ℤ → ℕ → Type 0
IsLatest test g n k j =
    (j < n)
    × (test (g.event (back k j)) ≡ true)
    × ((i : ℕ) → i < j → test (g.event (back k i)) ≡ false)

abbrev pub IsAbsent : (Event → Bool) → Log → ℕ → ℤ → Type 0
IsAbsent test g n k = (i : ℕ) → i < n → test (g.event (back k i)) ≡ false

abbrev FoundBack : (Event → Bool) → Log → ℕ → ℤ → Option ℤ → Type 0
FoundBack test g n k r =
    ((j : ℕ) × (r ≡ some (back k j)) × IsLatest test g n k j) ⊎ ((r ≡ none) × IsAbsent test g n k)

IsAbsent-next :
    (test : Event → Bool) (g : Log) (n : ℕ) (k : ℤ)
    → test (g.event k) ≡ false
    → IsAbsent test g n (slot_before k)
    → IsAbsent test g (suc n) k
IsAbsent-next test g n k here later zero h = here
IsAbsent-next test g n k here later (suc i) h = later i (omega arith)

find_back_lem :
    (test : Event → Bool) (g : Log) (n : ℕ) (k : ℤ) → FoundBack test g n k (find_back test g n k)
unfolding find_back
find_back_lem test g zero k = inr (refl, λ i h. absurd (omega arith))
find_back_lem test g (suc n) k = elim (Bool-cases (test (g.event k))) [
  | inl here ↦ rw here (inl (0, refl, (omega arith, here, λ i h. absurd (omega arith))))
  | inr other ↦ rw other (elim (find_back_lem test g n (slot_before k)) [
    | inl (j, e, (below, holds, earlier)) ↦
        inl (suc j, e, (omega arith, holds, IsAbsent-next test g j k other earlier))
    | inr (e, absent) ↦ inr (e, IsAbsent-next test g n k other absent)
  ])
]

-- an event that is finished, with the alarms of its setting
abbrev pub finished : Logger → ℕ → ℤ → Event → Event
finished l now config e =
    if l.remote_alarms_config.global_enabled
    then record e { end_time = now; end_transmit_alarms_flags = forwarded l config }
    else record e { end_time = now }

pub log-finish_found :
    (l : Logger) (now : ℕ) (config k : ℤ)
    → (finish_found l now config (some k)).log
      ≡ put_event (l.log) k (finished l now config (l.log.event k))
unfolding finish_found
log-finish_found l now config k = elim (Bool-cases l.remote_alarms_config.global_enabled) [
  | inl enabled ↦ rw enabled (log-set_transmit _ (forwarded l config))
  | inr quiet ↦ rw quiet refl
]

end_event_rounds :
    (l : Logger) (now : ℕ) (config parameter : ℤ) (n : ℕ)
    → l.log.nbr_events ≡ pos (suc n)
    → end_event l now config parameter
      ≡ finish_found l now config
          (find_back (is_same_pending config parameter) (l.log) (suc n) (l.log.last_event))
unfolding end_event
end_event_rounds l now config parameter n count =
    let some_events : ltb_ℤ (pos 0) (l.log.nbr_events) ≡ true =
      ap (ltb_ℤ (pos 0)) count ∙ ground arith in
    let rounds : rounds_of (l.log) ≡ suc n = ap (λ z. suc (pos_part z - 1)) count ∙ omega arith in
    rw some_events (
      ap
        (λ r.
          finish_found l now config
            (find_back (is_same_pending config parameter) (l.log) r (l.log.last_event)))
        rounds)

-- The end of an event finishes the latest event of the log, from the last one back, that has the same
-- setting and parameter and is not finished, and changes no other event; where there is none, the log
-- does not change. (The log is not empty.)
pub end_event_finishes :
    (l : Logger) (now : ℕ) (config parameter : ℤ) (n : ℕ)
    → l.log.nbr_events ≡ pos (suc n)
    → let same = is_same_pending config parameter in
      let last = l.log.last_event in
      let log' = (create_event_log l now config parameter false).log in
      ((j : ℕ) × IsLatest same l.log (suc n) last j
        × (log'
            ≡ put_event (l.log) (back last j) (finished l now config (l.log.event (back last j)))))
      ⊎ (IsAbsent same l.log (suc n) last × (log' ≡ l.log))
unfolding create_event_log finish_found
end_event_finishes l now config parameter n count =
    let rounds = ap (λ (m : Logger). m.log) (end_event_rounds l now config parameter n count) in
    elim (find_back_lem (is_same_pending config parameter) (l.log) (suc n) (l.log.last_event)) [
      | inl (j, e, latest) ↦ inl (
        j,
        latest,
        rounds
            ∙ ap (λ found. (finish_found l now config found).log) e
            ∙ log-finish_found l now config (back (l.log.last_event) j),
      )
      | inr (e, absent) ↦
          inr (absent, rounds ∙ ap (λ found. (finish_found l now config found).log) e)
    ]
