-- ===== src/Event/Defaults.antt =====
-- The list of the current defaults (src/log_events.c, FindCurrentDefaults).
use classicladder.Common.{
  ℤ, ℕ, zero, suc, pos, ◌+◌, ◌<◌, ◌≡◌, refl, sym, ap, subst, ◌∙◌, Bool, true, false, Bool-cases,
  inl, inr, ◌⊎◌, if◌then◌else◌, ltb, ltb_ℤ, List, [], ◌∷◌, length, Option, none, some, update_self,
  update_ne, arith, to_uchar, pos_part, ◌==ℤ◌,
}
use classicladder.Event.Types.{Event, Log, Logger, slot_before}
use classicladder.Event.Create.{rounds_of}
use classicladder.Event.Pending.{is_default, put_default, list_defaults, find_current_defaults}

-- the events that `test` holds of, among the `n` from slot `k` back
unfoldable pub selected : (Event → Bool) → Log → ℕ → ℤ → List Event
selected test g zero k = []
selected test g (suc n) k =
    let rest = selected test g n (slot_before k) in
    if test (g.event k) then g.event k ∷ rest else rest

selected_here :
    (test : Event → Bool) (g : Log) (n : ℕ) (k : ℤ)
    → test (g.event k) ≡ true
    → selected test g (suc n) k ≡ g.event k ∷ selected test g n (slot_before k)
unfolding selected
selected_here test g n k here = rw here refl

selected_other :
    (test : Event → Bool) (g : Log) (n : ℕ) (k : ℤ)
    → test (g.event k) ≡ false
    → selected test g (suc n) k ≡ selected test g n (slot_before k)
unfolding selected
selected_other test g n k other = rw other refl

-- the member at a place of a list
abbrev pub member_at : List Event → ℕ → Option Event
member_at [] i = none
member_at (e ∷ rest) zero = some e
member_at (e ∷ rest) (suc i) = member_at rest i

no_member : (i : ℕ) (e : Event) → ¬ (none ≡ some e)
no_member i e h = cc

member_cases :
    (x : Event) (xs : List Event) (i : ℕ) (e : Event)
    → member_at (x ∷ xs) i ≡ some e
    → ((i ≡ 0) × (x ≡ e)) ⊎ ((j : ℕ) × (i ≡ suc j) × (member_at xs j ≡ some e))
member_cases x xs zero e h = inl (refl, cc)
member_cases x xs (suc j) e h = inr (j, refl, h)

behind_cases :
    (x : Event) (xs : List Event) (i : ℕ)
    → member_at (x ∷ xs) i ≡ none
    → (j : ℕ) × (i ≡ suc j) × (member_at xs j ≡ none)
behind_cases x xs zero h = cc
behind_cases x xs (suc j) h = (j, refl, h)

abbrev pub at_most : ℕ → ℕ → ℕ
at_most m n = if ltb n m then n else m

-- what stands at a place of the list of the defaults
abbrev pub IsListed : Logger → ℕ → Event → Type 0
IsListed l i e =
    (l.list_current_def_type (pos i) ≡ to_uchar (e.config_array_num))
    × (l.list_current_def_param (pos i) ≡ e.parameter)

-- place `i` of the two lists holds in `l'` what it holds in `l`
abbrev pub IsKept : Logger → Logger → ℕ → Type 0
IsKept l l' i =
    (l'.list_current_def_type (pos i) ≡ l.list_current_def_type (pos i))
    × (l'.list_current_def_param (pos i) ≡ l.list_current_def_param (pos i))

-- place `i` holds the event in `l'`, and is as in `l` where there is no event for it
abbrev pub IsEntry : Logger → Logger → ℕ → Option Event → Type 0
IsEntry l l' i none = IsKept l l' i
IsEntry l l' i (some e) = IsListed l' i e

put_default_self : (l : Logger) (n : ℕ) (e : Event) → IsListed (put_default l n e) n e
put_default_self l n e = (
  update_self (l.list_current_def_type) (pos n) (to_uchar (e.config_array_num)),
  update_self (l.list_current_def_param) (pos n) (e.parameter),
)

put_default_other :
    (l : Logger) (n i : ℕ) (e d : Event) → i < n → IsListed l i d → IsListed (put_default l n e) i d
put_default_other l n i e d below (type, parameter) =
    let other : (pos n ==ℤ pos i) ≡ false = ground arith in
    (
      update_ne (l.list_current_def_type) (pos n) (pos i) _ other ∙ type,
      update_ne (l.list_current_def_param) (pos n) (pos i) _ other ∙ parameter,
    )

IsKept-put_default : (l : Logger) (n i : ℕ) (e : Event) → n < i → IsKept l (put_default l n e) i
IsKept-put_default l n i e below =
    let other : (pos n ==ℤ pos i) ≡ false = ground arith in
    (
      update_ne (l.list_current_def_type) (pos n) (pos i) _ other,
      update_ne (l.list_current_def_param) (pos n) (pos i) _ other,
    )

module _ (g : Log) where
  -- what stands in the list already stays there
  IsListed-below :
      (r : ℕ) (k : ℤ) (l : Logger) (n i : ℕ) (d : Event)
      → i < n
      → IsListed l i d
      → IsListed (list_defaults g r k l n).0 i d
  unfolding list_defaults
  IsListed-below zero k l n i d below listed = listed
  IsListed-below (suc r) k l n i d below listed =
      elim (Bool-cases (is_default (l.config_event_log) (g.event k))) [
        | inl default ↦ rw default (elim (Bool-cases (ltb (suc n) 30)) [
          | inl room ↦ rw room (
              IsListed-below r (slot_before k) _ (suc n) i d (omega arith)
                (put_default_other l n i (g.event k) d below listed))
          | inr full ↦ rw full (put_default_other l n i (g.event k) d below listed)
        ])
        | inr other ↦ rw other (elim (Bool-cases (ltb n 30)) [
          | inl room ↦ rw room (IsListed-below r (slot_before k) l n i d below listed)
          | inr full ↦ rw full listed
        ])
      ]

  count_listed :
      (r : ℕ) (k : ℤ) (l : Logger) (n : ℕ)
      → n < 30
      → (list_defaults g r k l n).1
        ≡ at_most 30 (n + length (selected (is_default (l.config_event_log)) g r k))
  unfolding list_defaults selected
  count_listed zero k l n h = ground arith
  count_listed (suc r) k l n h =
      let rest = length (selected (is_default (l.config_event_log)) g r (slot_before k)) in
      let step : suc n + rest ≡ n + suc rest = omega arith in
      elim (Bool-cases (is_default (l.config_event_log) (g.event k))) [
        | inl default ↦ rw default (elim (Bool-cases (ltb (suc n) 30)) [
          | inl room ↦ rw room (
              count_listed r (slot_before k) (put_default l n (g.event k)) (suc n) (ground arith)
              ∙ ap (at_most 30) step)
          | inr full ↦ rw full (ground arith)
        ])
        | inr other ↦
            let room : ltb n 30 ≡ true = ground arith in
            rw (other, room) (count_listed r (slot_before k) l n h)
      ]

  list_found :
      (r : ℕ) (k : ℤ) (l : Logger) (n i : ℕ) (e : Event)
      → n < 30
      → is_default (l.config_event_log) (g.event k) ≡ true
      → IsListed (put_default l n (g.event k)) i e
      → i < suc n
      → IsListed (list_defaults g (suc r) k l n).0 i e
  unfolding list_defaults
  list_found r k l n i e h default listed below = rw default (elim (Bool-cases (ltb (suc n) 30)) [
    | inl room ↦
        rw room
          (IsListed-below r (slot_before k) (put_default l n (g.event k)) (suc n) i e below listed)
    | inr full ↦ rw full listed
  ])

  listed :
      (r : ℕ) (k : ℤ) (l : Logger) (n i : ℕ) (e : Event)
      → n + i < 30
      → member_at (selected (is_default (l.config_event_log)) g r k) i ≡ some e
      → IsListed (list_defaults g r k l n).0 (n + i) e
  unfolding list_defaults selected
  listed zero k l n i e h member = absurd (no_member i e member)
  listed (suc r) k l n i e h member =
      let test = is_default (l.config_event_log) in
      elim (Bool-cases (test (g.event k))) [
        | inr other ↦
            let room : ltb n 30 ≡ true = ground arith in
            let later = ap (λ s. member_at s i) (sym (selected_other test g r k other)) ∙ member in
            rw (other, room) (listed r (slot_before k) l n i e h later)
        | inl default ↦
            let here = ap (λ s. member_at s i) (sym (selected_here test g r k default)) ∙ member in
            elim (member_cases (g.event k) (selected test g r (slot_before k)) i e here) [
              | inl (first, same) ↦
                  let place : n ≡ n + i = omega (arith, first) in
                  subst (λ p. IsListed (list_defaults g (suc r) k l n).0 p e) place
                    (list_found r k l n n e (omega arith) default
                      (subst (IsListed (put_default l n (g.event k)) n) same
                        (put_default_self l n (g.event k)))
                      (omega arith))
              | inr (j, next, later) ↦
                  let place : suc n + j ≡ n + i = omega (arith, next) in
                  let room : ltb (suc n) 30 ≡ true = ground arith in
                  subst (λ p. IsListed (list_defaults g (suc r) k l n).0 p e) place
                    (rw (default, room)
                      (listed r (slot_before k) (put_default l n (g.event k)) (suc n) j e
                        (omega arith) later))
            ]
      ]

  -- a place behind the defaults that are found keeps what stood there
  unlisted :
      (r : ℕ) (k : ℤ) (l : Logger) (n i : ℕ)
      → member_at (selected (is_default (l.config_event_log)) g r k) i ≡ none
      → IsKept l (list_defaults g r k l n).0 (n + i)
  unfolding list_defaults selected
  unlisted zero k l n i behind = (refl, refl)
  unlisted (suc r) k l n i behind =
      let test = is_default (l.config_event_log) in
      elim (Bool-cases (test (g.event k))) [
        | inr other ↦
            let later = ap (λ s. member_at s i) (sym (selected_other test g r k other)) ∙ behind in
            rw other (elim (Bool-cases (ltb n 30)) [
              | inl room ↦ rw room (unlisted r (slot_before k) l n i later)
              | inr full ↦ rw full (refl, refl)
            ])
        | inl default ↦
            let here = ap (λ s. member_at s i) (sym (selected_here test g r k default)) ∙ behind in
            let (j, next, later) =
              behind_cases (g.event k) (selected test g r (slot_before k)) i here in
            let kept = IsKept-put_default l n (n + i) (g.event k) (omega (arith, next)) in
            rw default (elim (Bool-cases (ltb (suc n) 30)) [
              | inl room ↦
                  let place : suc n + j ≡ n + i = omega (arith, next) in
                  let rest =
                    unlisted r (slot_before k) (put_default l n (g.event k)) (suc n) j later in
                  let there =
                    subst
                      (IsKept (put_default l n (g.event k))
                        (list_defaults g r (slot_before k) (put_default l n (g.event k)) (suc n)).0)
                      place rest in
                  rw room (there.0 ∙ kept.0, there.1 ∙ kept.1)
              | inr full ↦ rw full kept
            ])
      ]

  entry :
      (r : ℕ) (k : ℤ) (l : Logger) (n i : ℕ) (m : Option Event)
      → n + i < 30
      → member_at (selected (is_default (l.config_event_log)) g r k) i ≡ m
      → IsEntry l (list_defaults g r k l n).0 (n + i) m
  entry r k l n i none h member = unlisted r k l n i member
  entry r k l n i (some e) h member = listed r k l n i e h member

-- The rounds that the loop makes: none for an empty log.
defaults_rounds :
    (l : Logger)
    → find_current_defaults l
      ≡ list_defaults l.log (pos_part (l.log.nbr_events)) (l.log.last_event) l 0
unfolding find_current_defaults list_defaults
defaults_rounds l = elim (Bool-cases (ltb_ℤ (pos 0) (l.log.nbr_events))) [
  | inl some_events ↦
      let rounds : rounds_of (l.log) ≡ pos_part (l.log.nbr_events) = ground arith in
      rw some_events (ap (λ n. list_defaults l.log n (l.log.last_event) l 0) rounds)
  | inr empty ↦
      let rounds : pos_part (l.log.nbr_events) ≡ 0 = ground arith in
      rw empty (ap (λ n. list_defaults l.log n (l.log.last_event) l 0) (sym rounds))
]

-- The defaults of a log, from its last event back.
abbrev pub defaults : Logger → List Event
defaults l =
    selected (is_default (l.config_event_log)) l.log (pos_part (l.log.nbr_events))
      (l.log.last_event)

-- The defaults that are found are the unfinished events whose setting has a level above 0, from the last
-- event of the log back, the first 30 of them: so many are counted, none for a log that is empty or has no default,
-- each of them stands at its place of the two lists, and the places behind them stay as they were.
pub find_current_defaults_lem :
    (l : Logger) (i : ℕ)
    → i < 30
    → let (l', found) = find_current_defaults l in
      (found ≡ at_most 30 (length (defaults l))) × IsEntry l l' i (member_at (defaults l) i)
find_current_defaults_lem l i below =
    let n = pos_part (l.log.nbr_events) in
    let all : 0 + length (defaults l) ≡ length (defaults l) = omega arith in
    let place : 0 + i ≡ i = omega arith in
    rw (defaults_rounds l) (
      count_listed l.log n (l.log.last_event) l 0 (omega arith) ∙ ap (at_most 30) all,
      subst
          (λ p.
            IsEntry l (list_defaults l.log n (l.log.last_event) l 0).0 p (member_at (defaults l) i))
          place (entry l.log n (l.log.last_event) l 0 i _ (omega arith) refl),
    )
