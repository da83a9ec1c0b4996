-- ===== src/Master/Chosen.antt =====
-- Which request is asked next (src/protocol_modbus_master.c, FindNextReqFromTable).
use classicladder.Common.{
  ℤ, ℕ, zero, suc, pos, negsuc, ◌+◌, ◌%◌, ◌<◌, ◌≤ℤ◌, ◌+ℤ◌, ◌==ℤ◌, ◌≡◌, refl, sym, ap, ◌∙◌, ◌⊎◌, inl,
  inr, if◌then◌else◌, Bool, true, false, arith, Bool-cases, subst, not, ◌&&◌,
}
use classicladder.Master.Config.{Master}
use classicladder.Master.Next.{
  no_req, slave_in_req, is_asked, is_accepted_req, next_req, search_req, find_next_req_from_table,
}

-- the table in the order of the search, from number `c` on
abbrev pub at : ℕ → ℕ → ℤ
at c i = pos ((c + i) % 20)

-- `P` holds of none of the first `n` requests of that order
abbrev pub IsNone : (ℤ → Bool) → ℕ → ℕ → Type 0
IsNone P c n = (i : ℕ) → i < n → P (at c i) ≡ false

-- `r` is the first of these that `P` holds of
abbrev pub IsFirst : (ℤ → Bool) → ℕ → ℕ → ℤ → Type 0
IsFirst P c n r = (j : ℕ) × (j < n) × (r ≡ at c j) × (P r ≡ true) × IsNone P c j

next_req-at : (c v : ℕ) → next_req (at c v) ≡ at c (suc v)
unfolding ◌+ℤ◌
next_req-at c v = ground arith

IsNone-next : (P : ℤ → Bool) (c n : ℕ) → IsNone P c n → P (at c n) ≡ false → IsNone P c (suc n)
IsNone-next P c n earlier last i h = elim (i_cases) [
  | inl below ↦ earlier i below
  | inr same ↦ subst (λ k. P (at c k) ≡ false) (sym same) last
]
  where
    i_cases : (i < n) ⊎ (i ≡ n)
    i_cases = ground arith

-- the 21st round is the first one again
IsFirst-round : (P : ℤ → Bool) (c : ℕ) (r : ℤ) → IsFirst P c 21 r → IsFirst P c 20 r
IsFirst-round P c r (j, below, e, holds, none) = elim (j_cases) [
  | inl small ↦ (j, small, e, holds, none)
  | inr last ↦
      let same : r ≡ at c 0 = e ∙ ap pos (omega arith) in
      let clash : false ≡ true = sym (none 0 (omega arith)) ∙ ap P (sym same) ∙ holds in absurd cc
]
  where
    j_cases : (j < 20) ⊎ (j ≡ 20)
    j_cases = ground arith

module _ (m : Master) (another : Bool) (start : ℤ) (c : ℕ) where
  abbrev accepted : ℤ → Bool
  accepted = is_accepted_req m another start

  -- FirstReqFound after `v` rounds
  abbrev Remembers : ℕ → ℤ → Type 0
  Remembers v first = ((first ≡ no_req) × IsNone (is_asked m) c v) ⊎ IsFirst (is_asked m) c v first

  -- what is chosen after `n` rounds
  abbrev pub IsChosen : ℕ → ℤ → Type 0
  IsChosen n r =
      IsFirst accepted c n r
      ⊎ (IsNone accepted c n × IsFirst (is_asked m) c n r)
      ⊎ (IsNone (is_asked m) c n × (r ≡ no_req))

  remember :
      (v : ℕ) (first : ℤ)
      → Remembers v first
      → Remembers (suc v) (if is_asked m (at c v) && (first ==ℤ no_req) then at c v else first)
  remember v first (inl (e, none)) = elim (Bool-cases (is_asked m (at c v))) [
    | inl used ↦ rw (used, e) (inr (v, omega arith, refl, used, none))
    | inr unused ↦ rw unused (inl (e, IsNone-next (is_asked m) c v none unused))
  ]
  remember v first (inr (j, below, e, holds, none)) =
      let other : (first ==ℤ no_req) ≡ false = rw e refl in
      rw other (elim (Bool-cases (is_asked m (at c v))) [
        | inl used ↦ rw used (inr (j, omega arith, e, holds, none))
        | inr unused ↦ rw unused (inr (j, omega arith, e, holds, none))
      ])

  asked_of_accepted : (k : ℤ) → another ≡ false → is_accepted_req m another start k ≡ is_asked m k
  asked_of_accepted k e =
      rw e
        (elim (Bool-cases (is_asked m k)) [ inl used ↦ rw used refl | inr unused ↦ rw unused refl ])

  exhausted :
      (v : ℕ) (first : ℤ)
      → IsNone accepted c v
      → Remembers v first
      → IsChosen v (if another && not (first ==ℤ no_req) then first else no_req)
  exhausted v first none (inl (e, unused)) = rw e (elim (Bool-cases another) [
    | inl other ↦ rw other (inr (inr (unused, refl)))
    | inr any ↦ rw any (inr (inr (unused, refl)))
  ])
  exhausted v first none (inr (j, below, e, holds, before)) = elim (Bool-cases another) [
    | inl other ↦
        let defined : (another && not (first ==ℤ no_req)) ≡ true =
          ap (λ b. b && not (first ==ℤ no_req)) other ∙ ap (λ k. not (k ==ℤ no_req)) e in
        rw defined (inr (inl (none, (j, below, e, holds, before))))
    | inr any ↦
        let clash : false ≡ true =
          sym (none j below) ∙ asked_of_accepted (at c j) any ∙ ap (is_asked m) (sym e) ∙ holds in
        absurd cc
  ]

  search_keeps :
      (n v : ℕ) (k first : ℤ)
      → next_req k ≡ at c v
      → IsNone accepted c v
      → Remembers v first
      → IsChosen (v + n) (search_req m another start n k first)
  unfolding search_req
  search_keeps zero v k first e none remembers =
      subst (λ n. IsChosen n (search_req m another start zero k first)) (omega arith)
        (exhausted v first none remembers)
  search_keeps (suc n) v k first e none remembers = rw e (elim (Bool-cases (accepted (at c v))) [
    | inl found ↦ rw found (inl (v, omega arith, refl, found, none))
    | inr passed ↦ rw passed (
        subst
          (λ total. IsChosen total (
            search_req m another start n (at c v)
              (if is_asked m (at c v) && (first ==ℤ no_req) then at c v else first)))
          (omega arith)
          (search_keeps n (suc v) (at c v) _ (next_req-at c v)
            (IsNone-next accepted c v none passed) (remember v first remembers)))
  ])

IsNone-below : (P : ℤ → Bool) (c : ℕ) → IsNone P c 21 → IsNone P c 20
IsNone-below P c none i h = none i (omega arith)

-- where the search starts
abbrev pub start_of : ℤ → ℕ
start_of (pos k) = k + 1
start_of (negsuc k) = 0

next_req-start_of : (k : ℤ) → negsuc 0 ≤ℤ k → k ≤ℤ pos 19 → next_req k ≡ at (start_of k) 0
unfolding ◌+ℤ◌
next_req-start_of (pos k) lo hi = ground arith
next_req-start_of (negsuc k) lo hi = ground arith

-- From a request of the table, or from none (-1), the request that is asked next is the first one
-- after it, in the order of the table and around its end, whose slave is defined and, when another
-- slave is wanted, is not the slave of the request before; when there is none, the first one
-- whose slave is defined, and when there is none, -1. The search ends with one of these three.
pub find_next_req_from_table_lem :
    (m : Master) (another : Bool)
    → negsuc 0 ≤ℤ m.current_req
    → m.current_req ≤ℤ pos 19
    → IsChosen m another
        (slave_in_req m (m.current_req))
        (start_of (m.current_req))
        20
        (find_next_req_from_table m another).current_req
unfolding find_next_req_from_table
find_next_req_from_table_lem m another lo hi =
    let k = m.current_req in
    let start = slave_in_req m k in
    let c = start_of k in
    elim (search_keeps m another start c 21 0 k no_req (next_req-start_of k lo hi)
      (λ i h. absurd (omega arith)) (inl (refl, λ i h. absurd (omega arith)))) [
        | inl found ↦ inl (IsFirst-round (accepted m another start c) c _ found)
        | inr (inl (none, first)) ↦ inr (
            inl (
              IsNone-below (accepted m another start c) c none,
              IsFirst-round (is_asked m) c _ first,
            ))
        | inr (inr (none, e)) ↦ inr (inr (IsNone-below (is_asked m) c none, e))
      ]
