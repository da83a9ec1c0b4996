-- ===== src/Rung/SubRoutine.antt =====
-- The search of a sub-routine by its number (SearchSubRoutineWithItsNumber, src/manager.c).
use classicladder.Common.{
  ℤ, ℕ, zero, suc, pos, negsuc, ◌+◌, ◌-◌, ◌≤◌, ◌<◌, ◌≡◌, ◌⊎◌, inl, inr, refl, ◌==◌, ==_iff, Bool,
  true, false, Bool-cases, ◌==ℤ◌, ◌&&◌, arith,
}
use classicladder.State.{Section, Plc}
use classicladder.Rung.Contact.{search_sub_routine_from, search_sub_routine_with_its_number}

-- section `j` is in use, with the number
abbrev pub is_sub_routine : (ℤ → Section) → ℤ → ℕ → Bool
is_sub_routine sections number j =
    (sections (pos j)).used && ((sections (pos j)).sub_routine_number ==ℤ number)

-- no section from `k` on and below `n` is in use, with the number
abbrev pub HasNone : (ℤ → Section) → ℤ → ℕ → ℕ → Type 0
HasNone sections number k n = (j : ℕ) → k ≤ j → j < n → is_sub_routine sections number j ≡ false

-- `found` is the first such section from `k` on and below `n`, or -1 where there is none
abbrev pub IsSearchResult : (ℤ → Section) → ℤ → ℕ → ℕ → ℤ → Type 0
IsSearchResult sections number k n found =
    ((found ≡ negsuc 0) × HasNone sections number k n)
    ⊎ ((j : ℕ) × (found ≡ pos j)
        × (j < n)
        × (is_sub_routine sections number j ≡ true)
        × HasNone sections number k j)

HasNone-extended :
    (sections : ℤ → Section) (number : ℤ) (k n : ℕ)
    → is_sub_routine sections number k ≡ false
    → HasNone sections number (suc k) n
    → HasNone sections number k n
HasNone-extended sections number k n first others j a b = elim (Bool-cases (j == k)) [
  | inl e ↦ rw ((==_iff j k).0 e) first
  | inr e ↦ others j (ground arith) b
]

search-IsSearchResult :
    (sections : ℤ → Section) (number : ℤ) (rounds k n : ℕ)
    → k + rounds ≡ n
    → IsSearchResult sections number k n (search_sub_routine_from sections number rounds k)
unfolding search_sub_routine_from
search-IsSearchResult sections number zero k n e = inl (refl, λ j a b. absurd (omega arith))
search-IsSearchResult sections number (suc rounds) k n e =
    elim (Bool-cases (is_sub_routine sections number k)) [
      | inl q ↦ rw q (inr (k, refl, omega arith, q, λ j a b. absurd (omega arith)))
      | inr q ↦ rw q (elim (search-IsSearchResult sections number rounds (suc k) n (omega arith)) [
        | inl (absent, others) ↦ inl (absent, HasNone-extended sections number k n q others)
        | inr (j, found, below, is, others) ↦
            inr (j, found, below, is, HasNone-extended sections number k j q others)
      ])
    ]

-- The search gives the first section in use that has the number, and -1 where no section has it.
-- (There is a section at least.)
pub search_sub_routine-IsSearchResult :
    (s : Plc) (number : ℤ)
    → 0 < s.sizes.nbr_sections
    → IsSearchResult s.section_array number 0 s.sizes.nbr_sections
        (search_sub_routine_with_its_number s number)
unfolding search_sub_routine_with_its_number
search_sub_routine-IsSearchResult s number some_section =
    search-IsSearchResult s.section_array number (suc (s.sizes.nbr_sections - 1)) 0
      s.sizes.nbr_sections (omega arith)
