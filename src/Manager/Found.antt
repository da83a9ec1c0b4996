-- ===== src/Manager/Found.antt =====
-- What the searches of src/manager.c find.
use classicladder.Common.{
  ℤ, ℕ, zero, suc, pos, ◌+◌, ◌-◌, ◌<◌, ◌≡◌, ◌≢◌, refl, sym, ◌==ℤ◌, not, Bool, true, some,
  Bool-cases, inl, inr, arith, update, update_self, for_below_keeps, if◌then◌else◌, subst, ◌==◌,
  ==_iff,
}
use classicladder.State.{Section, Plc, nbr_sequential_pages}
use classicladder.Manager.Search.{
  find_from, find, is_chart, mark_page, page_used, find_free_sequential_page,
}

find_from_found :
    (test : ℕ → Bool) (rounds k j : ℕ)
    → find_from test rounds k ≡ some j
    → (test j ≡ true) × (j < k + rounds)
unfolding find_from
find_from_found test zero k j h = cc
find_from_found test (suc rounds) k j h = elim (Bool-cases (test k)) [
  | inl t ↦
      let e : k ≡ j = cc in subst (λ i. (test i ≡ true) × (i < k + suc rounds)) e (t, omega arith)
  | inr t ↦
      let later =
        find_from_found test rounds (suc k) j
          (subst (λ b. (if b then some k else find_from test rounds (suc k)) ≡ some j) t h) in
      (later.0, omega (arith, later.1))
]

pub find_found :
    (test : ℕ → Bool) (n j : ℕ) → 0 < n → find test n ≡ some j → (test j ≡ true) × (j < n)
unfolding find
find_found test n j some_round h =
    let found = find_from_found test (suc (n - 1)) 0 j h in (found.0, omega (arith, found.1))

-- what the marks say of the first `n` sections
abbrev Marked : (ℤ → Section) → ℕ → (ℤ → Bool) → Type 0
Marked f n marks =
    (i : ℕ) → i < n → is_chart (f (pos i)) ≡ true → marks (f (pos i)).sequential_page ≡ true

mark_page_self :
    (c : Section) (marks : ℤ → Bool)
    → is_chart c ≡ true
    → mark_page c marks c.sequential_page ≡ true
mark_page_self c marks h = rw h (update_self marks c.sequential_page true)

mark_page-keeps :
    (c : Section) (marks : ℤ → Bool) (k : ℤ) → marks k ≡ true → mark_page c marks k ≡ true
unfolding update
mark_page-keeps c marks k h = elim (Bool-cases (is_chart c)) [
  | inl e ↦
      rw e (elim (Bool-cases (c.sequential_page ==ℤ k)) [ inl q ↦ rw q refl | inr q ↦ rw q h ])
  | inr e ↦ rw e h
]

page_used-Marked : (s : Plc) → Marked s.section_array s.sizes.nbr_sections (page_used s)
unfolding page_used
page_used-Marked s =
    for_below_keeps (Marked s.section_array) (λ i below. absurd (omega arith))
      (λ k marks h i below chart. elim (Bool-cases (i == k)) [
        | inl e ↦
            let q : k ≡ i = sym ((==_iff i k).0 e) in
            subst
              (λ j.
                mark_page (s.section_array (pos j)) marks (s.section_array (pos i)).sequential_page
                ≡ true)
              (sym q) (mark_page_self (s.section_array (pos i)) marks chart)
        | inr e ↦
            mark_page-keeps (s.section_array (pos k)) marks
              (s.section_array (pos i)).sequential_page (h i (ground arith) chart)
      ])
      s.sizes.nbr_sections

-- The free page that is found is the page of no chart, and one of the pages there are.
pub free_page_found :
    (s : Plc) (page : ℕ)
    → find_free_sequential_page s ≡ some page
    → ((i : ℕ)
        → i < s.sizes.nbr_sections
        → is_chart (s.section_array (pos i)) ≡ true
        → (s.section_array (pos i)).sequential_page ≢ pos page)
      × (page < nbr_sequential_pages)
unfolding find_free_sequential_page
free_page_found s page h =
    let found =
      find_found (λ k. not (page_used s (pos k))) nbr_sequential_pages page (omega arith) h in
    (
      (λ i below chart same.
          let used : page_used s (pos page) ≡ true =
            subst (λ p. page_used s p ≡ true) same (page_used-Marked s i below chart) in
          cc),
      found.1,
    )

pub find_satisfies : (test : ℕ → Bool) (n j : ℕ) → find test n ≡ some j → test j ≡ true
unfolding find
find_satisfies test n j h = (find_from_found test (suc (n - 1)) 0 j h).0
