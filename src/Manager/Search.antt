-- ===== src/Manager/Search.antt =====
-- The searches of src/manager.c and FindFreeRung of src/edit.c.
use classicladder.Common.{
  ℤ, ℕ, zero, suc, pos, negsuc, ◌-◌, ◌==ℤ◌, not, ◌&&◌, Bool, true, false, Option, none, some,
  String, update, for_below, if◌then◌else◌,
}
use classicladder.State.{Language, Section, Plc, nbr_sequential_pages}
use classicladder.Rung.{search_sub_routine_with_its_number}
use classicladder.Arithm.{codes, same_text}

-- `do { if found, stop; else k++ } while( k<n && !Found )`; the first number counts the rounds left
unfoldable pub find_from : (ℕ → Bool) → ℕ → ℕ → Option ℕ
find_from test zero k = none
find_from test (suc rounds) k =
    let rest = find_from test rounds (suc k) in if test k then some k else rest

-- at least one round
unfoldable pub find : (ℕ → Bool) → ℕ → Option ℕ
unfolding find_from
find test n = find_from test (suc (n - 1)) 0

abbrev pub number_or_none : Option ℕ → ℤ
number_or_none none = negsuc 0
number_or_none (some k) = pos k

abbrev pub section : Plc → ℕ → Section
section s k = s.section_array (pos k)

-- strcmp
abbrev pub same_name : String → String → Bool
same_name a b = same_text (codes a) (codes b)

unfoldable pub search_section_with_name : Plc → String → ℤ
unfolding find
search_section_with_name s name =
    number_or_none
      (find (λ k. (section s k).used && same_name (section s k).name name) s.sizes.nbr_sections)

unfoldable pub verify_if_section_name_already_exist : Plc → String → Bool
unfolding search_section_with_name
verify_if_section_name_already_exist s name =
    if same_name name "" then true else not (search_section_with_name s name ==ℤ negsuc 0)

-- FindFreeRung (src/edit.c)
unfoldable pub find_free_rung : Plc → Option ℕ
unfolding find
find_free_rung s = find (λ k. not (s.rung_array (pos k)).used) s.sizes.nbr_rungs

abbrev pub is_sequential : Language → Bool
is_sequential Language.in_ladder = false
is_sequential Language.in_sequential = true

abbrev pub is_chart : Section → Bool
is_chart c = c.used && is_sequential c.language

abbrev pub mark_page : Section → (ℤ → Bool) → ℤ → Bool
mark_page c marks = if is_chart c then update marks c.sequential_page true else marks

-- PageUsed
unfoldable pub page_used : Plc → ℤ → Bool
unfolding for_below
page_used s =
    for_below s.sizes.nbr_sections (λ k (marks : ℤ → Bool). mark_page (section s k) marks)
      (λ i. false)

unfoldable pub find_free_sequential_page : Plc → Option ℕ
unfolding find page_used
find_free_sequential_page s = find (λ k. not (page_used s (pos k))) nbr_sequential_pages

unfoldable pub nbr_sections_defined : Plc → ℕ
unfolding for_below
nbr_sections_defined s =
    for_below s.sizes.nbr_sections (λ k count. if (section s k).used then suc count else count) 0

unfoldable pub verify_if_sub_routine_number_exist : Plc → ℤ → Bool
unfolding search_sub_routine_with_its_number
verify_if_sub_routine_number_exist s number =
    not (search_sub_routine_with_its_number s number ==ℤ negsuc 0)
