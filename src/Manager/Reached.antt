-- ===== src/Manager/Reached.antt =====
-- The programs that the operations of src/manager.c lead to.
use classicladder.Common.{
  ℤ, ℕ, zero, suc, pos, ◌<◌, ◌≡◌, ◌≢◌, refl, sym, ◌∙◌, true, false, some, String, Bool-cases, inl,
  inr, arith, update, for_below, subst, ◌==◌,
}
use classicladder.State.{Language, Section, Plc}
use classicladder.Scan.{no_section, init_sections}
use classicladder.Manager.Search.{is_chart}
use classicladder.Manager.Section.{
  Program, set_section_selected, add_section, modify_section_properties, del_section, swap_sections,
  put_section,
}
use classicladder.Manager.Own.{IsPaged}
use classicladder.Manager.Keep.{
  HasPages, HasPages-add_section, HasPages-modify, HasPages-swap, HasPages-select, HasPages-del,
}

-- The operations, on sections that there are, in any order; a deletion with any number of rounds in
-- which it ends.
pub data Reached (start : Program) : Program → Type 0 where
  here : Reached start start
  added :
      {p : Program}
      → Reached start p
      → (name : String) (language : Language) (number : ℤ)
      → Reached start (add_section p name language number).0
  renamed :
      {p : Program}
      → Reached start p
      → (k : ℕ) (name : String) → k < p.plc.sizes.nbr_sections
      → Reached start (modify_section_properties p (pos k) name)
  selected : {p : Program} → Reached start p → (k : ℤ) → Reached start (set_section_selected p k)
  swapped :
      {p : Program}
      → Reached start p
      → (a b : ℕ) → a < p.plc.sizes.nbr_sections
      → b < p.plc.sizes.nbr_sections
      → Reached start (swap_sections p (pos a) (pos b))
  deleted :
      {p q : Program}
      → Reached start p
      → (rounds k : ℕ) → del_section rounds p (pos k) ≡ some q
      → Reached start q

Reached-HasPages : {start p : Program} → Reached start p → HasPages start.plc → HasPages p.plc
Reached-HasPages here paged = paged
Reached-HasPages (added r name language number) paged =
    HasPages-add_section _ name language number (Reached-HasPages r paged)
Reached-HasPages (renamed r k name h) paged = HasPages-modify _ k name h (Reached-HasPages r paged)
Reached-HasPages (selected r k) paged = HasPages-select _ k (Reached-HasPages r paged)
Reached-HasPages (swapped r a b ha hb) paged = HasPages-swap _ a b ha hb (Reached-HasPages r paged)
Reached-HasPages (deleted r rounds k e) paged =
    HasPages-del rounds _ _ k (Reached-HasPages r paged) e

-- no section is a chart
abbrev NoCharts : ℕ → Plc → Type 0
NoCharts n s = (i : ℕ) → i < n → is_chart (s.section_array (pos i)) ≡ false

NoCharts-put :
    (n : ℕ) (s : Plc) (k : ℕ) (c : Section)
    → is_chart c ≡ false
    → ((i : ℕ) → i < n → i ≢ k → is_chart (s.section_array (pos i)) ≡ false)
    → NoCharts n (put_section s (pos k) c)
unfolding update
NoCharts-put n s k c h others i below = elim (Bool-cases (k == i)) [
  | inl e ↦ rw e h
  | inr e ↦ rw e (others i below (ground arith))
]

abbrev cleared_at : ℕ → Plc → Plc
cleared_at k s = record s { section_array = update s.section_array (pos k) no_section }

cleared-NoCharts : (n : ℕ) (s : Plc) → NoCharts n (for_below n cleared_at s)
unfolding for_below
cleared-NoCharts zero s = λ i below. absurd (omega arith)
cleared-NoCharts (suc n) s =
    NoCharts-put (suc n) (for_below n cleared_at s) n no_section refl
      (λ i below other. cleared-NoCharts n s i (omega arith))

cleared-sizes : (n : ℕ) (s : Plc) → (for_below n cleared_at s).sizes ≡ s.sizes
unfolding for_below
cleared-sizes zero s = refl
cleared-sizes (suc n) s = cleared-sizes n s

init_sections-NoCharts : (s : Plc) → NoCharts s.sizes.nbr_sections (init_sections s)
unfolding init_sections
init_sections-NoCharts s =
    let n = s.sizes.nbr_sections in
    NoCharts-put n (for_below n cleared_at s) 0 (record no_section { used = true; name = "Prog1" })
      refl (λ i below other. cleared-NoCharts n s i below)

init_sections-sizes : (s : Plc) → (init_sections s).sizes ≡ s.sizes
unfolding init_sections
init_sections-sizes s = cleared-sizes s.sizes.nbr_sections s

true_apart : true ≢ false
true_apart h = cc

NoCharts-IsPaged : (n : ℕ) (s : Plc) → NoCharts n s → IsPaged n s.section_array
NoCharts-IsPaged n s ladders = record {
  own = λ i j hi hj ci cj same. absurd (true_apart (sym ci ∙ ladders i hi));
  in_range = λ i hi ci. absurd (true_apart (sym ci ∙ ladders i hi));
}

-- In every program that starts with InitSections and is edited by adding, renaming, selecting, swapping
-- and deleting sections, each chart is on a page that there is, and no two charts are on the same page.
pub init_sections-Reached-HasPages :
    (p q : Program) (s : Plc) → Reached (record p { plc = init_sections s }) q → HasPages q.plc
init_sections-Reached-HasPages p q s r = Reached-HasPages r (
    subst (λ z. IsPaged z.nbr_sections (init_sections s).section_array)
      (sym (init_sections-sizes s))
      (NoCharts-IsPaged s.sizes.nbr_sections (init_sections s) (init_sections-NoCharts s)))
