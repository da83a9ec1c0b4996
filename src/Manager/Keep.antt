-- ===== src/Manager/Keep.antt =====
-- The operations on sections keep the charts on pages of their own (src/manager.c).
use classicladder.Common.{
  ℤ, ℕ, zero, suc, pos, negsuc, ◌<◌, ◌≡◌, refl, sym, ap, ◌∙◌, ◌==ℤ◌, not, Bool, true, false, Option,
  none, some, String, for_below, if◌then◌else◌, subst,
}
use classicladder.State.{Language, Section, Plc, nbr_steps, nbr_transitions, nbr_seq_comments}
use classicladder.Scan.{put_rung}
use classicladder.Manager.Search.{
  section, is_chart, is_sequential, find, find_free_rung, find_free_sequential_page,
}
use classicladder.Manager.Section.{
  Program, put_section, modified, set_section_selected, init_seq_elements_of_page, free_step_at,
  free_transition_at, free_comment_at, named_section, add_ladder, add_chart, add_at, add_section,
  modify_section_properties, free_rungs, deleted, del_section, swap_sections,
}
use classicladder.Manager.Found.{find_satisfies, free_page_found}
use classicladder.Manager.Own.{IsPaged, update-IsPaged, Fits-no_chart, swap-IsPaged}

abbrev pub HasPages : Plc → Type 0
HasPages s = IsPaged s.sizes.nbr_sections s.section_array

abbrev pub SameSections : Plc → Plc → Type 0
SameSections s u = (u.section_array ≡ s.section_array) × (u.sizes ≡ s.sizes)

HasPages-same : (s u : Plc) → SameSections s u → HasPages s → HasPages u
HasPages-same s u same paged =
    subst (λ z. IsPaged z.nbr_sections u.section_array) (sym same.1)
      (subst (IsPaged s.sizes.nbr_sections) (sym same.0) paged)

for_below-SameSections :
    (body : ℕ → Plc → Plc) (n : ℕ) (s : Plc)
    → ((k : ℕ) (u : Plc) → SameSections u (body k u))
    → SameSections s (for_below n body s)
unfolding for_below
for_below-SameSections body zero s h = (refl, refl)
for_below-SameSections body (suc n) s h =
    let u = for_below n body s in
    let before = for_below-SameSections body n s h in ((h n u).0 ∙ before.0, (h n u).1 ∙ before.1)

init_seq_elements_of_page_lem :
    (s : Plc) (page : ℤ) → SameSections s (init_seq_elements_of_page s page)
unfolding init_seq_elements_of_page
init_seq_elements_of_page_lem s page =
    let a = for_below nbr_steps (free_step_at page) s in
    let b = for_below nbr_transitions (free_transition_at page) a in
    let one = for_below-SameSections (free_step_at page) nbr_steps s (λ k u. (refl, refl)) in
    let two =
      for_below-SameSections (free_transition_at page) nbr_transitions a (λ k u. (refl, refl)) in
    let three =
      for_below-SameSections (free_comment_at page) nbr_seq_comments b (λ k u. (refl, refl)) in
    (three.0 ∙ two.0 ∙ one.0, three.1 ∙ two.1 ∙ one.1)

HasPages-put :
    (s : Plc) (k : ℕ) (c : Section)
    → HasPages s
    → is_chart c ≡ false
    → HasPages (put_section s (pos k) c)
HasPages-put s k c paged h =
    update-IsPaged s.sizes.nbr_sections s.section_array k c paged
      (Fits-no_chart s.sizes.nbr_sections s.section_array k c h)

HasPages-add_chart :
    (s : Plc) (k : ℕ) (c : Section) (free : Option ℕ)
    → HasPages s
    → is_chart c ≡ false
    → find_free_sequential_page s ≡ free
    → HasPages (add_chart s k c free).0
unfolding add_chart
HasPages-add_chart s k c none paged h e = HasPages-put s k c paged h
HasPages-add_chart s k c (some page) paged h e =
    let c' : Section = record c { used = true; sequential_page = pos page } in
    let found = free_page_found s page e in
    HasPages-same (put_section s (pos k) c')
      (init_seq_elements_of_page (put_section s (pos k) c') (pos page))
      (init_seq_elements_of_page_lem (put_section s (pos k) c') (pos page))
      (update-IsPaged s.sizes.nbr_sections s.section_array k c' paged (record {
        apart = λ chart j below jk other. found.0 j below other;
        on_page = λ chart. (page, refl, found.1);
      }))

HasPages-add_ladder :
    (s : Plc) (k : ℕ) (c : Section) (number : ℤ) (free : Option ℕ)
    → HasPages s
    → c.used ≡ false
    → c.language ≡ Language.in_ladder
    → HasPages (add_ladder s k c number free).0
unfolding add_ladder
HasPages-add_ladder s k c number none paged h e =
    HasPages-put s k (record c { sub_routine_number = number }) paged (rw h refl)
HasPages-add_ladder s k c number (some r) paged h e =
    HasPages-put s k
      (record c { sub_routine_number = number; used = true; first_rung = pos r; last_rung = pos r })
      paged (rw e refl)

HasPages-add_at :
    (s : Plc) (k : ℕ) (name : String) (language : Language) (number : ℤ)
    → HasPages s
    → (section s k).used ≡ false
    → HasPages (add_at s k name language number).0
unfolding add_at
HasPages-add_at s k name Language.in_ladder number paged h =
    let c = named_section (section s k) name Language.in_ladder in
    let s1 = put_section s (pos k) c in
    HasPages-add_ladder s1 k c number (find_free_rung s1) (HasPages-put s k c paged (rw h refl)) h
      refl
HasPages-add_at s k name Language.in_sequential number paged h =
    let c = named_section (section s k) name Language.in_sequential in
    let s1 = put_section s (pos k) c in
    HasPages-add_chart s1 k c (find_free_sequential_page s1) (HasPages-put s k c paged (rw h refl))
      (rw h refl) refl

abbrev AllSame : Plc → Option Plc → Type 0
AllSame s none = Unit {0}
AllSame s (some u) = SameSections s u

AllSame-choice :
    (b : Bool) (s : Plc) (x y : Option Plc)
    → AllSame s x
    → AllSame s y
    → AllSame s (elim b [ true ↦ x | false ↦ y ])
AllSame-choice true s x y h k = h
AllSame-choice false s x y h k = k

free_rungs_lem : (rounds : ℕ) (s : Plc) (n : ℤ) → AllSame s (free_rungs rounds s n)
unfolding free_rungs
free_rungs_lem zero s n = tt
free_rungs_lem (suc rounds) s n =
    let s' = put_rung s n (record (s.rung_array n) { used = false }) in
    AllSame-choice (n ==ℤ s.last_rung) s (some s') (free_rungs rounds s' (s.rung_array n).next_rung)
      (refl, refl) (free_rungs_lem rounds s' (s.rung_array n).next_rung)

unused : (b : Bool) → not b ≡ true → b ≡ false
unused true h = cc
unused false h = refl

pub HasPages-add_section :
    (p : Program) (name : String) (language : Language) (number : ℤ)
    → HasPages p.plc
    → HasPages (add_section p name language number).0.plc
unfolding add_section
HasPages-add_section p name language number paged =
    added (find (λ k. not (section p.plc k).used) p.plc.sizes.nbr_sections) refl
  where
    added :
        (free : Option ℕ)
        → find (λ k. not (section p.plc k).used) p.plc.sizes.nbr_sections ≡ free
        → HasPages
            (elim free as (λ o. Program × ℤ) [
              | none ↦ (p, negsuc 0)
              | some k ↦
                  let (s, r) = add_at p.plc k name language number in
                  (modified (record p { plc = s }), r)
            ]).0.plc
    added none e = paged
    added (some k) e =
        let test = find_satisfies (λ i. not (section p.plc i).used) p.plc.sizes.nbr_sections k e in
        HasPages-add_at p.plc k name language number paged (unused (section p.plc k).used test)

pub HasPages-modify :
    (p : Program) (k : ℕ) (name : String)
    → k < p.plc.sizes.nbr_sections
    → HasPages p.plc
    → HasPages (modify_section_properties p (pos k) name).plc
unfolding modify_section_properties
HasPages-modify p k name below paged =
    let f = p.plc.section_array in
    update-IsPaged p.plc.sizes.nbr_sections f k (record (f (pos k)) { name = name }) paged
      (record {
        apart = λ chart j hj jk other same. jk (paged.own j k hj below other chart same);
        on_page = λ chart. paged.in_range k below chart;
      })

pub HasPages-swap :
    (p : Program) (a b : ℕ)
    → a < p.plc.sizes.nbr_sections
    → b < p.plc.sizes.nbr_sections
    → HasPages p.plc
    → HasPages (swap_sections p (pos a) (pos b)).plc
unfolding swap_sections
HasPages-swap p a b ha hb paged =
    swap-IsPaged p.plc.sizes.nbr_sections p.plc.section_array a b ha hb paged

pub HasPages-select :
    (p : Program) (k : ℤ) → HasPages p.plc → HasPages (set_section_selected p k).plc
unfolding set_section_selected
HasPages-select p k paged = paged

AllSame-if :
    (b : Bool) (s : Plc) (x y : Option Plc)
    → AllSame s x
    → AllSame s y
    → AllSame s (if b then x else y)
AllSame-if true s x y h k = h
AllSame-if false s x y h k = k

abbrev plc_of : Option Program → Plc → Plc
plc_of none s = s
plc_of (some p) s = p.plc

HasPages-deleted :
    (p q : Program) (s : Plc) (o : Option Plc)
    → HasPages s
    → AllSame s o
    → deleted p o ≡ some q
    → HasPages q.plc
unfolding deleted
HasPages-deleted p q s none paged same h = cc
HasPages-deleted p q s (some u) paged same h =
    let e : u ≡ q.plc = ap (λ r. plc_of r s) h in subst HasPages e (HasPages-same s u same paged)

pub HasPages-del :
    (rounds : ℕ) (p q : Program) (k : ℕ)
    → HasPages p.plc
    → del_section rounds p (pos k) ≡ some q
    → HasPages q.plc
unfolding del_section
HasPages-del rounds p q k paged h =
    let c = p.plc.section_array (pos k) in
    let s = put_section p.plc (pos k) (record c { used = false }) in
    let page = init_seq_elements_of_page s c.sequential_page in
    HasPages-deleted p q s
      (if is_sequential c.language then some page else free_rungs rounds s s.first_rung)
      (HasPages-put p.plc k (record c { used = false }) paged refl)
      (AllSame-if (is_sequential c.language) s (some page) (free_rungs rounds s s.first_rung)
        (init_seq_elements_of_page_lem s c.sequential_page) (free_rungs_lem rounds s s.first_rung))
      h
