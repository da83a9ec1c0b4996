-- ===== src/Manager/Selected.antt =====
-- What a deletion frees, and what the search of a neighbour looks at (src/manager.c).
use classicladder.Common.{
  ℤ, ℕ, suc, pos, negsuc, ◌≡◌, refl, ap, ◌∙◌, ◌==ℤ◌, ==ℤ_refl, ◌&&◌, not, Bool, true, false, Option,
  some, add_int, sub_int, ltb_ℤ, ◌-ℤ◌, update_self, update_ne, if◌then◌else◌,
}
use classicladder.State.{Language, Section, Plc}
use classicladder.Scan.{put_rung}
use classicladder.Manager.Search.{is_sequential}
use classicladder.Manager.Section.{
  Program, put_section, modified, init_seq_elements_of_page, free_rungs, deleted, del_section,
  scan_neighbour, neighbour_loop, get_prev_next_section,
}

free_rungs-last :
    (rounds : ℕ) (s : Plc) (n : ℤ)
    → s.last_rung ≡ n
    → free_rungs (suc rounds) s n ≡ some (put_rung s n (record (s.rung_array n) { used = false }))
unfolding free_rungs
free_rungs-last rounds s n h =
    let s' = put_rung s n (record (s.rung_array n) { used = false }) in
    ap
      (λ b. elim b as (λ x. Option Plc) [
        | true ↦ some s'
        | false ↦ free_rungs rounds s' (s.rung_array n).next_rung
      ])
      (ap (λ m. n ==ℤ m) h ∙ ==ℤ_refl n)

-- Where the selected section has one rung, the deletion of any section in ladder frees that rung. Every
-- other rung stays as it is, also those of the section that is deleted.
pub del_section_frees_selected :
    (rounds : ℕ) (p : Program) (k r : ℤ)
    → (p.plc.section_array k).language ≡ Language.in_ladder
    → p.plc.first_rung ≡ r
    → p.plc.last_rung ≡ r
    → (q : Program) × (del_section (suc rounds) p k ≡ some q)
      × ((q.plc.section_array k).used ≡ false)
      × ((q.plc.rung_array r).used ≡ false)
      × ((j : ℤ) → (r ==ℤ j) ≡ false → q.plc.rung_array j ≡ p.plc.rung_array j)
unfolding del_section deleted
del_section_frees_selected rounds p k r ladder first last =
    let c = p.plc.section_array k in
    let s = put_section p.plc k (record c { used = false }) in
    let s' = put_rung s r (record (s.rung_array r) { used = false }) in
    (
      modified (record p { plc = s' }),
      ap
            (λ b. deleted p (
              if b
              then some (init_seq_elements_of_page s c.sequential_page)
              else free_rungs (suc rounds) s s.first_rung))
            (ap is_sequential ladder)
          ∙ ap (deleted p) (ap (free_rungs (suc rounds) s) first ∙ free_rungs-last rounds s r last),
      ap (λ (x : Section). x.used) (update_self p.plc.section_array k (record c { used = false })),
      rw (update_self s.rung_array r (record (s.rung_array r) { used = false })) refl,
      λ j other. update_ne s.rung_array r j (record (s.rung_array r) { used = false }) other,
    )

contradiction : (next a b : Bool) → ((next && a) && (not next && b)) ≡ false
contradiction true true b = refl
contradiction true false b = refl
contradiction false a b = refl

neighbour_loop_lem :
    (rounds : ℕ) (s : Plc) (next : Bool) (at : ℤ × ℤ)
    → neighbour_loop (suc rounds) s next at ≡ some (scan_neighbour s next at).1
unfolding neighbour_loop
neighbour_loop_lem rounds s next at =
    let k = (scan_neighbour s next at).0 in
    ap
      (λ b. elim b as (λ x. Option ℤ) [
        | true ↦ neighbour_loop rounds s next (scan_neighbour s next at)
        | false ↦ some (scan_neighbour s next at).1
      ])
      (contradiction next (ltb_ℤ k (pos s.sizes.nbr_sections -ℤ pos 1)) (ltb_ℤ (pos 0) k))

-- The search of the section before or after another one looks at its neighbour only: where that is not
-- in use, it gives -1, whatever sections there are beyond it.
pub get_prev_next_section_lem :
    (rounds : ℕ) (s : Plc) (k : ℤ) (next : Bool)
    → get_prev_next_section (suc rounds) s k next ≡ (
        let neighbour = if next then add_int k (pos 1) else sub_int k (pos 1) in
        some (if (s.section_array neighbour).used then neighbour else negsuc 0))
unfolding get_prev_next_section scan_neighbour
get_prev_next_section_lem rounds s k next = neighbour_loop_lem rounds s next (k, negsuc 0)
