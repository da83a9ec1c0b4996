-- ===== src/Manager/Added.antt =====
-- What AddSection adds (src/manager.c).
use classicladder.Common.{
  ℤ, ℕ, pos, negsuc, ◌<◌, ◌≡◌, refl, ap, ◌∙◌, ◌==ℤ◌, not, Bool, true, false, Option, none, some,
  String, update, update_self, update_ne, subst,
}
use classicladder.State.{Language, Section, Rung, Plc}
use classicladder.Manager.Search.{section, find, find_free_rung}
use classicladder.Manager.Section.{
  Program, put_section, modified, init_buffer_rung_edited, named_section, add_ladder, add_at,
  add_section,
}
use classicladder.Manager.Found.{find_found}

-- section `k` of `u` is a new ladder with a rung of its own, and nothing else of sections and rungs is changed
pub record IsLadderAdded (s u : Plc) (name : String) (number : ℤ) (k : ℕ) : Type 0 where
  pub was_free : ((section s k).used ≡ false) × (k < s.sizes.nbr_sections)
  pub rung : ℕ
  pub rung_was_free : ((s.rung_array (pos rung)).used ≡ false) × (rung < s.sizes.nbr_rungs)
  pub rung_used : (u.rung_array (pos rung)).used ≡ true
  pub new_section : section u k ≡ record {
    used = true;
    name = name;
    language = Language.in_ladder;
    sub_routine_number = number;
    first_rung = pos rung;
    last_rung = pos rung;
    sequential_page = pos 0;
  }
  pub other_sections : (j : ℤ) → (pos k ==ℤ j) ≡ false → u.section_array j ≡ s.section_array j
  pub other_rungs : (j : ℤ) → (pos rung ==ℤ j) ≡ false → u.rung_array j ≡ s.rung_array j

unused : (b : Bool) → not b ≡ true → b ≡ false
unused true h = cc
unused false h = refl

is_negative : ℤ → Bool
is_negative (pos n) = false
is_negative (negsuc n) = true

add_ladder_added :
    (s : Plc) (k j : ℕ) (name : String) (number : ℤ) (free : Option ℕ)
    → ((section s k).used ≡ false) × (k < s.sizes.nbr_sections)
    → 0 < s.sizes.nbr_rungs
    → find (λ i. not (s.rung_array (pos i)).used) s.sizes.nbr_rungs ≡ free
    → (add_ladder
        (put_section s (pos k) (named_section (section s k) name Language.in_ladder))
        k
        (named_section (section s k) name Language.in_ladder)
        number
        free).1
      ≡ pos j
    → (k ≡ j)
      × IsLadderAdded s
          (add_ladder
            (put_section s (pos k) (named_section (section s k) name Language.in_ladder))
            k
            (named_section (section s k) name Language.in_ladder)
            number
            free).0
          name
          number
          k
unfolding add_ladder is_negative
add_ladder_added s k j name number none was some_rung e h = elim (apart (ap is_negative h)) [ ]
  where
    apart : true ≡ false → ⊥
    apart q = cc
add_ladder_added s k j name number (some r) was some_rung e h =
    let c = named_section (section s k) name Language.in_ladder in
    let c' : Section = record c {
      sub_routine_number = number;
      used = true;
      first_rung = pos r;
      last_rung = pos r;
    } in
    let f = s.section_array in
    let found = find_found (λ i. not (s.rung_array (pos i)).used) s.sizes.nbr_rungs r some_rung e in
    (
      cc,
      record {
        was_free = was;
        rung = r;
        rung_was_free = (unused (s.rung_array (pos r)).used found.0, found.1);
        rung_used =
            ap (λ (x : Rung). x.used)
              (update_self s.rung_array (pos r) (init_buffer_rung_edited (s.rung_array (pos r))));
        new_section = update_self (update f (pos k) c) (pos k) c';
        other_sections = λ i other.
            update_ne (update f (pos k) c) (pos k) i c' other ∙ update_ne f (pos k) i c other;
        other_rungs = λ i other.
            update_ne s.rung_array (pos r) i (init_buffer_rung_edited (s.rung_array (pos r))) other;
      },
    )

-- A ladder that AddSection adds under number `k` takes the place of a section that was not in use, and
-- gets one rung, which was not in use either: it has the name and the number of a sub-routine that were
-- asked for, and every other section and rung stays as it was. There is a section and a rung at least.
pub add_section-IsLadderAdded :
    (p q : Program) (name : String) (number : ℤ) (k : ℕ)
    → 0 < p.plc.sizes.nbr_sections
    → 0 < p.plc.sizes.nbr_rungs
    → add_section p name Language.in_ladder number ≡ (q, pos k)
    → IsLadderAdded p.plc q.plc name number k
unfolding add_section add_at find_free_rung is_negative
add_section-IsLadderAdded p q name number k some_section some_rung h =
    added (find (λ i. not (section p.plc i).used) p.plc.sizes.nbr_sections) refl h
  where
    added :
        (free : Option ℕ)
        → find (λ i. not (section p.plc i).used) p.plc.sizes.nbr_sections ≡ free
        → elim free as (λ o. Program × ℤ) [
          | none ↦ (p, negsuc 0)
          | some i ↦
              let (s, r) = add_at p.plc i name Language.in_ladder number in
              (modified (record p { plc = s }), r)
        ]
          ≡ (q, pos k)
        → IsLadderAdded p.plc q.plc name number k
    added none e h' = elim (apart (ap (λ x. is_negative x.1) h')) [ ]
      where
        apart : true ≡ false → ⊥
        apart z = cc
    added (some i) e h' =
        let found =
          find_found (λ j. not (section p.plc j).used) p.plc.sizes.nbr_sections i some_section e in
        let all =
          add_ladder_added p.plc i k name number
            (find (λ j. not (p.plc.rung_array (pos j)).used) p.plc.sizes.nbr_rungs)
            (unused (section p.plc i).used found.0, found.1) some_rung refl (ap (λ x. x.1) h') in
        subst (λ u. IsLadderAdded p.plc u name number k) (ap (λ (x : Program × ℤ). x.0.plc) h')
          (subst
            (λ j.
              IsLadderAdded p.plc (add_at p.plc i name Language.in_ladder number).0 name number j)
            all.0 all.1)
