-- ===== src/Manager/Own.antt =====
-- Each chart of a program has a page of its own (src/manager.c).
use classicladder.Common.{
  ℤ, ℕ, pos, ◌<◌, ◌≡◌, ◌≢◌, refl, sym, ap, ◌∙◌, true, false, Bool-cases, inl, inr, ◌⊎◌, arith,
  update, if◌then◌else◌, ◌==◌, ==_iff,
}
use classicladder.State.{Section, nbr_sequential_pages}
use classicladder.Manager.Search.{is_chart}

abbrev pub IsOwn : ℕ → (ℤ → Section) → Type 0
IsOwn n f =
    (i j : ℕ)
    → i < n
    → j < n
    → is_chart (f (pos i)) ≡ true
    → is_chart (f (pos j)) ≡ true
    → (f (pos i)).sequential_page ≡ (f (pos j)).sequential_page
    → i ≡ j

-- The sections of the charts are on pages that there are, each on one of its own.
pub record IsPaged (n : ℕ) (f : ℤ → Section) : Type 0 where
  pub own : IsOwn n f
  pub in_range :
      (i : ℕ)
      → i < n
      → is_chart (f (pos i)) ≡ true
      → (page : ℕ) × ((f (pos i)).sequential_page ≡ pos page) × (page < nbr_sequential_pages)

-- a section that may be put in the place of section `k`
pub record Fits (n : ℕ) (f : ℤ → Section) (k : ℕ) (c : Section) : Type 0 where
  pub apart :
      is_chart c ≡ true
      → (j : ℕ) → j < n
      → j ≢ k
      → is_chart (f (pos j)) ≡ true
      → (f (pos j)).sequential_page ≢ c.sequential_page
  pub on_page :
      is_chart c ≡ true
      → (page : ℕ) × (c.sequential_page ≡ pos page) × (page < nbr_sequential_pages)

-- the write of one section, by cases on the index
update_cases :
    (f : ℤ → Section) (k i : ℕ) (c : Section)
    → ((i ≡ k) × (update f (pos k) c (pos i) ≡ c))
      ⊎ ((i ≢ k) × (update f (pos k) c (pos i) ≡ f (pos i)))
unfolding update
update_cases f k i c = elim (Bool-cases (k == i)) [
  | inl e ↦ inl (sym ((==_iff k i).0 e), rw e refl)
  | inr e ↦ inr (ground arith, rw e refl)
]

update-IsOwn :
    (n : ℕ) (f : ℤ → Section) (k : ℕ) (c : Section)
    → IsOwn n f
    → Fits n f k c
    → IsOwn n (update f (pos k) c)
update-IsOwn n f k c own fits i j hi hj ci cj same = elim (update_cases f k i c) [
  | inl (ik, ui) ↦ elim (update_cases f k j c) [
    | inl (jk, uj) ↦ ik ∙ sym jk
    | inr (jk, uj) ↦
        let chart : is_chart c ≡ true = ap is_chart (sym ui) ∙ ci in
        let other : is_chart (f (pos j)) ≡ true = ap is_chart (sym uj) ∙ cj in
        absurd (
          fits.apart chart j hj jk other (
            ap (λ (x : Section). x.sequential_page) (sym uj)
            ∙ sym same
            ∙ ap (λ (x : Section). x.sequential_page) ui))
  ]
  | inr (ik, ui) ↦
      let this : is_chart (f (pos i)) ≡ true = ap is_chart (sym ui) ∙ ci in
      elim (update_cases f k j c) [
        | inl (jk, uj) ↦
            let chart : is_chart c ≡ true = ap is_chart (sym uj) ∙ cj in
            absurd (
              fits.apart chart i hi ik this (
                ap (λ (x : Section). x.sequential_page) (sym ui)
                ∙ same
                ∙ ap (λ (x : Section). x.sequential_page) uj))
        | inr (jk, uj) ↦ own i j hi hj this (ap is_chart (sym uj) ∙ cj) (
            ap (λ (x : Section). x.sequential_page) (sym ui)
            ∙ same
            ∙ ap (λ (x : Section). x.sequential_page) uj)
      ]
]

-- A section that fits in its place keeps the pages apart.
pub update-IsPaged :
    (n : ℕ) (f : ℤ → Section) (k : ℕ) (c : Section)
    → IsPaged n f
    → Fits n f k c
    → IsPaged n (update f (pos k) c)
update-IsPaged n f k c paged fits = record {
  own = update-IsOwn n f k c paged.own fits;
  in_range = λ i hi ci. elim (update_cases f k i c) [
    | inl (ik, ui) ↦
        let (page, on, below) = fits.on_page (ap is_chart (sym ui) ∙ ci) in
        (page, ap (λ (x : Section). x.sequential_page) ui ∙ on, below)
    | inr (ik, ui) ↦
        let (page, on, below) = paged.in_range i hi (ap is_chart (sym ui) ∙ ci) in
        (page, ap (λ (x : Section). x.sequential_page) ui ∙ on, below)
  ];
}

-- what is no chart fits everywhere
pub Fits-no_chart :
    (n : ℕ) (f : ℤ → Section) (k : ℕ) (c : Section) → is_chart c ≡ false → Fits n f k c
Fits-no_chart n f k c h = record { apart = λ chart. cc; on_page = λ chart. cc }

-- the place of an index after two sections are swapped
abbrev swapped : ℕ → ℕ → ℕ → ℕ
swapped a b i = if b == i then a else if a == i then b else i

swapped_lem :
    (f : ℤ → Section) (a b i : ℕ)
    → update (update f (pos a) (f (pos b))) (pos b) (f (pos a)) (pos i) ≡ f (pos (swapped a b i))
unfolding update
swapped_lem f a b i = elim (Bool-cases (b == i)) [
  | inl e ↦ rw e refl
  | inr e ↦ rw e (elim (Bool-cases (a == i)) [ inl q ↦ rw q refl | inr q ↦ rw q refl ])
]

swapped_bound : (a b i n : ℕ) → a < n → b < n → i < n → swapped a b i < n
swapped_bound a b i n ha hb hi = ground arith

swapped_apart : (a b i j : ℕ) → swapped a b i ≡ swapped a b j → i ≡ j
swapped_apart a b i j h = ground arith

pub swap-IsPaged :
    (n : ℕ) (f : ℤ → Section) (a b : ℕ)
    → a < n
    → b < n
    → IsPaged n f
    → IsPaged n (update (update f (pos a) (f (pos b))) (pos b) (f (pos a)))
swap-IsPaged n f a b ha hb paged = record {
  own = λ i j hi hj ci cj same. swapped_apart a b i j (
      paged.own (swapped a b i) (swapped a b j) (swapped_bound a b i n ha hb hi)
        (swapped_bound a b j n ha hb hj) (ap is_chart (sym (swapped_lem f a b i)) ∙ ci)
        (ap is_chart (sym (swapped_lem f a b j)) ∙ cj)
        (ap (λ (x : Section). x.sequential_page) (sym (swapped_lem f a b i))
          ∙ same
          ∙ ap (λ (x : Section). x.sequential_page) (swapped_lem f a b j)));
  in_range = λ i hi ci.
      let (page, on, below) =
        paged.in_range (swapped a b i) (swapped_bound a b i n ha hb hi)
          (ap is_chart (sym (swapped_lem f a b i)) ∙ ci) in
      (page, ap (λ (x : Section). x.sequential_page) (swapped_lem f a b i) ∙ on, below);
}
