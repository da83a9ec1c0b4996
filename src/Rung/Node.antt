-- ===== src/Rung/Node.antt =====
-- StateOnLeft (src/calc.c) against the node that it stands for: the lines of a column that vertical
-- connections join without a gap.
use classicladder.Common.{
  ℤ, ℕ, zero, suc, pos, ◌-◌, ◌+◌, ◌<◌, ◌≤◌, ◌≡◌, refl, sym, ◌↔◌, ◌⊎◌, inl, inr, ltb, if◌then◌else◌,
  Bool, true, false, Bool-cases, ==_iff, ◌==◌, arith, subst,
}
use classicladder.State.{Element, Rung, rung_height}
use classicladder.Rung.Left.{out, top, up_loop, down_loop, left_of_column, state_on_left}

module _ (g : ℤ → ℕ → Element) (x : ℕ) where
  -- Lines `y` and `p` of column `x + 1` are one node: each line below the upper one, down to the
  -- lower one, is connected with the line on top of it.
  abbrev pub IsJoined : ℕ → ℕ → Type 0
  IsJoined y p =
      ((k : ℕ) → p < k → k ≤ y → top g x k ≡ true) × ((k : ℕ) → y < k → k ≤ p → top g x k ≡ true)

  -- Some line of the node has an output of the column on its left.
  abbrev pub IsPowered : ℕ → Type 0
  IsPowered y = (p : ℕ) × (p < rung_height) × IsJoined y p × (out g x p ≡ true)

  -- a line above `n` that the upward loop reaches and finds on
  abbrev Above : ℕ → Bool → Type 0
  Above n still =
      (still ≡ true)
      × (q : ℕ) × (q < n)
      × ((k : ℕ) → q < k → k < n → top g x k ≡ true)
      × (out g x q ≡ true)

  step_up :
      (q n : ℕ)
      → ((k : ℕ) → q < k → k < n → top g x k ≡ true)
      → top g x n ≡ true
      → (k : ℕ) → q < k
      → k < suc n
      → top g x k ≡ true
  step_up q n h t k a b = elim (Bool-cases (k == n)) [
    | inl e ↦ subst (λ m. top g x m ≡ true) (sym ((==_iff k n).0 e)) t
    | inr e ↦ h k a (ground arith)
  ]

  up_sound :
      (n : ℕ) (still state : Bool)
      → up_loop g x n still state ≡ true
      → (state ≡ true) ⊎ Above n still
  unfolding up_loop
  up_sound zero still state h = inl h
  up_sound (suc n) false state h = inl h
  up_sound (suc n) true state h =
      elim (up_sound n (if top g x n then true else false) (if out g x n then true else state) h) [
        | inl e ↦ elim (Bool-cases (out g x n)) [
          | inl o ↦ inr (refl, n, omega arith, (λ k a b. absurd (omega arith)), o)
          | inr o ↦ inl (rw o at e)
        ]
        | inr (t, q, a, h', o) ↦ inr (refl, q, omega arith, step_up q n h' (ground arith), o)
      ]

  up_keeps : (n : ℕ) (still : Bool) → up_loop g x n still true ≡ true
  unfolding up_loop
  up_keeps zero still = refl
  up_keeps (suc n) false = refl
  up_keeps (suc n) true = ground (arith, up_keeps n (if top g x n then true else false))

  up_complete : (n : ℕ) (still state : Bool) → Above n still → up_loop g x n still state ≡ true
  unfolding up_loop
  up_complete zero still state (s, q, a, h, o) = absurd (omega arith)
  up_complete (suc n) false state (s, q, a, h, o) = cc
  up_complete (suc n) true state (s, q, a, h, o) = elim (Bool-cases (q == n)) [
    | inl e ↦
        let o' : out g x n ≡ true = subst (λ m. out g x m ≡ true) ((==_iff q n).0 e) o in
        rw o' (up_keeps n _)
    | inr e ↦
        up_complete n _ _ (ground (arith, h n), q, ground arith, (λ k a b. h k a (omega arith)), o)
  ]

  -- a line from `n` on that the downward loop reaches and finds on
  abbrev Below : ℕ → Bool → Type 0
  Below n still =
      (still ≡ true)
      × (q : ℕ) × (n ≤ q)
      × (q < rung_height)
      × ((k : ℕ) → n < k → k ≤ q → top g x k ≡ true)
      × (out g x q ≡ true)

  abbrev next_still : ℕ → Bool
  next_still n = if ltb (suc n) rung_height then if top g x (suc n) then true else false else true

  next_still-top : (n : ℕ) → suc n < rung_height → next_still n ≡ true → top g x (suc n) ≡ true
  next_still-top n h e = ground arith

  step_down :
      (n q : ℕ)
      → top g x (suc n) ≡ true
      → ((k : ℕ) → suc n < k → k ≤ q → top g x k ≡ true)
      → (k : ℕ) → n < k
      → k ≤ q
      → top g x k ≡ true
  step_down n q t h k a b = elim (Bool-cases (k == suc n)) [
    | inl e ↦ subst (λ m. top g x m ≡ true) (sym ((==_iff k (suc n)).0 e)) t
    | inr e ↦ h k (ground arith) b
  ]

  down_sound :
      (r n : ℕ) (still state : Bool)
      → r + n ≡ rung_height
      → down_loop g x r n still state ≡ true
      → (state ≡ true) ⊎ Below n still
  unfolding down_loop
  down_sound zero n still state c h = inl h
  down_sound (suc r) n false state c h = inl h
  down_sound (suc r) n true state c h =
      elim (down_sound r (suc n) (next_still n) (if out g x n then true else state) (omega arith)
        h) [
          | inl e ↦ elim (Bool-cases (out g x n)) [
            | inl o ↦ inr (refl, n, omega arith, omega arith, (λ k a b. absurd (omega arith)), o)
            | inr o ↦ inl (rw o at e)
          ]
          | inr (t, q, a, b, h', o) ↦
              inr (refl, q, omega arith, b, step_down n q (next_still-top n (omega arith) t) h', o)
        ]

  down_keeps : (r n : ℕ) (still : Bool) → down_loop g x r n still true ≡ true
  unfolding down_loop
  down_keeps zero n still = refl
  down_keeps (suc r) n false = refl
  down_keeps (suc r) n true = ground (arith, down_keeps r (suc n) (next_still n))

  down_complete :
      (r n : ℕ) (still state : Bool)
      → r + n ≡ rung_height
      → Below n still
      → down_loop g x r n still state ≡ true
  unfolding down_loop
  down_complete zero n still state c (s, q, a, b, h, o) = absurd (omega arith)
  down_complete (suc r) n false state c (s, q, a, b, h, o) = cc
  down_complete (suc r) n true state c (s, q, a, b, h, o) = elim (Bool-cases (q == n)) [
    | inl e ↦
        let o' : out g x n ≡ true = subst (λ m. out g x m ≡ true) ((==_iff q n).0 e) o in
        rw o' (down_keeps r (suc n) _)
    | inr e ↦
        down_complete r (suc n) _ _ (omega arith)
          (ground (arith, h (suc n)), q, ground arith, b, (λ k a b. h k (omega arith) b), o)
  ]

  up_part : ℕ → Bool
  up_part y = up_loop g x y (top g x y) (if out g x y then true else false)

  up_part_sound : (y : ℕ) → y < rung_height → up_part y ≡ true → IsPowered y
  unfolding up_part
  up_part_sound y hy h = elim (up_sound y (top g x y) (if out g x y then true else false) h) [
    | inl e ↦
        (y, hy, ((λ k a b. absurd (omega arith)), (λ k a b. absurd (omega arith))), ground arith)
    | inr (t, q, a, h', o) ↦ (
      q,
      omega arith,
      ((λ k c d. step_up q y h' t k c (omega arith)), (λ k c d. absurd (omega arith))),
      o,
    )
  ]

  left_sound : (y : ℕ) → y < rung_height → left_of_column g x y ≡ true → IsPowered y
  unfolding left_of_column up_part
  left_sound y hy h = elim (Bool-cases (ltb y (rung_height - 1))) [
    | inl l ↦
        elim (down_sound (rung_height - suc y) (suc y) (top g x (suc y)) (up_part y) (omega arith)
          (rw l at h)) [
            | inl e ↦ up_part_sound y hy e
            | inr (t, q, a, b, h', o) ↦
                (q, b, ((λ k c d. absurd (omega arith)), (λ k c d. step_down y q t h' k c d)), o)
          ]
    | inr l ↦ up_part_sound y hy (rw l at h)
  ]

  up_part_complete : (y q : ℕ) → q ≤ y → IsJoined y q → out g x q ≡ true → up_part y ≡ true
  unfolding up_part
  up_part_complete y q a j o = elim (Bool-cases (q == y)) [
    | inl e ↦
        let o' : out g x y ≡ true = subst (λ m. out g x m ≡ true) ((==_iff q y).0 e) o in
        rw o' (up_keeps y _)
    | inr e ↦
        up_complete y _ _
          (j.0 y (ground arith) (omega arith), q, ground arith, (λ k c d. j.0 k c (omega arith)), o)
  ]

  left_complete : (y : ℕ) → y < rung_height → IsPowered y → left_of_column g x y ≡ true
  unfolding left_of_column up_part
  left_complete y hy (q, b, j, o) = elim (Bool-cases (ltb y q)) [
    | inl l ↦
        let l' : ltb y (rung_height - 1) ≡ true = ground arith in
        rw l' (
          down_complete (rung_height - suc y) (suc y) _ (up_part y) (omega arith) (
            j.1 (suc y) (omega arith) (ground arith),
            q,
            ground arith,
            b,
            (λ k c d. j.1 k (omega arith) d),
            o,
          ))
    | inr l ↦
        let u : up_part y ≡ true = up_part_complete y q (ground arith) j o in
        elim (Bool-cases (ltb y (rung_height - 1))) [
          | inl m ↦ rw (m, u) (down_keeps (rung_height - suc y) (suc y) _)
          | inr m ↦ rw m u
        ]
  ]

-- Past the first column, power reaches the left side of a cell exactly when some line of its node
-- has an output of the column on its left that is on.
pub state_on_left-IsPowered :
    (r : Rung) (x y : ℕ)
    → y < rung_height
    → (state_on_left (pos (suc x)) y r ≡ true) ↔ IsPowered r.element x y
unfolding state_on_left
state_on_left-IsPowered r x y h = (left_sound r.element x y h, left_complete r.element x y h)
