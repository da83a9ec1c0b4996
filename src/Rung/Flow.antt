-- ===== src/Rung/Flow.antt =====
-- What StateOnLeft (src/calc.c) depends on: the outputs and the vertical connections alone.
use classicladder.Common.{
  ℤ, ℕ, zero, suc, pos, negsuc, ◌≡◌, refl, ◌==◌, ◌==ℤ◌, ◌&&◌, Bool, arith, inl, inr, Bool-cases,
  update, ==ℤ_refl, ==ℤ_iff, ==_iff,
}
use classicladder.State.{Element, Rung, Plc}
use classicladder.Rung.Element.{elem_at, put_cell, put_elem}
use classicladder.Rung.Left.{up_loop, down_loop, left_of_column, state_on_left}
use classicladder.Rung.Contact.{left_state}

-- Two grids that agree on what power flows through.
pub record SameFlow (g h : ℤ → ℕ → Element) : Type 0 where
  pub outputs : (x : ℤ) (y : ℕ) → (g x y).dynamic_output ≡ (h x y).dynamic_output
  pub tops : (x : ℤ) (y : ℕ) → (g x y).connected_with_top ≡ (h x y).connected_with_top

module _ (g h : ℤ → ℕ → Element) (same : SameFlow g h) (x : ℕ) where
  up_loop-SameFlow :
      (n : ℕ) (still state : Bool) → up_loop g x n still state ≡ up_loop h x n still state
  unfolding up_loop
  up_loop-SameFlow zero still state = refl
  up_loop-SameFlow (suc n) still state =
      rw (same.outputs (pos x) n, same.tops (pos (suc x)) n, up_loop-SameFlow n)

  down_loop-SameFlow :
      (r n : ℕ) (still state : Bool) → down_loop g x r n still state ≡ down_loop h x r n still state
  unfolding down_loop
  down_loop-SameFlow zero n still state = refl
  down_loop-SameFlow (suc r) n still state =
      rw (same.outputs (pos x) n, same.tops (pos (suc x)) (suc n), down_loop-SameFlow r)

  left_of_column-SameFlow : (y : ℕ) → left_of_column g x y ≡ left_of_column h x y
  unfolding left_of_column
  left_of_column-SameFlow y = simp (
    same.outputs (pos x) y,
    same.tops (pos (suc x)) y,
    same.tops (pos (suc x)) (suc y),
    up_loop-SameFlow,
    down_loop-SameFlow,
  )

pub state_on_left-SameFlow :
    (r r' : Rung) (x : ℤ) (y : ℕ)
    → SameFlow r.element r'.element
    → state_on_left x y r ≡ state_on_left x y r'
unfolding state_on_left
state_on_left-SameFlow r r' (negsuc x) y same = refl
state_on_left-SameFlow r r' (pos zero) y same = refl
state_on_left-SameFlow r r' (pos (suc x)) y same =
    left_of_column-SameFlow r.element r'.element same x y

-- A field that the new cell shares with the old one is the same all over the grid.
put_cell-field :
    {B : Type 0} (f : Element → B) (g : ℤ → ℕ → Element) (x : ℤ) (y : ℕ) (e : Element)
    → f e ≡ f (g x y)
    → (i : ℤ) (j : ℕ) → f (put_cell g x y e i j) ≡ f (g i j)
unfolding put_cell
put_cell-field f g x y e h i j = elim (Bool-cases ((x ==ℤ i) && (y == j))) [
  | inl c ↦
      let p : x ≡ i = (==ℤ_iff x i).0 (ground arith) in
      let q : y ≡ j = (==_iff y j).0 (ground arith) in rw (c, ← p, ← q) h
  | inr c ↦ rw c refl
]

pub put_cell-SameFlow :
    (g : ℤ → ℕ → Element) (x : ℤ) (y : ℕ) (e : Element)
    → e.dynamic_output ≡ (g x y).dynamic_output
    → e.connected_with_top ≡ (g x y).connected_with_top
    → SameFlow (put_cell g x y e) g
put_cell-SameFlow g x y e o t = record {
  outputs = put_cell-field (λ a. a.dynamic_output) g x y e o;
  tops = put_cell-field (λ a. a.connected_with_top) g x y e t;
}

-- A cell that keeps its output and its connection leaves all the power of the rung as it was.
pub left_state-put_elem :
    (s : Plc) (n x : ℤ) (y : ℕ) (e : Element) (x' : ℤ) (y' : ℕ)
    → e.dynamic_output ≡ (elem_at s n x y).dynamic_output
    → e.connected_with_top ≡ (elem_at s n x y).connected_with_top
    → left_state (put_elem s n x y e) n x' y' ≡ left_state s n x' y'
unfolding elem_at put_elem left_state update
left_state-put_elem s n x y e x' y' o t =
    let r = s.rung_array n in
    rw (==ℤ_refl n) (
      state_on_left-SameFlow (record r { element = put_cell r.element x y e }) r x' y'
        (put_cell-SameFlow r.element x y e o t))
