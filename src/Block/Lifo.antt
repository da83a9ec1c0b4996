-- ===== src/Block/Lifo.antt =====
-- What one push, pop or reset of a register in the LIFO mode (CalcTypeRegister, src/calc.c) changes.
use classicladder.Common.{
  ℤ, ℕ, zero, suc, pos, ◌<◌, ◌≤◌, ◌≡◌, refl, ap, ◌∙◌, List, [], ◌∷◌, false, if◌then◌else◌,
  Bool-cases, inl, inr, ◌+ℤ◌, ◌-ℤ◌, ◌==ℤ◌, ltb_ℤ, ==ℤ_refl, to_int, add_int, sub_int, mul_int,
  update, arith,
}
use classicladder.State.{RegisterMode, Register, Plc}
use classicladder.Vars.{read_var, write_var, put_register}
use classicladder.Block.Register.{
  register_push, pop_mode, register_pop, register_reset, save_register_edges,
}

-- the `n` values from the cell `base` on, the last one first
abbrev pub values_down : (ℤ → ℤ) → ℤ → ℕ → List ℤ
values_down d base zero = []
values_down d base (suc n) = d (base +ℤ pos n) ∷ values_down d base n

-- the first cell of register `k`
abbrev pub base_of : Plc → ℤ → ℤ
base_of s k = mul_int k (pos s.sizes.register_list_size)

other_cell : (b : ℤ) (m j : ℕ) → j < m → ((b +ℤ pos m) ==ℤ (b +ℤ pos j)) ≡ false
unfolding ◌+ℤ◌
other_cell b m j h = ground arith

pub values_below :
    (d : ℤ → ℤ) (b v : ℤ) (m n : ℕ)
    → n ≤ m
    → values_down (update d (b +ℤ pos m) v) b n ≡ values_down d b n
unfolding update
values_below d b v m zero h = refl
values_below d b v m (suc n) h = rw (other_cell b m n h, values_below d b v m n (omega arith)) refl

add_one : (n : ℕ) → n < 1000000000 → add_int (pos n) (pos 1) ≡ pos (suc n)
unfolding to_int ◌+ℤ◌
add_one n h = ground arith

sub_one : (n : ℕ) → n < 1000000000 → sub_int (pos (suc n)) (pos 1) ≡ pos n
unfolding to_int ◌-ℤ◌
sub_one n h = ground arith

pub push_lem :
    (s : Plc) (k : ℤ) (n : ℕ)
    → (s.register_array k).nbr_values_saved ≡ pos n
    → (s.register_array k).first_value_index ≡ pos n
    → n < s.sizes.register_list_size
    → n < 1000000000
    → ((register_push s k).register_array k ≡ record (s.register_array k) {
      nbr_values_saved = pos (suc n);
      first_value_index = pos (suc n);
    })
      × ((register_push s k).registers_lists_datas
          ≡ update s.registers_lists_datas (base_of s k +ℤ pos n) (s.register_array k).value_in)
unfolding register_push update read_var
push_lem s k n saved first room small =
    rw (saved, first, add_one n small) (ground (arith, ==ℤ_refl k))

pop_lifo :
    (m : RegisterMode) (s : Plc) (k : ℤ) (n : ℕ)
    → m ≡ RegisterMode.lifo
    → (s.register_array k).first_value_index ≡ pos (suc n)
    → n < 1000000000
    → ((pop_mode m s k).register_array k ≡ record (s.register_array k) {
      first_value_index = pos n;
      value_out = s.registers_lists_datas (base_of s k +ℤ pos n);
    })
      × ((pop_mode m s k).registers_lists_datas ≡ s.registers_lists_datas)
unfolding pop_mode update write_var
pop_lifo m s k n mode first small =
    let above : ltb_ℤ (pos n) (pos 0) ≡ false = ground arith in
    (simp (mode, first, sub_one n small, ==ℤ_refl k, above), simp mode)

pub pop_lem :
    (s : Plc) (k : ℤ) (n : ℕ)
    → (s.register_array k).register_mode ≡ RegisterMode.lifo
    → (s.register_array k).nbr_values_saved ≡ pos (suc n)
    → (s.register_array k).first_value_index ≡ pos (suc n)
    → n < 1000000000
    → ((register_pop s k).register_array k ≡ record (s.register_array k) {
      nbr_values_saved = pos n;
      first_value_index = pos n;
      value_out = s.registers_lists_datas (base_of s k +ℤ pos n);
    })
      × ((register_pop s k).registers_lists_datas ≡ s.registers_lists_datas)
unfolding register_pop update
pop_lem s k n mode saved first small =
    let r = s.register_array k in
    let s1 : Plc =
      put_register s k (record r { nbr_values_saved = sub_int r.nbr_values_saved (pos 1) }) in
    let here : s1.register_array k ≡ record r { nbr_values_saved = pos n } =
      simp (==ℤ_refl k, saved, sub_one n small) in
    let (regs, datas) = pop_lifo r.register_mode s1 k n mode (simp (==ℤ_refl k, first)) small in
    (
      regs
          ∙ ap
              (λ (x : Register). record x {
                first_value_index = pos n;
                value_out = s.registers_lists_datas (base_of s k +ℤ pos n);
              })
              here,
      datas,
    )

pub reset_lem :
    (s : Plc) (k : ℤ)
    → ((register_reset s k).register_array k ≡ (
        if (s.register_array k).input_reset
        then record (s.register_array k) {
          nbr_values_saved = pos 0;
          first_value_index = pos 0;
          latest_value_index = pos 0;
          value_out = pos 0;
        }
        else s.register_array k))
      × ((register_reset s k).registers_lists_datas ≡ s.registers_lists_datas)
unfolding register_reset write_var update
reset_lem s k = elim (Bool-cases (s.register_array k).input_reset) [
  | inl e ↦ (simp (e, ==ℤ_refl k), simp e)
  | inr e ↦ (simp e, simp e)
]

sizes-pop_mode : (m : RegisterMode) (s : Plc) (k : ℤ) → (pop_mode m s k).sizes ≡ s.sizes
unfolding pop_mode write_var
sizes-pop_mode RegisterMode.fifo s k = refl
sizes-pop_mode RegisterMode.lifo s k = refl
sizes-pop_mode RegisterMode.undef s k = refl

pub sizes-register_pop : (s : Plc) (k : ℤ) → (register_pop s k).sizes ≡ s.sizes
unfolding register_pop
sizes-register_pop s k = sizes-pop_mode (s.register_array k).register_mode _ k

pub sizes-register_reset : (s : Plc) (k : ℤ) → (register_reset s k).sizes ≡ s.sizes
unfolding register_reset write_var
sizes-register_reset s k = elim (Bool-cases (s.register_array k).input_reset) [
  | inl e ↦ rw e refl
  | inr e ↦ rw e refl
]

pub value_out-reset :
    (s : Plc) (k : ℤ)
    → ((save_register_edges (register_reset s k) k).register_array k).value_out
      ≡ (if (s.register_array k).input_reset then pos 0 else (s.register_array k).value_out)
unfolding save_register_edges update
value_out-reset s k = rw (==ℤ_refl k) (elim (Bool-cases (s.register_array k).input_reset) [
  | inl e ↦ rw ((reset_lem s k).0, e) refl
  | inr e ↦ rw ((reset_lem s k).0, e) refl
])
