-- ===== src/Block/Overrun.antt =====
-- A register (CalcTypeRegister, src/calc.c) at the end of its list.
use classicladder.Common.{
  ℤ, ℕ, suc, pos, ◌+◌, ◌*◌, ◌<◌, ◌≡◌, Bool, true, false, add_int, mul_int, ◌+ℤ◌, ◌*ℤ◌, to_int,
  update, ==ℤ_refl, ap, subst, ◌∙◌, arith, ltb_ℤ,
}
use classicladder.State.{Plc, Sizes}
use classicladder.Vars.{read_var, put_register}
use classicladder.Block.Register.{
  register_push, register_in, register_out, register_reset, save_register_edges, register_step,
  list_at, wrap_index,
}

-- A scan of register `k` in which its first input is `on` with the value `v`, and the other two are off.
abbrev pub scan_with : Plc → ℤ → Bool → ℤ → Plc
scan_with s k on v =
    register_step
      (put_register s k (record (s.register_array k) {
        value_in = v;
        input_reset = false;
        input_in = on;
        input_out = false;
      }))
      k

-- Where register `k` saves its next value, how many it holds and what its first input was.
pub record IsAt (s : Plc) (k : ℤ) (index : ℤ) (saved : ℤ) (before : Bool) : Type 0 where
  pub next_index : (s.register_array k).first_value_index ≡ index
  pub count : (s.register_array k).nbr_values_saved ≡ saved
  pub last_input : (s.register_array k).input_in_bak ≡ before

module _ (s : Plc) (k index saved : ℤ) where
  on-IsAt :
      (v : ℤ)
      → ltb_ℤ saved (pos s.sizes.register_list_size) ≡ true
      → IsAt s k index saved false
      → IsAt
          (scan_with s k true v)
          k
          (wrap_index s (add_int index (pos 1)))
          (add_int saved (pos 1))
          true
  unfolding register_step register_in register_out register_reset save_register_edges register_push
      update read_var
  on-IsAt v room at = record {
    next_index = ground (arith, ==ℤ_refl k);
    count = ground (arith, ==ℤ_refl k);
    last_input = ground (arith, ==ℤ_refl k);
  }

  off-IsAt : (v : ℤ) → IsAt s k index saved true → IsAt (scan_with s k false v) k index saved false
  unfolding register_step register_in register_out register_reset save_register_edges update
  off-IsAt v at = record {
    next_index = ground (arith, ==ℤ_refl k);
    count = ground (arith, ==ℤ_refl k);
    last_input = ground (arith, ==ℤ_refl k);
  }

  on_saves :
      (v : ℤ)
      → ltb_ℤ saved (pos s.sizes.register_list_size) ≡ true
      → IsAt s k index saved false
      → (scan_with s k true v).registers_lists_datas (list_at s k index) ≡ v
  unfolding register_step register_in register_out register_reset save_register_edges register_push
      update read_var
  on_saves v room at = ground (arith, ==ℤ_refl k, ==ℤ_refl (list_at s k index))

sizes-scan_with : (s : Plc) (k : ℤ) (on : Bool) (v : ℤ) → (scan_with s k on v).sizes ≡ s.sizes
unfolding register_step register_in register_out register_reset save_register_edges register_push
sizes-scan_with s k on v = ground arith

module _ (s : Plc) (k n m : ℕ) (size : s.sizes.register_list_size ≡ suc n)
    (small : k * suc n + suc n < 1000000000) where
  next_list : list_at s (pos k) (pos (suc n)) ≡ list_at s (pos (suc k)) (pos 0)
  unfolding to_int ◌+ℤ◌ ◌*ℤ◌
  next_list = rw size (ground arith)

  index_past : wrap_index s (add_int (pos n) (pos 1)) ≡ pos (suc n)
  unfolding to_int ◌+ℤ◌
  index_past = rw size (ground arith)

  one_more : m < 1000000000 → add_int (pos m) (pos 1) ≡ pos (suc m)
  unfolding to_int ◌+ℤ◌
  one_more h = ground arith

  -- An index that passes the end of its list is set back one value too late. Where the next value of a
  -- register goes to the last cell of its list and there is room for two, and its first input was
  -- off, a value `v` that comes in goes to the last cell; after a scan with the input off, the value
  -- `w` that comes in next goes to the first cell of the list of the next register. In these three
  -- scans the other inputs are off. (All lists up to this one have less than 10 ^ 9 cells.)
  pub register_step_overruns :
      (v u w : ℤ)
      → IsAt s (pos k) (pos n) (pos m) false
      → m < n
      → let s1 = scan_with s (pos k) true v in
        let s3 = scan_with (scan_with s1 (pos k) false u) (pos k) true w in
        (s1.registers_lists_datas (list_at s (pos k) (pos n)) ≡ v)
        × (s3.registers_lists_datas (list_at s (pos (suc k)) (pos 0)) ≡ w)
  register_step_overruns v u w at room =
      let s1 = scan_with s (pos k) true v in
      let s2 = scan_with s1 (pos k) false u in
      let same : s2.sizes ≡ s.sizes =
        sizes-scan_with s1 (pos k) false u ∙ sizes-scan_with s (pos k) true v in
      let size' : s2.sizes.register_list_size ≡ suc n =
        ap (λ (z : Sizes). z.register_list_size) same ∙ size in
      let room1 : ltb_ℤ (pos m) (pos s.sizes.register_list_size) ≡ true = rw size (ground arith) in
      let room2 : ltb_ℤ (pos (suc m)) (pos s2.sizes.register_list_size) ≡ true =
        rw size' (ground arith) in
      let at1 : IsAt s1 (pos k) (pos (suc n)) (pos (suc m)) true =
        subst (λ i. IsAt s1 (pos k) i (pos (suc m)) true) index_past
          (subst (λ c. IsAt s1 (pos k) (wrap_index s (add_int (pos n) (pos 1))) c true)
            (one_more (omega arith)) (on-IsAt s (pos k) (pos n) (pos m) v room1 at)) in
      let at2 = off-IsAt s1 (pos k) (pos (suc n)) (pos (suc m)) u at1 in
      let cell : list_at s2 (pos k) (pos (suc n)) ≡ list_at s (pos (suc k)) (pos 0) =
        ap (λ (z : Sizes). mul_int (pos k) (pos z.register_list_size) +ℤ pos (suc n)) same
        ∙ next_list in
      (
        on_saves s (pos k) (pos n) (pos m) v room1 at,
        subst (λ i. (scan_with s2 (pos k) true w).registers_lists_datas i ≡ w) cell
            (on_saves s2 (pos k) (pos (suc n)) (pos (suc m)) w room2 at2),
      )
