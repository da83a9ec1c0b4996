-- ===== src/Block/Stack.antt =====
-- A register in the LIFO mode (CalcTypeRegister, src/calc.c) as a stack.
use classicladder.Common.{
  ℤ, suc, pos, ◌<◌, ◌≤◌, ◌≡◌, refl, subst, ap, ap₂, update_self, ◌∙◌, List, [], ◌∷◌, length, Bool,
  true, false, ltb, ◌&&◌, not, if◌then◌else◌, Bool-cases, inl, inr, ◌+ℤ◌, ltb_ℤ, ==ℤ_refl, update,
  arith,
}
use classicladder.State.{RegisterMode, Register, Plc}
use classicladder.Block.Register.{
  register_push, register_pop, register_in, register_out, register_reset, save_register_edges,
  register_step,
}
use classicladder.Block.Lifo.{
  values_down, base_of, values_below, push_lem, pop_lem, reset_lem, sizes-register_pop,
  sizes-register_reset, value_out-reset,
}

-- The register holds the stack `l`, the newest value first.
pub record IsStack (s : Plc) (k : ℤ) (l : List ℤ) : Type 0 where
  pub mode : (s.register_array k).register_mode ≡ RegisterMode.lifo
  pub saved : (s.register_array k).nbr_values_saved ≡ pos (length l)
  pub first : (s.register_array k).first_value_index ≡ pos (length l)
  pub fits : length l ≤ s.sizes.register_list_size
  pub small : s.sizes.register_list_size < 1000000000
  pub held : values_down s.registers_lists_datas (base_of s k) (length l) ≡ l

-- the edges of the two inputs
abbrev pub in_edge : Register → Bool
in_edge r = r.input_in && not r.input_in_bak

abbrev pub out_edge : Register → Bool
out_edge r = r.input_out && not r.input_out_bak

abbrev pub tail : List ℤ → List ℤ
tail [] = []
tail (v ∷ l) = l

abbrev pub head_or : List ℤ → ℤ → ℤ
head_or [] d = d
head_or (v ∷ l) d = v

-- the stack after the edge of the first input
abbrev pub pushed : Plc → Register → List ℤ → List ℤ
pushed s r l = if in_edge r && ltb (length l) s.sizes.register_list_size then r.value_in ∷ l else l

same_fields :
    (r : Register) (a b : ℤ)
    → r.nbr_values_saved ≡ a
    → r.first_value_index ≡ b
    → r ≡ record r { nbr_values_saved = a; first_value_index = b }
same_fields r a b p q = ap₂ (λ x y. record r { nbr_values_saved = x; first_value_index = y }) p q

push-IsStack :
    (s : Plc) (k : ℤ) (l : List ℤ)
    → IsStack s k l
    → length l < s.sizes.register_list_size
    → IsStack (register_push s k) k ((s.register_array k).value_in ∷ l)
unfolding register_push
push-IsStack s k l h room =
    let (regs, datas) = push_lem s k (length l) h.saved h.first room (ground (arith, h.small)) in
    record {
      mode = ap (λ (r : Register). r.register_mode) regs ∙ h.mode;
      saved = ap (λ (r : Register). r.nbr_values_saved) regs;
      first = ap (λ (r : Register). r.first_value_index) regs;
      fits = room;
      small = h.small;
      held =
          ap (λ d. values_down d (base_of s k) (suc (length l))) datas
          ∙ rw
              (
                update_self s.registers_lists_datas (base_of s k +ℤ pos (length l))
                    (s.register_array k).value_in,
                values_below s.registers_lists_datas (base_of s k) (s.register_array k).value_in
                    (length l) (length l) (omega arith),
                h.held,
              )
              refl;
    }

in_lem :
    (s : Plc) (k : ℤ) (l : List ℤ)
    → IsStack s k l
    → let r = s.register_array k in
      let l' = pushed s r l in
      IsStack (register_in s k) k l'
      × ((register_in s k).register_array k
          ≡ record r { nbr_values_saved = pos (length l'); first_value_index = pos (length l') })
unfolding register_in
in_lem s k l h =
    let r = s.register_array k in
    elim (Bool-cases (in_edge r && ltb (length l) s.sizes.register_list_size)) [
      | inl e ↦
          let (regs, datas) =
            push_lem s k (length l) h.saved h.first (ground arith) (ground (arith, h.small)) in
          let test : (r.input_in
                && (not r.input_in_bak
                    && ltb_ℤ r.nbr_values_saved (pos s.sizes.register_list_size)))
              ≡ true =
            rw h.saved (ground arith) in
          rw (test, e) (push-IsStack s k l h (ground arith), regs)
      | inr e ↦
          let test : (r.input_in
                && (not r.input_in_bak
                    && ltb_ℤ r.nbr_values_saved (pos s.sizes.register_list_size)))
              ≡ false =
            rw h.saved (ground arith) in
          rw (test, e) (h, same_fields r _ _ h.saved h.first)
    ]

pop-IsStack :
    (s : Plc) (k v : ℤ) (l : List ℤ)
    → IsStack s k (v ∷ l)
    → IsStack (register_pop s k) k l
      × ((register_pop s k).register_array k ≡ record (s.register_array k) {
        nbr_values_saved = pos (length l);
        first_value_index = pos (length l);
        value_out = v;
      })
pop-IsStack s k v l h =
    let n = length l in
    let (regs, datas) = pop_lem s k n h.mode h.saved h.first (ground (arith, h.small, h.fits)) in
    (
      record {
        mode = ap (λ (r : Register). r.register_mode) regs ∙ h.mode;
        saved = ap (λ (r : Register). r.nbr_values_saved) regs;
        first = ap (λ (r : Register). r.first_value_index) regs;
        fits = rw (sizes-register_pop s k) (omega (arith, h.fits));
        small = rw (sizes-register_pop s k) h.small;
        held = rw (sizes-register_pop s k, datas) (ap tail h.held);
      },
      regs
          ∙ ap
              (λ w. record (s.register_array k) {
                nbr_values_saved = pos n;
                first_value_index = pos n;
                value_out = w;
              })
              (ap (λ x. head_or x v) h.held),
    )

out_lem :
    (s : Plc) (k : ℤ) (l : List ℤ)
    → IsStack s k l
    → let r = s.register_array k in
      let l' = if out_edge r then tail l else l in
      IsStack (register_out s k) k l'
      × ((register_out s k).register_array k ≡ record r {
        nbr_values_saved = pos (length l');
        first_value_index = pos (length l');
        value_out = if out_edge r then head_or l r.value_out else r.value_out;
      })
unfolding register_out
out_lem s k [] h =
    let r = s.register_array k in
    let test : (r.input_out && (not r.input_out_bak && ltb_ℤ (pos 0) r.nbr_values_saved)) ≡ false =
      rw h.saved (ground arith) in
    elim (Bool-cases (out_edge r)) [
      | inl e ↦ rw (test, e) (h, same_fields r _ _ h.saved h.first)
      | inr e ↦ rw (test, e) (h, same_fields r _ _ h.saved h.first)
    ]
out_lem s k (v ∷ l) h =
    let r = s.register_array k in
    elim (Bool-cases (out_edge r)) [
      | inl e ↦
          let test : (r.input_out && (not r.input_out_bak && ltb_ℤ (pos 0) r.nbr_values_saved))
              ≡ true =
            rw h.saved (ground arith) in
          rw (test, e) (pop-IsStack s k v l h)
      | inr e ↦
          let test : (r.input_out && (not r.input_out_bak && ltb_ℤ (pos 0) r.nbr_values_saved))
              ≡ false =
            ground arith in
          rw (test, e) (h, same_fields r _ _ h.saved h.first)
    ]

reset-IsStack :
    (s : Plc) (k : ℤ) (l : List ℤ)
    → IsStack s k l
    → IsStack (register_reset s k) k (if (s.register_array k).input_reset then [] else l)
reset-IsStack s k l h =
    let r = s.register_array k in
    let (regs, datas) = reset_lem s k in
    elim (Bool-cases r.input_reset) [
      | inl e ↦
          let now : (register_reset s k).register_array k ≡ record r {
            nbr_values_saved = pos 0;
            first_value_index = pos 0;
            latest_value_index = pos 0;
            value_out = pos 0;
          } =
            regs ∙ rw e refl in
          rw e (record {
            mode = ap (λ (x : Register). x.register_mode) now ∙ h.mode;
            saved = ap (λ (x : Register). x.nbr_values_saved) now;
            first = ap (λ (x : Register). x.first_value_index) now;
            fits = omega arith;
            small = rw (sizes-register_reset s k) h.small;
            held = refl;
          })
      | inr e ↦
          let now : (register_reset s k).register_array k ≡ r = regs ∙ rw e refl in
          rw e (record {
            mode = ap (λ (x : Register). x.register_mode) now ∙ h.mode;
            saved = ap (λ (x : Register). x.nbr_values_saved) now ∙ h.saved;
            first = ap (λ (x : Register). x.first_value_index) now ∙ h.first;
            fits = rw (sizes-register_reset s k) h.fits;
            small = rw (sizes-register_reset s k) h.small;
            held = rw (sizes-register_reset s k, datas) h.held;
          })
    ]

edges-IsStack :
    (s : Plc) (k : ℤ) (l : List ℤ) → IsStack s k l → IsStack (save_register_edges s k) k l
unfolding save_register_edges update
edges-IsStack s k l h = record {
  mode = rw (==ℤ_refl k) h.mode;
  saved = rw (==ℤ_refl k) h.saved;
  first = rw (==ℤ_refl k) h.first;
  fits = h.fits;
  small = h.small;
  held = h.held;
}

-- A register in the LIFO mode is a stack of at most its size: an edge of the first input pushes the
-- input value where there is room, an edge of the second pops the newest value, if there is one, into
-- the output value, and a reset empties the stack and the output value. Of two edges in one scan
-- the push comes first. (The size is below 10 ^ 9.)
pub register_step-IsStack :
    (s : Plc) (k : ℤ) (l : List ℤ)
    → IsStack s k l
    → let r = s.register_array k in
      let l' = pushed s r l in
      IsStack
        (register_step s k)
        k
        (if r.input_reset then [] else if out_edge r then tail l' else l')
      × (((register_step s k).register_array k).value_out ≡ (
          if r.input_reset
          then pos 0
          else if out_edge r
          then head_or l' r.value_out
          else r.value_out))
unfolding register_step
register_step-IsStack s k l h =
    let r = s.register_array k in
    let l' = pushed s r l in
    let s1 = register_in s k in
    let s2 = register_out s1 k in
    let (h1, r1) = in_lem s k l h in
    let (h2, r2) = out_lem s1 k l' h1 in
    let same_edge : out_edge (s1.register_array k) ≡ out_edge r = ap out_edge r1 in
    let same_reset : (s2.register_array k).input_reset ≡ r.input_reset =
      ap (λ (x : Register). x.input_reset) r2 ∙ ap (λ (x : Register). x.input_reset) r1 in
    (
      subst
          (λ (b : Bool × Bool).
            IsStack (register_step s k) k (if b.0 then [] else if b.1 then tail l' else l'))
          (ap₂ (λ x y. (x, y)) same_reset same_edge)
          (edges-IsStack (register_reset s2 k) k _ (reset-IsStack s2 k _ h2)),
      value_out-reset s2 k
          ∙ rw
              (
                same_reset,
                ap (λ (x : Register). x.value_out) r2,
                same_edge,
                ap (λ (x : Register). x.value_out) r1,
              )
              refl,
    )
