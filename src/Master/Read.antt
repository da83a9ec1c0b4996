-- ===== src/Master/Read.antt =====
-- The master reads holding registers of the slave: src/protocol_modbus_master.c with
-- src/protocol_modbus_slave.c.
use classicladder.Common.{
  ℤ, ℕ, zero, suc, pos, negsuc, ◌+◌, ◌*◌, ◌/◌, ◌%◌, ◌≤◌, ◌<◌, ◌≡◌, refl, sym, ap, ◌∙◌, inr, List,
  [], ◌∷◌, length, arith, eq_of_parts, +ℤ_parts, -ℤ_parts, mod_ℤ, subst, Bool, true, false, ◌+ℤ◌,
  ◌-ℤ◌,
}
use classicladder.State.{VarType, Sizes, Plc}
use classicladder.Vars.{read_var, write_var, is_var_set}
use classicladder.Vars.RoundTrip.{
  IsOffset, is_plain, stored, read_var-write_var, read_var-write_var_ne, sizes-write_var,
  is_var_set-write_var,
}
use classicladder.Modbus.{
  Buffer, buffer, Function, word_at, bytes_of_words, get_var_for_modbus_slave,
  modbus_request_to_respond, high_byte_of_int, low_byte_of_int,
}
use classicladder.Modbus.Words.{read_answer}
use classicladder.Master.Config.{TypeReq, MasterReq, ModbusConfig, Master}
use classicladder.Master.Access.{first_ele, var_num, set_var_from_modbus, put_by_type}
use classicladder.Master.Ask.{req_of, prep_pure_modbus_ask_for_current_req, ask_data, ask_read}
use classicladder.Master.Treat.{
  read_words, treat_read_words, treat_by_code, treat_pure_modbus_response,
}

shift_back : (f : ℤ) (base i : ℕ) → f +ℤ pos i -ℤ f +ℤ pos base ≡ pos (base + i)
shift_back f base i = eq_of_parts _ _ (
    omega
      (arith, +ℤ_parts (f +ℤ pos i -ℤ f) (pos base), -ℤ_parts (f +ℤ pos i) f, +ℤ_parts f (pos i)))

pub var_num_lem :
    (c : ModbusConfig) (req : MasterReq) (base i : ℕ)
    → req.offset_var_mapped ≡ pos base
    → var_num c req (first_ele c req +ℤ pos i) ≡ pos (base + i)
var_num_lem c req base i e = rw e (shift_back (first_ele c req) base i)

word_of_its_bytes : (v : ℤ) → mod_ℤ v 65536 / 256 % 256 * 256 + mod_ℤ v 256 % 256 ≡ mod_ℤ v 65536
word_of_its_bytes (pos n) = omega arith
word_of_its_bytes (negsuc n) = omega arith

-- a word among the bytes of a list of words, behind two others
pub word_of_bytes :
    (word : ℕ → ℤ) (a b n first i : ℕ)
    → i < n
    → word_at (buffer (a ∷ b ∷ bytes_of_words word n first)) (2 + i * 2)
      ≡ mod_ℤ (word (first + i)) 65536
unfolding word_at bytes_of_words
word_of_bytes word a b zero first i h = absurd (omega arith)
word_of_bytes word a b (suc n) first zero h =
    word_of_its_bytes (word first) ∙ ap (λ k. mod_ℤ (word k) 65536) (omega arith)
word_of_bytes word a b (suc n) first (suc i) h =
    let step : 2 + suc i * 2 ≡ suc (suc (2 + i * 2)) = omega arith in
    let earlier =
      word_of_bytes word (high_byte_of_int (word first)) (low_byte_of_int (word first)) n
        (suc first) i (omega arith) in
    rw step (earlier ∙ ap (λ k. mod_ℤ (word k) 65536) (omega arith))

-- The loop over the words of an answer, for a request that reads holding registers into variables
-- of type `t`, from number `base` on.
module _ (c : ModbusConfig) (req : MasterReq) (resp : Buffer) (t : VarType) (base : ℕ)
    (kind : req.type_req ≡ TypeReq.hold_regs_read) (mapped : c.map_type_for_read_hold_regs ≡ t)
    (offset : req.offset_var_mapped ≡ pos base) where
  put_word_lem :
      (s : Plc) (i : ℕ) (v : ℤ)
      → set_var_from_modbus c s req (first_ele c req +ℤ pos i) v ≡ write_var s t (pos (base + i)) v
  unfolding set_var_from_modbus put_by_type
  put_word_lem s i v = rw (kind, mapped, var_num_lem c req base i offset) refl

  -- the variables from `base` on, `total` of them, are variables of the type
  abbrev AreOffsets : Sizes → ℕ → Type 0
  AreOffsets z total = (k : ℕ) → k < total → IsOffset z t (base + k)

  AreOffsets-write_var :
      (s : Plc) (i v : ℤ) (total : ℕ)
      → AreOffsets s.sizes total
      → AreOffsets (write_var s t i v).sizes total
  AreOffsets-write_var s i v total fits =
      subst (λ z. AreOffsets z total) (sym (sizes-write_var s t i v)) fits

  kept_below :
      (total n i j : ℕ) (s : Plc)
      → AreOffsets s.sizes total
      → i + n ≤ total
      → j < i
      → read_var (read_words c req resp n i s) t (pos (base + j)) ≡ read_var s t (pos (base + j))
  unfolding read_words
  kept_below total zero i j s fits h below = refl
  kept_below total (suc n) i j s fits h below =
      let v = pos (word_at resp (2 + i * 2)) in
      rw (put_word_lem s i v) (
        kept_below total n (suc i) j _ (AreOffsets-write_var s (pos (base + i)) v total fits)
          (omega arith) (omega arith)
        ∙ read_var-write_var_ne s t t (base + i) (base + j) v (fits i (omega arith))
            (fits j (omega arith)) (inr (λ e. absurd (omega (arith, e)))))

  read_word :
      (total n i k : ℕ) (s : Plc)
      → AreOffsets s.sizes total
      → ((j : ℤ) → is_var_set s t j ≡ false)
      → is_plain t ≡ true
      → i + n ≤ total
      → k < n
      → read_var (read_words c req resp n i s) t (pos (base + (i + k)))
        ≡ stored t (pos (word_at resp (2 + (i + k) * 2)))
  unfolding read_words
  read_word total zero i k s fits free plain h below = absurd (omega arith)
  read_word total (suc n) i zero s fits free plain h below =
      let v = pos (word_at resp (2 + i * 2)) in
      let same : i + 0 ≡ i = omega arith in
      rw (put_word_lem s i v, same)
        (kept_below total n (suc i) i _ (AreOffsets-write_var s (pos (base + i)) v total fits)
            (omega arith) (omega arith)
          ∙ read_var-write_var s t (pos (base + i)) v plain (free (pos (base + i))))
  read_word total (suc n) i (suc k) s fits free plain h below =
      let v = pos (word_at resp (2 + i * 2)) in
      let next : i + suc k ≡ suc i + k = omega arith in
      rw (put_word_lem s i v, next)
        (read_word total n (suc i) k _ (AreOffsets-write_var s (pos (base + i)) v total fits)
          (λ j. is_var_set-write_var s t t (pos (base + i)) j v ∙ free j) plain (omega arith)
          (omega arith))

-- One request of the master `m` that the slave `s` answers: the variables of the master and of the
-- slave after it, and whether the answer is accepted.
unfoldable pub exchange : Master → Plc → Plc × Plc × Bool
unfolding prep_pure_modbus_ask_for_current_req modbus_request_to_respond treat_pure_modbus_response
exchange m s =
    let (m', question) = prep_pure_modbus_ask_for_current_req m in
    let (s', answer) = modbus_request_to_respond s (buffer question) (length question) in
    let (mine, right) = treat_pure_modbus_response m' (buffer answer) (pos (length answer)) in
    (mine, s', right)

asked :
    (m : Master) (f n : ℕ)
    → (req_of m).type_req ≡ TypeReq.hold_regs_read
    → first_ele (m.modbus_config) (req_of m) ≡ pos f
    → (req_of m).nbr_modbus_elements ≡ pos n
    → prep_pure_modbus_ask_for_current_req m ≡ (
      record m { current_func_code = 3 },
      3 ∷ f % 65536 / 256 ∷ f % 256 ∷ n % 65536 / 256 ∷ n % 256 ∷ [],
    )
unfolding prep_pure_modbus_ask_for_current_req ask_data ask_read
asked m f n kind first count = rw (kind, first, count) refl

-- the answer of the slave
abbrev words_answer : Plc → ℕ → ℕ → List ℕ
words_answer s f n =
    3 ∷ n * 2 % 256 ∷ bytes_of_words (get_var_for_modbus_slave s Function.read_words) n f

module _ (m : Master) (s : Plc) (t : VarType) (base f n : ℕ)
    (kind : (req_of m).type_req ≡ TypeReq.hold_regs_read)
    (mapped : m.modbus_config.map_type_for_read_hold_regs ≡ t)
    (offset : (req_of m).offset_var_mapped ≡ pos base)
    (first : first_ele (m.modbus_config) (req_of m) ≡ pos f)
    (count : (req_of m).nbr_modbus_elements ≡ pos n) (short : f < 65536) (few : n ≤ 127)
    (in_range : f + 1 + n ≤ s.sizes.nbr_words)
    (fits : (k : ℕ) → k < n → IsOffset m.plc.sizes t (base + k))
    (free : (j : ℤ) → is_var_set m.plc t j ≡ false) (plain : is_plain t ≡ true) where
  exchanged :
      exchange m s
      ≡ (read_words (m.modbus_config) (req_of m) (buffer (words_answer s f n)) n 0 (m.plc), s, true)
  unfolding exchange word_at treat_pure_modbus_response treat_by_code treat_read_words
  exchanged = rw (asked m f n kind first count) (
      rw
        (read_answer s (buffer (3 ∷ f % 65536 / 256 ∷ f % 256 ∷ n % 65536 / 256 ∷ n % 256 ∷ [])) 5 f
          n refl (omega arith) (omega arith) (omega arith) in_range (omega arith))
        (let words : n * 2 % 256 % 256 / 2 ≡ n = omega arith in rw words refl))

  -- A request for holding registers that the slave answers brings its words into the variables of
  -- the master: the answer is accepted, the slave is unchanged, and each of the `n` variables that
  -- the request is mapped to holds the slave's memory word of the same place, modulo 65536 (and
  -- reduced to a `char` where the variable is one). The request is for at most 127 registers, which the
  -- slave has, their first number fits 16 bits, and the master's variables are variables of a type
  -- that is stored as it is, none of them forced.
  pub master_reads_words :
      (k : ℕ)
      → k < n
      → let (mine, s', right) = exchange m s in
        (right ≡ true)
        × (s' ≡ s)
        × (read_var mine t (pos (base + k))
            ≡ stored t (pos (mod_ℤ (read_var s VarType.mem_word (pos (f + k + 1))) 65536)))
  unfolding get_var_for_modbus_slave
  master_reads_words k below =
      let answer = buffer (words_answer s f n) in
      rw exchanged (
        refl,
        refl,
        ap
              (λ j.
                read_var (read_words (m.modbus_config) (req_of m) answer n 0 (m.plc)) t
                  (pos (base + j)))
              (omega arith)
            ∙ read_word (m.modbus_config) (req_of m) answer t base kind mapped offset n n 0 k
                (m.plc) fits free plain (omega arith) below
            ∙ ap (λ j. stored t (pos (word_at answer (2 + j * 2)))) (omega arith)
            ∙ ap (λ v. stored t (pos v))
                (word_of_bytes (get_var_for_modbus_slave s Function.read_words) 3 (n * 2 % 256) n f
                  k below),
      )
