-- ===== src/Master/Write.antt =====
-- The master writes holding registers of the slave: src/protocol_modbus_master.c with
-- src/protocol_modbus_slave.c.
use classicladder.Common.{
  ℤ, ℕ, zero, suc, pos, ◌+◌, ◌*◌, ◌/◌, ◌%◌, ◌≤◌, ◌<◌, ◌≡◌, refl, ap, ◌∙◌, List, ◌∷◌, length, arith,
  mod_ℤ, true, false, ==ℤ_refl, ◌*ℤ◌, ◌==◌,
}
use classicladder.State.{VarType, Plc}
use classicladder.Vars.{read_var}
use classicladder.Modbus.{buffer, word_at, bytes_of_words, write_word_list, high_byte, low_byte}
use classicladder.Modbus.Words.{write_answer, written}
use classicladder.Master.Config.{TypeReq, Master}
use classicladder.Master.Access.{first_ele, get_var_for_modbus, get_by_type}
use classicladder.Master.Ask.{
  req_of, var_of_ele, prep_pure_modbus_ask_for_current_req, ask_data, ask_write_hold_regs,
}
use classicladder.Master.Treat.{names_first, names_count, treat_by_code, treat_pure_modbus_response}
use classicladder.Master.Read.{var_num_lem, word_of_bytes, exchange}

length-bytes_of_words : (word : ℕ → ℤ) (n first : ℕ) → length (bytes_of_words word n first) ≡ n * 2
unfolding bytes_of_words
length-bytes_of_words word zero first = refl
length-bytes_of_words word (suc n) first = omega (arith, length-bytes_of_words word n (suc first))

-- the bytes of the question
abbrev write_question : (ℕ → ℤ) → ℕ → ℕ → List ℕ
write_question word f n =
    16
    ∷ f % 65536 / 256
    ∷ f % 256
    ∷ n % 65536 / 256
    ∷ n % 256
    ∷ n * 2 % 256
    ∷ bytes_of_words word n 0

twice : (n : ℕ) → pos n *ℤ pos 2 ≡ pos (n * 2)
unfolding ◌*ℤ◌
twice n = ground arith

bytes_back : (n : ℕ) → n < 65536 → high_byte n % 256 * 256 + low_byte n % 256 ≡ n
bytes_back n h = omega arith

module _ (m : Master) (s : Plc) (t : VarType) (base f n : ℕ)
    (kind : (req_of m).type_req ≡ TypeReq.hold_regs_write)
    (mapped : m.modbus_config.map_type_for_write_hold_regs ≡ t)
    (offset : (req_of m).offset_var_mapped ≡ pos base)
    (first : first_ele (m.modbus_config) (req_of m) ≡ pos f)
    (count : (req_of m).nbr_modbus_elements ≡ pos n) (short : f < 65536) (many : 2 ≤ n)
    (few : n ≤ 127) (in_range : f + 1 + n ≤ s.sizes.nbr_words) where
  abbrev sent : ℕ → ℤ
  unfolding var_of_ele
  sent = var_of_ele (m.modbus_config) (m.plc) (req_of m)

  sent_lem : (k : ℕ) → sent k ≡ read_var (m.plc) t (pos (base + k))
  unfolding sent var_of_ele get_var_for_modbus get_by_type
  sent_lem k = rw (kind, mapped, var_num_lem (m.modbus_config) (req_of m) base k offset) refl

  asked :
      prep_pure_modbus_ask_for_current_req m
      ≡ (record m { current_func_code = 16 }, write_question sent f n)
  unfolding prep_pure_modbus_ask_for_current_req ask_data ask_write_hold_regs sent
  asked =
      let several : (n == 1) ≡ false = ground arith in
      rw (kind, first, count) (rw (several, twice n) refl)

  -- the word at place `k` of the question
  word_sent :
      (k : ℕ)
      → k < n
      → word_at (buffer (write_question sent f n)) (6 + 2 * k)
        ≡ mod_ℤ (read_var (m.plc) t (pos (base + k))) 65536
  unfolding word_at
  word_sent k below =
      let place : 6 + 2 * k ≡ suc (suc (suc (suc (2 + k * 2)))) = omega arith in
      rw place (
        word_of_bytes sent (n % 256) (n * 2 % 256) n 0 k below
        ∙ ap (λ j. mod_ℤ (sent j) 65536) (omega arith)
        ∙ ap (λ v. mod_ℤ v 65536) (sent_lem k))

  exchanged :
      exchange m s ≡ (m.plc, (write_word_list (buffer (write_question sent f n)) n s f 6 0).0, true)
  unfolding exchange word_at treat_pure_modbus_response treat_by_code names_first names_count
  exchanged =
      let several : (n == 1) ≡ false = ground arith in
      let q = buffer (write_question sent f n) in
      let size : length (write_question sent f n) ≡ 6 + n * 2 =
        omega (arith, length-bytes_of_words sent n 0) in
      rw asked (
        rw size (
          rw
            (write_answer s q (6 + n * 2) f n refl (omega arith) (omega arith) (omega arith)
              in_range (omega arith) (omega arith))
            (rw (bytes_back f (omega arith), bytes_back n (omega arith), first, count)
              (rw (==ℤ_refl (pos f), ==ℤ_refl (pos n)) refl))))

  -- A request that writes holding registers, and that the slave answers, brings the variables of the
  -- master into the slave's memory words: the answer is accepted, the master's variables are
  -- unchanged, and each of the `n` words holds the variable of the same place, modulo 65536. The
  -- request is for 2 to 127 registers, which the slave has, and their first number fits 16 bits.
  pub master_writes_words :
      (k : ℕ)
      → k < n
      → let (mine, s', right) = exchange m s in
        (right ≡ true)
        × (mine ≡ m.plc)
        × (read_var s' VarType.mem_word (pos (f + k + 1))
            ≡ pos (mod_ℤ (read_var (m.plc) t (pos (base + k))) 65536))
  unfolding read_var
  master_writes_words k below = rw exchanged (
    refl,
    refl,
    written (buffer (write_question sent f n)) n s f 6 0 k below ∙ ap pos (word_sent k below),
  )
