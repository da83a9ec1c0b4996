-- ===== src/Modbus/Words.antt =====
-- Words over Modbus (src/protocol_modbus_slave.c): what a request wrote is what the next one reads.
use classicladder.Common.{
  ℤ, ℕ, zero, suc, pos, ◌+◌, ◌*◌, ◌/◌, ◌%◌, ◌≤◌, ◌<◌, ◌≡◌, refl, ap, ◌∙◌, List, [], ◌∷◌, arith,
  if◌then◌else◌, ◌==◌, update, mod_ℤ, subst,
}
use classicladder.State.{Sizes, Plc}
use classicladder.Modbus.Access.{
  Function, function_of, get_modbus_slave_nbr_vars, get_var_for_modbus_slave,
  set_var_from_modbus_slave,
}
use classicladder.Modbus.Frame.{
  Buffer, word_at, bytes_of_words, write_word_list, high_byte, low_byte,
}
use classicladder.Modbus.Respond.{
  respond, respond_read_words, respond_write_words, read_words_code, write_words_code,
  modbus_request_to_respond,
}

set_word :
    (s : Plc) (num j : ℕ) (v : ℤ)
    → (set_var_from_modbus_slave s Function.write_words num v).var_word_array (pos j)
      ≡ (if num + 1 == j then v else s.var_word_array (pos j))
unfolding set_var_from_modbus_slave update
set_word s num j v = refl

written_below :
    (q : Buffer) (n : ℕ) (s : Plc) (first off v j : ℕ)
    → j ≤ first
    → (write_word_list q n s first off v).0.var_word_array (pos j) ≡ s.var_word_array (pos j)
unfolding write_word_list
written_below q zero s first off v j h = refl
written_below q (suc n) s first off v j h =
    written_below q n _ (suc first) (off + 2) _ j (omega arith)
    ∙ set_word s first j (pos (word_at q off))
    ∙ ground arith

pub written :
    (q : Buffer) (n : ℕ) (s : Plc) (first off v k : ℕ)
    → k < n
    → (write_word_list q n s first off v).0.var_word_array (pos (first + k + 1))
      ≡ pos (word_at q (off + 2 * k))
unfolding write_word_list
written q zero s first off v k h = absurd (omega arith)
written q (suc n) s first off v zero h =
    written_below q n _ (suc first) (off + 2) _ (first + 0 + 1) (omega arith)
    ∙ set_word s first (first + 0 + 1) (pos (word_at q off))
    ∙ ground arith
written q (suc n) s first off v (suc k) h =
    subst
      (λ j.
        (write_word_list q (suc n) s first off v).0.var_word_array (pos j)
        ≡ pos (word_at q (off + 2 * suc k)))
      (omega arith)
      (written q n _ (suc first) (off + 2) _ k (omega arith)
        ∙ ap (λ j. pos (word_at q j)) (omega arith))

-- the answer to a request that reads words in range
pub read_answer :
    (s : Plc) (q : Buffer) (lgt first n : ℕ)
    → q 0 % 256 ≡ 3
    → word_at q 1 ≡ first
    → word_at q 3 ≡ n
    → 5 ≤ lgt
    → first + 1 + n ≤ s.sizes.nbr_words
    → n ≤ 200
    → modbus_request_to_respond s q lgt ≡ (
      s,
      3 ∷ n * 2 % 256 ∷ bytes_of_words (get_var_for_modbus_slave s Function.read_words) n first,
    )
unfolding modbus_request_to_respond respond respond_read_words read_words_code function_of
    get_modbus_slave_nbr_vars
read_answer s q lgt first n function e k long in_range few = rw (function, e, k) (ground arith)

-- the answer to a request that writes words in range
pub write_answer :
    (s : Plc) (q : Buffer) (lgt first n : ℕ)
    → q 0 % 256 ≡ 16
    → word_at q 1 ≡ first
    → word_at q 3 ≡ n
    → 8 ≤ lgt
    → first + 1 + n ≤ s.sizes.nbr_words
    → n ≤ 200
    → n * 2 ≤ q 5 % 256
    → modbus_request_to_respond s q lgt ≡ (
      (write_word_list q n s first 6 0).0,
      16 ∷ high_byte first ∷ low_byte first ∷ high_byte n ∷ low_byte n ∷ [],
    )
unfolding modbus_request_to_respond respond respond_write_words write_words_code function_of
    get_modbus_slave_nbr_vars
write_answer s q lgt first n function e k long in_range few enough =
    rw (function, e, k) (ground arith)

-- the bytes of `n` words of the buffer, from `off` on
abbrev pub data_bytes : Buffer → ℕ → ℕ → List ℕ
data_bytes q zero off = []
data_bytes q (suc n) off = q off % 256 ∷ q (suc off) % 256 ∷ data_bytes q n (off + 2)

word_bytes :
    (q : Buffer) (off : ℕ)
    → (mod_ℤ (pos (word_at q off)) 65536 / 256 ≡ q off % 256)
      × (mod_ℤ (pos (word_at q off)) 256 ≡ q (suc off) % 256)
unfolding word_at
word_bytes q off = omega arith

bytes_of_written :
    (q : Buffer) (word : ℕ → ℤ) (n first off : ℕ)
    → ((k : ℕ) → k < n → word (first + k) ≡ pos (word_at q (off + 2 * k)))
    → bytes_of_words word n first ≡ data_bytes q n off
unfolding bytes_of_words
bytes_of_written q word zero first off h = refl
bytes_of_written q word (suc n) first off h =
    let here : word first ≡ pos (word_at q off) =
      ap word (omega arith) ∙ h 0 (omega arith) ∙ ap (λ j. pos (word_at q j)) (omega arith) in
    let later : bytes_of_words word n (suc first) ≡ data_bytes q n (off + 2) =
      bytes_of_written q word n (suc first) (off + 2) (λ k l.
        ap word (omega arith)
        ∙ h (suc k) (omega arith)
        ∙ ap (λ j. pos (word_at q j)) (omega arith)) in
    rw (here, later, (word_bytes q off).0, (word_bytes q off).1) refl

sizes-write_word_list :
    (q : Buffer) (n : ℕ) (s : Plc) (first off v : ℕ)
    → (write_word_list q n s first off v).0.sizes ≡ s.sizes
unfolding write_word_list set_var_from_modbus_slave
sizes-write_word_list q zero s first off v = refl
sizes-write_word_list q (suc n) s first off v = sizes-write_word_list q n _ (suc first) (off + 2) _

module _ (s : Plc) (q q' : Buffer) (lgt lgt' : ℕ) (function : q 0 % 256 ≡ 16)
    (function' : q' 0 % 256 ≡ 3) (same_first : word_at q' 1 ≡ word_at q 1)
    (same_count : word_at q' 3 ≡ word_at q 3) (long : 8 ≤ lgt) (long' : 5 ≤ lgt')
    (in_range : word_at q 1 + 1 + word_at q 3 ≤ s.sizes.nbr_words) (few : word_at q 3 ≤ 200)
    (enough : word_at q 3 * 2 ≤ q 5 % 256) where
  stored_words : Plc
  stored_words = (write_word_list q (word_at q 3) s (word_at q 1) 6 0).0

  sizes-stored_words : stored_words.sizes ≡ s.sizes
  unfolding stored_words
  sizes-stored_words = sizes-write_word_list q (word_at q 3) s (word_at q 1) 6 0

  read_data :
      bytes_of_words
        (get_var_for_modbus_slave stored_words Function.read_words)
        (word_at q 3)
        (word_at q 1)
      ≡ data_bytes q (word_at q 3) 6
  unfolding stored_words get_var_for_modbus_slave
  read_data =
      bytes_of_written q _ (word_at q 3) (word_at q 1) 6
        (λ k h. written q (word_at q 3) s (word_at q 1) 6 0 k h)

  -- What a request of function 16 wrote, a request of function 3 for the same words reads back byte by
  -- byte: the response is the function code, the count of bytes (modulo 256) and the data of the
  -- first request. (Both requests are long enough, name the same words, all in range and at most 200,
  -- and the first announces at least as many data bytes as it needs.)
  pub words_roundtrip :
      (modbus_request_to_respond (modbus_request_to_respond s q lgt).0 q' lgt').1
      ≡ 3 ∷ word_at q 3 * 2 % 256 ∷ data_bytes q (word_at q 3) 6
  unfolding stored_words write_word_list
  words_roundtrip =
      ap (λ (r : Plc × List ℕ). (modbus_request_to_respond r.0 q' lgt').1)
        (write_answer s q lgt (word_at q 1) (word_at q 3) function refl refl long in_range few
          enough)
      ∙ ap (λ (r : Plc × List ℕ). r.1)
          (read_answer stored_words q' lgt' (word_at q 1) (word_at q 3) function' same_first
            same_count long' (omega (arith, ap (λ (z : Sizes). z.nbr_words) sizes-stored_words))
            few)
      ∙ rw read_data refl
