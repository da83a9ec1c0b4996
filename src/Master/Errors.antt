-- ===== src/Master/Errors.antt =====
-- The slaves that do not answer (src/protocol_modbus_master.c, TreatModbusMasterResponse).
use classicladder.Common.{
  if◌then◌else◌, ℤ, ℕ, zero, suc, pos, ◌<◌, ◌≡◌, refl, ap, ◌∙◌, Bool, true, false, Bool-cases, inr,
  ◌==ℤ◌, arith, ◌+ℤ◌, inl, to_bool, to_char, not, ltb_ℤ, add_int, to_int,
}
use classicladder.State.{VarType, Plc}
use classicladder.Vars.{is_var_set}
use classicladder.Vars.RoundTrip.{read_var-write_var}
use classicladder.Modbus.{Buffer}
use classicladder.Master.Config.{Master}
use classicladder.Master.Next.{
  no_req, slave_in_req, is_accepted_req, next_req, search_req, find_next_req_from_table,
}
use classicladder.Master.Access.{get_error_var_modbus_slave, set_error_var_modbus_slave}
use classicladder.Master.Receive.{
  treat_frame, count_error, accept_response, put_plc, treat_modbus_master_response,
}

-- after a question without an answer
abbrev pub no_answer : Buffer → Master → Master
unfolding treat_modbus_master_response
no_answer resp m = (treat_modbus_master_response m resp (pos 0)).0

get_error-set_error :
    (s : Plc) (slave : ℤ) (b : Bool)
    → get_error_var_modbus_slave
        (set_error_var_modbus_slave s slave (if b then pos 1 else pos 0))
        slave
      ≡ (if b then pos 1 else pos 0)
unfolding get_error_var_modbus_slave set_error_var_modbus_slave is_var_set to_char
get_error-set_error s slave true =
    read_var-write_var s VarType.system (pos 10 +ℤ slave) (pos 1) refl refl
get_error-set_error s slave false =
    read_var-write_var s VarType.system (pos 10 +ℤ slave) (pos 0) refl refl

-- the choice of a request does not depend on the variables nor on the count of errors
search_req-record :
    (m : Master) (s : Plc) (e : ℤ) (another : Bool) (start : ℤ) (n : ℕ) (k first : ℤ)
    → search_req (record m { plc = s; error_cnt = e }) another start n k first
      ≡ search_req m another start n k first
unfolding search_req
search_req-record m s e another start zero k first = refl
search_req-record m s e another start (suc n) k first =
    ap (λ r. if is_accepted_req m another start (next_req k) then next_req k else r)
      (search_req-record m s e another start n (next_req k) _)

find_next-record :
    (m : Master) (s : Plc) (e : ℤ) (another : Bool)
    → (find_next_req_from_table (record m { plc = s; error_cnt = e }) another).current_req
      ≡ (find_next_req_from_table m another).current_req
unfolding find_next_req_from_table
find_next-record m s e another = search_req-record m s e another _ 21 _ no_req

abbrev pub slave_of : Master → ℤ
slave_of m = slave_in_req m (m.current_req)

-- what a question without an answer does to `m` when it gives `m'` in the end: no error is counted,
-- the request is the next one, and the slave's error variable is set
abbrev pub GivesUp : Master → Master → Type 0
GivesUp m m' =
    (m'.error_cnt ≡ pos 0)
    × (m'.current_req ≡ (find_next_req_from_table m true).current_req)
    × (get_error_var_modbus_slave (m'.plc) (slave_of m) ≡ pos 1)

module _ (resp : Buffer) (m : Master) (current : (m.current_req ==ℤ no_req) ≡ false) where
  silent : no_answer resp m ≡ count_error m true
  unfolding no_answer treat_modbus_master_response treat_frame
  silent = rw (no_answer, current) refl

  -- the first two questions without an answer
  waits :
      (e : ℕ)
      → e < 2
      → m.error_cnt ≡ pos e
      → get_error_var_modbus_slave (m.plc) (slave_of m) ≡ pos 0
      → no_answer resp m ≡ record m { error_cnt = pos (suc e) }
  unfolding count_error to_int ◌+ℤ◌
  waits zero h cnt good = silent ∙ rw (cnt, good) refl
  waits (suc zero) h cnt good = silent ∙ rw (cnt, good) refl
  waits (suc (suc e)) h cnt good = absurd (omega arith)

  -- the third, and the first of a slave that is in error
  gives_up :
      not (
          ltb_ℤ
            (add_int (m.error_cnt) (pos 1))
            (if to_bool (get_error_var_modbus_slave (m.plc) (slave_of m)) then pos 1 else pos 3))
        ≡ true
      → GivesUp m (no_answer resp m)
  unfolding count_error
  gives_up late = rw silent (
      rw late (
        refl,
        find_next-record m (m.plc) (pos 0) true,
        get_error-set_error (m.plc) (slave_of m) true,
      ))

  answered :
      (lgt : ℤ)
      → (treat_modbus_master_response m resp lgt).1 ≡ true
      → (treat_modbus_master_response m resp lgt).0
        ≡ accept_response (put_plc m (treat_frame m resp lgt).0)
  unfolding treat_modbus_master_response
  answered lgt right = elim (Bool-cases (treat_frame m resp lgt).1) [
    | inl accepted ↦ rw current (rw accepted refl)
    | inr refused ↦
        let clash : (treat_modbus_master_response m resp lgt).1 ≡ false =
          rw current (rw refused refl) in
        absurd cc
  ]

module _ (resp : Buffer) (m : Master) (current : (m.current_req ==ℤ no_req) ≡ false) where
  -- When a slave that is not in error leaves three questions without an answer, and no error was
  -- counted before, the first two only count: the third sets the slave's error variable, sets the count
  -- to 0, and goes on to the next request, of another slave when there is one.
  pub three_silences :
      m.error_cnt ≡ pos 0
      → get_error_var_modbus_slave (m.plc) (slave_of m) ≡ pos 0
      → let m2 = no_answer resp (no_answer resp m) in
        (m2 ≡ record m { error_cnt = pos 2 }) × GivesUp m (no_answer resp m2)
  unfolding to_int ◌+ℤ◌
  three_silences cnt good =
      let m2 = record m { error_cnt = pos 2 } in
      let two : no_answer resp (no_answer resp m) ≡ m2 =
        ap (no_answer resp) (waits resp m current 0 (omega arith) cnt good)
        ∙ waits resp (record m { error_cnt = pos 1 }) current 1 (omega arith) refl good in
      let late = gives_up resp m2 current (rw good refl) in
      rw two (refl, (late.0, late.1 ∙ find_next-record m (m.plc) (pos 2) true, late.2))

  -- After an answer that is accepted, the error variable of the slave is 0, no error is counted, and
  -- the next request of the table is the current one.
  pub answer_clears :
      (lgt : ℤ)
      → (treat_modbus_master_response m resp lgt).1 ≡ true
      → let m' = (treat_modbus_master_response m resp lgt).0 in
        (m'.error_cnt ≡ pos 0)
        × (m'.current_req ≡ (find_next_req_from_table m false).current_req)
        × (get_error_var_modbus_slave (m'.plc) (slave_of m) ≡ pos 0)
  unfolding accept_response
  answer_clears lgt right = rw (answered resp m current lgt right) (
    refl,
    find_next-record m (treat_frame m resp lgt).0 (pos 0) false,
    get_error-set_error (treat_frame m resp lgt).0 (slave_of m) false,
  )
