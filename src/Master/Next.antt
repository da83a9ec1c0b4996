-- ===== src/Master/Next.antt =====
-- src/protocol_modbus_master.c: the choice of the next request, and of the next slave for the
-- statistics.
use classicladder.Common.{
  ℤ, ℕ, zero, suc, pos, negsuc, ◌+◌, ◌+ℤ◌, ◌==ℤ◌, ltb_ℤ, not, ◌&&◌, ◌||◌, if◌then◌else◌, Bool,
  for_below,
}
use classicladder.Master.Config.{Master, nbr_modbus_master_req, nbr_modbus_slaves, is_empty}

abbrev pub no_req : ℤ
no_req = negsuc 0

-- the slave of a request
abbrev pub slave_in_req : Master → ℤ → ℤ
slave_in_req m k = (m.modbus_master_req k).slave_list_num

-- an entry of the list of slaves that has an address
abbrev pub has_address : Master → ℤ → Bool
has_address m slave = not (is_empty (m.modbus_slave_list slave).slave_adr)

-- the requests that the loop counts as defined
abbrev pub is_asked : Master → ℤ → Bool
is_asked m k = not (slave_in_req m k ==ℤ no_req) && has_address m (slave_in_req m k)

-- ... and those that it stops at
abbrev pub is_accepted_req : Master → Bool → ℤ → ℤ → Bool
is_accepted_req m another slave_at_the_start k =
    is_asked m k && (not another || not (slave_in_req m k ==ℤ slave_at_the_start))

-- ++ReqSearched, with the wrap at the end of the table
abbrev pub next_req : ℤ → ℤ
next_req k = if ltb_ℤ (k +ℤ pos 1) (pos nbr_modbus_master_req) then k +ℤ pos 1 else pos 0

-- The loop, for the rounds that are left, with ReqSearched and FirstReqFound; and what is chosen
-- when it ends without a request found.
unfoldable pub search_req : Master → Bool → ℤ → ℕ → ℤ → ℤ → ℤ
search_req m another slave_at_the_start zero k first =
    if another && not (first ==ℤ no_req) then first else no_req
search_req m another slave_at_the_start (suc rounds) k first =
    let k' = next_req k in
    let first' = if is_asked m k' && (first ==ℤ no_req) then k' else first in
    let rest = search_req m another slave_at_the_start rounds k' first' in
    if is_accepted_req m another slave_at_the_start k' then k' else rest

unfoldable pub find_next_req_from_table : Master → Bool → Master
unfolding search_req
find_next_req_from_table m another = record m {
  current_req =
      search_req m another (slave_in_req m (m.current_req)) (nbr_modbus_master_req + 1)
        (m.current_req) no_req;
}

-- ++SlaveScan, with the wrap at the end of the list
abbrev pub next_slave : ℤ → ℤ
next_slave k = if ltb_ℤ (k +ℤ pos 1) (pos nbr_modbus_slaves) then k +ℤ pos 1 else pos 0

-- the SlaveScan that the loop ends with
unfoldable pub search_slave : Master → ℕ → ℤ → ℤ
search_slave m zero k = k
search_slave m (suc rounds) k =
    let k' = next_slave k in
    let rest = search_slave m rounds k' in if has_address m k' then k' else rest

unfoldable pub find_next_slave_for_stats : Master → Bool → Master × ℤ
unfolding search_slave
find_next_slave_for_stats m start =
    let from =
      if start || (m.current_slave_stats_asked ==ℤ negsuc 0)
      then negsuc 0
      else m.current_slave_stats_asked in
    let slave = search_slave m (nbr_modbus_slaves + 1) from in
    let asked = if has_address m slave then slave else negsuc 0 in
    (record m { current_slave_stats_asked = asked }, asked)

abbrev pub get_current_num_slave_for_stats : Master → ℤ
get_current_num_slave_for_stats m = m.current_slave_stats_asked

unfoldable pub get_nbr_total_slave_for_stats : Master → ℕ
unfolding for_below
get_nbr_total_slave_for_stats m =
    for_below nbr_modbus_slaves (λ k total. if has_address m (pos k) then suc total else total) 0
