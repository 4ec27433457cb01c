-- ===== src/Swim/Probes.antt =====
-- The loops of internal/swim/swim.go that run on timers: probes, suspicion and gossip, and what the
-- application sends.
use geryon.Base.{
  ℕ, suc, ◌%◌, ◌-◌, Bool, true, false, List, [], ◌∷◌, ◌++◌, Option, none, some, String, ◌&&◌, not,
  str_eq, ltb, ◌==◌, if◌then◌else◌, length, get_elem?, string_discrete,
}
use geryon.Base.Map.{lookup, put, delete}
use geryon.Swim.{
  Protocol, Member, Calls, suspect, dead, ping, suspected, died, sync, member_leave, message, find,
  write, is_alive, is_suspect,
}
use geryon.Swim.Handlers.{send_message, alive_others, broadcast, get_member_infos}

-- `selectRandomMember`; `r` is the number that rand.Read gives.
unfoldable pub select_random_member : ℕ → Protocol → Option Member
select_random_member r p =
    let others = alive_others p.id p.members in get_elem? others (r % length others)

-- The ping to a member that has been selected. Its channel is new, an older one is closed.
unfoldable pub probe : Calls → ℕ → Member → Protocol → Protocol
probe c now m p =
    let q : Protocol = record p {
      pending_probes = put string_discrete m.id p.next_channel p.pending_probes;
      next_channel = suc p.next_channel;
    } in
    send_message c m.address (message ping p.id) (write m.id (record m { last_probe = now }) q)

unfoldable pub probe_random_member : Calls → ℕ → ℕ → Protocol → Protocol
probe_random_member c r now p = elim (select_random_member r p) [
  | none ↦ p
  | some m ↦ if str_eq m.id p.id then p else probe c now m p
]

unfoldable pub suspect_member : Calls → String → Protocol → Protocol
suspect_member c id p = elim (find id p) [
  | none ↦ p
  | some m ↦
      if not (is_alive m)
      then p
      else broadcast c
          (record (message suspected p.id) { target = id; incarnation = m.incarnation })
          (write id (record m { state = suspect }) p)
]

-- What follows when the timer of a probe fires before its channel is closed. The member of the map is
-- the one that was probed, so `LastProbe` is compared with itself.
unfoldable pub time_out : Calls → String → ℕ → Protocol → Protocol
time_out c id channel p =
    let q : Protocol = elim (find id p) [
      | none ↦ p
      | some m ↦ if m.last_probe == m.last_probe then suspect_member c id p else p
    ] in
    elim (lookup string_discrete id q.pending_probes) [
      | none ↦ q
      | some other ↦
          if other == channel
          then record q { pending_probes = delete string_discrete id q.pending_probes }
          else q
    ]

unfoldable pub mark_dead : Calls → String → Protocol → Protocol
mark_dead c id p = elim (find id p) [
  | none ↦ p
  | some m ↦
      let q =
        broadcast c (record (message died p.id) { target = id; incarnation = m.incarnation })
          (write id (record m { state = dead }) p) in
      record q { events = q.events ++ record { kind = member_leave; member = id } ∷ [] }
]

-- A suspect whose last probe is too long ago.
unfoldable pub is_overdue : ℕ → ℕ → Member → Bool
is_overdue timeout now m = is_suspect m && ltb timeout (now - m.last_probe)

unfoldable pub overdue : ℕ → ℕ → List (String × Member) → List String
overdue timeout now [] = []
overdue timeout now ((id, m) ∷ ms) =
    let rest = overdue timeout now ms in if is_overdue timeout now m then id ∷ rest else rest

unfoldable pub mark_all_dead : Calls → List String → Protocol → Protocol
mark_all_dead c [] p = p
mark_all_dead c (id ∷ ids) p = mark_all_dead c ids (mark_dead c id p)

unfoldable pub check_suspects : Calls → ℕ → Protocol → Protocol
check_suspects c now p = mark_all_dead c (overdue p.suspect_timeout now p.members) p

unfoldable pub gossip : Calls → ℕ → Protocol → Protocol
gossip c r p = elim (select_random_member r p) [
  | none ↦ p
  | some m ↦
      send_message c m.address (record (message sync p.id) { members = get_member_infos p }) p
]

unfoldable pub send_to : Calls → String → String → Protocol → Protocol
send_to c to payload p = send_message c to (record (message sync p.id) { payload = payload }) p

unfoldable pub broadcast_user_data : Calls → String → Protocol → Protocol
broadcast_user_data c payload p = broadcast c (record (message sync p.id) { payload = payload }) p

-- `Join`: the first seed that can be sent to; `sends` says which can.
unfoldable pub join : Calls → (String → Bool) → List String → Protocol → Protocol × Bool
join c sends [] p = (p, false)
join c sends (seed ∷ seeds) p =
    let rest = join c sends seeds p in
    if str_eq seed p.addr
    then rest
    else if sends seed
    then (send_message c seed (record (message sync p.id) { payload = p.addr }) p, true)
    else rest

unfoldable pub alive_members : List (String × Member) → List Member
alive_members [] = []
alive_members ((id, m) ∷ ms) = let rest = alive_members ms in if is_alive m then m ∷ rest else rest
