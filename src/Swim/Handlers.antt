-- ===== src/Swim/Handlers.antt =====
-- What internal/swim/swim.go sends, and what it does with each message that arrives.
use geryon.Base.{
  ℕ, List, [], ◌∷◌, ◌++◌, none, some, String, ◌&&◌, not, str_eq, leb, if◌then◌else◌, map,
}
use geryon.Swim.{
  Protocol, Member, MemberState, MemberInfo, Message, MessageType, Calls, alive, suspect, dead,
  ping, ack, ping_req, suspected, announced, died, sync, member_join, message, find, write,
  is_alive, compute_hmac, verify_hmac,
}

-- `sendMessage`: signed under the secret, if there is one. Whether it arrives changes nothing here.
unfoldable pub send_message : Calls → String → Message → Protocol → Protocol
send_message c to msg p = record p {
  outbox =
      p.outbox
      ++ (to, if str_eq p.secret "" then msg else record msg { signature = compute_hmac c msg p })
        ∷ [];
}

unfoldable pub send_all : Calls → List Member → Message → Protocol → Protocol
send_all c [] msg p = p
send_all c (m ∷ ms) msg p = send_all c ms msg (send_message c m.address msg p)

-- The members that are alive, apart from the node itself, in the order of the map.
unfoldable pub alive_others : String → List (String × Member) → List Member
alive_others self [] = []
alive_others self ((id, m) ∷ ms) =
    let rest = alive_others self ms in
    if is_alive m && not (str_eq m.id self) then m ∷ rest else rest

unfoldable pub broadcast : Calls → Message → Protocol → Protocol
broadcast c msg p = send_all c (alive_others p.id p.members) msg p

unfoldable pub incarnation : Protocol → ℕ
incarnation p = elim (find p.id p) [ none ↦ 0 | some m ↦ m.incarnation ]

unfoldable pub info_of : Member → MemberInfo
info_of m = record { id = m.id; address = m.address; state = m.state; incarnation = m.incarnation }

unfoldable pub get_member_infos : Protocol → List MemberInfo
get_member_infos p =
    record { id = p.id; address = p.addr; state = alive; incarnation = incarnation p }
    ∷ map (λ e. info_of e.1) p.members

-- The last lines of `updateMember`, which keep what is newer.
unfoldable pub refresh : String → MemberState → ℕ → ℕ → Member → Member
refresh addr state inc now m =
    if leb m.incarnation inc
    then record m {
      incarnation = inc;
      state = state;
      last_seen = now;
      address = if str_eq addr "" then m.address else addr;
    }
    else m

unfoldable pub new_member : String → String → Member
new_member id addr = record {
  id = id;
  address = addr;
  state = alive;
  incarnation = 0;
  last_seen = 0;
  last_probe = 0;
}

unfoldable pub update_member : Calls → String → String → MemberState → ℕ → ℕ → Protocol → Protocol
update_member c id addr state inc now p =
    if not (str_eq addr "") && not (c.is_valid_address addr) then p else (elim (find id p) [
      | none ↦
          let q : Protocol = record p {
            events = p.events ++ record { kind = member_join; member = id } ∷ [];
          } in
          write id (refresh addr state inc now (new_member id addr)) q
      | some m ↦ write id (refresh addr state inc now m) p
    ])

unfoldable pub handle_ping : Calls → Message → String → ℕ → Protocol → Protocol
handle_ping c msg from now p =
    let q = update_member c msg.source from alive msg.incarnation now p in
    send_message c from
      (record (message ack q.id) { target = msg.source; incarnation = incarnation q }) q

unfoldable pub handle_ack : Message → ℕ → Protocol → Protocol
handle_ack msg now p = elim (find msg.source p) [
  | none ↦ p
  | some m ↦ write msg.source (record m { last_seen = now; state = alive }) p
]

unfoldable pub handle_ping_req : Calls → Message → Protocol → Protocol
handle_ping_req c msg p = elim (c.target_of msg.payload) [
  | none ↦ p
  | some target ↦ send_message c target (message ping p.id) p
]

-- `handleSuspect` and `handleDead`, which differ in the state that they set.
unfoldable pub mark_target : MemberState → Message → Protocol → Protocol
mark_target state msg p = elim (find msg.target p) [
  | none ↦ p
  | some m ↦
      if leb m.incarnation msg.incarnation
      then write msg.target (record m { state = state }) p
      else p
]

unfoldable pub handle_alive : Calls → Message → ℕ → Protocol → Protocol
handle_alive c msg now p = elim (c.address_of msg.payload) [
  | none ↦ p
  | some addr ↦ update_member c msg.source addr alive msg.incarnation now p
]

unfoldable pub handle_sync : Calls → Message → ℕ → Protocol → Protocol
handle_sync c msg now p =
    let q = update_member c msg.source msg.payload alive msg.incarnation now p in
    send_message c msg.payload (record (message sync q.id) { members = get_member_infos q }) q

unfoldable pub dispatch : Calls → MessageType → Message → String → ℕ → Protocol → Protocol
dispatch c ping msg from now p = handle_ping c msg from now p
dispatch c ack msg from now p = handle_ack msg now p
dispatch c ping_req msg from now p = handle_ping_req c msg p
dispatch c suspected msg from now p = mark_target suspect msg p
dispatch c announced msg from now p = handle_alive c msg now p
dispatch c died msg from now p = mark_target dead msg p
dispatch c sync msg from now p = handle_sync c msg now p

unfoldable pub handle_message : Calls → Message → String → ℕ → Protocol → Protocol
handle_message c msg from now p = dispatch c msg.kind msg from now p

-- What `receiveLoop` does with a packet that it can read: without the right signature it is dropped.
unfoldable pub receive : Calls → Message → String → ℕ → Protocol → Protocol
receive c msg from now p =
    if not (str_eq p.secret "") && not (verify_hmac c msg p)
    then p
    else handle_message c msg from now p
