-- ===== src/Swim/Silence.antt =====
-- Members of internal/swim/swim.go that are not alive: only they themselves can change that.
use geryon.Base.{
  ℕ, ◌≡◌, ◌≢◌, refl, ◌∙◌, sym, subst, false, List, [], ◌∷◌, some, String, ◌&&◌, not, str_eq, leb,
  string_discrete, arith, Bool-cases, Option-cases, inl, inr, All,
}
use geryon.Base.Map.{lookup, put, lookup-put}
use geryon.Swim.{
  Protocol, Member, MemberState, Message, MessageType, Calls, alive, suspect, dead, ping, ack,
  ping_req, suspected, announced, died, sync, find, is_alive, verify_hmac,
}
use geryon.Swim.Handlers.{
  dispatch, send_message, update_member, handle_ping, handle_ack, handle_ping_req, mark_target,
  handle_alive, handle_sync, handle_message, receive,
}
use geryon.Swim.Probes.{
  select_random_member, probe, probe_random_member, suspect_member, mark_dead, mark_all_dead,
  check_suspects, send_to, broadcast_user_data,
}
use geryon.Swim.Step.{
  Action, receives, probes, times_out, checks, gossips, sends_to, broadcasts, step, run,
}
use geryon.Swim.Keeping.{Members, IsValid, members-broadcast}
use geryon.Swim.Incarnations.{find-selected, members-time_out, Kept-gossip, Kept-step}

-- The member is known and not alive.
pub record IsDown (id : String) (ms : Members) : Type 0 where
  pub member : Member
  pub found : lookup string_discrete id ms ≡ some member
  pub down : is_alive member ≡ false

IsDown-put :
    (id j : String) (n : Member) (ms : Members)
    → (j ≡ id → is_alive n ≡ false)
    → IsDown id ms
    → IsDown id (put string_discrete j n ms)
IsDown-put id j n ms e h = elim (string_discrete j id) [
  | yes q ↦ record {
    member = n;
    found = lookup-put string_discrete j id n ms ∙ ground arith;
    down = e q;
  }
  | no q ↦ record {
    member = h.member;
    found = lookup-put string_discrete j id n ms ∙ ground (arith, h.found);
    down = h.down;
  }
]

IsDown-update_member :
    (c : Calls) (id j addr : String) (inc now : ℕ) (p : Protocol)
    → j ≢ id
    → IsDown id p.members
    → IsDown id (update_member c j addr alive inc now p).members
unfolding update_member
IsDown-update_member c id j addr inc now p ne h =
    elim (Bool-cases (not (str_eq addr "") && not (c.is_valid_address addr))) [
      | inl e ↦ rw (update_member, e) h
      | inr e ↦ elim (Option-cases (find j p)) [
        | inl f ↦ rw (update_member, e, f) (IsDown-put id j _ p.members (λ q. absurd (ne q)) h)
        | inr (m, f) ↦ rw (update_member, e, f) (IsDown-put id j _ p.members (λ q. absurd (ne q)) h)
      ]
    ]

IsDown-handle_ack :
    (id : String) (msg : Message) (now : ℕ) (p : Protocol)
    → msg.source ≢ id
    → IsDown id p.members
    → IsDown id (handle_ack msg now p).members
unfolding handle_ack
IsDown-handle_ack id msg now p ne h = elim (Option-cases (find msg.source p)) [
  | inl f ↦ rw (handle_ack, f) h
  | inr (m, f) ↦ rw (handle_ack, f) (IsDown-put id msg.source _ p.members (λ q. absurd (ne q)) h)
]

IsDown-mark_target :
    (id : String) (s : MemberState) (msg : Message) (p : Protocol)
    → s ≢ alive
    → IsDown id p.members
    → IsDown id (mark_target s msg p).members
unfolding mark_target
IsDown-mark_target id s msg p ne h = elim (Option-cases (find msg.target p)) [
  | inl f ↦ rw (mark_target, f) h
  | inr (m, f) ↦ elim (Bool-cases (leb m.incarnation msg.incarnation)) [
    | inl e ↦ rw (mark_target, f, e) (IsDown-put id msg.target _ p.members (λ q. ground arith) h)
    | inr e ↦ rw (mark_target, f, e) h
  ]
]

IsDown-handle_alive :
    (c : Calls) (id : String) (msg : Message) (now : ℕ) (p : Protocol)
    → msg.source ≢ id
    → IsDown id p.members
    → IsDown id (handle_alive c msg now p).members
unfolding handle_alive
IsDown-handle_alive c id msg now p ne h = elim (Option-cases (c.address_of msg.payload)) [
  | inl f ↦ rw (handle_alive, f) h
  | inr (addr, f) ↦
      rw (handle_alive, f) (IsDown-update_member c id msg.source addr msg.incarnation now p ne h)
]

members-ping_req :
    (c : Calls) (msg : Message) (p : Protocol) → (handle_ping_req c msg p).members ≡ p.members
unfolding handle_ping_req send_message
members-ping_req c msg p = ground arith

IsDown-dispatch :
    (c : Calls) (kind : MessageType) (id : String) (msg : Message) (from : String) (now : ℕ)
    (p : Protocol)
    → msg.source ≢ id
    → IsDown id p.members
    → IsDown id (dispatch c kind msg from now p).members
unfolding dispatch handle_ping handle_sync send_message
IsDown-dispatch c ping id msg from now p ne h =
    IsDown-update_member c id msg.source from msg.incarnation now p ne h
IsDown-dispatch c ack id msg from now p ne h = IsDown-handle_ack id msg now p ne h
IsDown-dispatch c ping_req id msg from now p ne h =
    subst (IsDown id) (sym (members-ping_req c msg p)) h
IsDown-dispatch c suspected id msg from now p ne h =
    IsDown-mark_target id suspect msg p (λ e. ground arith) h
IsDown-dispatch c announced id msg from now p ne h = IsDown-handle_alive c id msg now p ne h
IsDown-dispatch c died id msg from now p ne h =
    IsDown-mark_target id dead msg p (λ e. ground arith) h
IsDown-dispatch c sync id msg from now p ne h =
    IsDown-update_member c id msg.source msg.payload msg.incarnation now p ne h

IsDown-receive :
    (c : Calls) (id : String) (msg : Message) (from : String) (now : ℕ) (p : Protocol)
    → msg.source ≢ id
    → IsDown id p.members
    → IsDown id (receive c msg from now p).members
unfolding receive handle_message
IsDown-receive c id msg from now p ne h =
    elim (Bool-cases (not (str_eq p.secret "") && not (verify_hmac c msg p))) [
      | inl e ↦ rw (receive, e) h
      | inr e ↦ rw (receive, e) (IsDown-dispatch c msg.kind id msg from now p ne h)
    ]

-- Whom the selection finds is in the map, so that a write to it brings nobody back.
IsDown-probe :
    (c : Calls) (id : String) (r now : ℕ) (p : Protocol)
    → IsValid p.members
    → IsDown id p.members
    → IsDown id (probe_random_member c r now p).members
unfolding probe_random_member probe send_message
IsDown-probe c id r now p v h = elim (Option-cases (select_random_member r p)) [
  | inl f ↦ rw (probe_random_member, f) h
  | inr (m, f) ↦ elim (Bool-cases (str_eq m.id p.id)) [
    | inl e ↦ rw (probe_random_member, f, e) h
    | inr e ↦
        rw (probe_random_member, f, e)
          (IsDown-put id m.id _ p.members
            (λ q.
              let twice = subst (λ i. find i p ≡ some m) q (find-selected r p m v f) in
              ground (arith, h.found, h.down))
            h)
  ]
]

IsDown-suspect :
    (c : Calls) (id j : String) (p : Protocol)
    → IsDown id p.members
    → IsDown id (suspect_member c j p).members
unfolding suspect_member
IsDown-suspect c id j p h = elim (Option-cases (find j p)) [
  | inl f ↦ rw (suspect_member, f) h
  | inr (m, f) ↦ elim (Bool-cases (is_alive m)) [
    | inl e ↦
        rw (suspect_member, f, e, members-broadcast c _ _)
          (IsDown-put id j _ p.members (λ q. refl) h)
    | inr e ↦ rw (suspect_member, f, e) h
  ]
]

IsDown-mark_dead :
    (c : Calls) (id j : String) (p : Protocol)
    → IsDown id p.members
    → IsDown id (mark_dead c j p).members
unfolding mark_dead
IsDown-mark_dead c id j p h = elim (Option-cases (find j p)) [
  | inl f ↦ rw (mark_dead, f) h
  | inr (m, f) ↦
      rw (mark_dead, f, members-broadcast c _ _) (IsDown-put id j _ p.members (λ q. refl) h)
]

IsDown-mark_all_dead :
    (c : Calls) (id : String) (ids : List String) (p : Protocol)
    → IsDown id p.members
    → IsDown id (mark_all_dead c ids p).members
unfolding mark_all_dead
IsDown-mark_all_dead c id [] p h = h
IsDown-mark_all_dead c id (j ∷ ids) p h =
    IsDown-mark_all_dead c id ids (mark_dead c j p) (IsDown-mark_dead c id j p h)

-- The step is not a message in the name of the member.
abbrev pub IsSilent : String → ℕ × Action → Type 0
IsSilent id (now, receives msg from) = msg.source ≢ id
IsSilent id a = Unit

IsDown-step :
    (c : Calls) (id : String) (p : Protocol) (a : ℕ × Action)
    → IsValid p.members
    → IsSilent id a
    → IsDown id p.members
    → IsDown id (step c p a).members
unfolding step check_suspects send_to send_message broadcast_user_data
IsDown-step c id p (now, receives msg from) v s h = IsDown-receive c id msg from now p s h
IsDown-step c id p (now, probes r) v s h = IsDown-probe c id r now p v h
IsDown-step c id p (now, times_out j channel) v s h =
    rw (members-time_out c j channel p) (IsDown-suspect c id j p h)
IsDown-step c id p (now, checks) v s h = IsDown-mark_all_dead c id _ p h
IsDown-step c id p (now, gossips r) v s h = subst (IsDown id) (sym (Kept-gossip c r p)) h
IsDown-step c id p (now, sends_to to payload) v s h = h
IsDown-step c id p (now, broadcasts payload) v s h =
    subst (IsDown id) (sym (members-broadcast c _ p)) h

-- A member that is not alive is not alive after any steps without a message that names it as its
-- source, from a map that has each member under its ID, once.
pub run-IsDown :
    (c : Calls) (id : String) (as' : List (ℕ × Action)) (p : Protocol)
    → IsValid p.members
    → All (IsSilent id) as'
    → IsDown id p.members
    → IsDown id (run c p as').members
unfolding run
run-IsDown c id [] p v s h = h
run-IsDown c id (a ∷ as') p v s h =
    run-IsDown c id as' (step c p a) (Kept-step c p a v).valid s.1 (IsDown-step c id p a v s.0 h)
