-- ===== src/Swim/Keeping.antt =====
-- What keeps the members of internal/swim/swim.go valid and no older: the messages that arrive.
use geryon.Base.{
  ℕ, ◌≤◌, ◌≡◌, refl, sym, ◌∙◌, subst, List, [], ◌∷◌, some, String, ◌&&◌, not, str_eq, leb,
  string_discrete, arith, Bool-cases, Option-cases, inl, inr,
}
use geryon.Base.Map.{lookup, put, lookup-put, put-IsMap, IsMap}
use geryon.Swim.{
  Protocol, Member, MemberState, Message, verify_hmac, MessageType, Calls, alive, suspect, dead,
  ping, ack, ping_req, suspected, announced, died, sync, find,
}
use geryon.Swim.Handlers.{
  dispatch, send_message, send_all, broadcast, alive_others, refresh, new_member, update_member,
  handle_ping, handle_ack, handle_ping_req, mark_target, handle_alive, handle_sync, handle_message,
  receive,
}

abbrev pub Members : Type 0
Members = List (String × Member)

-- Each member stands under its own ID, once.
pub record IsValid (ms : Members) : Type 0 where
  pub is_map : IsMap string_discrete ms
  pub keyed : (id : String) (m : Member) → lookup string_discrete id ms ≡ some m → m.id ≡ id

-- A member that was known still is, with an incarnation no older.
abbrev pub Grows : Members → Members → Type 0
Grows ms ns =
    (id : String) (m : Member)
    → lookup string_discrete id ms ≡ some m
    → (n : Member) × (lookup string_discrete id ns ≡ some n) × (m.incarnation ≤ n.incarnation)

pub record Keeps (ms ns : Members) : Type 0 where
  pub valid : IsValid ns
  pub grows : Grows ms ns

pub Keeps-same : (ms : Members) → IsValid ms → Keeps ms ms
Keeps-same ms v = record { valid = v; grows = λ id m e. (m, e, omega arith) }

pub Keeps-trans : (ms ns os : Members) → Keeps ms ns → (IsValid ns → Keeps ns os) → Keeps ms os
Keeps-trans ms ns os k l =
    let j = l k.valid in
    record {
      valid = j.valid;
      grows = λ id m e.
          let (n, en, le) = k.grows id m e in
          let (o, eo, le') = j.grows id n en in (o, eo, omega arith);
    }

put-Keeps :
    (id : String) (n : Member) (ms : Members)
    → n.id ≡ id
    → ((m : Member) → lookup string_discrete id ms ≡ some m → m.incarnation ≤ n.incarnation)
    → IsValid ms
    → Keeps ms (put string_discrete id n ms)
put-Keeps id n ms e newer v = record {
  valid = record {
    is_map = put-IsMap string_discrete id n ms v.is_map;
    keyed = λ j m h. elim (string_discrete id j) [
      | yes p ↦ ground (arith, lookup-put string_discrete id j n ms)
      | no p ↦ ground (arith, lookup-put string_discrete id j n ms, v.keyed j m)
    ];
  };
  grows = λ j m h. elim (string_discrete id j) [
    | yes p ↦ (
      n,
      ground (arith, lookup-put string_discrete id j n ms),
      newer m (subst (λ i. lookup string_discrete i ms ≡ some m) (sym p) h),
    )
    | no p ↦ (m, ground (arith, lookup-put string_discrete id j n ms), omega arith)
  ];
}

pub put-same :
    (id : String) (m n : Member) (ms : Members)
    → lookup string_discrete id ms ≡ some m
    → n.id ≡ m.id
    → m.incarnation ≤ n.incarnation
    → IsValid ms
    → Keeps ms (put string_discrete id n ms)
put-same id m n ms e i le v = put-Keeps id n ms (i ∙ v.keyed id m e) (λ o h. ground arith) v

members-send_all :
    (c : Calls) (ms : List Member) (msg : Message) (p : Protocol)
    → (send_all c ms msg p).members ≡ p.members
unfolding send_all send_message
members-send_all c [] msg p = refl
members-send_all c (m ∷ ms) msg p = members-send_all c ms msg _

pub members-broadcast :
    (c : Calls) (msg : Message) (p : Protocol) → (broadcast c msg p).members ≡ p.members
unfolding broadcast
members-broadcast c msg p = members-send_all c (alive_others p.id p.members) msg p

-- A step keeps the members.
abbrev pub Kept : Protocol → Protocol → Type 0
Kept p q = IsValid p.members → Keeps p.members q.members

pub Kept-equal : (p q : Protocol) → q.members ≡ p.members → Kept p q
Kept-equal p q e v = subst (λ ms. Keeps p.members ms) (sym e) (Keeps-same p.members v)

Kept-refresh :
    (addr : String) (s : MemberState) (inc now : ℕ) (m : Member)
    → ((refresh addr s inc now m).id ≡ m.id)
      × (m.incarnation ≤ (refresh addr s inc now m).incarnation)
unfolding refresh
Kept-refresh addr s inc now m = ground arith

Kept-update_member :
    (c : Calls) (id addr : String) (s : MemberState) (inc now : ℕ) (p : Protocol)
    → Kept p (update_member c id addr s inc now p)
unfolding update_member new_member
Kept-update_member c id addr s inc now p v =
    elim (Bool-cases (not (str_eq addr "") && not (c.is_valid_address addr))) [
      | inl e ↦ rw (e) (Keeps-same p.members v)
      | inr e ↦ elim (Option-cases (find id p)) [
        | inl f ↦
            rw (e, f)
              (put-Keeps id _ p.members (Kept-refresh addr s inc now (new_member id addr)).0
                (λ m h. absurd (cc)) v)
        | inr (m, f) ↦
            rw (e, f)
              (put-same id m _ p.members f (Kept-refresh addr s inc now m).0
                (Kept-refresh addr s inc now m).1 v)
      ]
    ]

pub Kept-handle_ack : (msg : Message) (now : ℕ) (p : Protocol) → Kept p (handle_ack msg now p)
unfolding handle_ack
Kept-handle_ack msg now p v = elim (Option-cases (find msg.source p)) [
  | inl f ↦ rw (handle_ack, f) (Keeps-same p.members v)
  | inr (m, f) ↦ rw (handle_ack, f) (put-same msg.source m _ p.members f refl (omega arith) v)
]

Kept-mark_target : (s : MemberState) (msg : Message) (p : Protocol) → Kept p (mark_target s msg p)
unfolding mark_target
Kept-mark_target s msg p v = elim (Option-cases (find msg.target p)) [
  | inl f ↦ rw (mark_target, f) (Keeps-same p.members v)
  | inr (m, f) ↦ elim (Bool-cases (leb m.incarnation msg.incarnation)) [
    | inl e ↦ rw (mark_target, f, e) (put-same msg.target m _ p.members f refl (omega arith) v)
    | inr e ↦ rw (mark_target, f, e) (Keeps-same p.members v)
  ]
]

Kept-handle_alive :
    (c : Calls) (msg : Message) (now : ℕ) (p : Protocol) → Kept p (handle_alive c msg now p)
unfolding handle_alive
Kept-handle_alive c msg now p v = elim (Option-cases (c.address_of msg.payload)) [
  | inl f ↦ rw (handle_alive, f) (Keeps-same p.members v)
  | inr (addr, f) ↦
      rw (handle_alive, f) (Kept-update_member c msg.source addr alive msg.incarnation now p v)
]

Kept-handle_ping_req : (c : Calls) (msg : Message) (p : Protocol) → Kept p (handle_ping_req c msg p)
unfolding handle_ping_req send_message
Kept-handle_ping_req c msg p = Kept-equal p (handle_ping_req c msg p) (ground arith)

Kept-dispatch :
    (c : Calls) (kind : MessageType) (msg : Message) (from : String) (now : ℕ) (p : Protocol)
    → Kept p (dispatch c kind msg from now p)
unfolding dispatch handle_ping handle_sync send_message
Kept-dispatch c ping msg from now p =
    Kept-update_member c msg.source from alive msg.incarnation now p
Kept-dispatch c ack msg from now p = Kept-handle_ack msg now p
Kept-dispatch c ping_req msg from now p = Kept-handle_ping_req c msg p
Kept-dispatch c suspected msg from now p = Kept-mark_target suspect msg p
Kept-dispatch c announced msg from now p = Kept-handle_alive c msg now p
Kept-dispatch c died msg from now p = Kept-mark_target dead msg p
Kept-dispatch c sync msg from now p =
    Kept-update_member c msg.source msg.payload alive msg.incarnation now p

pub Kept-receive :
    (c : Calls) (msg : Message) (from : String) (now : ℕ) (p : Protocol)
    → Kept p (receive c msg from now p)
unfolding handle_message receive
Kept-receive c msg from now p v =
    elim (Bool-cases (not (str_eq p.secret "") && not (verify_hmac c msg p))) [
      | inl e ↦ rw (receive, e) (Keeps-same p.members v)
      | inr e ↦ rw (receive, e) (Kept-dispatch c msg.kind msg from now p v)
    ]
