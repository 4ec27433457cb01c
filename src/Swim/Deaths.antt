-- ===== src/Swim/Deaths.antt =====
-- How members die and come back in internal/swim/swim.go.
use geryon.Base.{
  ℕ, ◌+◌, ◌-◌, ◌<◌, ◌≡◌, ◌≢◌, ◌≤◌, ◌⊎◌, refl, ◌∙◌, sym, subst, ap, Bool, true, false, List, [], ◌∷◌,
  Option, none, some, String, if◌then◌else◌, string_discrete, ite, arith, Option-cases, inl, inr,
  lt→ltb,
}
use geryon.Base.Map.{lookup, lookup-put, lookup-put_self, IsMap}
use geryon.Swim.{
  Protocol, Member, MemberState, Message, Calls, alive, suspect, dead, find, is_alive, is_suspect,
  message, ack,
}
use geryon.Swim.Handlers.{send_message, send_all, broadcast, handle_ack}
use geryon.Swim.Probes.{
  probe, time_out, suspect_member, mark_dead, mark_all_dead, is_overdue, overdue, check_suspects,
}
use geryon.Swim.Keeping.{Members, IsValid, members-broadcast, Kept-handle_ack, put-same}
use geryon.Swim.Incarnations.{Kept-suspect, members-time_out}

abbrev pub bury : Member → Member
bury m = record m { state = dead }

abbrev pub buried : Option Member → Option Member
buried none = none
buried (some m) = some (bury m)

find-mark_dead :
    (c : Calls) (id j : String) (p : Protocol)
    → find j (mark_dead c id p) ≡ ite (string_discrete id j) (buried (find j p)) (find j p)
unfolding mark_dead
find-mark_dead c id j p = elim (Option-cases (find id p)) [
  | inl f ↦ ground (arith)
  | inr (n, f) ↦
      rw (mark_dead, f, members-broadcast c _ _)
        (lookup-put string_discrete id j (bury n) p.members ∙ ground (arith))
]

abbrev is_in : String → List String → Bool
is_in j [] = false
is_in j (id ∷ ids) = ite (string_discrete id j) true (is_in j ids)

find-mark_all_dead :
    (c : Calls) (ids : List String) (j : String) (p : Protocol)
    → find j (mark_all_dead c ids p) ≡ (if is_in j ids then buried (find j p) else find j p)
unfolding mark_all_dead
find-mark_all_dead c [] j p = refl
find-mark_all_dead c (id ∷ ids) j p =
    ground (arith, find-mark_all_dead c ids j (mark_dead c id p), find-mark_dead c id j p)

abbrev is_late : ℕ → ℕ → Option Member → Bool
is_late timeout now none = false
is_late timeout now (some m) = is_overdue timeout now m

overdue-none :
    (timeout now : ℕ) (j : String) (ms : Members)
    → lookup string_discrete j ms ≡ none
    → is_in j (overdue timeout now ms) ≡ false
unfolding overdue lookup
overdue-none timeout now j [] e = refl
overdue-none timeout now j ((id, m) ∷ ms) e = ground (arith, overdue-none timeout now j ms)

is_in-overdue :
    (timeout now : ℕ) (j : String) (ms : Members)
    → IsMap string_discrete ms
    → is_in j (overdue timeout now ms) ≡ is_late timeout now (lookup string_discrete j ms)
unfolding overdue lookup
is_in-overdue timeout now j [] u = refl
is_in-overdue timeout now j ((id, m) ∷ ms) u =
    ground (arith, is_in-overdue timeout now j ms u.1, overdue-none timeout now j ms)

find-check_suspects_if :
    (c : Calls) (now : ℕ) (j : String) (p : Protocol)
    → IsValid p.members
    → find j (check_suspects c now p)
      ≡ (if is_late p.suspect_timeout now (find j p) then buried (find j p) else find j p)
unfolding check_suspects
find-check_suspects_if c now j p v =
    find-mark_all_dead c (overdue p.suspect_timeout now p.members) j p
    ∙ ap (λ b. if b then buried (find j p) else find j p)
        (is_in-overdue p.suspect_timeout now j p.members v.is_map)

-- What a check at `now` does to a member: a suspect that was probed longer ago than `timeout` dies, any
-- other member is as before.
pub record Fate (timeout now : ℕ) (m : Member) (after : Option Member) : Type 0 where
  pub dies :
      m.state ≡ suspect → timeout < now - m.last_probe → after ≡ some (record m { state = dead })
  pub stays : (m.state ≢ suspect) ⊎ (now - m.last_probe ≤ timeout) → after ≡ some m

not_suspect : (m : Member) → m.state ≢ suspect → is_suspect m ≡ false
not_suspect m n = go m.state n
  where
    go :
        (s : MemberState)
        → s ≢ suspect
        → elim s as (λ _. Bool) [ suspect ↦ true | _ ↦ false ] ≡ false
    go alive n = refl
    go dead n = refl
    go suspect n = absurd (n refl)

overdue-Fate :
    (timeout now : ℕ) (m : Member)
    → Fate timeout now m (if is_overdue timeout now m then some (bury m) else some m)
unfolding is_overdue
overdue-Fate timeout now m = record {
  dies = λ e h. rw (e) (ground arith);
  stays = λ h. elim h [ inl n ↦ rw (not_suspect m n) refl | inr l ↦ ground arith ];
}

-- When each member stands under its ID, once, a check makes a suspect dead whose last probe was longer
-- ago than the time that a suspect has, leaves every other member as it is, and adds none.
pub find-check_suspects :
    (c : Calls) (now : ℕ) (j : String) (p : Protocol)
    → IsValid p.members
    → (find j p ≡ none → find j (check_suspects c now p) ≡ none)
      × ((m : Member)
          → find j p ≡ some m
          → Fate p.suspect_timeout now m (find j (check_suspects c now p)))
find-check_suspects c now j p v = (
  λ e. find-check_suspects_if c now j p v ∙ absent (find j p) e,
  λ m e.
      subst (Fate p.suspect_timeout now m) (sym (find-check_suspects_if c now j p v ∙ ap after e))
        (overdue-Fate p.suspect_timeout now m),
)
  where
    after : Option Member → Option Member
    after o = if is_late p.suspect_timeout now o then buried o else o

    absent : (o : Option Member) → o ≡ none → after o ≡ none
    absent o e = ap after e

-- Acks from a member, each at its time.
pub acked : String → List ℕ → Protocol → Protocol
acked id [] p = p
acked id (now ∷ times) p = acked id times (handle_ack (message ack id) now p)

record Probed (id : String) (t timeout : ℕ) (p : Protocol) : Type 0 where
  member : Member
  valid : IsValid p.members
  found : find id p ≡ some member
  up : is_alive member ≡ true
  probed : member.last_probe ≡ t
  waits : p.suspect_timeout ≡ timeout

timeout-send_all :
    (c : Calls) (ms : List Member) (msg : Message) (p : Protocol)
    → (send_all c ms msg p).suspect_timeout ≡ p.suspect_timeout
unfolding send_all send_message
timeout-send_all c [] msg p = refl
timeout-send_all c (m ∷ ms) msg p = timeout-send_all c ms msg _

Probed-ack :
    (id : String) (t timeout now : ℕ) (p : Protocol)
    → Probed id t timeout p
    → Probed id t timeout (handle_ack (message ack id) now p)
unfolding handle_ack
Probed-ack id t timeout now p h = record {
  member = record h.member { last_seen = now; state = alive };
  valid = (Kept-handle_ack (message ack id) now p h.valid).valid;
  found = rw (handle_ack, h.found) (lookup-put_self string_discrete id _ p.members);
  up = refl;
  probed = h.probed;
  waits = rw (handle_ack, h.found) h.waits;
}

Probed-acked :
    (id : String) (t timeout : ℕ) (times : List ℕ) (p : Protocol)
    → Probed id t timeout p
    → Probed id t timeout (acked id times p)
unfolding acked
Probed-acked id t timeout [] p h = h
Probed-acked id t timeout (now ∷ times) p h =
    Probed-acked id t timeout times _ (Probed-ack id t timeout now p h)

Probed-probe :
    (c : Calls) (t : ℕ) (m : Member) (p : Protocol)
    → IsValid p.members
    → find m.id p ≡ some m
    → is_alive m ≡ true
    → Probed m.id t p.suspect_timeout (probe c t m p)
unfolding probe send_message
Probed-probe c t m p v f a = record {
  member = record m { last_probe = t };
  valid = (put-same m.id m (record m { last_probe = t }) p.members f refl (omega arith) v).valid;
  found = lookup-put_self string_discrete m.id _ p.members;
  up = a;
  probed = refl;
  waits = refl;
}

record Suspected (id : String) (t timeout : ℕ) (p : Protocol) : Type 0 where
  member : Member
  valid : IsValid p.members
  found : find id p ≡ some member
  doubted : is_suspect member ≡ true
  probed : member.last_probe ≡ t
  waits : p.suspect_timeout ≡ timeout

Suspected-suspect_member :
    (c : Calls) (id : String) (t timeout : ℕ) (p : Protocol)
    → Probed id t timeout p
    → Suspected id t timeout (suspect_member c id p)
unfolding suspect_member broadcast
Suspected-suspect_member c id t timeout p h = record {
  member = record h.member { state = suspect };
  valid = (Kept-suspect c id p h.valid).valid;
  found =
      rw (suspect_member, h.found, h.up, members-broadcast c _ _)
        (lookup-put_self string_discrete id _ p.members);
  doubted = refl;
  probed = h.probed;
  waits = rw (suspect_member, h.found, h.up) (timeout-send_all c _ _ _ ∙ h.waits);
}

Suspected-time_out :
    (c : Calls) (id : String) (channel t timeout : ℕ) (p : Protocol)
    → Probed id t timeout p
    → Suspected id t timeout (time_out c id channel p)
unfolding time_out
Suspected-time_out c id channel t timeout p h =
    let s = Suspected-suspect_member c id t timeout p h in
    let same = members-time_out c id channel p in
    record {
      member = s.member;
      valid = subst IsValid (sym same) s.valid;
      found = subst (λ ms. lookup string_discrete id ms ≡ some s.member) (sym same) s.found;
      doubted = s.doubted;
      probed = s.probed;
      waits = ground (arith, s.waits, h.found);
    }

-- A member that is probed is dead once a check finds that the probe was longer ago than the time that
-- a suspect has, after the timer of the probe has fired, however often it has answered in between:
-- when it was alive and each member stands under its ID, once.
pub probed-dies :
    (c : Calls) (t now channel : ℕ) (acks : List ℕ) (m : Member) (p : Protocol)
    → IsValid p.members
    → find m.id p ≡ some m
    → is_alive m ≡ true
    → t + p.suspect_timeout < now
    → (n : Member) × (find m.id
          (check_suspects c now (time_out c m.id channel (acked m.id acks (probe c t m p))))
        ≡ some n)
      × (n.state ≡ dead)
unfolding is_overdue
probed-dies c t now channel acks m p v f a late =
    let before =
      Probed-acked m.id t p.suspect_timeout acks (probe c t m p) (Probed-probe c t m p v f a) in
    let q = time_out c m.id channel (acked m.id acks (probe c t m p)) in
    let s = Suspected-time_out c m.id channel t p.suspect_timeout _ before in
    (
      bury s.member,
      rw
          (
            find-check_suspects_if c now m.id q s.valid,
            s.found,
            s.doubted,
            s.waits,
            s.probed,
            lt→ltb p.suspect_timeout (now - t) (omega arith),
          )
          refl,
      refl,
    )
