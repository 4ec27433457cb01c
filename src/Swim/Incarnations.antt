-- ===== src/Swim/Incarnations.antt =====
-- Incarnations of internal/swim/swim.go: what a node knows of a member never gets older.
use geryon.Base.{
  ℕ, suc, zero, ◌%◌, ◌≡◌, refl, sym, subst, Bool, List, [], ◌∷◌, some, String, ◌&&◌, not, str_eq,
  if◌then◌else◌, string_discrete, arith, Bool-cases, Option-cases, inl, inr, get_elem?, length, All,
}
use geryon.Base.Map.{lookup, All-lookup}
use geryon.Swim.{Protocol, Member, Calls, find, is_alive}
use geryon.Swim.Handlers.{send_message, alive_others}
use geryon.Swim.Probes.{
  select_random_member, probe, probe_random_member, suspect_member, time_out, mark_dead,
  mark_all_dead, overdue, check_suspects, gossip, send_to, broadcast_user_data,
}
use geryon.Swim.Step.{
  Action, receives, probes, times_out, checks, gossips, sends_to, broadcasts, step, run,
}
use geryon.Swim.Keeping.{
  Members, IsValid, Keeps, Keeps-same, Keeps-trans, Kept, Kept-equal, Kept-receive, put-same,
  members-broadcast,
}

-- Whom the selection finds is an entry of the map.
alive_others-entry :
    (P : String × Member → Type 0) (self : String) (ms : Members) (i : ℕ) (m : Member)
    → All P ms
    → get_elem? (alive_others self ms) i ≡ some m
    → (k : String) × P (k, m)
unfolding alive_others
alive_others-entry P self [] i m h e = absurd (ground arith)
alive_others-entry P self ((k, n) ∷ ms) i m h e =
    let found : Bool → Type 0 =
      λ b. get_elem? (if b then n ∷ alive_others self ms else alive_others self ms) i ≡ some m in
    elim (Bool-cases (is_alive n && not (str_eq n.id self))) [
      | inl t ↦ here (λ j. alive_others-entry P self ms j m h.1) i (subst found t e)
      | inr t ↦ alive_others-entry P self ms i m h.1 (subst found t e)
    ]
  where
    here :
        ((j : ℕ) → get_elem? (alive_others self ms) j ≡ some m → (k : String) × P (k, m))
        → (j : ℕ) → get_elem? (n ∷ alive_others self ms) j ≡ some m
        → (k : String) × P (k, m)
    here later zero e = (k, subst (λ o. P (k, o)) (ground arith) h.0)
    here later (suc j) e = later j e

pub find-selected :
    (r : ℕ) (p : Protocol) (m : Member)
    → IsValid p.members
    → select_random_member r p ≡ some m
    → find m.id p ≡ some m
unfolding select_random_member
find-selected r p m v e =
    let (k, f) =
      alive_others-entry (λ q. lookup string_discrete q.0 p.members ≡ some q.1) p.id p.members
        (r % length (alive_others p.id p.members)) m (All-lookup string_discrete p.members v.is_map)
        e in
    subst (λ i. find i p ≡ some m) (sym (v.keyed k m f)) f

Kept-probe : (c : Calls) (r now : ℕ) (p : Protocol) → Kept p (probe_random_member c r now p)
unfolding probe probe_random_member send_message
Kept-probe c r now p v = elim (Option-cases (select_random_member r p)) [
  | inl f ↦ rw (probe_random_member, f) (Keeps-same p.members v)
  | inr (m, f) ↦ elim (Bool-cases (str_eq m.id p.id)) [
    | inl e ↦ rw (probe_random_member, f, e) (Keeps-same p.members v)
    | inr e ↦
        rw (probe_random_member, f, e)
          (put-same m.id m _ p.members (find-selected r p m v f) refl (omega arith) v)
  ]
]

pub Kept-suspect : (c : Calls) (id : String) (p : Protocol) → Kept p (suspect_member c id p)
unfolding suspect_member
Kept-suspect c id p v = elim (Option-cases (find id p)) [
  | inl f ↦ rw (suspect_member, f) (Keeps-same p.members v)
  | inr (m, f) ↦ elim (Bool-cases (is_alive m)) [
    | inl e ↦
        rw (suspect_member, f, e, members-broadcast c _ _)
          (put-same id m _ p.members f refl (omega arith) v)
    | inr e ↦ rw (suspect_member, f, e) (Keeps-same p.members v)
  ]
]

pub members-time_out :
    (c : Calls) (id : String) (channel : ℕ) (p : Protocol)
    → (time_out c id channel p).members ≡ (suspect_member c id p).members
unfolding time_out suspect_member
members-time_out c id channel p = ground arith

Kept-mark_dead : (c : Calls) (id : String) (p : Protocol) → Kept p (mark_dead c id p)
unfolding mark_dead
Kept-mark_dead c id p v = elim (Option-cases (find id p)) [
  | inl f ↦ rw (mark_dead, f) (Keeps-same p.members v)
  | inr (m, f) ↦
      rw (mark_dead, f, members-broadcast c _ _) (put-same id m _ p.members f refl (omega arith) v)
]

Kept-mark_all_dead : (c : Calls) (ids : List String) (p : Protocol) → Kept p (mark_all_dead c ids p)
unfolding mark_all_dead
Kept-mark_all_dead c [] p v = Keeps-same p.members v
Kept-mark_all_dead c (id ∷ ids) p v =
    Keeps-trans _ _ _ (Kept-mark_dead c id p v) (Kept-mark_all_dead c ids (mark_dead c id p))

pub Kept-gossip : (c : Calls) (r : ℕ) (p : Protocol) → (gossip c r p).members ≡ p.members
unfolding gossip send_message
Kept-gossip c r p = ground arith

pub Kept-step : (c : Calls) (p : Protocol) (a : ℕ × Action) → Kept p (step c p a)
unfolding step check_suspects send_to send_message broadcast_user_data
Kept-step c p (now, receives msg from) v = Kept-receive c msg from now p v
Kept-step c p (now, probes r) v = Kept-probe c r now p v
Kept-step c p (now, times_out id channel) v =
    rw (members-time_out c id channel p) (Kept-suspect c id p v)
Kept-step c p (now, checks) v = Kept-mark_all_dead c (overdue p.suspect_timeout now p.members) p v
Kept-step c p (now, gossips r) v = Kept-equal p (gossip c r p) (Kept-gossip c r p) v
Kept-step c p (now, sends_to to payload) v = Keeps-same p.members v
Kept-step c p (now, broadcasts payload) v =
    Kept-equal p (broadcast_user_data c payload p) (members-broadcast c _ p) v

-- After any steps, from a map that has each member under its ID, once, the map still does, and every
-- member that it had is there, with an incarnation that is no lower.
pub run-Keeps :
    (c : Calls) (as' : List (ℕ × Action)) (p : Protocol)
    → IsValid p.members
    → Keeps p.members (run c p as').members
unfolding run
run-Keeps c [] p v = Keeps-same p.members v
run-Keeps c (a ∷ as') p v = Keeps-trans _ _ _ (Kept-step c p a v) (run-Keeps c as' (step c p a))
