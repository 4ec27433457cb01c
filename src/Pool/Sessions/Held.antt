-- ===== src/Pool/Sessions/Held.antt =====
-- In session mode, internal/pool/strategy.go holds a connection while no role is asked for.
use geryon.Base.{
  ℕ, ◌≡◌, refl, ◌∙◌, sym, subst, ◌⊎◌, Bool, true, false, Option, none, some, List, [], ◌∷◌, ◌++◌,
  All, arith, Bool-cases, inl, inr,
}
use geryon.Pool.Sessions.{
  Outcome, done, error, mode_session, Conn, Session, Message, Event, completes, relays, readies,
  handles, step, run, relay, proxy_query, ready, handle_message, detect_begin, detect_query,
  detect_end, handle_query, and_then, on_query, query_in_session, on_query_complete, complete_check,
  complete_release, on_transaction_begin, on_transaction_end,
}

-- No router gives a role.
abbrev pub Unrouted : Event → Type 0
Unrouted completes = Unit
Unrouted (relays none msg) = Unit
Unrouted (relays (some role) msg) = ⊥
Unrouted (readies idle) = Unit
Unrouted (handles written msg) = Unit

-- The session works on `d`, and `c` is out too.
pub record Works (c d : Conn) (left : List (Option Conn)) (s : Session) : Type 0 where
  pub server : s.server_conn ≡ some d
  pub anywhere : s.target_role ≡ ""
  pub both : s.out ≡ d ∷ c ∷ []
  pub sound : s.overdrawn ≡ false
  pub rest : s.answers ≡ left
  pub sent : All (λ w. w.1 ≡ d.id) s.forwarded

sent-more :
    (i : ℕ) (ws : List (ℕ × ℕ)) (n : ℕ)
    → All (λ w. w.1 ≡ i) ws
    → All (λ w. w.1 ≡ i) (ws ++ (n, i) ∷ [])
sent-more i [] n h = (refl, tt)
sent-more i (w ∷ ws) n h = (h.0, sent-more i ws n h.1)

-- A change that is none of these.
Works-like :
    (c d : Conn) (left : List (Option Conn)) (s t : Session)
    → t.server_conn ≡ s.server_conn
    → t.target_role ≡ s.target_role
    → t.out ≡ s.out
    → t.overdrawn ≡ s.overdrawn
    → t.answers ≡ s.answers
    → (t.forwarded ≡ s.forwarded) ⊎ ((n : ℕ) × (t.forwarded ≡ s.forwarded ++ (n, d.id) ∷ []))
    → Works c d left s
    → Works c d left t
Works-like c d left s t a b e f g h w = record {
  server = a ∙ w.server;
  anywhere = b ∙ w.anywhere;
  both = e ∙ w.both;
  sound = f ∙ w.sound;
  rest = g ∙ w.rest;
  sent = elim h [
    | inl same ↦ subst (All (λ w. w.1 ≡ d.id)) (sym same) w.sent
    | inr (n, more) ↦ subst (All (λ w. w.1 ≡ d.id)) (sym more) (sent-more d.id s.forwarded n w.sent)
  ];
}

relay-Works :
    (c d : Conn) (left : List (Option Conn)) (msg : Message) (s : Session)
    → Works c d left s
    → Works c d left (relay mode_session none msg s).0
unfolding relay proxy_query on_query query_in_session on_transaction_begin on_transaction_end
relay-Works c d left msg s w =
    let e = w.server in
    let f = w.anywhere in
    Works-like c d left s (relay mode_session none msg s).0 (ground arith) (ground arith)
      (ground arith) (ground arith) (ground arith) (inr (msg.number, ground arith)) w

handle_query-Works :
    (c d : Conn) (left : List (Option Conn)) (written : Bool) (msg : Message) (s : Session)
    → Works c d left s
    → Works c d left (handle_query mode_session written msg s).0
unfolding handle_query on_query query_in_session on_query_complete complete_check complete_release
handle_query-Works c d left true msg s w =
    let e = w.server in
    let f = w.anywhere in
    Works-like c d left s (handle_query mode_session true msg s).0 (ground arith) (ground arith)
      (ground arith) (ground arith) (ground arith) (inr (msg.number, ground arith)) w
handle_query-Works c d left false msg s w =
    let e = w.server in
    let f = w.anywhere in
    Works-like c d left s (handle_query mode_session false msg s).0 (ground arith) (ground arith)
      (ground arith) (ground arith) (ground arith) (inl (ground arith)) w

in_txn-Works :
    (c d : Conn) (left : List (Option Conn)) (b : Bool) (s : Session)
    → Works c d left s
    → Works c d left (record s { in_txn = b })
in_txn-Works c d left b s w = Works-like c d left s _ refl refl refl refl refl (inl refl) w

and_then-Works :
    (c d : Conn) (left : List (Option Conn)) (r : Session × Outcome)
    (f : Session → Session × Outcome)
    → Works c d left r.0
    → ((s : Session) → Works c d left s → Works c d left (f s).0)
    → Works c d left (and_then r f).0
and_then-Works c d left (s, done) f w g = g s w
and_then-Works c d left (s, error) f w g = w

begin-Works :
    (c d : Conn) (left : List (Option Conn)) (msg : Message) (s : Session)
    → Works c d left s
    → Works c d left (detect_begin mode_session msg s).0
unfolding detect_begin on_transaction_begin
begin-Works c d left msg s w = elim (Bool-cases msg.is_begin) [
  | inl e ↦ rw (e) (in_txn-Works c d left true s w)
  | inr e ↦ rw (e) w
]

query-Works :
    (c d : Conn) (left : List (Option Conn)) (written : Bool) (msg : Message) (s : Session)
    → Works c d left s
    → Works c d left (detect_query mode_session written msg s).0
unfolding detect_query handle_query on_query
query-Works c d left written msg s w = elim (Bool-cases msg.is_query) [
  | inl e ↦ rw (e) (handle_query-Works c d left written msg s w)
  | inr e ↦ rw (e) w
]

end-Works :
    (c d : Conn) (left : List (Option Conn)) (msg : Message) (s : Session)
    → Works c d left s
    → Works c d left (detect_end mode_session msg s).0
unfolding detect_end on_transaction_end
end-Works c d left msg s w = elim (Bool-cases msg.is_end) [
  | inl e ↦ rw (e) (in_txn-Works c d left false s w)
  | inr e ↦ rw (e) w
]

handle_message-Works :
    (c d : Conn) (left : List (Option Conn)) (written : Bool) (msg : Message) (s : Session)
    → Works c d left s
    → Works c d left (handle_message mode_session written msg s).0
unfolding handle_message
handle_message-Works c d left written msg s w =
    and_then-Works c d left (detect_begin mode_session msg s)
      (λ q. and_then (detect_query mode_session written msg q) (detect_end mode_session msg))
      (begin-Works c d left msg s w)
      (λ q h.
        and_then-Works c d left (detect_query mode_session written msg q)
          (detect_end mode_session msg) (query-Works c d left written msg q h)
          (end-Works c d left msg))

step-Works :
    (c d : Conn) (left : List (Option Conn)) (s : Session) (e : Event)
    → Unrouted e
    → Works c d left s
    → Works c d left (step mode_session s e)
unfolding step on_query_complete complete_check complete_release ready
step-Works c d left s completes u w = w
step-Works c d left s (relays none msg) u w = relay-Works c d left msg s w
step-Works c d left s (relays (some role) msg) u w = absurd u
step-Works c d left s (readies true) u w = in_txn-Works c d left false s w
step-Works c d left s (readies false) u w = in_txn-Works c d left true s w
step-Works c d left s (handles written msg) u w = handle_message-Works c d left written msg s w

pub run-Works :
    (c d : Conn) (left : List (Option Conn)) (es : List Event) (s : Session)
    → All Unrouted es
    → Works c d left s
    → Works c d left (run mode_session s es)
unfolding run
run-Works c d left [] s u w = w
run-Works c d left (e ∷ es) s u w =
    run-Works c d left es (step mode_session s e) u.1 (step-Works c d left s e u.0 w)
