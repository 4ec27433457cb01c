-- ===== src/Pool/Sessions/Balance.antt =====
-- In transaction mode, internal/pool/strategy.go gives back every connection that it takes, once, if its
-- calls do not overlap.
use geryon.Base.{
  ◌≡◌, refl, ◌∙◌, ap, suc, Bool, true, false, Option, none, some, List, [], ◌∷◌, String, ◌&&◌, not,
  str_eq, if◌then◌else◌, inl, inr, arith, Bool-cases, Option-cases,
}
use geryon.Pool.Sessions.{
  mode_transaction, Conn, Session, Message, Outcome, done, error, take_answer, take_conn, is_out,
  put_back, release, give_back, let_go, complete_check, complete_release, end_release,
  on_client_disconnect, query_in_transaction, on_query, on_query_complete, on_transaction_begin,
  on_transaction_end, proxy_query, relay, ready, handle_query, detect_begin, detect_query,
  detect_end, handle_message, and_then, Event, completes, relays, readies, handles, step, run,
}

abbrev pub held : Option Conn → List Conn
held none = []
held (some c) = c ∷ []

-- The connections that are out are the one that the session holds, and none was given back twice.
pub record IsBalanced (s : Session) : Type 0 where
  pub same : s.out ≡ held s.server_conn
  pub sound : s.overdrawn ≡ false

release-held :
    (s : Session) (c : Conn)
    → IsBalanced s
    → s.server_conn ≡ some c
    → (put_back c.id s.out ≡ []) × (is_out c.id s.out ≡ true)
unfolding put_back is_out
release-held s c b e = (rw (b.same, e) (ground arith), rw (b.same, e) (ground arith))

pub let_go-IsBalanced :
    (s : Session) → IsBalanced s → IsBalanced (let_go s) × ((let_go s).server_conn ≡ none)
unfolding let_go give_back release
let_go-IsBalanced s b = elim (Option-cases s.server_conn) [
  | inl e ↦ rw (let_go, e) (b, e)
  | inr (c, e) ↦
      rw (let_go, give_back, e)
        (
          record {
            same = (release-held s c b e).0;
            sound = ground (arith, (release-held s c b e).1, b.sound);
          },
          refl,
        )
]

take_answer-IsBalanced :
    (s : Session) (as' : List (Option Conn))
    → IsBalanced s
    → s.server_conn ≡ none
    → IsBalanced (take_answer s as').0
unfolding take_answer
take_answer-IsBalanced s [] b e = b
take_answer-IsBalanced s (none ∷ as') b e = record { same = b.same; sound = b.sound }
take_answer-IsBalanced s (some c ∷ as') b e = record {
  same = ground (arith, b.same, e);
  sound = b.sound;
}

take_conn-IsBalanced :
    (s : Session) → IsBalanced s → s.server_conn ≡ none → IsBalanced (take_conn s).0
unfolding take_conn
take_conn-IsBalanced s = take_answer-IsBalanced s s.answers

query_in_transaction-IsBalanced :
    (msg : Message) (s : Session) → IsBalanced s → IsBalanced (query_in_transaction msg s).0
unfolding query_in_transaction
query_in_transaction-IsBalanced msg s b = elim (Option-cases s.server_conn) [
  | inr (c, e) ↦ rw (query_in_transaction, e) b
  | inl e ↦
      let t = take_conn-IsBalanced s b e in
      elim (Option-cases (take_conn s).1) [
        | inl f ↦ rw (query_in_transaction, e, f) t
        | inr (c, f) ↦ elim (Bool-cases (not s.in_txn && not msg.is_begin)) [
          | inl g ↦ rw (query_in_transaction, e, f, g) (record { same = t.same; sound = t.sound })
          | inr g ↦ rw (query_in_transaction, e, f, g) t
        ]
      ]
]

give_back-IsBalanced :
    (s : Session) (c : Conn) → IsBalanced s → s.server_conn ≡ some c → IsBalanced (give_back c s)
unfolding give_back release
give_back-IsBalanced s c b e = record {
  same = (release-held s c b e).0;
  sound = ground (arith, (release-held s c b e).1, b.sound);
}

complete_release-IsBalanced :
    (o : Option Conn) (s : Session)
    → IsBalanced s
    → s.server_conn ≡ o
    → IsBalanced (complete_release mode_transaction o s)
unfolding complete_release
complete_release-IsBalanced none s b e = b
complete_release-IsBalanced (some c) s b e =
    let g = give_back-IsBalanced s c b e in record { same = g.same; sound = g.sound }

complete-IsBalanced :
    (s : Session) → IsBalanced s → IsBalanced (on_query_complete mode_transaction s)
unfolding on_query_complete complete_check complete_release
complete-IsBalanced s b = elim (Bool-cases (not s.in_txn && s.auto_commit)) [
  | inr e ↦ rw (on_query_complete, complete_check, e) b
  | inl e ↦
      rw (on_query_complete, complete_check, e) (complete_release-IsBalanced s.server_conn s b refl)
]

end_release-IsBalanced :
    (o : Option Conn) (s : Session)
    → IsBalanced s
    → s.server_conn ≡ o
    → IsBalanced (end_release o s)
unfolding end_release
end_release-IsBalanced none s b e = record { same = b.same; sound = b.sound }
end_release-IsBalanced (some c) s b e =
    let g = give_back-IsBalanced s c b e in record { same = g.same; sound = g.sound }

end-IsBalanced : (s : Session) → IsBalanced s → IsBalanced (on_transaction_end mode_transaction s)
unfolding on_transaction_end
end-IsBalanced s b =
    end_release-IsBalanced s.server_conn (record s { in_txn = false })
      (record { same = b.same; sound = b.sound }) refl

route-IsBalanced :
    (role : Option String) (s : Session)
    → IsBalanced s
    → IsBalanced (elim role as (λ _. Session) [
      | none ↦ s
      | some r ↦ record s { target_role = if str_eq r "replica" then "replica" else "primary" }
    ])
route-IsBalanced none s b = b
route-IsBalanced (some r) s b = record { same = b.same; sound = b.sound }

proxy_query-IsBalanced :
    (role : Option String) (msg : Message) (s : Session)
    → IsBalanced s
    → IsBalanced (proxy_query mode_transaction role msg s).0
unfolding proxy_query on_query on_transaction_begin
proxy_query-IsBalanced role msg s b = answer (query_in_transaction msg _) (
    query_in_transaction-IsBalanced msg _
      (route-IsBalanced role _ (record { same = b.same; sound = b.sound })))
  where
    answer :
        (asked : Session × Option Conn)
        → IsBalanced asked.0
        → IsBalanced
            (elim asked.1 as (λ _. Session × Option Conn) [
              | none ↦ asked
              | some c ↦
                  if msg.is_begin
                  then ((on_transaction_begin mode_transaction asked.0).0, some c)
                  else if msg.is_end
                  then (on_transaction_end mode_transaction asked.0, some c)
                  else asked
            ]).0
    answer (q, none) h = h
    answer (q, some c) h = elim (Bool-cases msg.is_begin) [
      | inl e ↦ rw (e) (record { same = h.same; sound = h.sound })
      | inr e ↦ elim (Bool-cases msg.is_end) [
        | inl f ↦ rw (e, f) (end-IsBalanced q h)
        | inr f ↦ rw (e, f) h
      ]
    ]

relay-IsBalanced :
    (role : Option String) (msg : Message) (s : Session)
    → IsBalanced s
    → IsBalanced (relay mode_transaction role msg s).0
unfolding relay
relay-IsBalanced role msg s b =
    let h = proxy_query-IsBalanced role msg s b in
    elim (Option-cases (proxy_query mode_transaction role msg s).1) [
      | inl e ↦ rw (relay, e) h
      | inr (c, e) ↦ rw (relay, e) (record { same = h.same; sound = h.sound })
    ]

ready-IsBalanced :
    (idle : Bool) (s : Session) → IsBalanced s → IsBalanced (ready mode_transaction idle s)
unfolding ready
ready-IsBalanced true s b = complete-IsBalanced _ (record { same = b.same; sound = b.sound })
ready-IsBalanced false s b = record { same = b.same; sound = b.sound }

handle_query-IsBalanced :
    (written : Bool) (msg : Message) (s : Session)
    → IsBalanced s
    → IsBalanced (handle_query mode_transaction written msg s).0
unfolding handle_query on_query
handle_query-IsBalanced written msg s b =
    let counted : Session = record s { query_count = suc s.query_count } in
    let h =
      query_in_transaction-IsBalanced msg counted (record { same = b.same; sound = b.sound }) in
    elim (Option-cases (query_in_transaction msg counted).1) [
      | inl e ↦ rw (handle_query, on_query, e) h
      | inr (c, e) ↦ elim (Bool-cases written) [
        | inl f ↦
            rw (handle_query, on_query, e, f)
              (complete-IsBalanced _ (record { same = h.same; sound = h.sound }))
        | inr f ↦ rw (handle_query, on_query, e, f) h
      ]
    ]

and_then-IsBalanced :
    (r : Session × Outcome) (f : Session → Session × Outcome)
    → IsBalanced r.0
    → ((s : Session) → IsBalanced s → IsBalanced (f s).0)
    → IsBalanced (and_then r f).0
and_then-IsBalanced (s, done) f b g = g s b
and_then-IsBalanced (s, error) f b g = b

begin-IsBalanced :
    (msg : Message) (s : Session)
    → IsBalanced s
    → IsBalanced (detect_begin mode_transaction msg s).0
unfolding detect_begin on_transaction_begin
begin-IsBalanced msg s b = elim (Bool-cases msg.is_begin) [
  | inl e ↦ rw (e) (record { same = b.same; sound = b.sound })
  | inr e ↦ rw (e) b
]

query-IsBalanced :
    (written : Bool) (msg : Message) (s : Session)
    → IsBalanced s
    → IsBalanced (detect_query mode_transaction written msg s).0
unfolding detect_query handle_query on_query query_in_transaction
query-IsBalanced written msg s b = elim (Bool-cases msg.is_query) [
  | inl e ↦ rw (e) (handle_query-IsBalanced written msg s b)
  | inr e ↦ rw (e) b
]

detect_end-IsBalanced :
    (msg : Message) (s : Session) → IsBalanced s → IsBalanced (detect_end mode_transaction msg s).0
unfolding detect_end
detect_end-IsBalanced msg s b = elim (Bool-cases msg.is_end) [
  | inl e ↦
      rw (e)
        (end-IsBalanced (record s { in_txn = false }) (record { same = b.same; sound = b.sound }))
  | inr e ↦ rw (e) b
]

handle_message-IsBalanced :
    (written : Bool) (msg : Message) (s : Session)
    → IsBalanced s
    → IsBalanced (handle_message mode_transaction written msg s).0
unfolding handle_message
handle_message-IsBalanced written msg s b =
    and_then-IsBalanced (detect_begin mode_transaction msg s)
      (λ q.
        and_then (detect_query mode_transaction written msg q) (detect_end mode_transaction msg))
      (begin-IsBalanced msg s b)
      (λ q h.
        and_then-IsBalanced (detect_query mode_transaction written msg q)
          (detect_end mode_transaction msg) (query-IsBalanced written msg q h)
          (detect_end-IsBalanced msg))

step-IsBalanced : (s : Session) (e : Event) → IsBalanced s → IsBalanced (step mode_transaction s e)
unfolding step
step-IsBalanced s completes b = complete-IsBalanced s b
step-IsBalanced s (relays role msg) b = relay-IsBalanced role msg s b
step-IsBalanced s (readies idle) b = ready-IsBalanced idle s b
step-IsBalanced s (handles written msg) b = handle_message-IsBalanced written msg s b

-- In transaction mode, when the calls on a session come one after another and do not overlap, whatever
-- they are and whatever the pool answers: if the connections that are out are the one that the session
-- holds and no other, and none was given back twice, then this stays so, and none is out after the
-- client has gone.
pub run-IsBalanced :
    (es : List Event) (s : Session)
    → IsBalanced s
    → IsBalanced (run mode_transaction s es)
      × ((on_client_disconnect mode_transaction (run mode_transaction s es)).out ≡ [])
unfolding run on_client_disconnect
run-IsBalanced [] s b = let (l, e) = let_go-IsBalanced s b in (b, l.same ∙ ap held e)
run-IsBalanced (e ∷ es) s b = run-IsBalanced es (step mode_transaction s e) (step-IsBalanced s e b)
