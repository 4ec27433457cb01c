-- ===== src/Pool/Sessions.antt =====
-- Clients' sessions and the strategies of pooling: internal/pool/session.go, internal/pool/strategy.go,
-- and how internal/proxy/listener.go calls them for a query. The pool is what this needs of it:
-- `answers` are what its next calls of Acquire or AcquireToRole give, `none` for an error, `out` the
-- connections that it has handed to the session and not got back, and `overdrawn` says that one was
-- given back that was not out. A call of a strategy is one step; the two goroutines of the relay make
-- such calls at the same time, and nothing locks a check and the release that follows it, so these are
-- functions of their own, which `Races` takes one between the other.
pub mod Balance
pub mod Races
pub mod Handle
pub mod Held
pub mod Startup
mod Tests
use geryon.Base.{
  ℕ, suc, ◌+◌, Bool, true, false, Option, none, some, List, [], ◌∷◌, ◌++◌, String, ◌&&◌, ◌||◌, not,
  ◌==◌, str_eq, if◌then◌else◌,
}

pub data PoolMode : Type 0 where
  mode_session mode_transaction mode_statement : PoolMode

pub record Conn : Type 0 where
  pub id : ℕ
  pub role : String

pub record Session : Type 0 where
  pub server_conn : Option Conn
  pub in_txn : Bool
  pub auto_commit : Bool
  pub target_role : String
  pub query_count : ℕ
  -- The pool, as this session sees it.
  pub answers : List (Option Conn)
  pub out : List Conn
  pub overdrawn : Bool
  pub txn_count : ℕ
  pub forwarded : List (ℕ × ℕ)

-- What the codec tells of a message, which is a number here.
pub record Message : Type 0 where
  pub number : ℕ
  pub is_begin : Bool
  pub is_end : Bool
  pub is_query : Bool

pub data Outcome : Type 0 where
  done : Outcome
  error : Outcome

abbrev pub new_session : List (Option Conn) → Session
new_session answers = record {
  server_conn = none;
  in_txn = false;
  auto_commit = true;
  target_role = "";
  query_count = 0;
  answers = answers;
  out = [];
  overdrawn = false;
  txn_count = 0;
  forwarded = [];
}

-- `Acquire` or `AcquireToRole`, and `SetServerConn` when it succeeds.
unfoldable pub take_answer : Session → List (Option Conn) → Session × Option Conn
take_answer s [] = (s, none)
take_answer s (none ∷ as') = (record s { answers = as' }, none)
take_answer s (some c ∷ as') =
    (record s { answers = as'; out = c ∷ s.out; server_conn = some c }, some c)

unfoldable pub take_conn : Session → Session × Option Conn
take_conn s = take_answer s s.answers

unfoldable pub is_out : ℕ → List Conn → Bool
is_out i [] = false
is_out i (c ∷ cs) = let rest = is_out i cs in if c.id == i then true else rest

unfoldable pub put_back : ℕ → List Conn → List Conn
put_back i [] = []
put_back i (c ∷ cs) = let rest = put_back i cs in if c.id == i then cs else c ∷ rest

-- `Release` of the pool.
unfoldable pub release : Conn → Session → Session
release c s = record s {
  out = put_back c.id s.out;
  overdrawn = s.overdrawn || not (is_out c.id s.out);
}

-- `Release` of a connection and `SetServerConn(nil)`.
unfoldable pub give_back : Conn → Session → Session
give_back c s = record (release c s) { server_conn = none }

-- The same for the connection that the session holds.
unfoldable pub let_go : Session → Session
let_go s = elim s.server_conn [ none ↦ s | some c ↦ give_back c s ]

unfoldable pub on_client_connect : PoolMode → Session → Session × Outcome
on_client_connect mode_session s = elim (take_conn s).1 [
  | none ↦ ((take_conn s).0, error)
  | some c ↦ ((take_conn s).0, done)
]
on_client_connect mode_transaction s = (s, done)
on_client_connect mode_statement s = (s, done)

unfoldable pub on_client_disconnect : PoolMode → Session → Session
on_client_disconnect mode s = let_go s

-- `OnQuery` of the three strategies. In session mode a connection of another role than the wanted one is
-- given back first; the session still points to it until another is there.
unfoldable pub query_in_session : Session → Session × Option Conn
query_in_session s = elim s.server_conn [
  | none ↦ take_conn s
  | some c ↦
      if not (str_eq s.target_role "") && not (str_eq c.role s.target_role)
      then take_conn (release c s)
      else (s, some c)
]

unfoldable pub query_in_transaction : Message → Session → Session × Option Conn
query_in_transaction msg s = elim s.server_conn [
  | some c ↦ (s, some c)
  | none ↦ elim (take_conn s).1 [
    | none ↦ ((take_conn s).0, none)
    | some c ↦ (
      if not s.in_txn && not msg.is_begin
          then record (take_conn s).0 { auto_commit = true }
          else (take_conn s).0,
      some c,
    )
  ]
]

unfoldable pub on_query : PoolMode → Message → Session → Session × Option Conn
on_query mode_session msg s = query_in_session s
on_query mode_transaction msg s = query_in_transaction msg s
on_query mode_statement msg s = take_conn s

-- The connection that `OnQueryComplete` finds to be released.
unfoldable pub complete_check : PoolMode → Session → Option Conn
complete_check mode_session s = none
complete_check mode_transaction s = if not s.in_txn && s.auto_commit then s.server_conn else none
complete_check mode_statement s = s.server_conn

-- What it does then.
unfoldable pub complete_release : PoolMode → Option Conn → Session → Session
complete_release mode none s = s
complete_release mode_session (some c) s = s
complete_release mode_transaction (some c) s = record (give_back c s) { auto_commit = false }
complete_release mode_statement (some c) s = give_back c s

unfoldable pub on_query_complete : PoolMode → Session → Session
on_query_complete mode s = complete_release mode (complete_check mode s) s

unfoldable pub on_transaction_begin : PoolMode → Session → Session × Outcome
on_transaction_begin mode_session s = (record s { in_txn = true }, done)
on_transaction_begin mode_transaction s = (record s { in_txn = true }, done)
on_transaction_begin mode_statement s = (s, error)

-- What `OnTransactionEnd` does in transaction mode with the connection that it found.
unfoldable pub end_release : Option Conn → Session → Session
end_release none s = record s { txn_count = suc s.txn_count }
end_release (some c) s = record (give_back c s) { txn_count = suc s.txn_count }

unfoldable pub on_transaction_end : PoolMode → Session → Session
on_transaction_end mode_session s = record s { in_txn = false }
on_transaction_end mode_transaction s =
    let t : Session = record s { in_txn = false } in end_release t.server_conn t
on_transaction_end mode_statement s = s

-- `OnQuery` of the listener's session, on every message that is relayed. `role` is the role of the
-- backend that the router gives, if there is one.
unfoldable pub proxy_query : PoolMode → Option String → Message → Session → Session × Option Conn
proxy_query mode role msg s =
    let counted : Session = record s { query_count = suc s.query_count } in
    let routed : Session = elim role [
      | none ↦ counted
      | some r ↦ record counted {
        target_role = if str_eq r "replica" then "replica" else "primary";
      }
    ] in
    let asked = on_query mode msg routed in
    elim asked.1 [
      | none ↦ asked
      | some c ↦
          if msg.is_begin
          then ((on_transaction_begin mode asked.0).0, some c)
          else if msg.is_end
          then (on_transaction_end mode asked.0, some c)
          else asked
    ]

-- The relay of a message: what `OnQuery` answers is written to.
unfoldable pub relay : PoolMode → Option String → Message → Session → Session × Outcome
relay mode role msg s = elim (proxy_query mode role msg s).1 [
  | none ↦ ((proxy_query mode role msg s).0, error)
  | some c ↦ (
    record (proxy_query mode role msg s).0 {
      forwarded = (proxy_query mode role msg s).0.forwarded ++ (msg.number, c.id) ∷ [];
    },
    done,
  )
]

-- What the server says at the end of a query: `true` when it is in no transaction.
unfoldable pub ready : PoolMode → Bool → Session → Session
ready mode true s = on_query_complete mode (record s { in_txn = false })
ready mode false s = record s { in_txn = true }

-- The query in `HandleMessage`; `written` says whether the write to the server succeeds.
unfoldable pub handle_query : PoolMode → Bool → Message → Session → Session × Outcome
handle_query mode written msg s =
    let asked = on_query mode msg (record s { query_count = suc s.query_count }) in
    elim asked.1 [
      | none ↦ (asked.0, error)
      | some c ↦
          if written
          then (
            on_query_complete mode
                (record asked.0 { forwarded = asked.0.forwarded ++ (msg.number, c.id) ∷ [] }),
            done,
          )
          else (asked.0, error)
    ]

abbrev pub and_then : Session × Outcome → (Session → Session × Outcome) → Session × Outcome
and_then (s, done) f = f s
and_then (s, error) f = (s, error)

-- The three parts of `HandleMessage`: the start of a transaction, the query, and the end.
unfoldable pub detect_begin : PoolMode → Message → Session → Session × Outcome
detect_begin mode msg s =
    if msg.is_begin then on_transaction_begin mode (record s { in_txn = true }) else (s, done)

unfoldable pub detect_query : PoolMode → Bool → Message → Session → Session × Outcome
detect_query mode written msg s =
    if msg.is_query then handle_query mode written msg s else (s, done)

unfoldable pub detect_end : PoolMode → Message → Session → Session × Outcome
detect_end mode msg s =
    if msg.is_end then (on_transaction_end mode (record s { in_txn = false }), done) else (s, done)

unfoldable pub handle_message : PoolMode → Bool → Message → Session → Session × Outcome
handle_message mode written msg s =
    and_then (detect_begin mode msg s)
      (λ q. and_then (detect_query mode written msg q) (detect_end mode msg))

-- What happens to a session while messages are relayed, one thing after another. `handles` is
-- `HandleMessage`, which the listener does not call.
pub data Event : Type 0 where
  completes : Event
  relays : Option String → Message → Event
  readies : Bool → Event
  handles : Bool → Message → Event

unfoldable pub step : PoolMode → Session → Event → Session
step mode s completes = on_query_complete mode s
step mode s (relays role msg) = (relay mode role msg s).0
step mode s (readies idle) = ready mode idle s
step mode s (handles written msg) = (handle_message mode written msg s).0

unfoldable pub run : PoolMode → Session → List Event → Session
run mode s [] = s
run mode s (e ∷ es) = run mode (step mode s e) es
