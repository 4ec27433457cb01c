-- ===== src/Pool/Sessions/Handle.antt =====
-- `Handle` of internal/proxy/listener.go: the start-up of a client, the relay, and what is deferred.
use geryon.Base.{Bool, Option, none, some, List, if◌then◌else◌}
use geryon.Pool.Sessions.{
  PoolMode, Conn, Session, Outcome, done, error, Event, release, on_client_connect,
  on_client_disconnect, run,
}

-- `connectToBackend` up to where it has a connection; the start-up of the other protocols does the same.
-- `none` is an error.
unfoldable pub connect_to_backend : PoolMode → Session → Session × Option Conn
connect_to_backend mode s = elim (on_client_connect mode s).1 [
  | error ↦ ((on_client_connect mode s).0, none)
  | done ↦ ((on_client_connect mode s).0, (on_client_connect mode s).0.server_conn)
]

-- What `Handle` defers, less the count of a user's connections: the strategy's disconnect, and the release of the connection that start-up took.
unfoldable pub finish : PoolMode → Option Conn → Session → Session
finish mode none s = on_client_disconnect mode s
finish mode (some c) s = release c (on_client_disconnect mode s)

unfoldable pub relay_run : PoolMode → Conn → List Event → Session × Outcome → Session
relay_run mode c es (s, error) = finish mode (some c) s
relay_run mode c es (s, done) = finish mode (some c) (run mode s es)

-- `Handle`, from where the client has shown who it is; `through` says whether the rest of start-up, what
-- is exchanged on the connection, succeeds.
unfoldable pub handle : PoolMode → Bool → List Event → Session → Session
handle mode through es s =
    let (t, conn) = connect_to_backend mode s in
    elim conn [
      | none ↦ finish mode none t
      | some c ↦
          if through then relay_run mode c es (on_client_connect mode t) else finish mode (some c) t
    ]
