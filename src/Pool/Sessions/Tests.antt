-- ===== src/Pool/Sessions/Tests.antt =====
-- Sessions of internal/pool/session.go and what the strategies do with their connections.
use geryon.Base.{ℕ, ◌≡◌, refl, List, [], ◌∷◌, none, some, true, false}
use geryon.Pool.Sessions.{
  mode_transaction, Conn, Session, Message, new_session, on_client_disconnect, Event, relays,
  readies, handles, run,
}
use geryon.Pool.Sessions.Balance.{IsBalanced, run-IsBalanced}

abbrev conn : ℕ → Conn
conn id = record { id = id; role = "primary" }

abbrev begins : Message
begins = record { number = 1; is_begin = true; is_end = false; is_query = true }

abbrev selects : Message
selects = record { number = 2; is_begin = false; is_end = false; is_query = true }

abbrev commits : Message
commits = record { number = 3; is_begin = false; is_end = true; is_query = true }

abbrev script : List Event
script =
    relays none begins
    ∷ readies false
    ∷ relays (some "replica") selects
    ∷ handles false selects
    ∷ relays none commits
    ∷ handles true selects
    ∷ []

abbrev fresh : Session
fresh = new_session (some (conn 7) ∷ none ∷ some (conn 8) ∷ [])

fresh-IsBalanced : IsBalanced fresh
fresh-IsBalanced = record { same = refl; sound = refl }

run-IsBalanced_example :
    IsBalanced (run mode_transaction fresh script)
    × ((on_client_disconnect mode_transaction (run mode_transaction fresh script)).out ≡ [])
run-IsBalanced_example = run-IsBalanced script fresh fresh-IsBalanced

abbrev busy : Session
busy = record fresh { server_conn = some (conn 7); out = conn 7 ∷ [] }

abbrev unrouted : List Event
unrouted = relays none begins ∷ readies false ∷ relays none commits ∷ []
