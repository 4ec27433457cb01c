-- ===== src/Pool/Sessions/Startup.antt =====
-- What becomes of a client in `Handle` of internal/proxy/listener.go.
use geryon.Base.{◌≡◌, false, Option, List, [], All}
use geryon.Pool.Sessions.{Conn, Session}

-- All that the pool gave came back, once, and every message went to `d`.
pub record IsSettled (d : Conn) (left : List (Option Conn)) (s : Session) : Type 0 where
  pub nothing_out : s.out ≡ []
  pub once : s.overdrawn ≡ false
  pub taken : s.answers ≡ left
  pub to_one : All (λ w. w.1 ≡ d.id) s.forwarded
