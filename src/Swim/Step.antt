-- ===== src/Swim/Step.antt =====
-- Everything that can happen to a node of internal/swim/swim.go, one step at a time.
use geryon.Base.{ℕ, List, [], ◌∷◌, String}
use geryon.Swim.{Protocol, Message, Calls}
use geryon.Swim.Handlers.{receive}
use geryon.Swim.Probes.{
  probe_random_member, time_out, check_suspects, gossip, send_to, broadcast_user_data,
}

pub data Action : Type 0 where
  receives : Message → String → Action
  probes : ℕ → Action
  times_out : String → ℕ → Action
  checks : Action
  gossips : ℕ → Action
  sends_to : String → String → Action
  broadcasts : String → Action

-- A step at the time `now`.
unfoldable pub step : Calls → Protocol → ℕ × Action → Protocol
step c p (now, receives msg from) = receive c msg from now p
step c p (now, probes r) = probe_random_member c r now p
step c p (now, times_out id channel) = time_out c id channel p
step c p (now, checks) = check_suspects c now p
step c p (now, gossips r) = gossip c r p
step c p (now, sends_to to payload) = send_to c to payload p
step c p (now, broadcasts payload) = broadcast_user_data c payload p

unfoldable pub run : Calls → Protocol → List (ℕ × Action) → Protocol
run c p [] = p
run c p (a ∷ as') = run c (step c p a) as'
