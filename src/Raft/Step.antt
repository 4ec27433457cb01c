-- ===== src/Raft/Step.antt =====
-- The event loop of internal/raft/raft.go: `handleMessage` and the other things that can happen to a
-- node, one at a time.
use geryon.Base.{ℕ, Bool, List, [], ◌∷◌, ltb, if◌then◌else◌}
use geryon.Raft.Types.{
  Node, Message, Body, vote_request, vote_response, append_entries, append_entries_response,
  install_snapshot, install_snapshot_response, Disk,
}
use geryon.Raft.Election.{
  become_follower, handle_vote_request, handle_vote_response, on_election_timeout,
}
use geryon.Raft.Replication.{
  handle_append_entries, handle_append_entries_response, send_heartbeats, propose,
}
use geryon.Raft.Snapshot.{handle_install_snapshot, apply_next}

-- The `switch` on the type of the message.
unfoldable pub dispatch : Disk → Message → Body → Node → Node
dispatch disk msg (vote_request r) n = handle_vote_request msg.sender r n
dispatch disk msg (vote_response r) n = handle_vote_response msg.sender r n
dispatch disk msg (append_entries r) n = handle_append_entries disk msg.sender r n
dispatch disk msg (append_entries_response r) n = handle_append_entries_response msg.sender r n
dispatch disk msg (install_snapshot r) n = handle_install_snapshot disk msg.sender r n
dispatch disk msg (install_snapshot_response r) n = n

-- "Check term"
abbrev pub check_term : Message → Node → Node
check_term msg n = if ltb n.current_term msg.term then become_follower msg.term n else n

unfoldable pub handle_message : Disk → Message → Node → Node
unfolding dispatch
handle_message disk msg n = dispatch disk msg msg.body (check_term msg n)

pub data Event : Type 0 where
  receive : Message → Event
  election_timeout heartbeat_tick : Event
  proposal : List ℕ → Event
  apply : Bool → Event

unfoldable pub step : Node → Disk × Event → Node
unfolding handle_message
step n (disk, receive msg) = handle_message disk msg n
step n (disk, election_timeout) = on_election_timeout n
step n (disk, heartbeat_tick) = send_heartbeats n
step n (disk, proposal command) = (propose disk command n).0
step n (disk, apply decodes) = apply_next disk decodes n

unfoldable pub run : Node → List (Disk × Event) → Node
run n [] = n
run n (e ∷ es) = run (step n e) es
