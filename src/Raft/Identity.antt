-- ===== src/Raft/Identity.antt =====
-- The name of a node of internal/raft/raft.go and the peers it was given never change.
use geryon.Base.{
  ℕ, ◌≡◌, refl, ◌∙◌, Bool, true, false, none, some, List, [], ◌∷◌, String, arith, Bool-cases, inl,
  inr,
}
use geryon.Raft.Types.{
  Node, Message, Body, vote_request, vote_response, append_entries, append_entries_response,
  install_snapshot, install_snapshot_response, Disk, broadcast, broadcast-keeps, VoteRequest,
}
use geryon.Raft.Election.{
  become_follower, become_candidate, become_leader, answer_vote, may_vote, handle_vote_request,
  handle_vote_response, on_election_timeout,
}
use geryon.Raft.Replication.{
  handle_append_entries, handle_append_entries_response, send_heartbeats, heartbeat_request,
  propose, propose_as_leader, send_append_entries_to,
}
use geryon.Raft.Snapshot.{handle_install_snapshot, apply_next}
use geryon.Raft.Step.{
  dispatch, check_term, handle_message, Event, receive, election_timeout, heartbeat_tick, proposal,
  apply, step,
}

id-broadcast : (ps : List String) (b : Body) (n : Node) → (broadcast ps b n).id ≡ n.id
id-broadcast ps b n = broadcast-keeps (λ m. m.id) (λ m o. refl) ps b n

id-send_append_entries_to : (ps : List String) (n : Node) → (send_append_entries_to ps n).id ≡ n.id
unfolding send_append_entries_to
id-send_append_entries_to [] n = refl
id-send_append_entries_to (p ∷ ps) n = id-send_append_entries_to ps _

id-answer_vote :
    (from : String) (req : VoteRequest) (b : Bool) (n : Node) → (answer_vote from req b n).id ≡ n.id
unfolding answer_vote
id-answer_vote from req true n = refl
id-answer_vote from req false n = refl

id-dispatch :
    (disk : Disk) (msg : Message) (b : Body) (n : Node) → (dispatch disk msg b n).id ≡ n.id
unfolding dispatch handle_vote_request handle_vote_response become_leader handle_append_entries
    handle_append_entries_response handle_install_snapshot
id-dispatch disk msg (vote_request none) n = refl
id-dispatch disk msg (vote_request (some r)) n = id-answer_vote msg.sender r (may_vote r n) n
id-dispatch disk msg (vote_response none) n = refl
id-dispatch disk msg (vote_response (some r)) n = ground arith
id-dispatch disk msg (append_entries none) n = refl
id-dispatch disk msg (append_entries (some r)) n = ground arith
id-dispatch disk msg (append_entries_response none) n = refl
id-dispatch disk msg (append_entries_response (some r)) n = ground arith
id-dispatch disk msg (install_snapshot none) n = refl
id-dispatch disk msg (install_snapshot (some r)) n = ground arith
id-dispatch disk msg (install_snapshot_response r) n = refl

id-check_term : (msg : Message) (n : Node) → (check_term msg n).id ≡ n.id
unfolding become_follower
id-check_term msg n = ground arith

id-become_candidate : (n : Node) → (become_candidate n).id ≡ n.id
unfolding become_candidate
id-become_candidate n = id-broadcast n.peers _ _

id-propose_as_leader :
    (disk : Disk) (command : List ℕ) (n : Node) → (propose_as_leader disk command n).0.id ≡ n.id
unfolding propose_as_leader
id-propose_as_leader disk command n = elim (Bool-cases disk.append_ok) [
  | inl e ↦ rw (e, propose_as_leader) (id-send_append_entries_to n.peers _)
  | inr e ↦ rw (e, propose_as_leader)
]

pub id-step : (n : Node) (e : Disk × Event) → (step n e).id ≡ n.id
unfolding step handle_message on_election_timeout send_heartbeats propose apply_next
id-step n (disk, receive msg) =
    id-dispatch disk msg msg.body (check_term msg n) ∙ id-check_term msg n
id-step n (disk, election_timeout) = ground (arith, id-become_candidate n)
id-step n (disk, heartbeat_tick) =
    ground (arith, id-broadcast n.peers (append_entries (some (heartbeat_request n))) n)
id-step n (disk, proposal command) = ground (arith, id-propose_as_leader disk command n)
id-step n (disk, apply decodes) = ground arith
