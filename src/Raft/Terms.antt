-- ===== src/Raft/Terms.antt =====
-- Terms of internal/raft/raft.go: what each handler does to the current term and to the commit index.
use geryon.Base.{
  ℕ, ◌+◌, ◌≤◌, ◌<◌, ◌^◌, ◌≡◌, refl, ◌∙◌, Bool, true, false, Option, none, some, List, [], ◌∷◌,
  String, arith, Bool-cases, inl, inr,
}
use geryon.Raft.Types.{
  Node, Message, Body, vote_request, vote_response, append_entries, append_entries_response,
  install_snapshot, install_snapshot_response, Disk, broadcast, broadcast-keeps, VoteRequest,
  VoteResponse, AppendEntries, AppendEntriesResponse, InstallSnapshotRequest,
}
use geryon.Raft.Election.{
  become_follower, become_candidate, become_leader, answer_vote, may_vote, handle_vote_request,
  handle_vote_response, on_election_timeout,
}
use geryon.Raft.Replication.{
  handle_append_entries, handle_append_entries_response, send_heartbeats, heartbeat_request,
  propose, propose_as_leader, send_append_entries_to,
}
use geryon.Raft.Snapshot.{handle_install_snapshot, apply_next}
use geryon.Raft.Step.{
  dispatch, check_term, handle_message, Event, receive, election_timeout, heartbeat_tick, proposal,
  apply, step,
}

pub term-broadcast :
    (ps : List String) (b : Body) (n : Node) → (broadcast ps b n).current_term ≡ n.current_term
term-broadcast ps b n = broadcast-keeps (λ m. m.current_term) (λ m o. refl) ps b n

pub term-send_append_entries_to :
    (ps : List String) (n : Node) → (send_append_entries_to ps n).current_term ≡ n.current_term
unfolding send_append_entries_to
term-send_append_entries_to [] n = refl
term-send_append_entries_to (p ∷ ps) n = term-send_append_entries_to ps _

term-answer_vote :
    (from : String) (req : VoteRequest) (b : Bool) (n : Node)
    → (answer_vote from req b n).current_term ≡ n.current_term
unfolding answer_vote
term-answer_vote from req true n = refl
term-answer_vote from req false n = refl

term-vote_request :
    (from : String) (r : Option VoteRequest) (n : Node)
    → (handle_vote_request from r n).current_term ≡ n.current_term
unfolding handle_vote_request
term-vote_request from none n = refl
term-vote_request from (some req) n = term-answer_vote from req (may_vote req n) n

term-vote_response :
    (from : String) (r : Option VoteResponse) (n : Node)
    → n.current_term ≤ (handle_vote_response from r n).current_term
unfolding handle_vote_response become_leader
term-vote_response from none n = omega arith
term-vote_response from (some resp) n = ground arith

term-append_entries :
    (disk : Disk) (from : String) (r : Option AppendEntries) (n : Node)
    → (handle_append_entries disk from r n).current_term ≡ n.current_term
unfolding handle_append_entries
term-append_entries disk from none n = refl
term-append_entries disk from (some req) n = ground arith

term-note_response :
    (from : String) (r : Option AppendEntriesResponse) (n : Node)
    → n.current_term ≤ (handle_append_entries_response from r n).current_term
unfolding handle_append_entries_response
term-note_response from none n = omega arith
term-note_response from (some resp) n = ground arith

term-install_snapshot :
    (disk : Disk) (from : String) (r : Option InstallSnapshotRequest) (n : Node)
    → (handle_install_snapshot disk from r n).current_term ≡ n.current_term
unfolding handle_install_snapshot
term-install_snapshot disk from none n = refl
term-install_snapshot disk from (some req) n = ground arith

term-dispatch :
    (disk : Disk) (msg : Message) (b : Body) (n : Node)
    → n.current_term ≤ (dispatch disk msg b n).current_term
unfolding dispatch
term-dispatch disk msg (vote_request r) n = omega (arith, term-vote_request msg.sender r n)
term-dispatch disk msg (vote_response r) n = term-vote_response msg.sender r n
term-dispatch disk msg (append_entries r) n = omega (arith, term-append_entries disk msg.sender r n)
term-dispatch disk msg (append_entries_response r) n = term-note_response msg.sender r n
term-dispatch disk msg (install_snapshot r) n =
    omega (arith, term-install_snapshot disk msg.sender r n)
term-dispatch disk msg (install_snapshot_response r) n = omega arith

term-check_term : (msg : Message) (n : Node) → n.current_term ≤ (check_term msg n).current_term
unfolding become_follower
term-check_term msg n = ground arith

term-become_candidate :
    (n : Node)
    → n.current_term + 1 < 2 ^ 64
    → (become_candidate n).current_term ≡ n.current_term + 1
unfolding become_candidate
term-become_candidate n h = term-broadcast n.peers _ _ ∙ omega arith

term-propose_as_leader :
    (disk : Disk) (command : List ℕ) (n : Node)
    → (propose_as_leader disk command n).0.current_term ≡ n.current_term
unfolding propose_as_leader
term-propose_as_leader disk command n = elim (Bool-cases disk.append_ok) [
  | inl e ↦ rw (e, propose_as_leader) (term-send_append_entries_to n.peers _)
  | inr e ↦ rw (e, propose_as_leader)
]

term-propose :
    (disk : Disk) (command : List ℕ) (n : Node)
    → (propose disk command n).0.current_term ≡ n.current_term
unfolding propose
term-propose disk command n = ground (arith, term-propose_as_leader disk command n)

-- Whatever happens to a node, its term never falls, as long as it is below the largest `uint64`.
pub term-step :
    (n : Node) (e : Disk × Event)
    → n.current_term + 1 < 2 ^ 64
    → n.current_term ≤ (step n e).current_term
unfolding step handle_message on_election_timeout send_heartbeats propose apply_next
term-step n (disk, receive msg) h =
    omega (arith, term-check_term msg n, term-dispatch disk msg msg.body (check_term msg n))
term-step n (disk, election_timeout) h = ground (arith, term-become_candidate n)
term-step n (disk, heartbeat_tick) h =
    ground (arith, term-broadcast n.peers (append_entries (some (heartbeat_request n))) n)
term-step n (disk, proposal command) h = ground (arith, term-propose disk command n)
term-step n (disk, apply decodes) h = ground arith
