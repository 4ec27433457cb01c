-- ===== src/Raft/Majority.antt =====
-- How a node of internal/raft/raft.go becomes leader.
use geryon.Base.{
  ◌+◌, ◌*◌, ◌≤◌, ◌<◌, ◌≡◌, ◌≢◌, refl, sym, ◌∙◌, Bool, true, false, none, some, List, [], ◌∷◌,
  String, ◌⊎◌, arith, inl, inr, length,
}
use geryon.Raft.Types.{
  Node, follower, candidate, leader, Message, Body, vote_request, vote_response, append_entries,
  append_entries_response, install_snapshot, install_snapshot_response, Disk, broadcast,
  broadcast-keeps, VoteRequest, VoteResponse,
}
use geryon.Raft.Election.{
  become_follower, become_candidate, become_leader, answer_vote, may_vote, handle_vote_request,
  handle_vote_response, on_election_timeout,
}
use geryon.Raft.Replication.{
  handle_append_entries, handle_append_entries_response, send_heartbeats, heartbeat_request,
  propose, send_append_entries_to,
}
use geryon.Raft.Snapshot.{handle_install_snapshot, apply_next}
use geryon.Raft.Step.{
  dispatch, check_term, handle_message, Event, receive, election_timeout, heartbeat_tick, proposal,
  apply, step,
}

-- More than half of the peers and the node itself have voted for it.
abbrev pub HasMajority : Node → Type 0
HasMajority n = length n.peers + 1 < 2 * (length n.votes_received + 1)

-- Unless it led before, a node leads only as a candidate with a majority.
abbrev Elected : Node → Node → Type 0
Elected n m = n.state ≢ leader → m.state ≡ leader → (n.state ≡ candidate) × HasMajority m

state-broadcast : (ps : List String) (b : Body) (n : Node) → (broadcast ps b n).state ≡ n.state
state-broadcast ps b n = broadcast-keeps (λ m. m.state) (λ m o. refl) ps b n

state-answer_vote :
    (from : String) (req : VoteRequest) (b : Bool) (n : Node)
    → (answer_vote from req b n).state ≡ n.state
unfolding answer_vote
state-answer_vote from req true n = refl
state-answer_vote from req false n = refl

vote_response-Elected :
    (from : String) (resp : VoteResponse) (n : Node)
    → Elected n (handle_vote_response from (some resp) n)
unfolding handle_vote_response become_leader
vote_response-Elected from resp n h = ground arith

dispatch-Elected :
    (disk : Disk) (msg : Message) (b : Body) (n : Node) → Elected n (dispatch disk msg b n)
unfolding dispatch handle_vote_request handle_vote_response handle_append_entries
    handle_append_entries_response handle_install_snapshot
dispatch-Elected disk msg (vote_request none) n h = ground arith
dispatch-Elected disk msg (vote_request (some r)) n h =
    ground (arith, state-answer_vote msg.sender r (may_vote r n) n)
dispatch-Elected disk msg (vote_response none) n h = ground arith
dispatch-Elected disk msg (vote_response (some r)) n h = vote_response-Elected msg.sender r n h
dispatch-Elected disk msg (append_entries none) n h = ground arith
dispatch-Elected disk msg (append_entries (some r)) n h = ground arith
dispatch-Elected disk msg (append_entries_response none) n h = ground arith
dispatch-Elected disk msg (append_entries_response (some r)) n h = ground arith
dispatch-Elected disk msg (install_snapshot none) n h = ground arith
dispatch-Elected disk msg (install_snapshot (some r)) n h = ground arith
dispatch-Elected disk msg (install_snapshot_response r) n h = ground arith

check_term-state :
    (msg : Message) (n : Node)
    → ((check_term msg n).state ≡ n.state) ⊎ ((check_term msg n).state ≡ follower)
unfolding become_follower
check_term-state msg n = ground arith

become_candidate-state : (n : Node) → (become_candidate n).state ≡ candidate
unfolding become_candidate
become_candidate-state n = state-broadcast n.peers _ _

state-send_append_entries_to :
    (ps : List String) (n : Node) → (send_append_entries_to ps n).state ≡ n.state
unfolding send_append_entries_to
state-send_append_entries_to [] n = refl
state-send_append_entries_to (p ∷ ps) n = state-send_append_entries_to ps _

-- A node that was not the leader and is after a step was a candidate, and the votes it then holds,
-- its own included, are more than half of the votes of its peers and itself.
pub step-majority :
    (n : Node) (e : Disk × Event)
    → n.state ≢ leader
    → (step n e).state ≡ leader
    → (n.state ≡ candidate) × HasMajority (step n e)
unfolding step handle_message on_election_timeout send_heartbeats propose apply_next
step-majority n (disk, receive msg) h k =
    let c = check_term msg n in
    let d = dispatch-Elected disk msg msg.body c in
    elim (check_term-state msg n) [
      | inl e ↦ let r = d (rw e h) k in (sym e ∙ r.0, r.1)
      | inr e ↦ let r = d (ground arith) k in absurd (ground arith)
    ]
step-majority n (disk, election_timeout) h k = ground (arith, become_candidate-state n)
step-majority n (disk, heartbeat_tick) h k =
    ground (arith, state-broadcast n.peers (append_entries (some (heartbeat_request n))) n)
step-majority n (disk, proposal command) h k = ground arith
step-majority n (disk, apply decodes) h k = ground arith

-- The answer to a vote response of an earlier term is the answer to one of the current term: the
-- handler of a message whose term is not above the node's compares terms for nothing else.
pub stale_vote :
    (disk : Disk) (msg : Message) (resp : VoteResponse) (n : Node)
    → msg.term ≤ n.current_term
    → resp.term ≤ n.current_term
    → handle_message disk (record msg { body = vote_response (some resp) }) n
      ≡ handle_message disk
          (record msg {
            term = n.current_term;
            body = vote_response (some (record resp { term = n.current_term }));
          })
          n
unfolding handle_message dispatch handle_vote_response
stale_vote disk msg resp n h k = ground arith
