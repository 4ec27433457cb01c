-- ===== src/Raft/Ballots.antt =====
-- Between two messages from a leader, a node of internal/raft/raft.go votes once in each term.
use geryon.Base.{
  ℕ, ◌+◌, ◌<◌, ◌^◌, ◌≡◌, ◌≢◌, refl, sym, ◌⊎◌, inl, inr, Bool, true, Option, none, some, List, [],
  ◌∷◌, String, arith, Bool-cases, u64, subst, string_discrete,
}
use geryon.Raft.Types.{
  Node, NodeState, follower, candidate, leader, Message, Body, vote_request, vote_response,
  append_entries, append_entries_response, install_snapshot, install_snapshot_response, VoteRequest,
  VoteResponse, AppendEntriesResponse, Disk, send, broadcast,
}
use geryon.Raft.Election.{
  become_follower, become_candidate, become_leader, answer_vote, may_vote, handle_vote_request,
  handle_vote_response, on_election_timeout,
}
use geryon.Raft.Replication.{
  handle_append_entries_response, send_heartbeats, propose, propose_as_leader,
  send_append_entries_to,
}
use geryon.Raft.Snapshot.{apply_next}
use geryon.Raft.Step.{
  dispatch, check_term, handle_message, Event, receive, election_timeout, heartbeat_tick, proposal,
  apply, step, run,
}
use geryon.Raft.Identity.{id-step}
use geryon.Raft.Voting.{OneVote, OneVote-start, Cast, ballot_of, new_term, first_vote, silent, cast}

abbrev pub NodeVotes : Node → Type 0
NodeVotes n = OneVote n.current_term n.voted_for n.outbox

broadcast-silent :
    (ps : List String) (b : Body) (n : Node)
    → ((to : String) → ballot_of to b ≡ none)
    → NodeVotes n
    → NodeVotes (broadcast ps b n)
unfolding broadcast
broadcast-silent [] b n q v = v
broadcast-silent (p ∷ ps) b n q v = broadcast-silent ps b (send p b n) q (silent v _ (q p))

broadcast-own :
    (ps : List String) (b : Body) (n : Node)
    → n.voted_for ≢ ""
    → ((to : String) → ballot_of to b ≡ some (n.current_term, n.voted_for))
    → NodeVotes n
    → NodeVotes (broadcast ps b n)
unfolding broadcast
broadcast-own [] b n h q v = v
broadcast-own (p ∷ ps) b n h q v = broadcast-own ps b (send p b n) h q (cast v _ h (q p))

become_candidate-NodeVotes :
    (n : Node)
    → n.id ≢ ""
    → n.current_term + 1 < 2 ^ 64
    → NodeVotes n
    → NodeVotes (become_candidate n)
unfolding become_candidate ballot_of
become_candidate-NodeVotes n h small v =
    broadcast-own n.peers _ _ h (λ to. refl)
      (new_term v (u64 (n.current_term + 1)) n.id (omega arith))

answer_vote-NodeVotes :
    (from : String) (req : VoteRequest) (n : Node)
    → req.candidate_id ≡ from
    → from ≢ ""
    → NodeVotes n
    → NodeVotes (answer_vote from req (may_vote req n) n)
answer_vote-NodeVotes from req n e h v = elim (Bool-cases (may_vote req n)) [
  | inl granted ↦ rw granted (grant granted)
  | inr denied ↦ rw denied (unfold answer_vote ballot_of in silent v _ refl)
]
  where
    voted : may_vote req n ≡ true → OneVote n.current_term req.candidate_id n.outbox
    voted granted = elim (string_discrete n.voted_for "") [
      | yes fresh ↦ first_vote v req.candidate_id fresh
      | no old ↦
          let same : n.voted_for ≡ req.candidate_id = ground arith in
          subst (λ c. OneVote n.current_term c n.outbox) same v
    ]

    grant : may_vote req n ≡ true → NodeVotes (answer_vote from req true n)
    grant granted =
        unfold answer_vote ballot_of in cast (voted granted) _ (ground arith) (ground arith)

-- Nothing is sent, and the vote stands unless the term rises.
abbrev Quiet : Node → Node → Type 0
Quiet n m =
    (m.outbox ≡ n.outbox)
    × ((n.current_term < m.current_term)
        ⊎ ((m.current_term ≡ n.current_term) × (m.voted_for ≡ n.voted_for)))

Quiet-NodeVotes : (n m : Node) → Quiet n m → NodeVotes n → NodeVotes m
Quiet-NodeVotes n m (o, inl h) v =
    subst (λ out. OneVote m.current_term m.voted_for out) (sym o)
      (new_term v m.current_term m.voted_for h)
Quiet-NodeVotes n m (o, inr (t, c)) v = rw (o, t, c) v

vote_response-Quiet :
    (from : String) (r : Option VoteResponse) (n : Node) → Quiet n (handle_vote_response from r n)
unfolding handle_vote_response become_leader
vote_response-Quiet from none n = ground arith
vote_response-Quiet from (some resp) n = ground arith

append_response-Quiet :
    (from : String) (r : Option AppendEntriesResponse) (n : Node)
    → Quiet n (handle_append_entries_response from r n)
unfolding handle_append_entries_response
append_response-Quiet from none n = ground arith
append_response-Quiet from (some resp) n = ground arith

check_term-Quiet : (msg : Message) (n : Node) → Quiet n (check_term msg n)
unfolding become_follower
check_term-Quiet msg n = ground arith

apply-Quiet : (disk : Disk) (decodes : Bool) (n : Node) → Quiet n (apply_next disk decodes n)
unfolding apply_next
apply-Quiet disk decodes n = ground arith

propose-NodeVotes :
    (ps : List String) (n : Node) → NodeVotes n → NodeVotes (send_append_entries_to ps n)
unfolding send_append_entries_to ballot_of
propose-NodeVotes [] n v = v
propose-NodeVotes (p ∷ ps) n v = propose-NodeVotes ps _ (silent v _ refl)

propose_as_leader-NodeVotes :
    (disk : Disk) (command : List ℕ) (n : Node)
    → NodeVotes n
    → NodeVotes (propose_as_leader disk command n).0
unfolding propose_as_leader
propose_as_leader-NodeVotes disk command n v = elim (Bool-cases disk.append_ok) [
  | inl e ↦ rw (e, propose_as_leader) (propose-NodeVotes n.peers _ v)
  | inr e ↦ rw (e, propose_as_leader) v
]

-- Messages that no leader sends. A candidate asks for votes in its own name.
abbrev pub FromNoLeader : Message → Body → Type 0
FromNoLeader msg (vote_request none) = Unit
FromNoLeader msg (vote_request (some r)) = (r.candidate_id ≡ msg.sender) × (msg.sender ≢ "")
FromNoLeader msg (append_entries r) = ⊥
FromNoLeader msg (install_snapshot r) = ⊥
FromNoLeader msg _ = Unit

abbrev pub IsLeaderless : Event → Type 0
IsLeaderless (receive msg) = FromNoLeader msg msg.body
IsLeaderless _ = Unit

dispatch-NodeVotes :
    (disk : Disk) (msg : Message) (b : Body) (n : Node)
    → FromNoLeader msg b
    → NodeVotes n
    → NodeVotes (dispatch disk msg b n)
unfolding dispatch handle_vote_request
dispatch-NodeVotes disk msg (vote_request none) n q v = v
dispatch-NodeVotes disk msg (vote_request (some r)) n q v =
    answer_vote-NodeVotes msg.sender r n q.0 q.1 v
dispatch-NodeVotes disk msg (vote_response r) n q v =
    Quiet-NodeVotes n (handle_vote_response msg.sender r n) (vote_response-Quiet msg.sender r n) v
dispatch-NodeVotes disk msg (append_entries r) n q v = elim q [ ]
dispatch-NodeVotes disk msg (append_entries_response r) n q v =
    Quiet-NodeVotes n (handle_append_entries_response msg.sender r n)
      (append_response-Quiet msg.sender r n) v
dispatch-NodeVotes disk msg (install_snapshot r) n q v = elim q [ ]
dispatch-NodeVotes disk msg (install_snapshot_response r) n q v = v

timeout-NodeVotes :
    (n : Node) (s : NodeState)
    → n.state ≡ s
    → n.id ≢ ""
    → n.current_term + 1 < 2 ^ 64
    → NodeVotes n
    → NodeVotes (on_election_timeout n)
unfolding on_election_timeout become_candidate
timeout-NodeVotes n leader e h small v = rw (on_election_timeout, e) v
timeout-NodeVotes n follower e h small v =
    rw (on_election_timeout, e) (become_candidate-NodeVotes n h small v)
timeout-NodeVotes n candidate e h small v =
    rw (on_election_timeout, e) (become_candidate-NodeVotes n h small v)

heartbeats-NodeVotes :
    (n : Node) (s : NodeState) → n.state ≡ s → NodeVotes n → NodeVotes (send_heartbeats n)
unfolding ballot_of send_heartbeats
heartbeats-NodeVotes n leader e v =
    rw (send_heartbeats, e) (broadcast-silent n.peers _ n (λ to. refl) v)
heartbeats-NodeVotes n follower e v = rw (send_heartbeats, e) v
heartbeats-NodeVotes n candidate e v = rw (send_heartbeats, e) v

proposal-NodeVotes :
    (disk : Disk) (command : List ℕ) (n : Node) (s : NodeState)
    → n.state ≡ s
    → NodeVotes n
    → NodeVotes (propose disk command n).0
unfolding propose propose_as_leader
proposal-NodeVotes disk command n leader e v =
    rw (propose, e) (propose_as_leader-NodeVotes disk command n v)
proposal-NodeVotes disk command n follower e v = rw (propose, e) v
proposal-NodeVotes disk command n candidate e v = rw (propose, e) v

step-NodeVotes :
    (n : Node) (e : Disk × Event)
    → IsLeaderless e.1
    → n.id ≢ ""
    → n.current_term + 1 < 2 ^ 64
    → NodeVotes n
    → NodeVotes (step n e)
unfolding step handle_message
step-NodeVotes n (disk, receive msg) q h small v =
    dispatch-NodeVotes disk msg msg.body (check_term msg n) q
      (Quiet-NodeVotes n (check_term msg n) (check_term-Quiet msg n) v)
step-NodeVotes n (disk, election_timeout) q h small v = timeout-NodeVotes n n.state refl h small v
step-NodeVotes n (disk, heartbeat_tick) q h small v = heartbeats-NodeVotes n n.state refl v
step-NodeVotes n (disk, proposal command) q h small v =
    proposal-NodeVotes disk command n n.state refl v
step-NodeVotes n (disk, apply decodes) q h small v =
    Quiet-NodeVotes n (apply_next disk decodes n) (apply-Quiet disk decodes n) v

-- A run without a leader's messages, on which the term stays below the largest `uint64`.
abbrev pub Leaderless : Node → List (Disk × Event) → Type 0
Leaderless n [] = Unit
Leaderless n (e ∷ es) =
    IsLeaderless e.1 × ((n.current_term + 1 < 2 ^ 64) × Leaderless (step n e) es)

run-NodeVotes :
    (es : List (Disk × Event)) (n : Node)
    → n.id ≢ ""
    → Leaderless n es
    → NodeVotes n
    → NodeVotes (run n es)
unfolding run
run-NodeVotes [] n h q v = v
run-NodeVotes (e ∷ es) n h q v =
    run-NodeVotes es (step n e) (rw (id-step n e) h) q.1.1 (step-NodeVotes n e q.0 h q.1.0 v)

-- On a run of a named node that starts with an empty outbox, is sent no append request and no
-- snapshot, is asked for votes by named candidates in their own name, and stays below the largest
-- term: two votes that it casts in one term are for the same candidate.
pub run-unique_vote :
    (es : List (Disk × Event)) (n : Node)
    → n.id ≢ ""
    → n.outbox ≡ []
    → Leaderless n es
    → (t : ℕ) (c d : String) → Cast t c (run n es).outbox
    → Cast t d (run n es).outbox
    → c ≡ d
run-unique_vote es n h o q =
    (run-NodeVotes es n h q (
      subst (λ out. OneVote n.current_term n.voted_for out) (sym o)
        (OneVote-start n.current_term n.voted_for))).unique
