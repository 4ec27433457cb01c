-- ===== src/Raft/Tests.antt =====
-- Runs of internal/raft/raft.go on concrete messages: a node `a` with the peers `b` and `c`.
use geryon.Base.{
  ◌⊎◌, ℕ, suc, ◌+◌, ◌*◌, ◌≤◌, ◌<◌, ◌^◌, ◌≡◌, ◌≢◌, refl, Bool, true, false, Option, none, some, List,
  [], ◌∷◌, String, arith, length, All, inl, ne_of_test,
}
use geryon.Raft.Types.{
  Node, NodeState, follower, candidate, leader, Entry, Message, VoteRequest, VoteResponse,
  vote_request, vote_response, Disk,
}
use geryon.Raft.Log.{append_all, entry_at, term_at}
use geryon.Raft.Replication.{advance_commit_index, match_indices}
use geryon.Raft.Step.{Event, receive, election_timeout, step, run}
use geryon.Raft.Terms.{term-step}
use geryon.Raft.Voting.{Cast}
use geryon.Raft.Ballots.{Leaderless, run-unique_vote}
use geryon.Raft.Majority.{HasMajority, step-majority}
use geryon.Raft.Commit.{MayCommit, advance_commit_index-MayCommit}
use geryon.Raft.Matching.{Consecutive, Holds, append_all-log_matching}

abbrev good : Disk
good = record { append_ok = true; save_ok = true; fsm_ok = true; truncate_ok = true }

abbrev start : Node
start = record {
  id = "a";
  peers = "b" ∷ "c" ∷ [];
  state = follower;
  current_term = 4;
  voted_for = "";
  leader_id = "";
  log_entries = [];
  commit_index = 0;
  last_applied = 0;
  next_index = [];
  match_index = [];
  votes_received = [];
  heartbeat = false;
  last_snapshot_index = 0;
  last_snapshot_term = 0;
  wal = [];
  apply_ch = [];
  outbox = [];
}

abbrev asks : String → ℕ → Message
asks name term = record {
  sender = name;
  receiver = "a";
  term = term;
  body =
      vote_request
        (some (record { term = term; candidate_id = name; last_log_index = 0; last_log_term = 0 }));
}

abbrev grants : ℕ → Message
grants term = record {
  sender = "b";
  receiver = "a";
  term = term;
  body = vote_response (some (record { term = term; vote_granted = true }));
}

abbrev granted : VoteResponse
granted = record { term = 2; vote_granted = true }

-- `b` and `c` both ask in term 5, then the node stands for term 6 itself and is elected.
abbrev campaign : List (Disk × Event)
campaign =
    (good, receive (asks "b" 5))
    ∷ (good, receive (asks "c" 5))
    ∷ (good, election_timeout)
    ∷ (good, receive (grants 6))
    ∷ []

elected : (run start campaign).state ≡ leader
unfolding run step geryon.Raft.Election.handle_vote_response
    geryon.Raft.Election.on_election_timeout geryon.Raft.Election.handle_vote_request
    geryon.Raft.Election.answer_vote geryon.Base.string_discrete geryon.Raft.Log.last_log_info
    geryon.Raft.Election.become_candidate geryon.Raft.Types.broadcast geryon.Base.Map.delete
    geryon.Raft.Election.become_leader geryon.Raft.Election.become_follower
elected = refl

campaign-Leaderless : Leaderless start campaign
unfolding step geryon.Raft.Election.handle_vote_response geryon.Raft.Election.on_election_timeout
    geryon.Raft.Election.handle_vote_request geryon.Raft.Election.answer_vote
    geryon.Base.string_discrete geryon.Raft.Log.last_log_info geryon.Raft.Election.become_candidate
    geryon.Raft.Types.broadcast geryon.Base.Map.delete geryon.Raft.Election.become_leader
    geryon.Raft.Election.become_follower
campaign-Leaderless = (
  (refl, ne_of_test "b" "" refl),
  (
    omega arith,
    ((refl, ne_of_test "c" "" refl), (omega arith, (tt, (omega arith, (tt, (omega arith, tt)))))),
  ),
)

-- The vote for `b` in term 5.
voted : Cast 5 "b" (run start campaign).outbox
unfolding run step geryon.Raft.Voting.ballot_of geryon.Raft.Election.handle_vote_response
    geryon.Raft.Election.on_election_timeout geryon.Raft.Election.handle_vote_request
    geryon.Raft.Election.answer_vote geryon.Base.string_discrete geryon.Raft.Log.last_log_info
    geryon.Raft.Election.become_candidate geryon.Raft.Types.broadcast geryon.Base.Map.delete
    geryon.Raft.Election.become_leader geryon.Raft.Election.become_follower
voted = inl refl

abbrev first_asker : String
first_asker = "b"

run-unique_vote_example : first_asker ≡ first_asker
run-unique_vote_example =
    run-unique_vote campaign start (ne_of_test "a" "" refl) refl campaign-Leaderless 5 "b" "b" voted
      voted

term-step_example : start.current_term ≤ (step start (good, receive (asks "b" 5))).current_term
term-step_example = term-step start (good, receive (asks "b" 5)) (omega arith)

abbrev standing : Node
standing = record start { state = candidate; voted_for = "a" }

elected_by_b : (step standing (good, receive (grants 4))).state ≡ leader
unfolding step geryon.Raft.Election.handle_vote_response geryon.Raft.Election.on_election_timeout
    geryon.Raft.Election.handle_vote_request geryon.Raft.Election.answer_vote
    geryon.Base.string_discrete geryon.Raft.Log.last_log_info geryon.Raft.Election.become_candidate
    geryon.Raft.Types.broadcast geryon.Base.Map.delete geryon.Raft.Election.become_leader
    geryon.Raft.Election.become_follower
elected_by_b = refl

step-majority_example :
    (standing.state ≡ candidate) × HasMajority (step standing (good, receive (grants 4)))
step-majority_example =
    step-majority standing (good, receive (grants 4)) (λ e. ground arith) elected_by_b

abbrev entry : ℕ → ℕ → Entry
entry term index = record { term = term; index = index; command = [] }

-- A leader of term 4 with three entries; `b` has reached the third of them.
abbrev leading : Node
leading = record start {
  state = leader;
  log_entries = entry 3 1 ∷ entry 4 2 ∷ entry 4 3 ∷ [];
  commit_index = 1;
  match_index = ("b", 3) ∷ ("c", 0) ∷ [];
}

advances : (advance_commit_index leading).commit_index ≢ leading.commit_index
unfolding advance_commit_index geryon.Raft.Replication.sort_desc geryon.Raft.Replication.insert_desc
    geryon.Raft.Replication.commit_to geryon.Raft.Replication.send_committed term_at entry_at
    geryon.Raft.Log.last_log_info
advances e = absurd (omega (arith, e))

advance_commit_index-MayCommit_example :
    (leading.commit_index < (advance_commit_index leading).commit_index)
    × MayCommit leading (advance_commit_index leading).commit_index
advance_commit_index-MayCommit_example = advance_commit_index-MayCommit leading advances

-- The second entry is overwritten, and the third goes with it.
abbrev log : List Entry
log = entry 3 1 ∷ entry 3 2 ∷ entry 3 3 ∷ []

append_all-log_matching_example :
    Consecutive 1 (append_all (entry 4 2 ∷ []) log).0
    × (All (Holds log (append_all (entry 4 2 ∷ []) log).0) (entry 4 2 ∷ [])
        × (((j : ℕ) → j < 2 → entry_at j (append_all (entry 4 2 ∷ []) log).0 ≡ entry_at j log)
            × (((append_all (entry 4 2 ∷ []) log).0 ≡ log)
                ⊎ (1 + length (append_all (entry 4 2 ∷ []) log).0 ≡ 2 + 1))))
append_all-log_matching_example =
    append_all-log_matching (entry 4 2 ∷ []) 1 2 log (refl, (refl, (refl, tt))) (refl, tt)
      (omega arith) (omega arith)
