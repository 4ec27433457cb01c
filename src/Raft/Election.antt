-- ===== src/Raft/Election.antt =====
-- Elections of internal/raft/raft.go: the three state changes, vote requests and vote responses.
-- The election timer is an event of `Step`; its random duration is not part of the state.
use geryon.Base.{
  ℕ, ◌+◌, ◌/◌, Bool, true, false, ◌&&◌, ◌||◌, Option, none, some, List, [], ◌∷◌, String, leb, ltb,
  ◌==◌, if◌then◌else◌, string_discrete, str_eq, length, u64,
}
use geryon.Base.Map.{put}
use geryon.Raft.Types.{
  Node, follower, candidate, leader, VoteRequest, VoteResponse, vote_request, vote_response, send,
  broadcast,
}
use geryon.Raft.Log.{last_log_info, last_log_index}

unfoldable pub become_follower : ℕ → Node → Node
become_follower term n = record n {
  current_term = term;
  state = follower;
  voted_for = "";
  leader_id = "";
  votes_received = [];
  heartbeat = false;
}

unfoldable pub become_candidate : Node → Node
become_candidate n =
    let c : Node = record n {
      current_term = u64 (n.current_term + 1);
      state = candidate;
      voted_for = n.id;
      leader_id = "";
      votes_received = [];
    } in
    let (last_index, last_term) = last_log_info n.log_entries in
    broadcast n.peers
      (vote_request (
        some (record {
          term = c.current_term;
          candidate_id = n.id;
          last_log_index = last_index;
          last_log_term = last_term;
        })))
      c

-- One value for every peer, over what the map held before.
unfoldable pub put_all : List String → ℕ → List (String × ℕ) → List (String × ℕ)
put_all [] v m = m
put_all (p ∷ ps) v m = put_all ps v (put string_discrete p v m)

unfoldable pub become_leader : Node → Node
become_leader n = record n {
  state = leader;
  next_index = put_all n.peers (u64 (last_log_index n.log_entries + 1)) n.next_index;
  match_index = put_all n.peers 0 n.match_index;
  heartbeat = true;
}

unfoldable pub on_election_timeout : Node → Node
on_election_timeout n = elim n.state [ leader ↦ n | _ ↦ become_candidate n ]

-- The candidate's log is at least as up-to-date as ours.
abbrev pub up_to_date : VoteRequest → Node → Bool
up_to_date req n =
    let (last_index, last_term) = last_log_info n.log_entries in
    ltb last_term req.last_log_term
    || (req.last_log_term == last_term && leb last_index req.last_log_index)

abbrev pub may_vote : VoteRequest → Node → Bool
may_vote req n =
    leb n.current_term req.term
    && ((str_eq n.voted_for "" || str_eq n.voted_for req.candidate_id) && up_to_date req n)

unfoldable pub answer_vote : String → VoteRequest → Bool → Node → Node
answer_vote from req true n =
    send from (vote_response (some (record { term = n.current_term; vote_granted = true })))
      (record n { voted_for = req.candidate_id })
answer_vote from req false n =
    send from (vote_response (some (record { term = n.current_term; vote_granted = false }))) n

unfoldable pub handle_vote_request : String → Option VoteRequest → Node → Node
handle_vote_request from none n = n
handle_vote_request from (some req) n = answer_vote from req (may_vote req n) n

unfoldable pub count_vote : String → Node → Node
count_vote from n =
    let c : Node = record n { votes_received = put string_discrete from true n.votes_received } in
    if ltb ((length n.peers + 1) / 2) (length c.votes_received + 1) then become_leader c else c

unfoldable pub handle_vote_response : String → Option VoteResponse → Node → Node
unfolding become_follower count_vote
handle_vote_response from none n = n
handle_vote_response from (some resp) n = elim n.state [
  | candidate ↦
      if ltb n.current_term resp.term
      then become_follower resp.term n
      else if resp.vote_granted
      then count_vote from n
      else n
  | _ ↦ n
]
