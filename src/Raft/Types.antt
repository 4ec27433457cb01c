-- ===== src/Raft/Types.antt =====
-- The state and the messages of internal/raft/raft.go. The event loop handles one message or timeout
-- at a time, so a handler is a function from the node before to the node after. What it sends is
-- appended to `outbox`, and what it hands to the goroutine that applies entries to `apply_ch`.
use geryon.Base.{◌≡◌, refl, ◌∙◌, ℕ, Bool, Option, List, [], ◌∷◌, ◌++◌, String}

pub data NodeState : Type 0 where
  follower candidate leader : NodeState

pub record Entry : Type 0 where
  pub term : ℕ
  pub index : ℕ
  pub command : List ℕ

pub record VoteRequest : Type 0 where
  pub term : ℕ
  pub candidate_id : String
  pub last_log_index : ℕ
  pub last_log_term : ℕ

pub record VoteResponse : Type 0 where
  pub term : ℕ
  pub vote_granted : Bool

pub record AppendEntries : Type 0 where
  pub term : ℕ
  pub leader_id : String
  pub prev_log_index : ℕ
  pub prev_log_term : ℕ
  pub entries : List Entry
  pub leader_commit : ℕ

pub record AppendEntriesResponse : Type 0 where
  pub term : ℕ
  pub success : Bool
  pub index : ℕ

pub record InstallSnapshotRequest : Type 0 where
  pub term : ℕ
  pub leader_id : String
  pub last_included_index : ℕ
  pub last_included_term : ℕ
  pub payload : List ℕ

pub record InstallSnapshotResponse : Type 0 where
  pub term : ℕ
  pub success : Bool

-- `Type` and `Data` of a message. `none` is `Data` that json.Unmarshal refuses.
pub data Body : Type 0 where
  vote_request : Option VoteRequest → Body
  vote_response : Option VoteResponse → Body
  append_entries : Option AppendEntries → Body
  append_entries_response : Option AppendEntriesResponse → Body
  install_snapshot : Option InstallSnapshotRequest → Body
  install_snapshot_response : Option InstallSnapshotResponse → Body

pub record Message : Type 0 where
  pub sender : String
  pub receiver : String
  pub term : ℕ
  pub body : Body

pub record Node : Type 0 where
  pub id : String
  pub peers : List String
  pub state : NodeState
  pub current_term : ℕ
  pub voted_for : String
  pub leader_id : String
  pub log_entries : List Entry
  pub commit_index : ℕ
  pub last_applied : ℕ
  pub next_index : List (String × ℕ)
  pub match_index : List (String × ℕ)
  pub votes_received : List (String × Bool)
  pub heartbeat : Bool
  pub last_snapshot_index : ℕ
  pub last_snapshot_term : ℕ
  -- The records of the write-ahead log, the channel of committed entries, the messages sent.
  pub wal : List Entry
  pub apply_ch : List Entry
  pub outbox : List Message

-- Which of the writes that a handler makes succeed; `fsm_ok`: there is a state machine, and it does
-- what it is asked for.
pub record Disk : Type 0 where
  pub append_ok : Bool
  pub save_ok : Bool
  pub fsm_ok : Bool
  pub truncate_ok : Bool

-- `sendMessage`: the message carries the sender's current term.
abbrev pub send : String → Body → Node → Node
send to body n = record n {
  outbox =
      n.outbox ++ record { sender = n.id; receiver = to; term = n.current_term; body = body } ∷ [];
}

-- The loops `for _, peer := range n.peers`.
unfoldable pub broadcast : List String → Body → Node → Node
broadcast [] body n = n
broadcast (p ∷ ps) body n = broadcast ps body (send p body n)

-- Sending changes the outbox alone.
pub broadcast-keeps {ℓ} :
    {A : Type ℓ} (f : Node → A)
    → ((n : Node) (o : List Message) → f (record n { outbox = o }) ≡ f n)
    → (ps : List String) (b : Body) (n : Node) → f (broadcast ps b n) ≡ f n
unfolding broadcast
broadcast-keeps f same [] b n = refl
broadcast-keeps f same (p ∷ ps) b n = broadcast-keeps f same ps b (send p b n) ∙ same n _
