-- ===== src/Raft/Replication.antt =====
-- Log replication of internal/raft/raft.go: append requests and their responses, the commit index,
-- heartbeats and proposals.
use geryon.Base.{
  ℕ, ◌+◌, ◌-◌, ◌/◌, ◌^◌, Bool, true, false, ◌&&◌, ◌||◌, Option, none, some, List, [], ◌∷◌, ◌++◌,
  map, String, leb, ltb, ◌==◌, if◌then◌else◌, string_discrete, length, get_elem?, u64,
}
use geryon.Base.Map.{lookup, put}
use geryon.Raft.Types.{
  Node, leader, Entry, AppendEntries, AppendEntriesResponse, append_entries,
  append_entries_response, send, broadcast, Disk,
}
use geryon.Raft.Log.{last_log_info, last_log_index, has_log_entry, term_at, append_all, between}
use geryon.Raft.Election.{become_follower}

-- The capacity of `applyCh`.
abbrev pub apply_capacity : ℕ
apply_capacity = 100

-- `select { case n.applyCh <- entry: default: }` for each entry: it is dropped if the channel is full.
unfoldable pub deliver : List Entry → List Entry → List Entry
deliver [] ch = ch
deliver (e ∷ es) ch = deliver es (if ltb (length ch) apply_capacity then ch ++ e ∷ [] else ch)

unfoldable pub send_committed : Node → Node
send_committed n = if leb n.commit_index n.last_applied then n else record n {
  apply_ch = deliver (between n.last_applied n.commit_index n.log_entries) n.apply_ch;
}

abbrev pub min_commit : ℕ → List Entry → ℕ
min_commit leader_commit l =
    if ltb (last_log_index l) leader_commit then last_log_index l else leader_commit

-- "Update commit index"
unfoldable pub follow_commit : ℕ → Node → Node
unfolding send_committed
follow_commit leader_commit n =
    if ltb n.commit_index leader_commit
    then send_committed (record n { commit_index = min_commit leader_commit n.log_entries })
    else n

-- The entries of a request whose predecessor is in the log.
unfoldable pub take_entries : Disk → List Entry → Node → Node
take_entries disk entries n =
    let (l, fresh) = append_all entries n.log_entries in
    record n { log_entries = l; wal = if disk.append_ok then n.wal ++ fresh else n.wal }

abbrev pub prev_matches : AppendEntries → Node → Bool
prev_matches req n =
    req.prev_log_index == 0 || has_log_entry req.prev_log_index req.prev_log_term n.log_entries

-- The request's leader is noted whether or not the predecessor is there.
abbrev pub heed_leader : AppendEntries → Node → Node
heed_leader req n = record n { voted_for = req.leader_id; leader_id = req.leader_id }

unfoldable pub accept_append : Disk → AppendEntries → Node → Node × Bool
unfolding take_entries follow_commit
accept_append disk req n =
    if leb n.current_term req.term
    then (let h = heed_leader req n in
        if prev_matches req h
        then (follow_commit req.leader_commit (take_entries disk req.entries h), true)
        else (h, false))
    else (n, false)

unfoldable pub handle_append_entries : Disk → String → Option AppendEntries → Node → Node
unfolding accept_append
handle_append_entries disk from none n = n
handle_append_entries disk from (some req) n =
    let (m, success) = accept_append disk req n in
    send from
      (append_entries_response (
        some (record {
          term = m.current_term;
          success = success;
          index = last_log_index m.log_entries;
        })))
      m

-- sort.Slice with `>`: descending order.
unfoldable pub insert_desc : ℕ → List ℕ → List ℕ
insert_desc x [] = x ∷ []
insert_desc x (y ∷ ys) = let rest = insert_desc x ys in if ltb x y then y ∷ rest else x ∷ y ∷ ys

unfoldable pub sort_desc : List ℕ → List ℕ
unfolding insert_desc
sort_desc [] = []
sort_desc (x ∷ xs) = insert_desc x (sort_desc xs)

-- The leader's own last index, and the index that each follower is known to hold.
abbrev pub match_indices : Node → List ℕ
match_indices n = last_log_index n.log_entries ∷ map (λ p. p.1) n.match_index

unfoldable pub commit_to : ℕ → Node → Node
unfolding send_committed
commit_to i n =
    if leb i n.commit_index
    then n
    else if term_at i n.log_entries == n.current_term
    then send_committed (record n { commit_index = i })
    else n

unfoldable pub advance_commit_index : Node → Node
unfolding sort_desc commit_to
advance_commit_index n =
    let sorted = sort_desc (match_indices n) in
    elim (get_elem? sorted (length sorted / 2)) [ none ↦ n | some i ↦ commit_to i n ]

-- A missing key reads as 0.
abbrev pub index_of : String → List (String × ℕ) → ℕ
index_of k m = elim (lookup string_discrete k m) [ none ↦ 0 | some i ↦ i ]

unfoldable pub note_response : String → AppendEntriesResponse → Node → Node
unfolding advance_commit_index become_follower
note_response from resp n =
    if ltb n.current_term resp.term
    then become_follower resp.term n
    else if resp.success
    then advance_commit_index (record n {
      match_index = put string_discrete from resp.index n.match_index;
      next_index = put string_discrete from (u64 (resp.index + 1)) n.next_index;
    })
    else if ltb 1 (index_of from n.next_index)
    then record n {
      next_index = put string_discrete from (index_of from n.next_index - 1) n.next_index;
    }
    else n

unfoldable pub handle_append_entries_response : String → Option AppendEntriesResponse → Node → Node
unfolding note_response
handle_append_entries_response from none n = n
handle_append_entries_response from (some resp) n = elim n.state [
  | leader ↦ note_response from resp n
  | _ ↦ n
]

-- An append request with no entries.
unfoldable pub heartbeat_request : Node → AppendEntries
heartbeat_request n =
    let (prev_index, prev_term) = last_log_info n.log_entries in
    record {
      term = n.current_term;
      leader_id = n.id;
      prev_log_index = prev_index;
      prev_log_term = prev_term;
      entries = [];
      leader_commit = n.commit_index;
    }

unfoldable pub send_heartbeats : Node → Node
send_heartbeats n = elim n.state [
  | leader ↦ broadcast n.peers (append_entries (some (heartbeat_request n))) n
  | _ ↦ n
]

-- The entries with an index in [low, high].
unfoldable pub range_of : ℕ → ℕ → List Entry → List Entry
range_of low high [] = []
range_of low high (e ∷ l) =
    let rest = range_of low high l in if leb low e.index && leb e.index high then e ∷ rest else rest

unfoldable pub append_request : ℕ → Node → AppendEntries
append_request next n =
    let prev = u64 (next + (2 ^ 64 - 1)) in
    record {
      term = n.current_term;
      leader_id = n.id;
      prev_log_index = prev;
      prev_log_term = if ltb 0 prev then term_at prev n.log_entries else 0;
      entries = range_of next (last_log_index n.log_entries) n.log_entries;
      leader_commit = n.commit_index;
    }

unfoldable pub send_append_entries_to : List String → Node → Node
unfolding append_request
send_append_entries_to [] n = n
send_append_entries_to (p ∷ ps) n =
    send_append_entries_to ps
      (send p (append_entries (some (append_request (index_of p n.next_index) n))) n)

pub data ProposeError : Type 0 where
  not_leader wal_failed : ProposeError

pub data Proposed : Type 0 where
  at_index : ℕ → Proposed
  refused : ProposeError → Proposed

-- The entry is in the log before the write-ahead log is asked, and stays there if that fails.
unfoldable pub propose_as_leader : Disk → List ℕ → Node → Node × Proposed
unfolding send_append_entries_to
propose_as_leader disk command n =
    let entry : Entry = record {
      term = n.current_term;
      index = u64 (last_log_index n.log_entries + 1);
      command = command;
    } in
    let m : Node = record n { log_entries = n.log_entries ++ entry ∷ [] } in
    if disk.append_ok
    then (
      send_append_entries_to m.peers (record m { wal = m.wal ++ entry ∷ [] }),
      at_index entry.index,
    )
    else (m, refused wal_failed)

unfoldable pub propose : Disk → List ℕ → Node → Node × Proposed
unfolding propose_as_leader
propose disk command n = elim n.state [
  | leader ↦ propose_as_leader disk command n
  | _ ↦ (n, refused not_leader)
]
