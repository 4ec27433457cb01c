-- ===== src/Raft/Snapshot.antt =====
-- Snapshots of internal/raft/raft.go, and the goroutine that applies committed entries. The store of
-- snapshots and the state machine are reached through `Disk`, which says whether they succeed.
use geryon.Base.{
  ◌+◌, ◌-◌, ◌^◌, Bool, true, false, ◌&&◌, Option, none, some, [], ◌∷◌, String, ltb, if◌then◌else◌,
  u64,
}
use geryon.Raft.Types.{Node, InstallSnapshotRequest, install_snapshot_response, send, Disk}
use geryon.Raft.Log.{term_at, from_index}

-- `InstallSnapshot`: the log becomes one entry that stands for the snapshot.
unfoldable pub install_snapshot_of : Disk → InstallSnapshotRequest → Node → Node × Bool
install_snapshot_of disk req n =
    if disk.save_ok && disk.fsm_ok
    then (
      record n {
        last_snapshot_index = req.last_included_index;
        last_snapshot_term = req.last_included_term;
        last_applied = req.last_included_index;
        log_entries =
            record { term = req.last_included_term; index = req.last_included_index; command = [] }
            ∷ [];
        wal =
            if disk.truncate_ok
            then from_index (u64 (req.last_included_index + 1)) n.wal
            else n.wal;
      },
      true,
    )
    else (n, false)

abbrev pub snapshot_reply : String → Bool → Node → Node
snapshot_reply from success n =
    send from
      (install_snapshot_response (some (record { term = n.current_term; success = success }))) n

unfoldable pub handle_install_snapshot : Disk → String → Option InstallSnapshotRequest → Node → Node
unfolding install_snapshot_of
handle_install_snapshot disk from none n = n
handle_install_snapshot disk from (some req) n =
    if ltb req.term n.current_term
    then snapshot_reply from false n
    else (let (m, success) =
          install_snapshot_of disk req (record n { voted_for = req.leader_id }) in
        snapshot_reply from success m)

-- `maybeSnapshot`, once a thousand entries have been applied since the last one; `uint64` wraps.
unfoldable pub maybe_snapshot : Disk → Node → Node
maybe_snapshot disk n =
    if ltb (u64 (n.last_applied + 2 ^ 64 - n.last_snapshot_index)) 1000
    then n
    else if disk.fsm_ok && disk.save_ok
    then record n {
      last_snapshot_index = n.last_applied;
      last_snapshot_term = term_at n.last_applied n.log_entries;
      wal = if disk.truncate_ok then from_index (u64 (n.last_applied + 1)) n.wal else n.wal;
    }
    else n

-- One round of `ApplyCommitted`. `decodes` says whether the command of the entry can be read; an
-- entry whose command cannot be read is passed over.
unfoldable pub apply_next : Disk → Bool → Node → Node
unfolding maybe_snapshot
apply_next disk decodes n = elim n.apply_ch [
  | [] ↦ n
  | e ∷ rest ↦
      if decodes
      then maybe_snapshot disk (record n { apply_ch = rest; last_applied = e.index })
      else record n { apply_ch = rest }
]
