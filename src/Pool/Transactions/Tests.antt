-- ===== src/Pool/Transactions/Tests.antt =====
-- Runs of internal/pool/transaction.go on concrete transactions.
use geryon.Base.{
  ℕ, ◌+◌, ◌-◌, ◌≤◌, ◌≡◌, refl, Bool, true, false, Option, none, some, List, [], ◌∷◌, arith,
  ℕ_discrete,
}
use geryon.Base.Map.{lookup}
use geryon.Pool.Transactions.{
  txn_active, TransactionInfo, TransactionManager, new_transaction_manager, check_timeouts, Call,
  registers, run,
}
use geryon.Pool.Transactions.Sweep.{IsKeyed, Swept, lookup-check_timeouts, run-IsKeyed}

-- Transaction 1 began at 0 and is past its time at 150, 2 began at 60 and did nothing since.
abbrev script : List (ℕ × Call)
script = (0, registers 7 70 true) ∷ (60, registers 8 80 false) ∷ (140, registers 9 90 false) ∷ []

abbrev empty : TransactionManager
empty = new_transaction_manager 100 50 0

empty-IsKeyed : IsKeyed empty.transactions
unfolding new_transaction_manager
empty-IsKeyed = tt

abbrev busy : TransactionManager
busy = run empty script

busy-IsKeyed : IsKeyed busy.transactions
busy-IsKeyed = run-IsKeyed script empty empty-IsKeyed

lookup-check_timeouts_example :
    (lookup ℕ_discrete 2 busy.transactions ≡ none
      → lookup ℕ_discrete 2 (check_timeouts 150 busy).transactions ≡ none)
    × ((i : TransactionInfo)
        → lookup ℕ_discrete 2 busy.transactions ≡ some i
        → Swept 150 busy i (lookup ℕ_discrete 2 (check_timeouts 150 busy).transactions))
lookup-check_timeouts_example = lookup-check_timeouts 150 2 busy busy-IsKeyed

abbrev third : TransactionInfo
third = record {
  id = 3;
  session_id = 9;
  start_time = 140;
  last_activity = 140;
  server_conn_id = 90;
  query_count = 0;
  status = txn_active;
  abort_func = false;
}

found : lookup ℕ_discrete 3 (check_timeouts 150 busy).transactions ≡ some third
unfolding check_timeouts run lookup new_transaction_manager ℕ_discrete geryon.Base.Map.delete
found = refl
