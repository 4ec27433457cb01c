-- ===== src/Pool/Transactions.antt =====
-- internal/pool/transaction.go: `TransactionManager`. `now` is the clock, in nanoseconds. A method
-- that changes a transaction finds it through the map, so a change is one of the map's value. The
-- callbacks are counted: `aborts` has the transactions whose `AbortFunc` was called, `notified` the
-- sessions that `onAbort` was called with. The connection variant of the callback is never called.
pub mod Sweep
mod Tests
use geryon.Base.{
  ℕ, ◌+◌, ◌-◌, ◌%◌, ◌^◌, Bool, true, false, Option, none, some, List, [], ◌∷◌, ◌++◌, ltb,
  if◌then◌else◌, ℕ_discrete, ite, u64,
}
use geryon.Base.Map.{lookup, delete, put}

pub data TransactionStatus : Type 0 where
  txn_active txn_idle txn_aborted txn_committed : TransactionStatus

-- `abort_func`: the transaction has an `AbortFunc`.
pub record TransactionInfo : Type 0 where
  pub id : ℕ
  pub session_id : ℕ
  pub start_time : ℕ
  pub last_activity : ℕ
  pub server_conn_id : ℕ
  pub query_count : ℕ
  pub status : TransactionStatus
  pub abort_func : Bool

-- `txn_id_counter` is the counter of the package, `on_abort` says that there is a callback.
pub record TransactionManager : Type 0 where
  pub transactions : List (ℕ × TransactionInfo)
  pub timeout : ℕ
  pub idle_timeout : ℕ
  pub on_abort : Bool
  pub txn_id_counter : ℕ
  pub aborts : List ℕ
  pub notified : List ℕ

-- 0 stands for 30 minutes and for 5 minutes.
pub new_transaction_manager : ℕ → ℕ → ℕ → TransactionManager
new_transaction_manager timeout idle_timeout counter = record {
  transactions = [];
  timeout = ite (ℕ_discrete timeout 0) 1800000000000 timeout;
  idle_timeout = ite (ℕ_discrete idle_timeout 0) 300000000000 idle_timeout;
  on_abort = false;
  txn_id_counter = counter;
  aborts = [];
  notified = [];
}

pub register : ℕ → ℕ → ℕ → Bool → TransactionManager → TransactionManager
register now session_id server_conn_id abort_func m =
    let id = u64 (m.txn_id_counter + 1) in
    record m {
      txn_id_counter = id;
      transactions =
          put ℕ_discrete id
            (record {
              id = id;
              session_id = session_id;
              start_time = now;
              last_activity = now;
              server_conn_id = server_conn_id;
              query_count = 0;
              status = txn_active;
              abort_func = abort_func;
            })
            m.transactions;
    }

pub unregister : ℕ → TransactionManager → TransactionManager
unregister id m = record m { transactions = delete ℕ_discrete id m.transactions }

-- A change of the transaction that the map has under an ID.
pub modify :
    ℕ
    → (TransactionInfo → TransactionInfo)
    → List (ℕ × TransactionInfo)
    → List (ℕ × TransactionInfo)
modify id f [] = []
modify id f ((k, i) ∷ m) = ite (ℕ_discrete k id) ((k, f i) ∷ m) ((k, i) ∷ modify id f m)

pub update_activity : ℕ → ℕ → TransactionManager → TransactionManager
unfolding modify
update_activity now id m = record m {
  transactions = modify id (λ i. record i { last_activity = now }) m.transactions;
}

-- The `int32` is written as its 32 bits.
pub increment_query_count : ℕ → TransactionManager → TransactionManager
unfolding modify
increment_query_count id m = record m {
  transactions =
      modify id (λ i. record i { query_count = (i.query_count + 1) % 2 ^ 32 }) m.transactions;
}

abbrev pub with_status : TransactionStatus → TransactionInfo → TransactionInfo
with_status s i = record i { status = s }

pub set_status : ℕ → TransactionStatus → TransactionManager → TransactionManager
unfolding modify
set_status id s m = record m { transactions = modify id (with_status s) m.transactions }

abbrev pub is_active : TransactionInfo → Bool
is_active i = elim i.status [ txn_active ↦ true | _ ↦ false ]

pub is_timed_out : ℕ → TransactionManager → TransactionInfo → Bool
is_timed_out now m i = if is_active i then ltb m.timeout (now - i.start_time) else false

pub is_idle_too_long : ℕ → TransactionManager → TransactionInfo → Bool
is_idle_too_long now m i =
    if is_active i
    then (if ltb m.timeout (now - i.start_time)
        then false
        else ltb m.idle_timeout (now - i.last_activity))
    else false

pub collect : (TransactionInfo → Bool) → List (ℕ × TransactionInfo) → List TransactionInfo
collect p [] = []
collect p ((k, i) ∷ m) = let rest = collect p m in if p i then i ∷ rest else rest

-- One of the loops of `checkTimeouts` over the transactions that it collected.
pub handle : TransactionStatus → List TransactionInfo → TransactionManager → TransactionManager
unfolding set_status
handle s [] m = m
handle s (i ∷ is) m =
    let c = set_status i.id s m in
    handle s is (record c {
      aborts = if i.abort_func then c.aborts ++ i.id ∷ [] else c.aborts;
      notified = if c.on_abort then c.notified ++ i.session_id ∷ [] else c.notified;
    })

pub check_timeouts : ℕ → TransactionManager → TransactionManager
unfolding handle collect is_timed_out is_idle_too_long
check_timeouts now m =
    handle txn_idle (collect (is_idle_too_long now m) m.transactions)
      (handle txn_aborted (collect (is_timed_out now m) m.transactions) m)

-- The calls that change the manager, one at a time.
pub data Call : Type 0 where
  registers : ℕ → ℕ → Bool → Call
  unregisters : ℕ → Call
  touches counts : ℕ → Call
  marks : ℕ → TransactionStatus → Call
  checks : Call

pub step : TransactionManager → ℕ × Call → TransactionManager
unfolding register unregister update_activity increment_query_count set_status check_timeouts
step m (now, registers session conn abort_func) = register now session conn abort_func m
step m (now, unregisters id) = unregister id m
step m (now, touches id) = update_activity now id m
step m (now, counts id) = increment_query_count id m
step m (now, marks id s) = set_status id s m
step m (now, checks) = check_timeouts now m

pub run : TransactionManager → List (ℕ × Call) → TransactionManager
unfolding step
run m [] = m
run m (c ∷ cs) = run (step m c) cs
