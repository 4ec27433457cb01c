-- ===== src/Pool/Transactions/Sweep.antt =====
-- What `checkTimeouts` of internal/pool/transaction.go does to each transaction.
use geryon.Base.{
  ℕ, ◌-◌, ◌≤◌, ◌<◌, ◌≡◌, ◌≢◌, refl, sym, ap, subst, ◌∙◌, Bool, true, false, Option, none, some,
  List, [], ◌∷◌, arith, if◌then◌else◌, ℕ_discrete, ite,
}
use mathlib.Core.Option.{some-injective}
use mathlib.Core.Option
use geryon.Base.Map.{lookup, delete, lookup-delete_self, lookup-delete}
use geryon.Pool.Transactions.{
  TransactionStatus, txn_active, txn_idle, txn_aborted, txn_committed, TransactionInfo,
  TransactionManager, register, unregister, modify, update_activity, increment_query_count,
  with_status, set_status, is_active, is_timed_out, is_idle_too_long, collect, handle,
  check_timeouts, Call, registers, unregisters, touches, counts, marks, checks, step, run,
}

-- Each transaction stands under its own ID, once.
abbrev pub IsKeyed : List (ℕ × TransactionInfo) → Type 0
IsKeyed [] = Unit
IsKeyed ((k, i) ∷ m) = (i.id ≡ k) × ((lookup ℕ_discrete k m ≡ none) × IsKeyed m)

lookup-modify :
    (id k : ℕ) (f : TransactionInfo → TransactionInfo) (m : List (ℕ × TransactionInfo))
    → lookup ℕ_discrete k (modify id f m)
      ≡ ite (ℕ_discrete id k) (Option.map f (lookup ℕ_discrete k m)) (lookup ℕ_discrete k m)
unfolding modify lookup
lookup-modify id k f [] = ground arith
lookup-modify id k f ((j, i) ∷ m) = ground (arith, lookup-modify id k f m)

modify-IsKeyed :
    (id : ℕ) (f : TransactionInfo → TransactionInfo) (m : List (ℕ × TransactionInfo))
    → ((i : TransactionInfo) → (f i).id ≡ i.id)
    → IsKeyed m
    → IsKeyed (modify id f m)
unfolding modify
modify-IsKeyed id f [] same v = v
modify-IsKeyed id f ((j, i) ∷ m) same v =
    ground (arith, modify-IsKeyed id f m same v.1.1, same i, lookup-modify id j f m)

delete-IsKeyed :
    (id : ℕ) (m : List (ℕ × TransactionInfo)) → IsKeyed m → IsKeyed (delete ℕ_discrete id m)
unfolding delete
delete-IsKeyed id [] v = v
delete-IsKeyed id ((j, i) ∷ m) v =
    ground (arith, delete-IsKeyed id m v.1.1, lookup-delete ℕ_discrete id j m)

-- Is the transaction with the ID among those collected?
abbrev has_id : ℕ → List TransactionInfo → Bool
has_id k [] = false
has_id k (i ∷ is) = let rest = has_id k is in ite (ℕ_discrete i.id k) true rest

abbrev satisfies : (TransactionInfo → Bool) → Option TransactionInfo → Bool
satisfies p none = false
satisfies p (some i) = p i

has_id-collect :
    (p : TransactionInfo → Bool) (k : ℕ) (m : List (ℕ × TransactionInfo))
    → IsKeyed m
    → has_id k (collect p m) ≡ satisfies p (lookup ℕ_discrete k m)
unfolding collect lookup
has_id-collect p k [] v = refl
has_id-collect p k ((j, i) ∷ m) v = ground (arith, has_id-collect p k m v.1.1)

-- A loop over what was collected changes the status of those and of no other.
handle-lookup :
    (s : TransactionStatus) (k : ℕ) (is : List TransactionInfo) (m : TransactionManager)
    → lookup ℕ_discrete k (handle s is m).transactions ≡ (
        if has_id k is
        then Option.map (with_status s) (lookup ℕ_discrete k m.transactions)
        else lookup ℕ_discrete k m.transactions)
unfolding handle set_status
handle-lookup s k [] m = refl
handle-lookup s k (i ∷ is) m =
    handle-lookup s k is _ ∙ ground (arith, lookup-modify i.id k (with_status s) m.transactions)

-- What becomes of one transaction.
abbrev settle : ℕ → TransactionManager → TransactionInfo → TransactionInfo
settle now m i =
    if is_timed_out now m i
    then with_status txn_aborted i
    else if is_idle_too_long now m i
    then with_status txn_idle i
    else i

settled :
    (now : ℕ) (m : TransactionManager) (o : Option TransactionInfo)
    → (if satisfies (is_idle_too_long now m) o
        then Option.map
            (with_status txn_idle)
            (if satisfies (is_timed_out now m) o then Option.map (with_status txn_aborted) o else o)
        else (if satisfies (is_timed_out now m) o
            then Option.map (with_status txn_aborted) o
            else o))
      ≡ Option.map (settle now m) o
unfolding is_timed_out is_idle_too_long
settled now m none = refl
settled now m (some i) = ground arith

check_timeouts-settle :
    (now k : ℕ) (m : TransactionManager)
    → IsKeyed m.transactions
    → lookup ℕ_discrete k (check_timeouts now m).transactions
      ≡ Option.map (settle now m) (lookup ℕ_discrete k m.transactions)
unfolding check_timeouts
check_timeouts-settle now k m v =
    let late = collect (is_timed_out now m) m.transactions in
    let idle = collect (is_idle_too_long now m) m.transactions in
    rw
      (
        handle-lookup txn_idle k idle (handle txn_aborted late m),
        handle-lookup txn_aborted k late m,
        has_id-collect (is_timed_out now m) k m.transactions v,
        has_id-collect (is_idle_too_long now m) k m.transactions v,
      )
      (settled now m (lookup ℕ_discrete k m.transactions))

-- What a sweep at `now` makes of a transaction: an active one that is past its time is aborted, an active
-- one that is not but has done nothing for too long is idle, and any other is as before.
pub record Swept (now : ℕ) (m : TransactionManager) (i : TransactionInfo)
    (after : Option TransactionInfo) : Type 0 where
  pub aborted :
      i.status ≡ txn_active
      → m.timeout < now - i.start_time
      → after ≡ some (record i { status = txn_aborted })
  pub idle :
      i.status ≡ txn_active
      → now - i.start_time ≤ m.timeout
      → m.idle_timeout < now - i.last_activity
      → after ≡ some (record i { status = txn_idle })
  pub in_time :
      now - i.start_time ≤ m.timeout → now - i.last_activity ≤ m.idle_timeout → after ≡ some i
  pub over : i.status ≢ txn_active → after ≡ some i

not_active : (i : TransactionInfo) → i.status ≢ txn_active → is_active i ≡ false
not_active i n = go i.status n
  where
    go :
        (s : TransactionStatus)
        → s ≢ txn_active
        → elim s as (λ _. Bool) [ txn_active ↦ true | _ ↦ false ] ≡ false
    go txn_active n = absurd (n refl)
    go txn_idle n = refl
    go txn_aborted n = refl
    go txn_committed n = refl

settle-Swept :
    (now : ℕ) (m : TransactionManager) (i : TransactionInfo) → Swept now m i (some (settle now m i))
unfolding is_timed_out is_idle_too_long
settle-Swept now m i = record {
  aborted = λ e h. rw (e) (ground arith);
  idle = λ e h k. rw (e) (ground arith);
  in_time = λ h k. ground arith;
  over = λ n. rw (not_active i n) refl;
}

-- When each transaction stands under its own ID, `checkTimeouts` aborts an active transaction that is
-- past its time, makes one idle that is active, not past its time, and has done nothing for too long,
-- leaves every other one as it is, and adds none.
pub lookup-check_timeouts :
    (now k : ℕ) (m : TransactionManager)
    → IsKeyed m.transactions
    → (lookup ℕ_discrete k m.transactions ≡ none
        → lookup ℕ_discrete k (check_timeouts now m).transactions ≡ none)
      × ((i : TransactionInfo)
          → lookup ℕ_discrete k m.transactions ≡ some i
          → Swept now m i (lookup ℕ_discrete k (check_timeouts now m).transactions))
lookup-check_timeouts now k m v = (
  λ e. check_timeouts-settle now k m v ∙ ap (Option.map (settle now m)) e,
  λ i e.
      subst (Swept now m i)
        (sym (check_timeouts-settle now k m v ∙ ap (Option.map (settle now m)) e))
        (settle-Swept now m i),
)

settle-in_time :
    (now : ℕ) (m : TransactionManager) (j : TransactionInfo)
    → (settle now m j).status ≡ txn_active
    → (now - (settle now m j).start_time ≤ m.timeout)
      × (now - (settle now m j).last_activity ≤ m.idle_timeout)
unfolding is_timed_out is_idle_too_long
settle-in_time now m j a = ground arith

in_time :
    (now : ℕ) (m : TransactionManager) (o : Option TransactionInfo) (i : TransactionInfo)
    → Option.map (settle now m) o ≡ some i
    → i.status ≡ txn_active
    → (now - i.start_time ≤ m.timeout) × (now - i.last_activity ≤ m.idle_timeout)
in_time now m none i e a = absurd (ground arith)
in_time now m (some j) i e a =
    let same : settle now m j ≡ i = some-injective _ _ e in
    subst (λ x. (now - x.start_time ≤ m.timeout) × (now - x.last_activity ≤ m.idle_timeout)) same
      (settle-in_time now m j (rw same a))

-- When each transaction stands under its own ID, every transaction that is still active after
-- `checkTimeouts` is within its time and has not been idle for too long.
pub check_timeouts-in_time :
    (now k : ℕ) (m : TransactionManager) (i : TransactionInfo)
    → IsKeyed m.transactions
    → lookup ℕ_discrete k (check_timeouts now m).transactions ≡ some i
    → i.status ≡ txn_active
    → (now - i.start_time ≤ m.timeout) × (now - i.last_activity ≤ m.idle_timeout)
check_timeouts-in_time now k m i v e a =
    in_time now m (lookup ℕ_discrete k m.transactions) i (sym (check_timeouts-settle now k m v) ∙ e)
      a

handle-IsKeyed :
    (s : TransactionStatus) (is : List TransactionInfo) (m : TransactionManager)
    → IsKeyed m.transactions
    → IsKeyed (handle s is m).transactions
unfolding handle set_status
handle-IsKeyed s [] m v = v
handle-IsKeyed s (i ∷ is) m v =
    handle-IsKeyed s is _ (modify-IsKeyed i.id (with_status s) m.transactions (λ j. refl) v)

step-IsKeyed :
    (m : TransactionManager) (c : ℕ × Call)
    → IsKeyed m.transactions
    → IsKeyed (step m c).transactions
unfolding step register unregister update_activity increment_query_count set_status check_timeouts
step-IsKeyed m (now, registers session conn abort_func) v =
    (refl, (lookup-delete_self ℕ_discrete _ m.transactions, delete-IsKeyed _ m.transactions v))
step-IsKeyed m (now, unregisters id) v = delete-IsKeyed id m.transactions v
step-IsKeyed m (now, touches id) v = modify-IsKeyed id _ m.transactions (λ j. refl) v
step-IsKeyed m (now, counts id) v = modify-IsKeyed id _ m.transactions (λ j. refl) v
step-IsKeyed m (now, marks id s) v = modify-IsKeyed id (with_status s) m.transactions (λ j. refl) v
step-IsKeyed m (now, checks) v =
    handle-IsKeyed txn_idle (collect (is_idle_too_long now m) m.transactions)
      (handle txn_aborted (collect (is_timed_out now m) m.transactions) m)
      (handle-IsKeyed txn_aborted (collect (is_timed_out now m) m.transactions) m v)

-- After any calls on a manager whose transactions stand each under its own ID, once, they still do.
pub run-IsKeyed :
    (cs : List (ℕ × Call)) (m : TransactionManager)
    → IsKeyed m.transactions
    → IsKeyed (run m cs).transactions
unfolding run
run-IsKeyed [] m v = v
run-IsKeyed (c ∷ cs) m v = run-IsKeyed cs (step m c) (step-IsKeyed m c v)
