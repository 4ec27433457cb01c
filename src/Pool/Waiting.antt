-- ===== src/Pool/Waiting.antt =====
-- internal/pool/pool.go: `WaitQueue`, the clients that wait for a connection. `Wait` holds the mutex
-- when it joins, when it looks whether it was served, and when it leaves; `Signal` holds it for its
-- whole body. A waiter is a number, `none` in `waiters` is the hole that one leaves, and `delivered`
-- has what `Signal` put into `w.conn`. The clock and the channels are not part of the state.
pub mod Order
use geryon.Base.{
  ℕ, zero, suc, ◌+◌, ◌-◌, ◌/◌, Bool, true, false, Option, none, some, List, [], ◌∷◌, ◌++◌, ltb, leb,
  ◌==◌, if◌then◌else◌, ℕ_discrete, ite, length, get_elem?, set, drop, u64,
}
use geryon.Base.Map.{lookup, put}

pub record WaitQueue : Type 0 where
  pub waiters : List (Option ℕ)
  pub head : ℕ
  pub max_size : ℕ
  pub delivered : List (ℕ × ℕ)
  pub timed_out : List ℕ
  pub total_waits : ℕ
  pub total_timeouts : ℕ

pub new_wait_queue : ℕ → WaitQueue
new_wait_queue max_size = record {
  waiters = [];
  head = 0;
  max_size = ite (ℕ_discrete max_size 0) 1000 max_size;
  delivered = [];
  timed_out = [];
  total_waits = 0;
  total_timeouts = 0;
}

-- `len`, holes included.
abbrev pub len : WaitQueue → ℕ
len q = length q.waiters - q.head

-- `shrink`; with a head of 0 it changes nothing.
abbrev pub shrink : WaitQueue → WaitQueue
shrink q = record q { waiters = drop q.head q.waiters; head = 0 }

-- "Compact if more than half the slice is consumed"
pub compact : WaitQueue → WaitQueue
compact q = if ltb (length q.waiters / 2) q.head then shrink q else q

-- The start of `Wait`: `false` when the queue is full.
unfoldable pub join : ℕ → WaitQueue → WaitQueue × Bool
join w q =
    if leb q.max_size (len q)
    then (q, false)
    else (let s = shrink q in (record s { waiters = s.waiters ++ some w ∷ [] }, true))

-- The position of a waiter in the rest of the slice, counted from its start.
pub position : ℕ → List (Option ℕ) → Option ℕ
position w [] = none
position w (none ∷ ws) = elim (position w ws) [ none ↦ none | some i ↦ some (suc i) ]
position w (some v ∷ ws) =
    let rest = position w ws in
    ite (ℕ_discrete v w) (some 0) (elim rest [ none ↦ none | some i ↦ some (suc i) ])

-- The deferred function of `Wait`.
pub leave : ℕ → WaitQueue → WaitQueue
unfolding compact position
leave w q = compact (elim (position w (drop q.head q.waiters)) [
  | none ↦ q
  | some i ↦ record q {
    waiters = set q.waiters (q.head + i) none;
    head = if i == 0 then suc q.head else q.head;
  }
])

-- The loop of `Signal` past the holes: how many there are at the front.
pub holes : List (Option ℕ) → ℕ
holes [] = 0
holes (none ∷ ws) = suc (holes ws)
holes (some w ∷ ws) = 0

pub serve : ℕ → WaitQueue → Option (Option ℕ) → WaitQueue × Bool
unfolding compact
serve conn q (some (some w)) =
    let c = compact (record q { waiters = set q.waiters q.head none; head = suc q.head }) in
    (
      record c {
        delivered = put ℕ_discrete w conn c.delivered;
        total_waits = u64 (c.total_waits + 1);
      },
      true,
    )
serve conn q _ = (q, false)

unfoldable pub signal : ℕ → WaitQueue → WaitQueue × Bool
unfolding holes serve
signal conn q =
    let s : WaitQueue = record q { head = q.head + holes (drop q.head q.waiters) } in
    serve conn s (get_elem? s.waiters s.head)

-- A waiter that looks sees what was put into `w.conn`; it is counted again there.
pub look : ℕ → WaitQueue → WaitQueue × Option ℕ
look w q = elim (lookup ℕ_discrete w q.delivered) [
  | none ↦ (q, none)
  | some conn ↦ (record q { total_waits = u64 (q.total_waits + 1) }, some conn)
]

-- The timer's case of `Wait`, with the deferred function: whatever was delivered is not looked at.
pub expire : ℕ → WaitQueue → WaitQueue
unfolding leave
expire w q =
    leave w (record q { timed_out = w ∷ q.timed_out; total_timeouts = u64 (q.total_timeouts + 1) })
