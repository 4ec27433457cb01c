-- ===== src/Pool/Memory.antt =====
-- internal/pool/manager.go: the memory that `Manager` accounts for server connections. `TryAlloc` and
-- `Free` retry until their exchange succeeds, so each is one step on the counter that it then read.
pub mod Permits
use geryon.Base.{ℕ, ◌+◌, ◌-◌, Bool, true, false, List, [], ◌∷◌, ltb, ◌==◌, if◌then◌else◌}

abbrev pub conn_memory_estimate : ℕ
conn_memory_estimate = 8192

-- `globalMemoryLimit`, 0 for no limit, and `globalMemoryUsed`.
pub record Memory : Type 0 where
  pub limit : ℕ
  pub used : ℕ

unfoldable pub try_alloc : Memory → Memory × Bool
try_alloc m =
    if m.limit == 0
    then (m, true)
    else if ltb m.limit (m.used + conn_memory_estimate)
    then (m, false)
    else (record m { used = m.used + conn_memory_estimate }, true)

unfoldable pub free : Memory → Memory
free m =
    if ltb m.used conn_memory_estimate then m else record m { used = m.used - conn_memory_estimate }

pub data Call : Type 0 where
  allocs frees : Call

-- What the calls of `TryAlloc` answer, and the memory in use at the end.
pub answers : Memory → List Call → List Bool × ℕ
unfolding try_alloc free
answers m [] = ([], m.used)
answers m (allocs ∷ cs) =
    let (m', granted) = try_alloc m in let (bs, used) = answers m' cs in (granted ∷ bs, used)
answers m (frees ∷ cs) = answers (free m) cs
