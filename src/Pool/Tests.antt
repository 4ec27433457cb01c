-- ===== src/Pool/Tests.antt =====
-- Runs of internal/pool on concrete clients and reports.
use geryon.Base.{◌/◌, ℕ, ◌<◌, ◌≡◌, ◌↔◌, none, some, List, [], ◌∷◌, arith}
use geryon.Pool.Breaker.{
  BackendHealth, new_health, circuit_closed, circuit_open, Report, succeeded, failed, probed,
  observe_all, allowed,
}
use geryon.Pool.Breaker.Laws.{failures_since, observe_all-closed, Spaced, allowed-Spaced}
use geryon.Pool.Memory.{answers, allocs, frees, conn_memory_estimate}
use geryon.Pool.Memory.Permits.{permits, answers-semaphore}
use geryon.Pool.Waiting.{WaitQueue, new_wait_queue, leave, signal}
use geryon.Pool.Waiting.Order.{queued, without, Signalled, signal-first, leave-queued}

abbrev reports : List (ℕ × Report)
reports =
    (1, failed)
    ∷ (2, succeeded)
    ∷ (3, failed)
    ∷ (4, failed)
    ∷ (5, failed)
    ∷ (6, failed)
    ∷ (7, failed)
    ∷ (40000000000, probed)
    ∷ []

observe_all-closed_example :
    ((observe_all new_health reports).circuit_state ≡ circuit_closed)
    ↔ (failures_since 0 reports < 5)
observe_all-closed_example = observe_all-closed reports

abbrev opened : BackendHealth
opened = record new_health { circuit_state = circuit_open; circuit_opened = 1 }

abbrev times : List ℕ
times = 20000000000 ∷ 31000000000 ∷ 32000000000 ∷ 37000000000 ∷ []

allowed-Spaced_example : Spaced (allowed opened times)
allowed-Spaced_example = allowed-Spaced times opened (λ e. ground arith)

-- Client 5 has left, 6 and 7 wait.
abbrev waiting : WaitQueue
waiting = record (new_wait_queue 3) { waiters = none ∷ none ∷ some 6 ∷ some 7 ∷ []; head = 1 }

signal-first_example : Signalled 9 waiting (signal 9 waiting) (queued waiting)
signal-first_example = signal-first 9 waiting

leave-queued_example : queued (leave 6 waiting) ≡ without 6 (queued waiting)
leave-queued_example = leave-queued 6 waiting

answers-semaphore_example :
    answers (record { limit = 20000; used = 0 }) (allocs ∷ allocs ∷ allocs ∷ frees ∷ allocs ∷ [])
    ≡ permits (20000 / conn_memory_estimate) 0 (allocs ∷ allocs ∷ allocs ∷ frees ∷ allocs ∷ [])
answers-semaphore_example =
    answers-semaphore 20000 (allocs ∷ allocs ∷ allocs ∷ frees ∷ allocs ∷ []) (λ e. ground arith)
