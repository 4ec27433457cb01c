-- ===== src/Pool/Breaker.antt =====
-- The circuit breaker of internal/pool/health.go: `BackendHealth`. Each method holds the mutex for
-- its whole body; `now` is the clock that it reads, in nanoseconds. `backend_healthy` is the flag
-- `Healthy` of the backend; the latency, which is only reported, is not part of the state.
pub mod Laws
use geryon.Base.{ℕ, suc, ◌+◌, ◌-◌, Bool, true, false, List, [], ◌∷◌, ltb, leb, if◌then◌else◌}

pub data HealthStatus : Type 0 where
  unknown healthy degraded unhealthy : HealthStatus

pub data CircuitState : Type 0 where
  circuit_closed circuit_open circuit_half_open : CircuitState

pub record BackendHealth : Type 0 where
  pub backend_healthy : Bool
  pub status : HealthStatus
  pub last_check : ℕ
  pub last_success : ℕ
  pub last_failure : ℕ
  pub consecutive_failures : ℕ
  pub circuit_state : CircuitState
  pub circuit_opened : ℕ
  pub last_probe_time : ℕ

-- What `AddBackend` puts in the map for a backend that `NewBackend` made.
abbrev pub new_health : BackendHealth
new_health = record {
  backend_healthy = false;
  status = unknown;
  last_check = 0;
  last_success = 0;
  last_failure = 0;
  consecutive_failures = 0;
  circuit_state = circuit_closed;
  circuit_opened = 0;
  last_probe_time = 0;
}

abbrev pub cooldown : ℕ
cooldown = 30000000000

abbrev pub probe_gap : ℕ
probe_gap = 5000000000

pub is_circuit_open : BackendHealth → Bool
is_circuit_open h = elim h.circuit_state [ circuit_open ↦ true | _ ↦ false ]

-- `time.Since(t) > d` is `d < now - t`.
pub allow_probe : ℕ → BackendHealth → BackendHealth × Bool
allow_probe now h = elim h.circuit_state [
  | circuit_closed ↦ (h, true)
  | circuit_open ↦
      if ltb cooldown (now - h.circuit_opened)
      then (record h { circuit_state = circuit_half_open; last_probe_time = now }, true)
      else (h, false)
  | circuit_half_open ↦
      if ltb probe_gap (now - h.last_probe_time)
      then (record h { last_probe_time = now }, true)
      else (h, false)
]

pub record_success : ℕ → BackendHealth → BackendHealth
record_success now h = record h {
  consecutive_failures = 0;
  last_success = now;
  status = healthy;
  circuit_state = circuit_closed;
}

pub record_failure : ℕ → BackendHealth → BackendHealth
record_failure now h =
    let f : BackendHealth = record h {
      consecutive_failures = suc h.consecutive_failures;
      last_failure = now;
    } in
    elim h.circuit_state [
      | circuit_half_open ↦ record f { circuit_state = circuit_open; circuit_opened = now }
      | _ ↦
          if leb 5 f.consecutive_failures
          then record f { circuit_state = circuit_open; circuit_opened = now; status = unhealthy }
          else f
    ]

-- `checkBackend`: `passed` is the outcome of the check over the network.
pub check_backend : ℕ → ℕ → Bool → BackendHealth → BackendHealth
check_backend max_failures now true h =
    let c : BackendHealth = record h {
      last_check = now;
      last_success = now;
      consecutive_failures = 0;
    } in
    elim h.status [ healthy ↦ c | _ ↦ record c { status = healthy; backend_healthy = true } ]
check_backend max_failures now false h =
    let c : BackendHealth = record h {
      last_check = now;
      last_failure = now;
      consecutive_failures = suc h.consecutive_failures;
    } in
    if leb max_failures (suc h.consecutive_failures)
    then (elim h.status [
      | unhealthy ↦ c
      | _ ↦ record c { status = unhealthy; backend_healthy = false }
    ])
    else record c { status = degraded }

pub check_all : ℕ → BackendHealth → List (ℕ × Bool) → BackendHealth
unfolding check_backend
check_all max_failures h [] = h
check_all max_failures h ((now, passed) ∷ cs) =
    check_all max_failures (check_backend max_failures now passed h) cs

pub data Report : Type 0 where
  succeeded failed probed : Report

pub observe : BackendHealth → ℕ × Report → BackendHealth
unfolding allow_probe record_success record_failure
observe h (now, succeeded) = record_success now h
observe h (now, failed) = record_failure now h
observe h (now, probed) = (allow_probe now h).0

pub observe_all : BackendHealth → List (ℕ × Report) → BackendHealth
unfolding observe
observe_all h [] = h
observe_all h (r ∷ rs) = observe_all (observe h r) rs

-- The times, among those at which a probe is asked for, at which it is allowed.
pub allowed : BackendHealth → List ℕ → List ℕ
unfolding allow_probe
allowed h [] = []
allowed h (now ∷ times) =
    let rest = allowed (allow_probe now h).0 times in
    if (allow_probe now h).1 then now ∷ rest else rest
