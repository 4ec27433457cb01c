-- ===== src/Pool/Breaker/Laws.antt =====
-- When the circuit breaker of internal/pool/health.go lets requests through.
use geryon.Base.{
  ℕ, suc, ◌+◌, ◌<◌, ◌≡◌, ◌≢◌, ◌↔◌, refl, sym, ◌∙◌, if◌then◌else◌, Bool, true, false, List, [], ◌∷◌,
  arith,
}
use geryon.Pool.Breaker.{
  is_circuit_open, check_backend, check_all, BackendHealth, circuit_closed, circuit_half_open,
  new_health, Report, succeeded, failed, probed, allow_probe, record_success, record_failure,
  observe, observe_all, allowed, probe_gap,
}

-- How many failures were reported after the last success, starting from `n`.
abbrev pub failures_since : ℕ → List (ℕ × Report) → ℕ
failures_since n [] = n
failures_since n ((now, succeeded) ∷ rs) = failures_since 0 rs
failures_since n ((now, failed) ∷ rs) = failures_since (suc n) rs
failures_since n ((now, probed) ∷ rs) = failures_since n rs

-- The circuit is closed as long as there were fewer than five failures in a row.
abbrev IsCounted : BackendHealth → Type 0
IsCounted h = (h.circuit_state ≡ circuit_closed) ↔ (h.consecutive_failures < 5)

success-IsCounted : (now : ℕ) (h : BackendHealth) → IsCounted (record_success now h)
unfolding record_success
success-IsCounted now h = ground arith

failure-IsCounted :
    (now : ℕ) (h : BackendHealth)
    → IsCounted h
    → IsCounted (record_failure now h)
      × ((record_failure now h).consecutive_failures ≡ suc h.consecutive_failures)
unfolding record_failure
failure-IsCounted now h c = ground arith

probe-IsCounted :
    (now : ℕ) (h : BackendHealth)
    → IsCounted h
    → IsCounted (allow_probe now h).0
      × ((allow_probe now h).0.consecutive_failures ≡ h.consecutive_failures)
unfolding allow_probe
probe-IsCounted now h c = ground arith

observe_all-IsCounted :
    (rs : List (ℕ × Report)) (h : BackendHealth) (n : ℕ)
    → IsCounted h
    → h.consecutive_failures ≡ n
    → (((observe_all h rs).circuit_state ≡ circuit_closed) ↔ (failures_since n rs < 5))
unfolding observe_all observe
observe_all-IsCounted [] h n c e = ground arith
observe_all-IsCounted ((now, succeeded) ∷ rs) h n c e =
    observe_all-IsCounted rs (record_success now h) 0 (success-IsCounted now h)
      (unfold record_success in refl)
observe_all-IsCounted ((now, failed) ∷ rs) h n c e =
    let f = failure-IsCounted now h c in
    observe_all-IsCounted rs (record_failure now h) (suc n) f.0 (omega (arith, f.1))
observe_all-IsCounted ((now, probed) ∷ rs) h n c e =
    let f = probe-IsCounted now h c in
    observe_all-IsCounted rs (allow_probe now h).0 n f.0 (f.1 ∙ e)

-- After any sequence of successes, failures and probes of a new backend with no health check in between,
-- its circuit is closed just when fewer than five failures followed the last success.
pub observe_all-closed :
    (rs : List (ℕ × Report))
    → (((observe_all new_health rs).circuit_state ≡ circuit_closed) ↔ (failures_since 0 rs < 5))
observe_all-closed rs = observe_all-IsCounted rs new_health 0 (ground arith) refl

-- Each time is more than the gap after the one before.
abbrev pub SpacedFrom : ℕ → List ℕ → Type 0
SpacedFrom t [] = Unit
SpacedFrom t (u ∷ us) = (t + probe_gap < u) × SpacedFrom u us

abbrev pub Spaced : List ℕ → Type 0
Spaced [] = Unit
Spaced (t ∷ ts) = SpacedFrom t ts

-- What one request for a probe does to a circuit that is not closed.
abbrev Probes : ℕ → BackendHealth → BackendHealth → Bool → Type 0
Probes now h m true = (m.circuit_state ≡ circuit_half_open) × (m.last_probe_time ≡ now)
Probes now h m false = (m.circuit_state ≡ h.circuit_state) × (m.last_probe_time ≡ h.last_probe_time)

allow_probe-Probes :
    (now : ℕ) (h : BackendHealth)
    → h.circuit_state ≢ circuit_closed
    → Probes now h (allow_probe now h).0 (allow_probe now h).1
unfolding allow_probe
allow_probe-Probes now h e = ground arith

allow_probe-gap :
    (now : ℕ) (h : BackendHealth)
    → h.circuit_state ≡ circuit_half_open
    → (allow_probe now h).1 ≡ true
    → h.last_probe_time + probe_gap < now
unfolding allow_probe
allow_probe-gap now h e k = ground arith

allowed-SpacedFrom :
    (times : List ℕ) (h : BackendHealth) (t : ℕ)
    → h.circuit_state ≡ circuit_half_open
    → h.last_probe_time ≡ t
    → SpacedFrom t (allowed h times)
unfolding allowed
allowed-SpacedFrom [] h t e l = tt
allowed-SpacedFrom (now ∷ times) h t e l =
    go (allowed-SpacedFrom times (allow_probe now h).0) (allow_probe now h).1 refl
      (allow_probe-Probes now h (ground arith))
  where
    go :
        ((u : ℕ)
          → (allow_probe now h).0.circuit_state ≡ circuit_half_open
          → (allow_probe now h).0.last_probe_time ≡ u
          → SpacedFrom u (allowed (allow_probe now h).0 times))
        → (b : Bool) → (allow_probe now h).1 ≡ b
        → Probes now h (allow_probe now h).0 b
        → SpacedFrom t (
            if b
            then now ∷ allowed (allow_probe now h).0 times
            else allowed (allow_probe now h).0 times)
    go later true k p = (omega (arith, allow_probe-gap now h e k, l), later now p.0 p.1)
    go later false k p = later t (p.0 ∙ e) (p.1 ∙ l)

-- While neither a success nor a failure is reported to a circuit that is not closed, each time at
-- which it lets a probe through is more than five seconds after the one before.
pub allowed-Spaced :
    (times : List ℕ) (h : BackendHealth)
    → h.circuit_state ≢ circuit_closed
    → Spaced (allowed h times)
unfolding allowed
allowed-Spaced [] h e = tt
allowed-Spaced (now ∷ times) h e =
    go (allowed-Spaced times (allow_probe now h).0) (allow_probe now h).1
      (allow_probe-Probes now h e)
  where
    go :
        ((allow_probe now h).0.circuit_state ≢ circuit_closed
          → Spaced (allowed (allow_probe now h).0 times))
        → (b : Bool) → Probes now h (allow_probe now h).0 b
        → Spaced (
            if b
            then now ∷ allowed (allow_probe now h).0 times
            else allowed (allow_probe now h).0 times)
    go later true p = allowed-SpacedFrom times (allow_probe now h).0 now p.0 p.1
    go later false p = later (λ k. e (sym p.0 ∙ k))

check_backend-circuit :
    (max_failures now : ℕ) (passed : Bool) (h : BackendHealth)
    → is_circuit_open (check_backend max_failures now passed h) ≡ is_circuit_open h
unfolding check_backend is_circuit_open
check_backend-circuit max_failures now true h = ground arith
check_backend-circuit max_failures now false h = ground arith

-- Health checks, passed or failed, never open a circuit and never close one that is open.
pub check_all-circuit :
    (max_failures : ℕ) (cs : List (ℕ × Bool)) (h : BackendHealth)
    → is_circuit_open (check_all max_failures h cs) ≡ is_circuit_open h
unfolding check_all
check_all-circuit max_failures [] h = refl
check_all-circuit max_failures ((now, passed) ∷ cs) h =
    check_all-circuit max_failures cs (check_backend max_failures now passed h)
    ∙ check_backend-circuit max_failures now passed h
