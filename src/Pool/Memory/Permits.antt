-- ===== src/Pool/Memory/Permits.antt =====
-- The memory of internal/pool/manager.go as a number of permits, one for each connection.
use geryon.Base.{
  ℕ, ◌+◌, ◌-◌, ◌*◌, ◌/◌, ◌≤◌, ◌<◌, ◌≡◌, ◌≢◌, refl, ap, ◌∙◌, Bool, true, false, List, [], ◌∷◌, arith,
  ltb, if◌then◌else◌, Bool-cases, inl, inr,
}
use geryon.Pool.Memory.{conn_memory_estimate, Memory, try_alloc, free, Call, allocs, frees, answers}

-- A semaphore: `held` of `capacity` permits are out.
unfoldable pub permits : ℕ → ℕ → List Call → List Bool × ℕ
permits capacity held [] = ([], conn_memory_estimate * held)
permits capacity held (allocs ∷ cs) =
    let (bs, used) = permits capacity (held + 1) cs in
    let (bs', used') = permits capacity held cs in
    if ltb held capacity then (true ∷ bs, used) else (false ∷ bs', used')
permits capacity held (frees ∷ cs) = permits capacity (held - 1) cs

abbrev at : ℕ → ℕ → Memory
at limit held = record { limit = limit; used = conn_memory_estimate * held }

alloc-granted :
    (limit held : ℕ)
    → held < limit / conn_memory_estimate
    → try_alloc (at limit held) ≡ (at limit (held + 1), true)
unfolding try_alloc
alloc-granted limit held h = ground arith

alloc-refused :
    (limit held : ℕ)
    → limit ≢ 0
    → limit / conn_memory_estimate ≤ held
    → try_alloc (at limit held) ≡ (at limit held, false)
unfolding try_alloc
alloc-refused limit held z h = ground arith

free-at : (limit held : ℕ) → free (at limit held) ≡ at limit (held - 1)
unfolding free
free-at limit held = ground arith

answers-permits :
    (limit held : ℕ) (cs : List Call)
    → limit ≢ 0
    → answers (at limit held) cs ≡ permits (limit / conn_memory_estimate) held cs
unfolding answers permits
answers-permits limit held [] z = refl
answers-permits limit held (frees ∷ cs) z =
    ap (λ m. answers m cs) (free-at limit held) ∙ answers-permits limit (held - 1) cs z
answers-permits limit held (allocs ∷ cs) z =
    let more = answers-permits limit (held + 1) cs z in
    let same = answers-permits limit held cs z in
    elim (Bool-cases (ltb held (limit / conn_memory_estimate))) [
      | inl e ↦
          ap (λ r. (r.1 ∷ (answers r.0 cs).0, (answers r.0 cs).1))
            (alloc-granted limit held (ground arith))
          ∙ ap (λ r. (true ∷ r.0, r.1)) more
          ∙ rw e refl
      | inr e ↦
          ap (λ r. (r.1 ∷ (answers r.0 cs).0, (answers r.0 cs).1))
            (alloc-refused limit held z (ground arith))
          ∙ ap (λ r. (false ∷ r.0, r.1)) same
          ∙ rw e refl
    ]

-- Under a limit that is not 0 and with no memory in use at first, `TryAlloc` answers as a semaphore
-- with one permit for each whole estimate within the limit, and the memory in use at the end is the
-- estimate for each permit that is out.
pub answers-semaphore :
    (limit : ℕ) (cs : List Call)
    → limit ≢ 0
    → answers (record { limit = limit; used = 0 }) cs ≡ permits (limit / conn_memory_estimate) 0 cs
answers-semaphore limit cs z = answers-permits limit 0 cs z
