-- ===== src/Stmt/Bounds.antt =====
-- How many statements the cache of internal/stmt/cache.go holds.
use geryon.Base.{
  ℕ, ◌+◌, ◌≤◌, ◌≡◌, ◌≢◌, ◌⊎◌, inl, inr, refl, sym, ap, some, List, [], ◌∷◌, String, arith, length,
  string_discrete,
}
use geryon.Base.Map.{lookup, put-IsMap, length-delete-le, lookup-put}
use geryon.Stmt.{
  Statement, Cache, new_cache, forget, evict_loop, insert, put_statement, remove, clear, Call, puts,
  removes, clears, step, run,
}
use geryon.Stmt.Eviction.{
  In, IsCounted, remove-IsCounted, forget-counts, forget-lru_list, HasRoom, evict_loop-room,
  evict_loop-Falls,
}

put_statement-IsCounted : (stmt : Statement) (c : Cache) → IsCounted c → IsCounted (insert stmt c)
unfolding insert
put_statement-IsCounted stmt c v = record {
  names = put-IsMap string_discrete stmt.name stmt c.statements v.names;
  listed = λ j s e. elim (string_discrete stmt.name j) [
    | yes p ↦ inl (sym p)
    | no p ↦
        inr
          (v.listed j s (ground (arith, lookup-put string_discrete stmt.name j stmt c.statements)))
  ];
  counted = omega (arith, v.counted, length-delete-le string_discrete stmt.name c.statements);
}

step-IsCounted :
    (c : Cache) (k : Call) → IsCounted c → IsCounted (step c k) × ((step c k).max_size ≡ c.max_size)
unfolding step put_statement insert remove clear
step-IsCounted c (puts stmt) v =
    let f = evict_loop-Falls (length c.lru_list) c v in
    (put_statement-IsCounted stmt (evict_loop (length c.lru_list) c) f.0, f.1.1)
step-IsCounted c (removes name) v = (remove-IsCounted name c v, (forget-lru_list name c).1)
step-IsCounted c clears v = (
  record {
    names = tt;
    listed = λ j s e. absurd (unfold lookup in ground arith);
    counted = omega arith;
  },
  refl,
)

empty-statements : (c : Cache) → IsCounted c → length c.lru_list ≡ 0 → length c.statements ≡ 0
empty-statements c v e = go c.statements c.lru_list refl v.listed e
  where
    go :
        (m : List (String × Statement)) (l : List String)
        → c.statements ≡ m
        → ((j : String) (s : Statement) → lookup string_discrete j m ≡ some s → In j l)
        → length l ≡ 0
        → length c.statements ≡ 0
    go [] l p h z = ap length p
    go ((k, s) ∷ m) [] p h z = absurd (h k s (unfold lookup in ground arith))
    go ((k, s) ∷ m) (x ∷ l) p h z = absurd (omega arith)

-- At most `bound` statements, however many names and counts there are.
insert-length :
    (stmt : Statement) (c : Cache)
    → IsCounted c
    → HasRoom c
    → (length (insert stmt c).statements ≤ c.max_size) ⊎ (length (insert stmt c).statements ≤ 1)
unfolding insert
insert-length stmt c v (inl r) =
    inl (omega (arith, v.counted, length-delete-le string_discrete stmt.name c.statements))
insert-length stmt c v (inr e) =
    inr (
      omega
        (arith, empty-statements c v e, length-delete-le string_discrete stmt.name c.statements))

step-length :
    (c : Cache) (k : Call) (bound : ℕ)
    → IsCounted c
    → c.max_size ≤ bound
    → 1 ≤ bound
    → length c.statements ≤ bound
    → length (step c k).statements ≤ bound
unfolding step put_statement remove clear forget
step-length c (puts stmt) bound v m one h =
    let fuel = length c.lru_list in
    let f = evict_loop-Falls fuel c v in
    elim (insert-length stmt (evict_loop fuel c) f.0 (evict_loop-room fuel c (omega arith))) [
      | inl a ↦ omega (arith, a, f.1.1)
      | inr a ↦ omega (arith, a)
    ]
step-length c (removes name) bound v m one h =
    ground (arith, length-delete-le string_discrete name c.statements)
step-length c clears bound v m one h = omega arith

run-length :
    (ks : List Call) (c : Cache) (bound : ℕ)
    → IsCounted c
    → c.max_size ≤ bound
    → 1 ≤ bound
    → length c.statements ≤ bound
    → length (run c ks).statements ≤ bound
unfolding run
run-length [] c bound v m one h = h
run-length (k ∷ ks) c bound v m one h =
    let s = step-IsCounted c k v in
    run-length ks (step c k) bound s.0 (omega (arith, s.1)) one (step-length c k bound v m one h)

new_cache-IsCounted : (max_size : ℕ) → IsCounted (new_cache max_size)
unfolding new_cache
new_cache-IsCounted max_size = record {
  names = tt;
  listed = λ j s e. absurd (unfold lookup in ground arith);
  counted = omega arith;
}

-- After any calls on a new cache, every name has one statement and stands in the list, and the
-- counter is no less than the number of statements.
pub run-IsCounted : (max_size : ℕ) (ks : List Call) → IsCounted (run (new_cache max_size) ks)
unfolding run
run-IsCounted max_size ks = go ks (new_cache max_size) (new_cache-IsCounted max_size)
  where
    go : (ks : List Call) (c : Cache) → IsCounted c → IsCounted (run c ks)
    go [] c v = v
    go (k ∷ ks) c v = go ks (step c k) (step-IsCounted c k v).0

-- A cache made for at least one statement never holds more statements than it was made for,
-- whatever calls are made.
pub run-bounded :
    (max_size : ℕ) (ks : List Call)
    → 1 ≤ max_size
    → length (run (new_cache max_size) ks).statements ≤ max_size
unfolding new_cache
run-bounded max_size ks one =
    run-length ks (new_cache max_size) max_size (new_cache-IsCounted max_size) (omega arith) one
      (omega arith)

-- Once the counter exceeds the number of statements by the size of the cache less one, every statement
-- that is put throws out all the others.
pub put_statement-evicts_all :
    (stmt : Statement) (c : Cache)
    → IsCounted c
    → length c.statements + c.max_size ≤ c.current_size + 1
    → length (put_statement stmt c).statements ≡ 1
unfolding put_statement insert
put_statement-evicts_all stmt c v h =
    let fuel = length c.lru_list in
    let f = evict_loop-Falls fuel c v in
    let none_left : length (evict_loop fuel c).statements ≡ 0 =
      elim (evict_loop-room fuel c (omega arith)) [
        | inl r ↦ omega (arith, r, f.1.0, f.1.1, h)
        | inr e ↦ empty-statements (evict_loop fuel c) f.0 e
      ] in
    omega
      (arith, none_left, length-delete-le string_discrete stmt.name (evict_loop fuel c).statements)

-- The statements that the counter has and the cache has not are never fewer after a call that is not
-- `Clear`.
step-drift :
    (c : Cache) (k : Call)
    → IsCounted c
    → k ≢ clears
    → length (step c k).statements + c.current_size ≤ length c.statements + (step c k).current_size
unfolding step put_statement insert remove
step-drift c (puts stmt) v h =
    let f = evict_loop-Falls (length c.lru_list) c v in
    omega (
      arith,
      f.1.0,
      length-delete-le string_discrete stmt.name (evict_loop (length c.lru_list) c).statements,
    )
step-drift c (removes name) v h = omega (arith, (forget-counts name c v.names v.counted).0)
step-drift c clears v h = absurd (h refl)
