-- ===== src/Stmt/Prepared.antt =====
-- Which statements internal/stmt/cache.go takes to be prepared on which connection.
use geryon.Base.{
  ℕ, ◌≡◌, ap, ◌∙◌, Bool, true, false, [], if◌then◌else◌, ◌||◌, Option, none, some, String, arith,
  ite, string_discrete, ℕ_discrete,
}
use geryon.Base.Map.{lookup, put, lookup-put}
use geryon.Stmt.{
  Statement, ConnTracker, Manager, already, fresh, not_in_cache, get, is_prepared, mark_prepared,
  get_or_create_tracker, is_prepared_on_conn, mark_prepared_on_conn, prepare_if_needed,
}

-- What a caller sees: is the statement prepared on the connection?
abbrev pub prepared : ℕ → String → Manager → Bool
prepared conn_id name m = (is_prepared_on_conn conn_id name m).1

abbrev pub found : Option Statement → Bool
found none = false
found (some s) = true

is_prepared-mark_prepared :
    (name other : String) (t : ConnTracker)
    → is_prepared other (mark_prepared name t)
      ≡ ite (string_discrete name other) true (is_prepared other t)
unfolding is_prepared
is_prepared-mark_prepared name other t =
    ground (arith, lookup-put string_discrete name other true t)

-- The tracker of a connection, which is empty until it is made.
unfoldable pub tracker : ℕ → Manager → ConnTracker
tracker i m = elim (lookup ℕ_discrete i m.trackers) [ none ↦ [] | some t ↦ t ]

get_or_create-tracker : (i : ℕ) (m : Manager) → (get_or_create_tracker i m).1 ≡ tracker i m
unfolding get_or_create_tracker tracker
get_or_create-tracker i m = ground arith

prepared-tracker :
    (i : ℕ) (name : String) (m : Manager) → prepared i name m ≡ is_prepared name (tracker i m)
unfolding is_prepared_on_conn
prepared-tracker i name m = ap (is_prepared name) (get_or_create-tracker i m)

-- Making an empty tracker changes none.
tracker-asked : (i j : ℕ) (m : Manager) → tracker j (get_or_create_tracker i m).0 ≡ tracker j m
unfolding get_or_create_tracker tracker
tracker-asked i j m = ground (arith, lookup-put ℕ_discrete i j [] m.trackers)

get_or_create-trackers :
    (i j : ℕ) (t : ConnTracker) (m : Manager)
    → tracker j (record (get_or_create_tracker i m).0 {
      trackers = put ℕ_discrete i t (get_or_create_tracker i m).0.trackers;
    })
      ≡ ite (ℕ_discrete i j) t (tracker j m)
unfolding tracker get_or_create_tracker
get_or_create-trackers i j t m = ground (
  arith,
  lookup-put ℕ_discrete i j t (get_or_create_tracker i m).0.trackers,
  lookup-put ℕ_discrete i j [] m.trackers,
)

tracker-marked :
    (i j : ℕ) (name : String) (m : Manager)
    → tracker j (mark_prepared_on_conn i name m)
      ≡ ite (ℕ_discrete i j) (mark_prepared name (tracker i m)) (tracker j m)
unfolding mark_prepared_on_conn
tracker-marked i j name m =
    get_or_create-trackers i j (mark_prepared name (get_or_create_tracker i m).1) m
    ∙ ap (λ t. ite (ℕ_discrete i j) (mark_prepared name t) (tracker j m))
        (get_or_create-tracker i m)

prepared-marked :
    (i j : ℕ) (name other : String) (m : Manager)
    → is_prepared other (tracker j (mark_prepared_on_conn i name m))
      ≡ ite
          (ℕ_discrete i j)
          (ite (string_discrete name other) true (is_prepared other (tracker j m)))
          (is_prepared other (tracker j m))
prepared-marked i j name other m =
    ap (is_prepared other) (tracker-marked i j name m)
    ∙ ground (arith, is_prepared-mark_prepared name other (tracker i m))

get_or_create-cache :
    (i : ℕ) (m : Manager) → (get_or_create_tracker i m).0.global_cache ≡ m.global_cache
unfolding get_or_create_tracker
get_or_create-cache i m = ground arith

-- Asking whether a statement is prepared changes no tracker and not the cache.
asked :
    (i j : ℕ) (name : String) (m : Manager)
    → (tracker j (is_prepared_on_conn i name m).0 ≡ tracker j m)
      × ((is_prepared_on_conn i name m).0.global_cache ≡ m.global_cache)
unfolding is_prepared_on_conn
asked i j name m = (tracker-asked i j m, get_or_create-cache i m)

tracked :
    (i j : ℕ) (name other : String) (m : Manager)
    → is_prepared other (tracker j (prepare_if_needed i name m).0)
      ≡ ite
          (ℕ_discrete i j)
          (ite
            (string_discrete name other)
            (is_prepared other (tracker j m) || found (get name m.global_cache))
            (is_prepared other (tracker j m)))
          (is_prepared other (tracker j m))
unfolding prepare_if_needed
tracked i j name other m =
    let q = asked i j name m in
    let ready : prepared i name m ≡ is_prepared name (tracker i m) = prepared-tracker i name m in
    let marks = prepared-marked i j name other (is_prepared_on_conn i name m).0 in
    ground (arith, q.0, q.1)

-- What is prepared after `PrepareIfNeeded`: what was before, and the statement on the connection that
-- it was asked for, if the cache has it.
pub prepared-prepare_if_needed :
    (i j : ℕ) (name other : String) (m : Manager)
    → prepared j other (prepare_if_needed i name m).0
      ≡ ite
          (ℕ_discrete i j)
          (ite
            (string_discrete name other)
            (prepared j other m || found (get name m.global_cache))
            (prepared j other m))
          (prepared j other m)
prepared-prepare_if_needed i j name other m =
    rw (prepared-tracker j other m)
      (prepared-tracker j other (prepare_if_needed i name m).0 ∙ tracked i j name other m)

-- The answer of `PrepareIfNeeded`: a statement that is prepared on the connection is not prepared
-- again; one that is not is taken from the cache, and one that the cache lacks is refused.
pub prepare_if_needed-answer :
    (i : ℕ) (name : String) (m : Manager)
    → (prepare_if_needed i name m).1 ≡ (
        if prepared i name m
        then already
        else elim (get name m.global_cache) [ none ↦ not_in_cache | some stmt ↦ fresh stmt ])
unfolding prepare_if_needed
prepare_if_needed-answer i name m = let q = asked i i name m in ground (arith, q.1)
