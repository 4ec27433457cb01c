-- ===== src/Pool/Conns/Discipline.antt =====
-- Uses of `serverConnPool` in internal/pool/pool.go, one after another.
use geryon.Base.{
  ℕ, ◌<◌, ◌≡◌, refl, subst, false, Option, none, some, List, [], ◌∷◌, arith, ℕ_discrete, length,
  Option-cases, inl, inr, last?-append, init-append,
}
use geryon.Base.Map.{lookup}
use geryon.Pool.Conns.{
  ServerConn, ConnPool, new_conn_pool, acquire, release, add_active, remove, take_out, mark_in_use,
  mark_idle, close_all, Use, acquires, releases, adds, removes, use_conns, use_all,
}
use geryon.Pool.Conns.Valid.{IsIndexed}
use geryon.Pool.Conns.Kept.{acquire-IsIndexed, release-IsIndexed, add_active-IsIndexed}
use geryon.Pool.Conns.Removal.{remove-Without}

-- Only an active connection is released, and only one that is not idle is added.
abbrev pub IsAllowed : ConnPool → Use → Type 0
IsAllowed p acquires = Unit
IsAllowed p (releases c reset_fails) = (a : ServerConn) × (lookup ℕ_discrete c.id p.active ≡ some a)
IsAllowed p (adds c) = lookup ℕ_discrete c.id p.idle_index ≡ none
IsAllowed p (removes c) = Unit

-- What is asked of the state after, if there is one.
abbrev pub After : (ConnPool → Type 0) → Option ConnPool → Type 0
After P none = Unit
After P (some q) = P q

abbrev pub AllAllowed : ConnPool → List Use → Type 0
AllAllowed p [] = Unit
AllAllowed p (u ∷ us) = IsAllowed p u × After (λ q. AllAllowed q us) (use_conns p u)

-- An active connection has no place in the index.
active-unindexed :
    (p : ConnPool) (id : ℕ) (a : ServerConn)
    → IsIndexed p
    → lookup ℕ_discrete id p.active ≡ some a
    → lookup ℕ_discrete id p.idle_index ≡ none
active-unindexed p id a v e = elim (Option-cases (lookup ℕ_discrete id p.idle_index)) [
  | inl h ↦ h
  | inr (i, h) ↦ absurd (ground (arith, v.apart id i h))
]

use_conns-IsIndexed :
    (p : ConnPool) (u : Use)
    → IsIndexed p
    → IsAllowed p u
    → (q : ConnPool) × ((use_conns p u ≡ some q) × IsIndexed q)
unfolding use_conns
use_conns-IsIndexed p acquires v a = ((acquire p).0, (refl, acquire-IsIndexed p v))
use_conns-IsIndexed p (releases c reset_fails) v (x, e) = (
  release c reset_fails p,
  (refl, release-IsIndexed c reset_fails p (active-unindexed p c.id x v e) v),
)
use_conns-IsIndexed p (adds c) v a = (add_active c p, (refl, add_active-IsIndexed c p a v))
use_conns-IsIndexed p (removes c) v a = let (q, (e, w)) = remove-Without c p v in (q, (e, w.0))

-- From a pool whose index is right, any uses that release only active connections and add only
-- connections that are not idle go through without a panic, and leave an index that is right.
pub use_all-IsIndexed :
    (us : List Use) (p : ConnPool)
    → IsIndexed p
    → AllAllowed p us
    → (q : ConnPool) × ((use_all p us ≡ some q) × IsIndexed q)
unfolding use_all
use_all-IsIndexed [] p v a = (p, (refl, v))
use_all-IsIndexed (u ∷ us) p v a =
    let (q, (e, w)) = use_conns-IsIndexed p u v a.0 in
    let (r, (f, x)) = use_all-IsIndexed us q w (subst (After (λ q'. AllAllowed q' us)) e a.1) in
    (r, (rw (e, use_all) f, x))

pub new_conn_pool-IsIndexed : (max_size : ℕ) → IsIndexed (new_conn_pool max_size)
unfolding new_conn_pool lookup
new_conn_pool-IsIndexed max_size = record {
  indexes = (λ i c e. absurd (ground arith), λ id i e. absurd (ground arith));
  apart = λ id i e. absurd (ground arith);
}

-- A connection that is released into a pool with room, and whose reset succeeds, is the next one
-- that is acquired, and the others are idle as before.
pub acquire-release :
    (c : ServerConn) (p : ConnPool)
    → length p.idle < p.max_size
    → ((acquire (release c false p)).1 ≡ some (mark_in_use c))
      × ((acquire (release c false p)).0.idle ≡ p.idle)
unfolding acquire release
acquire-release c p room =
    ground (arith, last?-append p.idle (mark_idle c), init-append p.idle (mark_idle c))

-- Once `closeAll` has run, removing a connection that was idle panics.
pub remove-close_all :
    (c : ServerConn) (p : ConnPool) (i : ℕ)
    → lookup ℕ_discrete c.id p.idle_index ≡ some i
    → remove c (close_all p) ≡ none
unfolding remove take_out close_all
remove-close_all c p i e = ground arith
