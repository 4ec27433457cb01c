-- ===== src/Pool/Conns.antt =====
-- internal/pool/pool.go: `serverConnPool`, the idle and the active connections to the servers. Each
-- method holds the mutex for its whole body. A connection is its ID, the address of its backend and
-- the flag `inUse`; the times and the statements that it also has are not part of this state.
-- `closed` lists the IDs of those that `Close` was called on; what `Close` gives back to the manager
-- and to the backend's counter is not part of it either.
pub mod Valid
pub mod Kept
pub mod Removal
pub mod Discipline
pub mod Draining
mod Tests
use geryon.Base.{
  ℕ, suc, ◌+◌, Bool, true, false, Option, none, some, List, [], ◌∷◌, ◌++◌, map, String, ltb, ◌==◌,
  if◌then◌else◌, ℕ_discrete, string_discrete, ite, length, last?, init, set,
}
use geryon.Base.Map.{lookup, delete, put}

pub record ServerConn : Type 0 where
  pub id : ℕ
  pub backend : Option String
  pub in_use : Bool

pub record ConnPool : Type 0 where
  pub idle : List ServerConn
  pub active : List (ℕ × ServerConn)
  pub idle_index : List (ℕ × ℕ)
  pub max_size : ℕ
  pub closed : List ℕ

unfoldable pub new_conn_pool : ℕ → ConnPool
new_conn_pool max_size = record {
  idle = [];
  active = [];
  idle_index = [];
  max_size = max_size;
  closed = [];
}

abbrev pub mark_in_use : ServerConn → ServerConn
mark_in_use c = record c { in_use = true }

abbrev pub mark_idle : ServerConn → ServerConn
mark_idle c = record c { in_use = false }

abbrev pub close : ServerConn → ConnPool → ConnPool
close c p = record p { closed = p.closed ++ c.id ∷ [] }

-- The most recently used connection first.
unfoldable pub acquire : ConnPool → ConnPool × Option ServerConn
acquire p = elim (last? p.idle) [
  | none ↦ (p, none)
  | some c ↦ (
    record p {
      idle = init p.idle;
      idle_index = delete ℕ_discrete c.id p.idle_index;
      active = put ℕ_discrete c.id (mark_in_use c) p.active;
    },
    some (mark_in_use c),
  )
]

-- `reset_fails`: there is a codec and a network connection, and `ResetConnection` reports an error.
unfoldable pub release : ServerConn → Bool → ConnPool → ConnPool
release c reset_fails p =
    let q : ConnPool = record p { active = delete ℕ_discrete c.id p.active } in
    if ltb (length p.idle) p.max_size
    then (if reset_fails then close c q else record q {
      idle_index = put ℕ_discrete c.id (length p.idle) q.idle_index;
      idle = p.idle ++ mark_idle c ∷ [];
    })
    else close c q

unfoldable pub add_active : ServerConn → ConnPool → ConnPool
add_active c p = record p { active = put ℕ_discrete c.id (mark_in_use c) p.active }

-- The swap with the last element: `none` stands for the panic of an index that is out of range.
pub take_out : ℕ → ℕ → ConnPool → Option ConnPool
take_out id idx p = elim (last? p.idle) [
  | none ↦ none
  | some l ↦
      if suc idx == length p.idle
      then some (record p { idle_index = delete ℕ_discrete id p.idle_index; idle = init p.idle })
      else if ltb idx (length p.idle)
      then some (record p {
        idle_index = put ℕ_discrete l.id idx (delete ℕ_discrete id p.idle_index);
        idle = init (set p.idle idx l);
      })
      else none
]

pub remove : ServerConn → ConnPool → Option ConnPool
unfolding take_out
remove c p =
    let q : ConnPool = record p { active = delete ℕ_discrete c.id p.active } in
    elim (lookup ℕ_discrete c.id p.idle_index) [ none ↦ some q | some idx ↦ take_out c.id idx q ]

abbrev pub size : ConnPool → ℕ
size p = length p.idle + length p.active

-- The index is left as it is.
pub close_all : ConnPool → ConnPool
close_all p = record p {
  closed = (p.closed ++ map (λ c. c.id) p.idle) ++ map (λ a. a.1.id) p.active;
  idle = [];
  active = [];
}

pub is_of : String → ServerConn → Bool
is_of addr c = elim c.backend [ none ↦ false | some a ↦ ite (string_discrete a addr) true false ]

pub count_of : String → List (ℕ × ServerConn) → ℕ
unfolding is_of
count_of addr [] = 0
count_of addr ((k, c) ∷ m) = let rest = count_of addr m in if is_of addr c then suc rest else rest

abbrev pub count_active : String → ConnPool → ℕ
count_active addr p = count_of addr p.active

-- The loop of `closeBackend` over the idle connections; `p.idle` is the list `newIdle` so far.
pub sift_idle : String → List ServerConn → ConnPool → ConnPool
unfolding is_of
sift_idle addr [] p = p
sift_idle addr (c ∷ cs) p =
    let dropped = sift_idle addr cs (record p {
      closed = p.closed ++ c.id ∷ [];
      idle_index = delete ℕ_discrete c.id p.idle_index;
    }) in
    let kept = sift_idle addr cs (record p {
      idle_index = put ℕ_discrete c.id (length p.idle) p.idle_index;
      idle = p.idle ++ c ∷ [];
    }) in
    if is_of addr c then dropped else kept

pub close_backend : String → ConnPool → ConnPool × ℕ
unfolding sift_idle count_of
close_backend addr p = (sift_idle addr p.idle (record p { idle = [] }), count_active addr p)

-- What the pool does with its connections.
pub data Use : Type 0 where
  acquires : Use
  releases : ServerConn → Bool → Use
  adds removes : ServerConn → Use

pub use_conns : ConnPool → Use → Option ConnPool
unfolding acquire release add_active remove
use_conns p acquires = some (acquire p).0
use_conns p (releases c reset_fails) = some (release c reset_fails p)
use_conns p (adds c) = some (add_active c p)
use_conns p (removes c) = remove c p

pub use_all : ConnPool → List Use → Option ConnPool
unfolding use_conns
use_all p [] = some p
use_all p (u ∷ us) = elim (use_conns p u) [ none ↦ none | some q ↦ use_all q us ]
