-- ===== src/Pool/Backends/Changes.antt =====
-- Changes of a pool's servers in internal/pool/pool.go: at the start, by the operator, and when the
-- configuration is read again.
use geryon.Base.{
  ℕ, suc, Bool, true, false, Option, none, some, List, [], ◌∷◌, ◌++◌, String, ◌&&◌, not, ◌==◌, ltb,
  str_eq, if◌then◌else◌, ℕ_discrete, string_discrete,
}
use geryon.Base.Map.{lookup, put, delete}
use geryon.Pool.Breaker.{new_health}
use geryon.Pool.Backends.{Backend, Servers, address_of, backend_at}
use geryon.Pool.Conns.{ConnPool, count_active, close_backend}

pub data ChangeError : Type 0 where
  already_exists not_found has_active already_draining not_draining : ChangeError

pub data Changed {ℓ} (A : Type ℓ) : Type ℓ where
  changed : A → Changed A
  refused : ChangeError → Changed A

-- A host of the configuration.
pub record Host : Type 0 where
  pub host : String
  pub port : ℕ
  pub role : String
  pub weight : ℕ

abbrev pub no_servers : Bool → Servers
no_servers split = record {
  heap = [];
  next = 0;
  backends = [];
  primary = none;
  replicas = [];
  health = [];
  read_write_split = split;
}

-- `NewBackend`, which is not healthy yet.
abbrev pub new_backend : Host → Backend
new_backend h = record {
  host = h.host;
  port = h.port;
  role = h.role;
  weight = h.weight;
  database = "";
  healthy = false;
  draining = false;
  drain_start = 0;
  conn_count = 0;
}

abbrev pub set_backend : ℕ → Backend → Servers → Servers
set_backend i b s = record s { heap = put ℕ_discrete i b s.heap }

-- A backend that is put behind the others; `AddBackend` of the health checker keeps what it has.
unfoldable pub append_backend : (String → ℕ → String) → Backend → Servers → Servers
append_backend address b s =
    let key = address_of address b in
    record s {
      heap = put ℕ_discrete s.next b s.heap;
      next = suc s.next;
      backends = s.backends ++ s.next ∷ [];
      health = elim (lookup string_discrete key s.health) [
        | none ↦ put string_discrete key new_health s.health
        | some h ↦ s.health
      ];
    }

unfoldable pub list_backend : ℕ → Servers → Servers
list_backend i s = elim (backend_at i s) [
  | none ↦ s
  | some b ↦
      if str_eq b.role "primary"
      then record s { primary = some i }
      else if str_eq b.role "replica"
      then record s { replicas = s.replicas ++ i ∷ [] }
      else s
]

unfoldable pub list_all : List ℕ → Servers → Servers
list_all [] s = s
list_all (i ∷ is') s = list_all is' (list_backend i s)

unfoldable pub update_backend_lists : Servers → Servers
update_backend_lists s = list_all s.backends (record s { primary = none; replicas = [] })

-- The loop of `NewPool` over the hosts: what is not a primary counts as a replica.
unfoldable pub init_host : (String → ℕ → String) → String → Host → Servers → Servers
init_host address database h s =
    let q =
      append_backend address (record (new_backend h) { healthy = true; database = database }) s in
    if str_eq h.role "primary"
    then record q { primary = some s.next }
    else record q { replicas = q.replicas ++ s.next ∷ [] }

unfoldable pub init_hosts : (String → ℕ → String) → String → List Host → Servers → Servers
init_hosts address database [] s = s
init_hosts address database (h ∷ hs) s =
    init_hosts address database hs (init_host address database h s)

unfoldable pub has_host : String → ℕ → List ℕ → Servers → Bool
has_host host port [] s = false
has_host host port (i ∷ is') s =
    let rest = has_host host port is' s in
    elim (backend_at i s) [
      | none ↦ rest
      | some b ↦ if str_eq b.host host && b.port == port then true else rest
    ]

unfoldable pub add_backend : (String → ℕ → String) → Host → String → Servers → Changed Servers
add_backend address h database s =
    if has_host h.host h.port s.backends s
    then refused already_exists
    else changed (
        update_backend_lists (
          append_backend address (record (new_backend h) { healthy = true; database = database })
            s))

-- The first backend of the list with the address.
unfoldable pub with_address :
    (String → ℕ → String) → String → List ℕ → Servers → Option (ℕ × Backend)
with_address address addr [] s = none
with_address address addr (i ∷ is') s =
    let rest = with_address address addr is' s in
    elim (backend_at i s) [
      | none ↦ rest
      | some b ↦ if str_eq (address_of address b) addr then some (i, b) else rest
    ]

unfoldable pub without_first : ℕ → List ℕ → List ℕ
without_first i [] = []
without_first i (j ∷ is') = let rest = without_first i is' in if j == i then is' else j ∷ rest

unfoldable pub remove_backend :
    (String → ℕ → String) → String → Servers → ConnPool → Changed (Servers × ConnPool)
remove_backend address addr s conns = elim (with_address address addr s.backends s) [
  | none ↦ refused not_found
  | some (i, b) ↦
      if ltb 0 (count_active addr conns)
      then refused has_active
      else changed (
        update_backend_lists (record s {
          backends = without_first i s.backends;
          health = delete string_discrete addr s.health;
        }),
        (close_backend addr conns).0,
      )
]

unfoldable pub drain_backend :
    (String → ℕ → String) → String → ℕ → Servers → ConnPool → Changed (Servers × ℕ)
drain_backend address addr now s conns = elim (with_address address addr s.backends s) [
  | none ↦ refused not_found
  | some (i, b) ↦
      if b.draining
      then refused already_draining
      else changed (
        set_backend i (record b { draining = true; drain_start = now; healthy = false }) s,
        count_active addr conns,
      )
]

unfoldable pub cancel_drain : (String → ℕ → String) → String → Servers → Changed Servers
cancel_drain address addr s = elim (with_address address addr s.backends s) [
  | none ↦ refused not_found
  | some (i, b) ↦
      if not b.draining
      then refused not_draining
      else changed (set_backend i (record b { draining = false; healthy = true }) s)
]

unfoldable pub is_draining : (String → ℕ → String) → String → Servers → Bool
is_draining address addr s = elim (with_address address addr s.backends s) [
  | none ↦ false
  | some (i, b) ↦ b.draining
]

-- The map `newBackends` of `updateBackends`: the addresses that are to be there.
unfoldable pub has_text : String → List String → Bool
has_text key [] = false
has_text key (k ∷ ks) = let rest = has_text key ks in if str_eq k key then true else rest

unfoldable pub drop_text : String → List String → List String
drop_text key [] = []
drop_text key (k ∷ ks) = let rest = drop_text key ks in if str_eq k key then rest else k ∷ rest

unfoldable pub host_addresses : (String → ℕ → String) → List Host → List String
host_addresses address [] = []
host_addresses address (h ∷ hs) = address h.host h.port ∷ host_addresses address hs

-- The backends that are kept, in `backends`; the others drain and lose their health record.
unfoldable pub keep_backends :
    (String → ℕ → String) → List ℕ → List String → Servers → Servers × List String
keep_backends address [] wanted s = (s, wanted)
keep_backends address (i ∷ is') wanted s = elim (backend_at i s) [
  | none ↦ keep_backends address is' wanted s
  | some b ↦
      let key = address_of address b in
      let kept =
        keep_backends address is' (drop_text key wanted)
          (record s { backends = s.backends ++ i ∷ [] }) in
      let dropped =
        keep_backends address is' wanted (record (set_backend i (record b { draining = true }) s) {
          health = delete string_discrete key s.health;
        }) in
      if has_text key wanted then kept else dropped
]

unfoldable pub add_hosts : (String → ℕ → String) → List Host → List String → Servers → Servers
add_hosts address [] wanted s = s
add_hosts address (h ∷ hs) wanted s =
    let added = add_hosts address hs wanted (append_backend address (new_backend h) s) in
    let passed = add_hosts address hs wanted s in
    if has_text (address h.host h.port) wanted then added else passed

unfoldable pub update_backends : (String → ℕ → String) → List Host → Servers → Servers
update_backends address hs s =
    let (q, wanted) =
      keep_backends address s.backends (host_addresses address hs) (record s { backends = [] }) in
    update_backend_lists (add_hosts address hs wanted q)

pub data Change : Type 0 where
  adds : Host → String → Change
  removes cancels : String → Change
  drains : String → ℕ → Change
  updates : List Host → Change

abbrev after_change {ℓ} : {A : Type ℓ} → A → Changed A → A
after_change a (changed b) = b
after_change a (refused e) = a

-- A change that is refused leaves everything as it is.
unfoldable pub change : (String → ℕ → String) → Servers × ConnPool → Change → Servers × ConnPool
change address (s, conns) (adds h database) =
    (after_change s (add_backend address h database s), conns)
change address (s, conns) (removes addr) =
    after_change (s, conns) (remove_backend address addr s conns)
change address (s, conns) (cancels addr) = (after_change s (cancel_drain address addr s), conns)
change address (s, conns) (drains addr now) = elim (drain_backend address addr now s conns) [
  | changed q ↦ (q.0, conns)
  | refused e ↦ (s, conns)
]
change address (s, conns) (updates hs) = (update_backends address hs s, conns)

unfoldable pub change_all :
    (String → ℕ → String) → Servers × ConnPool → List Change → Servers × ConnPool
change_all address s [] = s
change_all address s (c ∷ cs) = change_all address (change address s c) cs
