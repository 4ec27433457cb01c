-- ===== src/Pool/Conns/Removal.antt =====
-- `remove` of `serverConnPool` in internal/pool/pool.go, which swaps the last connection in.
use geryon.Base.{
  ℕ, suc, ◌≤◌, ◌<◌, ◌≡◌, ◌≢◌, inl, inr, sym, ◌∙◌, subst, none, some, List, [], ◌∷◌, arith,
  Option-cases, ℕ_discrete, length, last?, init, set, get_elem?, get_elem?-length, last?-get_elem?,
  last?-none,
}
use geryon.Base.Map.{lookup, delete, put, lookup-delete, lookup-put, lookup-delete_self}
use geryon.Pool.Conns.{ServerConn, ConnPool, remove, take_out}
use geryon.Pool.Conns.Valid.{Indexes, IsIndexed, pop-Indexes, swap-there, swap-back, length-last?}
use geryon.Pool.Conns.Kept.{Apart-delete}

-- A last connection there is, if one is indexed.
last-there :
    (m : List (ℕ × ℕ)) (l : List ServerConn) (id idx : ℕ)
    → Indexes m l
    → lookup ℕ_discrete id m ≡ some idx
    → (c : ServerConn) × (last? l ≡ some c)
last-there m l id idx x h = elim (Option-cases (last? l)) [
  | inl e ↦ absurd (go l e (x.1 id idx h))
  | inr p ↦ p
]
  where
    go :
        (l : List ServerConn)
        → last? l ≡ none
        → (d : ServerConn) × ((get_elem? l idx ≡ some d) × (d.id ≡ id))
        → ⊥
    go [] e (d, (f, g)) = absurd (ground arith)
    go (y ∷ []) e d = absurd (ground arith)
    go (y ∷ z ∷ l) e d = absurd (ground (arith, last?-none (y ∷ z ∷ l) e))

-- The state without the connection, which is neither idle nor active.
abbrev pub Without : ServerConn → ConnPool → Type 0
Without c q =
    IsIndexed q
    × ((lookup ℕ_discrete c.id q.idle_index ≡ none) × (lookup ℕ_discrete c.id q.active ≡ none))

module _ (p : ConnPool) (v : IsIndexed p) (c d : ServerConn) (idx n : ℕ) (e : last? p.idle ≡ some d)
    (s : length p.idle ≡ suc n) (h : lookup ℕ_discrete c.id p.idle_index ≡ some idx) where
  at_end : get_elem? p.idle n ≡ some d
  at_end = sym (last?-get_elem? p.idle n s) ∙ e

  place : idx ≤ n
  place =
      let (b, (f, g)) = v.indexes.1 c.id idx h in
      let below = get_elem?-length p.idle idx b f in omega arith

  -- When it is the last one.
  abbrev last_out : ConnPool
  last_out = record p {
    active = delete ℕ_discrete c.id p.active;
    idle_index = delete ℕ_discrete c.id p.idle_index;
    idle = init p.idle;
  }

  last_out-Without : idx ≡ n → Without c last_out
  last_out-Without z =
      let (b, (f, g)) = v.indexes.1 c.id idx h in
      let same : d.id ≡ c.id = ground (arith, at_end) in
      (
        record {
          indexes =
              subst (λ k. Indexes (delete ℕ_discrete k p.idle_index) (init p.idle)) same
                (pop-Indexes p.idle_index p.idle d e v.indexes);
          apart = λ id i k. ground (
            arith,
            lookup-delete ℕ_discrete c.id id p.idle_index,
            lookup-delete ℕ_discrete c.id id p.active,
            v.apart id i,
          );
        },
        (
          lookup-delete_self ℕ_discrete c.id p.idle_index,
          lookup-delete_self ℕ_discrete c.id p.active,
        ),
      )

  -- When the last one takes its place.
  abbrev swap_out : ConnPool
  swap_out = record p {
    active = delete ℕ_discrete c.id p.active;
    idle_index = put ℕ_discrete d.id idx (delete ℕ_discrete c.id p.idle_index);
    idle = init (set p.idle idx d);
  }

  swap_out-Without : idx < n → Without c swap_out
  swap_out-Without z =
      let (b, (f, g)) = v.indexes.1 c.id idx h in
      let found = v.indexes.0 n d at_end in
      let other : d.id ≢ c.id = λ k. absurd (ground arith) in
      (
        record {
          indexes = (
            swap-there p.idle_index p.idle d c.id idx n s at_end v.indexes h z,
            swap-back p.idle_index p.idle d c.id idx n s at_end v.indexes h z,
          );
          apart = λ id i k. elim (ℕ_discrete d.id id) [
            | yes j ↦
                ground (arith, lookup-delete ℕ_discrete c.id id p.active, v.apart d.id n found)
            | no j ↦ ground (
              arith,
              lookup-put ℕ_discrete d.id id idx (delete ℕ_discrete c.id p.idle_index),
              lookup-delete ℕ_discrete c.id id p.idle_index,
              lookup-delete ℕ_discrete c.id id p.active,
              v.apart id i,
            )
          ];
        },
        (
          ground (
            arith,
            lookup-put ℕ_discrete d.id c.id idx (delete ℕ_discrete c.id p.idle_index),
            lookup-delete_self ℕ_discrete c.id p.idle_index,
          ),
          lookup-delete_self ℕ_discrete c.id p.active,
        ),
      )

  removed : (q : ConnPool) × ((remove c p ≡ some q) × Without c q)
  unfolding remove take_out
  removed = elim (ℕ_discrete idx n) [
    | yes z ↦ (last_out, (ground arith, last_out-Without z))
    | no z ↦ (swap_out, (ground (arith, place), swap_out-Without (omega (arith, place))))
  ]

-- With an index that is right, `remove` does not panic, leaves an index that is right, and the
-- connection is then neither idle nor active.
pub remove-Without :
    (c : ServerConn) (p : ConnPool)
    → IsIndexed p
    → (q : ConnPool) × ((remove c p ≡ some q) × Without c q)
unfolding remove
remove-Without c p v = elim (Option-cases (lookup ℕ_discrete c.id p.idle_index)) [
  | inl e ↦ (
    record p { active = delete ℕ_discrete c.id p.active },
    (
      ground arith,
      (
        record { indexes = v.indexes; apart = Apart-delete p.active p.idle_index c.id v.apart },
        (e, lookup-delete_self ℕ_discrete c.id p.active),
      ),
    ),
  )
  | inr (idx, h) ↦
      let (d, e) = last-there p.idle_index p.idle c.id idx v.indexes h in
      let (n, s) = length-last? p.idle d e in removed p v c d idx n e s h
]
