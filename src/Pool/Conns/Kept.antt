-- ===== src/Pool/Conns/Kept.antt =====
-- What the methods of `serverConnPool` in internal/pool/pool.go keep, and what they do to one
-- connection.
use geryon.Base.{
  ℕ, ◌≡◌, ◌≢◌, inl, inr, Bool, none, some, List, [], ◌∷◌, ◌++◌, arith, Bool-cases, Option-cases,
  ltb, ℕ_discrete, length, last?, get_elem?, get_elem?-length, get_elem?-append,
}
use geryon.Base.Map.{lookup, delete, put, lookup-delete, lookup-put}
use geryon.Pool.Conns.{ServerConn, ConnPool, acquire, release, add_active, mark_in_use, mark_idle}
use geryon.Pool.Conns.Valid.{Indexes, Apart, IsIndexed, pop-Indexes}

-- A connection that is not indexed is put at the end.
push-Indexes :
    (m : List (ℕ × ℕ)) (l : List ServerConn) (c : ServerConn)
    → lookup ℕ_discrete c.id m ≡ none
    → Indexes m l
    → Indexes (put ℕ_discrete c.id (length l) m) (l ++ c ∷ [])
push-Indexes m l c fresh x = (there, back)
  where
    there :
        (i : ℕ) (d : ServerConn)
        → get_elem? (l ++ c ∷ []) i ≡ some d
        → lookup ℕ_discrete d.id (put ℕ_discrete c.id (length l) m) ≡ some i
    there i d k = elim (ℕ_discrete i (length l)) [
      | yes e ↦
          let same : c ≡ d = ground (arith, get_elem?-append l c i) in
          ground (arith, lookup-put ℕ_discrete c.id d.id (length l) m)
      | no e ↦
          let old : get_elem? l i ≡ some d = ground (arith, get_elem?-append l c i) in
          let found = x.0 i d old in ground (arith, lookup-put ℕ_discrete c.id d.id (length l) m)
    ]

    back :
        (id i : ℕ)
        → lookup ℕ_discrete id (put ℕ_discrete c.id (length l) m) ≡ some i
        → (d : ServerConn) × ((get_elem? (l ++ c ∷ []) i ≡ some d) × (d.id ≡ id))
    back id i k = elim (ℕ_discrete c.id id) [
      | yes e ↦
          let here : i ≡ length l = ground (arith, lookup-put ℕ_discrete c.id id (length l) m) in
          (c, (ground (arith, get_elem?-append l c i), e))
      | no e ↦
          let old : lookup ℕ_discrete id m ≡ some i =
            ground (arith, lookup-put ℕ_discrete c.id id (length l) m) in
          let (d, (f, g)) = x.1 id i old in
          let below = get_elem?-length l i d f in (d, (ground (arith, get_elem?-append l c i), g))
    ]

-- Taking IDs out of either side keeps the two apart.
pub Apart-delete :
    (a : List (ℕ × ServerConn)) (m : List (ℕ × ℕ)) (id : ℕ)
    → Apart a m
    → Apart (delete ℕ_discrete id a) m
Apart-delete a m id h k i e = ground (arith, lookup-delete ℕ_discrete id k a, h k i e)

pub acquire-IsIndexed : (p : ConnPool) → IsIndexed p → IsIndexed (acquire p).0
unfolding acquire
acquire-IsIndexed p v = elim (Option-cases (last? p.idle)) [
  | inl e ↦ rw (e, acquire) v
  | inr (c, e) ↦
      rw (e, acquire)
        (record {
          indexes = pop-Indexes p.idle_index p.idle c e v.indexes;
          apart = λ id i k.
              let old : (lookup ℕ_discrete id p.idle_index ≡ some i) × (id ≢ c.id) =
                ground (arith, lookup-delete ℕ_discrete c.id id p.idle_index) in
              ground
                (arith, lookup-put ℕ_discrete c.id id (mark_in_use c) p.active, v.apart id i old.0);
        })
]

pub release-IsIndexed :
    (c : ServerConn) (reset_fails : Bool) (p : ConnPool)
    → lookup ℕ_discrete c.id p.idle_index ≡ none
    → IsIndexed p
    → IsIndexed (release c reset_fails p)
unfolding release
release-IsIndexed c reset_fails p fresh v = elim (Bool-cases (ltb (length p.idle) p.max_size)) [
  | inl e ↦ elim (Bool-cases reset_fails) [
    | inl f ↦
        rw (e, f)
          (record { indexes = v.indexes; apart = Apart-delete p.active p.idle_index c.id v.apart })
    | inr f ↦
        rw (e, f)
          (record {
            indexes = push-Indexes p.idle_index p.idle (mark_idle c) fresh v.indexes;
            apart = λ id i k. ground (
              arith,
              lookup-put ℕ_discrete c.id id (length p.idle) p.idle_index,
              lookup-delete ℕ_discrete c.id id p.active,
              v.apart id i,
            );
          })
  ]
  | inr e ↦
      rw e (record { indexes = v.indexes; apart = Apart-delete p.active p.idle_index c.id v.apart })
]

pub add_active-IsIndexed :
    (c : ServerConn) (p : ConnPool)
    → lookup ℕ_discrete c.id p.idle_index ≡ none
    → IsIndexed p
    → IsIndexed (add_active c p)
unfolding add_active
add_active-IsIndexed c p fresh v = record {
  indexes = v.indexes;
  apart = λ id i k.
      ground (arith, lookup-put ℕ_discrete c.id id (mark_in_use c) p.active, v.apart id i k);
}
