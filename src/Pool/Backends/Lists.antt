-- ===== src/Pool/Backends/Lists.antt =====
-- The pointers that internal/pool/pool.go keeps apart for the primary and the replicas stay among the
-- backends of the pool.
use geryon.Base.{
  ℕ, ◌≡◌, refl, sym, subst, none, List, [], ◌∷◌, ◌++◌, String, ltb, str_eq, inl, inr, arith,
  Bool-cases, Option-cases,
}
use geryon.Pool.Conns.{ConnPool, count_active}
use geryon.Pool.Backends.{Servers, backend_at}
use geryon.Pool.Backends.Selection.{Among, IsKnown}
use geryon.Pool.Backends.Changes.{
  Host, append_backend, list_backend, list_all, update_backend_lists, init_host, init_hosts,
  add_backend, with_address, has_host, remove_backend, drain_backend, cancel_drain, update_backends,
  Change, adds, removes, cancels, drains, updates, change, change_all,
}

Among-append-left : (i : ℕ) (l m : List ℕ) → Among i l → Among i (l ++ m)
Among-append-left i [] m h = absurd h
Among-append-left i (j ∷ l) m (inl e) = inl e
Among-append-left i (j ∷ l) m (inr h) = inr (Among-append-left i l m h)

Among-last : (i : ℕ) (l : List ℕ) → Among i (l ++ i ∷ [])
Among-last i [] = inl refl
Among-last i (j ∷ l) = inr (Among-last i l)

Among-snoc :
    (P : ℕ → Type 0) (i j : ℕ) (l : List ℕ)
    → ((k : ℕ) → Among k l → P k)
    → P j
    → Among i (l ++ j ∷ [])
    → P i
Among-snoc P i j [] f p (inl e) = subst P (sym e) p
Among-snoc P i j [] f p (inr h) = absurd h
Among-snoc P i j (k ∷ l) f p (inl e) = f i (inl e)
Among-snoc P i j (k ∷ l) f p (inr h) = Among-snoc P i j l (λ n m. f n (inr m)) p h

IsKnown-list_backend :
    (i : ℕ) (s : Servers)
    → IsKnown s
    → Among i s.backends
    → IsKnown (list_backend i s) × ((list_backend i s).backends ≡ s.backends)
unfolding list_backend
IsKnown-list_backend i s k m = elim (Option-cases (backend_at i s)) [
  | inl e ↦ rw (list_backend, e) (k, refl)
  | inr (b, e) ↦ elim (Bool-cases (str_eq b.role "primary")) [
    | inl f ↦
        rw (list_backend, e, f)
          (
            record {
              main = λ j g. subst (λ n. Among n s.backends) (ground arith) m;
              copies = k.copies;
            },
            refl,
          )
    | inr f ↦ elim (Bool-cases (str_eq b.role "replica")) [
      | inl g ↦
          rw (list_backend, e, f, g)
            (
              record {
                main = k.main;
                copies = λ j a. Among-snoc (λ n. Among n s.backends) j i s.replicas k.copies m a;
              },
              refl,
            )
      | inr g ↦ rw (list_backend, e, f, g) (k, refl)
    ]
  ]
]

IsKnown-list_all :
    (l : List ℕ) (s : Servers)
    → IsKnown s
    → ((i : ℕ) → Among i l → Among i s.backends)
    → IsKnown (list_all l s)
unfolding list_all
IsKnown-list_all [] s k f = k
IsKnown-list_all (i ∷ l) s k f =
    let (q, e) = IsKnown-list_backend i s k (f i (inl refl)) in
    IsKnown-list_all l (list_backend i s) q (λ j m. subst (Among j) (sym e) (f j (inr m)))

IsKnown-update : (s : Servers) → IsKnown (update_backend_lists s)
unfolding update_backend_lists
IsKnown-update s =
    IsKnown-list_all s.backends (record s { primary = none; replicas = [] })
      (record { main = λ i e. absurd (ground arith); copies = λ i m. absurd m }) (λ i m. m)

IsKnown-init_host :
    (address : String → ℕ → String) (database : String) (h : Host) (s : Servers)
    → IsKnown s
    → IsKnown (init_host address database h s)
unfolding init_host append_backend
IsKnown-init_host address database h s k = elim (Bool-cases (str_eq h.role "primary")) [
  | inl e ↦ rw (e) (record {
    main = λ i f.
        subst (λ n. Among n (s.backends ++ s.next ∷ [])) (ground arith)
          (Among-last s.next s.backends);
    copies = λ i m. Among-append-left i s.backends _ (k.copies i m);
  })
  | inr e ↦ rw (e) (record {
    main = λ i f. Among-append-left i s.backends _ (k.main i f);
    copies = λ i m.
        Among-snoc (λ n. Among n (s.backends ++ s.next ∷ [])) i s.next s.replicas
          (λ j a. Among-append-left j s.backends _ (k.copies j a)) (Among-last s.next s.backends) m;
  })
]

pub IsKnown-init :
    (address : String → ℕ → String) (database : String) (hs : List Host) (s : Servers)
    → IsKnown s
    → IsKnown (init_hosts address database hs s)
unfolding init_hosts
IsKnown-init address database [] s k = k
IsKnown-init address database (h ∷ hs) s k =
    IsKnown-init address database hs _ (IsKnown-init_host address database h s k)

IsKnown-change :
    (address : String → ℕ → String) (c : Change) (s : Servers) (conns : ConnPool)
    → IsKnown s
    → IsKnown (change address (s, conns) c).0
unfolding change add_backend remove_backend drain_backend cancel_drain update_backends
IsKnown-change address (adds h database) s conns k =
    elim (Bool-cases (has_host h.host h.port s.backends s)) [
      | inl e ↦ rw (change, add_backend, e) k
      | inr e ↦ rw (change, add_backend, e) (IsKnown-update _)
    ]
IsKnown-change address (removes addr) s conns k =
    elim (Option-cases (with_address address addr s.backends s)) [
      | inl e ↦ rw (change, remove_backend, e) k
      | inr ((i, b), e) ↦ elim (Bool-cases (ltb 0 (count_active addr conns))) [
        | inl f ↦ rw (change, remove_backend, e, f) k
        | inr f ↦ rw (change, remove_backend, e, f) (IsKnown-update _)
      ]
    ]
IsKnown-change address (cancels addr) s conns k =
    elim (Option-cases (with_address address addr s.backends s)) [
      | inl e ↦ rw (change, cancel_drain, e) k
      | inr ((i, b), e) ↦ elim (Bool-cases b.draining) [
        | inl f ↦ rw (change, cancel_drain, e, f) (record { main = k.main; copies = k.copies })
        | inr f ↦ rw (change, cancel_drain, e, f) k
      ]
    ]
IsKnown-change address (drains addr now) s conns k =
    elim (Option-cases (with_address address addr s.backends s)) [
      | inl e ↦ rw (change, drain_backend, e) k
      | inr ((i, b), e) ↦ elim (Bool-cases b.draining) [
        | inl f ↦ rw (change, drain_backend, e, f) k
        | inr f ↦ rw (change, drain_backend, e, f) (record { main = k.main; copies = k.copies })
      ]
    ]
IsKnown-change address (updates hs) s conns k = IsKnown-update _

-- After the start with any hosts and any changes, the primary and the replicas of a pool are among its
-- backends.
pub change_all-IsKnown :
    (address : String → ℕ → String) (cs : List Change) (s : Servers) (conns : ConnPool)
    → IsKnown s
    → IsKnown (change_all address (s, conns) cs).0
unfolding change_all
change_all-IsKnown address [] s conns k = k
change_all-IsKnown address (c ∷ cs) s conns k =
    change_all-IsKnown address cs (change address (s, conns) c).0 (change address (s, conns) c).1
      (IsKnown-change address c s conns k)
