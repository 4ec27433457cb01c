-- ===== src/Pool/Conns/Draining.antt =====
-- `closeBackend` of internal/pool/pool.go, which closes the idle connections of one backend.
use geryon.Base.{
  ℕ, ◌≡◌, refl, ap, ◌∙◌, List, [], ◌∷◌, ◌++◌, String, if◌then◌else◌, Bool-cases, inl, inr,
}
use geryon.Pool.Conns.{ServerConn, ConnPool, is_of, sift_idle, close_backend}

abbrev pub of_others : String → List ServerConn → List ServerConn
of_others addr [] = []
of_others addr (c ∷ cs) = let rest = of_others addr cs in if is_of addr c then rest else c ∷ rest

abbrev pub ids_of : String → List ServerConn → List ℕ
ids_of addr [] = []
ids_of addr (c ∷ cs) = let rest = ids_of addr cs in if is_of addr c then c.id ∷ rest else rest

append-assoc_cons {ℓ} :
    {A : Type ℓ} (xs : List A) (x : A) (ys : List A) → (xs ++ x ∷ []) ++ ys ≡ xs ++ x ∷ ys
append-assoc_cons [] x ys = refl
append-assoc_cons (z ∷ xs) x ys = ap (λ l. z ∷ l) (append-assoc_cons xs x ys)

append-nil {ℓ} : {A : Type ℓ} (xs : List A) → xs ≡ xs ++ []
append-nil [] = refl
append-nil (z ∷ xs) = ap (λ l. z ∷ l) (append-nil xs)

sift_idle-sorts :
    (addr : String) (cs : List ServerConn) (p : ConnPool)
    → ((sift_idle addr cs p).idle ≡ p.idle ++ of_others addr cs)
      × (((sift_idle addr cs p).closed ≡ p.closed ++ ids_of addr cs)
          × ((sift_idle addr cs p).active ≡ p.active))
unfolding sift_idle
sift_idle-sorts addr [] p = (append-nil p.idle, (append-nil p.closed, refl))
sift_idle-sorts addr (c ∷ cs) p = elim (Bool-cases (is_of addr c)) [
  | inl e ↦
      let r = sift_idle-sorts addr cs _ in
      rw e ((r.0, (r.1.0 ∙ append-assoc_cons p.closed c.id (ids_of addr cs), r.1.1)))
  | inr e ↦
      let r = sift_idle-sorts addr cs _ in
      rw e ((r.0 ∙ append-assoc_cons p.idle c (of_others addr cs), r.1))
]

-- Draining a backend closes its idle connections and no other, leaves the rest idle in their order,
-- and touches no active connection.
pub close_backend-sorts :
    (addr : String) (p : ConnPool)
    → ((close_backend addr p).0.idle ≡ of_others addr p.idle)
      × (((close_backend addr p).0.closed ≡ p.closed ++ ids_of addr p.idle)
          × ((close_backend addr p).0.active ≡ p.active))
unfolding close_backend
close_backend-sorts addr p = sift_idle-sorts addr p.idle (record p { idle = [] })
