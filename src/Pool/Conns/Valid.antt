-- ===== src/Pool/Conns/Valid.antt =====
-- The index of the idle connections of internal/pool/pool.go: `idleIndex` is where each one stands.
use geryon.Base.{
  ℕ, suc, ◌<◌, ◌≡◌, ◌≢◌, refl, sym, ◌∙◌, none, some, List, [], ◌∷◌, arith, ◌==◌, if◌then◌else◌,
  ℕ_discrete, length, last?, init, set, get_elem?, get_elem?-length, get_elem?-init, get_elem?-set,
  last?-get_elem?, length-set,
}
use geryon.Base.Map.{lookup, delete, put, lookup-delete, lookup-put, lookup-delete_ne}
use geryon.Pool.Conns.{ServerConn, ConnPool}

-- Where the index says that an ID is.
abbrev pub Indexes : List (ℕ × ℕ) → List ServerConn → Type 0
Indexes m l =
    ((i : ℕ) (c : ServerConn) → get_elem? l i ≡ some c → lookup ℕ_discrete c.id m ≡ some i)
    × ((id i : ℕ)
        → lookup ℕ_discrete id m ≡ some i
        → (c : ServerConn) × ((get_elem? l i ≡ some c) × (c.id ≡ id)))

-- No connection is both active and idle.
abbrev pub Apart : List (ℕ × ServerConn) → List (ℕ × ℕ) → Type 0
Apart active m = (id i : ℕ) → lookup ℕ_discrete id m ≡ some i → lookup ℕ_discrete id active ≡ none

pub record IsIndexed (p : ConnPool) : Type 0 where
  pub indexes : Indexes p.idle_index p.idle
  pub apart : Apart p.active p.idle_index

init-get_elem? :
    (l : List ServerConn) (n i : ℕ) (d : ServerConn)
    → length l ≡ suc n
    → get_elem? (init l) i ≡ some d
    → (i < n) × (get_elem? l i ≡ some d)
init-get_elem? l n i d e k = ground (arith, get_elem?-init l i)

get_elem?-init_below :
    (l : List ServerConn) (n i : ℕ)
    → length l ≡ suc n
    → i < n
    → get_elem? (init l) i ≡ get_elem? l i
get_elem?-init_below l n i e h = ground (arith, get_elem?-init l i)

pub length-last? :
    (l : List ServerConn) (c : ServerConn) → last? l ≡ some c → (n : ℕ) × (length l ≡ suc n)
length-last? [] c e = absurd (ground arith)
length-last? (x ∷ l) c e = (length l, refl)

-- One position, one connection.
same_place :
    (m : List (ℕ × ℕ)) (l : List ServerConn) (i j : ℕ) (c d : ServerConn)
    → Indexes m l
    → get_elem? l i ≡ some c
    → get_elem? l j ≡ some d
    → c.id ≡ d.id
    → i ≡ j
same_place m l i j c d x a b e = let p = x.0 i c a in let q = x.0 j d b in ground arith

-- The last one leaves.
module _ (m : List (ℕ × ℕ)) (l : List ServerConn) (c : ServerConn) (n : ℕ) (e : length l ≡ suc n)
    (at_end : get_elem? l n ≡ some c) (x : Indexes m l) where
  pop-there :
      (i : ℕ) (d : ServerConn)
      → get_elem? (init l) i ≡ some d
      → lookup ℕ_discrete d.id (delete ℕ_discrete c.id m) ≡ some i
  pop-there i d k =
      let b = init-get_elem? l n i d e k in
      let other : d.id ≢ c.id =
        λ f. absurd (omega (arith, b.0, same_place m l i n d c x b.1 at_end f)) in
      lookup-delete_ne ℕ_discrete c.id d.id m other ∙ x.0 i d b.1

  pop-back :
      (id i : ℕ)
      → lookup ℕ_discrete id (delete ℕ_discrete c.id m) ≡ some i
      → (d : ServerConn) × ((get_elem? (init l) i ≡ some d) × (d.id ≡ id))
  pop-back id i k =
      let old : (lookup ℕ_discrete id m ≡ some i) × (id ≢ c.id) =
        ground (arith, lookup-delete ℕ_discrete c.id id m) in
      let (d, (f, g)) = x.1 id i old.0 in
      let below = get_elem?-length l i d f in
      let inner : i ≢ n = λ h. old.1 (ground arith) in
      (d, (get_elem?-init_below l n i e (omega arith) ∙ f, g))

pub pop-Indexes :
    (m : List (ℕ × ℕ)) (l : List ServerConn) (c : ServerConn)
    → last? l ≡ some c
    → Indexes m l
    → Indexes (delete ℕ_discrete c.id m) (init l)
pop-Indexes m l c e x =
    let (n, s) = length-last? l c e in
    let at_end = sym (last?-get_elem? l n s) ∙ e in
    (pop-there m l c n s at_end x, pop-back m l c n s at_end x)

-- The last one takes the place of another.
module _ (m : List (ℕ × ℕ)) (l : List ServerConn) (c : ServerConn) (id idx n : ℕ)
    (e : length l ≡ suc n) (at_end : get_elem? l n ≡ some c) (x : Indexes m l)
    (at_idx : lookup ℕ_discrete id m ≡ some idx) (inside : idx < n) where
  abbrev pub swapped : List ServerConn
  swapped = init (set l idx c)

  abbrev pub moved : List (ℕ × ℕ)
  moved = put ℕ_discrete c.id idx (delete ℕ_discrete id m)

  swapped-get_elem? :
      (i : ℕ) → i < n → get_elem? swapped i ≡ (if idx == i then some c else get_elem? l i)
  swapped-get_elem? i h =
      get_elem?-init_below (set l idx c) n i (length-set l idx c ∙ e) h
      ∙ ground (arith, get_elem?-set l idx i c)

  swapped-below : (i : ℕ) (d : ServerConn) → get_elem? swapped i ≡ some d → i < n
  swapped-below i d k = (init-get_elem? (set l idx c) n i d (length-set l idx c ∙ e) k).0

  pub swap-there :
      (i : ℕ) (d : ServerConn)
      → get_elem? swapped i ≡ some d
      → lookup ℕ_discrete d.id moved ≡ some i
  swap-there i d k = elim (ℕ_discrete idx i) [
    | yes f ↦
        let same : d ≡ c = ground (arith, swapped-get_elem? i (swapped-below i d k)) in
        ground (arith, lookup-put ℕ_discrete c.id d.id idx (delete ℕ_discrete id m))
    | no f ↦
        let below = swapped-below i d k in
        let old : get_elem? l i ≡ some d = ground (arith, swapped-get_elem? i below) in
        let not_last : c.id ≢ d.id =
          λ g. absurd (omega (arith, below, same_place m l i n d c x old at_end (sym g))) in
        let found = x.0 i d old in
        let not_out : id ≢ d.id = λ g. ground arith in
        ground (
          arith,
          lookup-put ℕ_discrete c.id d.id idx (delete ℕ_discrete id m),
          lookup-delete ℕ_discrete id d.id m,
        )
  ]

  pub swap-back :
      (k i : ℕ)
      → lookup ℕ_discrete k moved ≡ some i
      → (d : ServerConn) × ((get_elem? swapped i ≡ some d) × (d.id ≡ k))
  swap-back k i h = elim (ℕ_discrete c.id k) [
    | yes f ↦
        let here : i ≡ idx =
          ground (arith, lookup-put ℕ_discrete c.id k idx (delete ℕ_discrete id m)) in
        (c, (ground (arith, swapped-get_elem? i (omega arith)), f))
    | no f ↦
        let old : (lookup ℕ_discrete k m ≡ some i) × (k ≢ id) = ground (
          arith,
          lookup-put ℕ_discrete c.id k idx (delete ℕ_discrete id m),
          lookup-delete ℕ_discrete id k m,
        ) in
        let (d, (g, q)) = x.1 k i old.0 in
        let (d', (g', q')) = x.1 id idx at_idx in
        let below = get_elem?-length l i d g in
        let not_last : i ≢ n = λ j. f (ground arith) in
        let not_out : idx ≢ i = λ j. old.1 (ground arith) in
        (d, (ground (arith, swapped-get_elem? i (omega arith)), q))
  ]
