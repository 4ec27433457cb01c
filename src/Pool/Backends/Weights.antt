-- ===== src/Pool/Backends/Weights.antt =====
-- What the weighted selection of internal/pool/pool.go takes.
use geryon.Base.{
  ℕ, ◌≡◌, ◌≤◌, ◌-◌, ◌<◌, ◌+◌, ◌*◌, ◌==◌, if◌then◌else◌, refl, sym, subst, ap, ◌∙◌, ltb,
  Option-cases, true, false, Option, none, some, List, [], ◌∷◌, ◌⊎◌, inl, inr, All, arith,
  Bool-cases,
}
use geryon.Pool.Backends.{
  Servers, Backend, backend_at, effective_weight, exceeds, weight_at, heaviest,
  select_weighted_backend,
}
use geryon.Pool.Backends.Selection.{Among}

-- Not above the greatest weight, where `none` is a negative one.
abbrev pub AtMost : Option ℕ → Option ℕ → Type 0
AtMost none most = Unit
AtMost (some w) none = ⊥
AtMost (some w) (some most) = w ≤ most

AtMost-trans : (a b c : Option ℕ) → AtMost a b → AtMost b c → AtMost a c
AtMost-trans none b c h k = tt
AtMost-trans (some a) none c h k = absurd h
AtMost-trans (some a) (some b) none h k = absurd k
AtMost-trans (some a) (some b) (some c) h k = omega arith

exceeds-AtMost : (a b : Option ℕ) → exceeds a b ≡ true → AtMost b a
unfolding exceeds
exceeds-AtMost none b e = absurd (ground arith)
exceeds-AtMost (some a) none e = tt
exceeds-AtMost (some a) (some b) e = ground arith

exceeds-some : (a b : Option ℕ) → exceeds a b ≡ true → (w : ℕ) × (a ≡ some w)
unfolding exceeds
exceeds-some none b e = absurd (ground arith)
exceeds-some (some w) b e = (w, refl)

not_exceeds-AtMost : (a b : Option ℕ) → exceeds a b ≡ false → AtMost a b
unfolding exceeds
not_exceeds-AtMost none b e = tt
not_exceeds-AtMost (some a) none e = absurd (ground arith)
not_exceeds-AtMost (some a) (some b) e = ground arith

-- The weight of what is selected, negative when nothing is.
abbrev pub weight_of : Servers → Option ℕ → Option ℕ
weight_of s none = none
weight_of s (some i) = weight_at s i

record Best (s : Servers) (l : List ℕ) (selected answer : Option ℕ) : Type 0 where
  least : AtMost (weight_of s selected) (weight_of s answer)
  most : All (λ i. AtMost (weight_at s i) (weight_of s answer)) l
  source :
      (i : ℕ)
      → answer ≡ some i
      → (selected ≡ some i) ⊎ (Among i l × ((w : ℕ) × (weight_at s i ≡ some w)))

AtMost-refl : (a : Option ℕ) → AtMost a a
AtMost-refl none = tt
AtMost-refl (some a) = omega arith

heaviest-Best :
    (s : Servers) (l : List ℕ) (selected : Option ℕ)
    → Best s l selected (heaviest s l selected (weight_of s selected))
unfolding heaviest
heaviest-Best s [] selected = record {
  least = AtMost-refl (weight_of s selected);
  most = tt;
  source = λ i e. inl e;
}
heaviest-Best s (i ∷ l) selected =
    elim (Bool-cases (exceeds (weight_at s i) (weight_of s selected))) [
      | inl e ↦ rw (e) (taken (heaviest-Best s l (some i)) e)
      | inr e ↦ rw (e) (kept (heaviest-Best s l selected) e)
    ]
  where
    now :
        (j : ℕ)
        → some i ≡ some j
        → (w : ℕ) × (weight_at s i ≡ some w)
        → Among j (i ∷ l) × ((w : ℕ) × (weight_at s j ≡ some w))
    now j g (w, h) =
        let same : i ≡ j = ground arith in (inl (sym same), (w, ap (weight_at s) (sym same) ∙ h))

    taken :
        Best s l (some i) (heaviest s l (some i) (weight_at s i))
        → exceeds (weight_at s i) (weight_of s selected) ≡ true
        → Best s (i ∷ l) selected (heaviest s l (some i) (weight_at s i))
    taken b e = record {
      least = AtMost-trans _ (weight_at s i) _ (exceeds-AtMost _ _ e) b.least;
      most = (b.least, b.most);
      source = λ j f. elim (b.source j f) [
        | inl g ↦ inr (now j g (exceeds-some _ _ e))
        | inr g ↦ inr (inr g.0, g.1)
      ];
    }

    kept :
        Best s l selected (heaviest s l selected (weight_of s selected))
        → exceeds (weight_at s i) (weight_of s selected) ≡ false
        → Best s (i ∷ l) selected (heaviest s l selected (weight_of s selected))
    kept b e = record {
      least = b.least;
      most = (AtMost-trans _ (weight_of s selected) _ (not_exceeds-AtMost _ _ e) b.least, b.most);
      source = λ j f. elim (b.source j f) [ inl g ↦ inl g | inr g ↦ inr (inr g.0, g.1) ];
    }

select_weighted_backend-most :
    (s : Servers) (i j : ℕ) (l : List ℕ)
    → let o = select_weighted_backend s (i ∷ j ∷ l) in
      All (λ k. AtMost (weight_at s k) (weight_of s o)) (i ∷ j ∷ l)
      × ((k : ℕ) → o ≡ some k → Among k (i ∷ j ∷ l) × ((w : ℕ) × (weight_at s k ≡ some w)))
unfolding select_weighted_backend
select_weighted_backend-most s i j l =
    let b = heaviest-Best s (i ∷ j ∷ l) none in
    (b.most, λ k e. elim (b.source k e) [ inl f ↦ absurd (ground arith) | inr m ↦ m ])

-- The weight of a backend, 100 where none is given.
abbrev pub base : Backend → ℕ
base b = if b.weight == 0 then 100 else b.weight

-- No selection: each backend has more connections than a tenth of its weight.
abbrev pub Exhausted : Servers → List ℕ → Type 0
Exhausted s l = All (λ k. (b : Backend) → backend_at k s ≡ some b → base b < b.conn_count * 10) l

-- The weight less ten for each connection is not negative, and not less than that of any other.
pub record Greatest (s : Servers) (l : List ℕ) (i : ℕ) : Type 0 where
  pub chosen : Backend
  pub there : backend_at i s ≡ some chosen
  pub among : Among i l
  pub positive : chosen.conn_count * 10 ≤ base chosen
  pub most :
      All
        (λ k.
          (b : Backend)
          → backend_at k s ≡ some b
          → base b + chosen.conn_count * 10 ≤ base chosen + b.conn_count * 10)
        l

abbrev pub Chosen : Servers → List ℕ → Option ℕ → Type 0
Chosen s l none = Exhausted s l
Chosen s l (some i) = Greatest s l i

-- The weight of a backend, if it is not negative.
effective_weight-some :
    (b : Backend) (w : ℕ) → effective_weight b ≡ some w → base b ≡ w + b.conn_count * 10
unfolding effective_weight
effective_weight-some b w e = elim (Bool-cases (ltb (base b) (b.conn_count * 10))) [
  | inl h ↦ absurd (ground arith)
  | inr h ↦ ground arith
]

below : (x n most : ℕ) → AtMost (if ltb x n then none else some (x - n)) (some most) → x ≤ most + n
below x n most h = elim (Bool-cases (ltb x n)) [
  | inl e ↦ ground arith
  | inr e ↦
      let k : x - n ≤ most =
        subst (λ b. AtMost (if b then none else some (x - n)) (some most)) e h in
      omega arith
]

negative : (x n : ℕ) → AtMost (if ltb x n then none else some (x - n)) none → x < n
negative x n h = elim (Bool-cases (ltb x n)) [
  | inl e ↦ ground arith
  | inr e ↦ absurd (subst (λ b. AtMost (if b then none else some (x - n)) none) e h)
]

-- The weight of a backend, where it is one of the list.
weight-known :
    (s : Servers) (k : ℕ) (b : Backend)
    → backend_at k s ≡ some b
    → weight_at s k ≡ effective_weight b
weight-known s k b e = rw (weight_at, e) refl

weight-unknown : (s : Servers) (k w : ℕ) → backend_at k s ≡ none → weight_at s k ≡ some w → ⊥
weight-unknown s k w g e =
    let no : weight_at s k ≡ none = rw (weight_at, g) refl in
    let bad : none ≡ some w = sym no ∙ e in ground arith

each_of : {P Q : ℕ → Type 0} (l : List ℕ) → ((k : ℕ) → P k → Q k) → All P l → All Q l
each_of [] f h = tt
each_of (k ∷ l) f h = (f k h.0, each_of l f h.1)

select-Chosen :
    (s : Servers) (l : List ℕ) (o : Option ℕ)
    → All (λ k. AtMost (weight_at s k) (weight_of s o)) l
    → ((k : ℕ) → o ≡ some k → Among k l × ((w : ℕ) × (weight_at s k ≡ some w)))
    → Chosen s l o
unfolding effective_weight
select-Chosen s l none h f =
    each_of l
      (λ k a b e.
        negative (base b) (b.conn_count * 10) (subst (λ w. AtMost w none) (weight-known s k b e) a))
      h
select-Chosen s l (some i) h f =
    let (m, q) = f i refl in
    let (w, e) = q in
    elim (Option-cases (backend_at i s)) [
      | inl g ↦ absurd (weight-unknown s i w g e)
      | inr (c, g) ↦
          let same : base c ≡ w + c.conn_count * 10 =
            effective_weight-some c w (sym (weight-known s i c g) ∙ e) in
          record {
            chosen = c;
            there = g;
            among = m;
            positive = omega (arith, same);
            most =
                each_of l
                  (λ k a b d.
                    let x = below (base b) (b.conn_count * 10) w (
                      subst (λ v. AtMost v (some w)) (weight-known s k b d)
                        (subst (AtMost (weight_at s k)) e a)) in
                    omega (arith, same, x))
                  h;
          }
    ]

-- Among two backends or more, the weighted selection answers one whose weight, 100 if none is given,
-- less ten for each of its connections is not negative, and not less than that of any other; it answers
-- none only when that is negative for all.
pub select_weighted_backend-greatest :
    (s : Servers) (i j : ℕ) (l : List ℕ)
    → Chosen s (i ∷ j ∷ l) (select_weighted_backend s (i ∷ j ∷ l))
select_weighted_backend-greatest s i j l =
    let (h, f) = select_weighted_backend-most s i j l in
    select-Chosen s (i ∷ j ∷ l) (select_weighted_backend s (i ∷ j ∷ l)) h f
