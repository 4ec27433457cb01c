-- ===== src/Stmt/Eviction.antt =====
-- What the eviction loop of internal/stmt/cache.go keeps, and when it ends.
use geryon.Base.{
  ℕ, zero, suc, ◌+◌, ◌-◌, ◌≤◌, ◌<◌, ◌≡◌, ◌≢◌, ◌⊎◌, inl, inr, refl, sym, ap, ◌∙◌, none, some, List,
  [], ◌∷◌, String, arith, Bool-cases, Option-cases, ltb, leb, length, last?, init, string_discrete,
  subst, ◌&&◌, length-init, last?-none,
}
use geryon.Base.Map.{lookup, delete, IsMap, delete-IsMap, length-delete, lookup-delete}
use geryon.Stmt.{Statement, Cache, forget, evict_lru, evict_loop}

abbrev pub In : String → List String → Type 0
In x [] = ⊥
In x (y ∷ ys) = (x ≡ y) ⊎ In x ys

In-init : (x k : String) (l : List String) → In x l → last? l ≡ some k → x ≢ k → In x (init l)
In-init x k [] i e h = i
In-init x k (y ∷ []) (inl p) e h = absurd (ground arith)
In-init x k (y ∷ []) (inr i) e h = i
In-init x k (y ∷ z ∷ l) (inl p) e h = inl p
In-init x k (y ∷ z ∷ l) (inr i) e h = inr (In-init x k (z ∷ l) i e h)

-- Each name has one statement and stands in the list, and the counter is no less than the number of
-- statements.
pub record IsCounted (c : Cache) : Type 0 where
  pub names : IsMap string_discrete c.statements
  pub listed :
      (j : String) (s : Statement)
      → lookup string_discrete j c.statements ≡ some s
      → In j c.lru_list
  pub counted : length c.statements ≤ c.current_size

-- What `forget` does, name by name.
forget-lookup :
    (name j : String) (c : Cache) (s : Statement)
    → lookup string_discrete j (forget name c).statements ≡ some s
    → (lookup string_discrete j c.statements ≡ some s) × (j ≢ name)
unfolding forget
forget-lookup name j c s e = ground (arith, lookup-delete string_discrete name j c.statements)

forget-names :
    (name : String) (c : Cache)
    → IsMap string_discrete c.statements
    → IsMap string_discrete (forget name c).statements
unfolding forget
forget-names name c u = ground (arith, delete-IsMap string_discrete name c.statements u)

-- A statement that goes takes one off the counter.
pub forget-counts :
    (name : String) (c : Cache)
    → IsMap string_discrete c.statements
    → length c.statements ≤ c.current_size
    → (length (forget name c).statements + c.current_size
        ≡ length c.statements + (forget name c).current_size)
      × (length (forget name c).statements ≤ (forget name c).current_size)
unfolding forget
forget-counts name c u h = elim (Option-cases (lookup string_discrete name c.statements)) [
  | inl e ↦ ground arith
  | inr (s, e) ↦
      let shrinks : length (delete string_discrete name c.statements) + 1 ≡ length c.statements =
        length-delete string_discrete name c.statements s u e in
      ground arith
]

pub forget-lru_list :
    (name : String) (c : Cache)
    → ((forget name c).lru_list ≡ c.lru_list) × ((forget name c).max_size ≡ c.max_size)
unfolding forget
forget-lru_list name c = ground arith

pub remove-IsCounted : (name : String) (c : Cache) → IsCounted c → IsCounted (forget name c)
remove-IsCounted name c v = record {
  names = forget-names name c v.names;
  listed = λ j s e.
      subst (In j) (sym (forget-lru_list name c).0) (v.listed j s (forget-lookup name j c s e).0);
  counted = (forget-counts name c v.names v.counted).1;
}

-- One round of the loop, on a list whose last name is `name`.
abbrev shorter : Cache → Cache
shorter c = record c { lru_list = init c.lru_list }

evict_lru-some :
    (c : Cache) (name : String)
    → last? c.lru_list ≡ some name
    → evict_lru c ≡ forget name (shorter c)
unfolding evict_lru
evict_lru-some c name e = rw (e, evict_lru)

evict_lru-none : (c : Cache) → last? c.lru_list ≡ none → evict_lru c ≡ c
unfolding evict_lru
evict_lru-none c e = rw (e, evict_lru)

forget-evicted :
    (c : Cache) (name : String)
    → last? c.lru_list ≡ some name
    → IsCounted c
    → IsCounted (forget name (shorter c))
forget-evicted c name e v = record {
  names = forget-names name (shorter c) v.names;
  listed = λ j s k.
      let old = forget-lookup name j (shorter c) s k in
      subst (In j) (sym (forget-lru_list name (shorter c)).0)
        (In-init j name c.lru_list (v.listed j s old.0) e old.1);
  counted = (forget-counts name (shorter c) v.names v.counted).1;
}

-- What a round of the loop keeps: the counter falls with the statements.
abbrev Falls : Cache → Cache → Type 0
Falls c d =
    IsCounted d
    × ((length d.statements + c.current_size ≡ length c.statements + d.current_size)
        × (d.max_size ≡ c.max_size))

evict_lru-Falls : (c : Cache) → IsCounted c → Falls c (evict_lru c)
evict_lru-Falls c v = elim (Option-cases (last? c.lru_list)) [
  | inl e ↦ subst (Falls c) (sym (evict_lru-none c e)) (v, (omega arith, refl))
  | inr (name, e) ↦ subst (Falls c) (sym (evict_lru-some c name e)) (
    forget-evicted c name e v,
    ((forget-counts name (shorter c) v.names v.counted).0, (forget-lru_list name (shorter c)).1),
  )
]

evict_lru-length : (c : Cache) → length (evict_lru c).lru_list ≡ length c.lru_list - 1
evict_lru-length c = elim (Option-cases (last? c.lru_list)) [
  | inl e ↦
      ap (λ d. length d.lru_list) (evict_lru-none c e)
      ∙ omega (arith, ap length (last?-none c.lru_list e))
  | inr (name, e) ↦
      ap (λ d. length d.lru_list) (evict_lru-some c name e)
      ∙ ap length (forget-lru_list name (shorter c)).0
      ∙ length-init c.lru_list
]

-- When the loop ends: there is room, or the list is empty.
abbrev pub HasRoom : Cache → Type 0
HasRoom c = (c.current_size < c.max_size) ⊎ (length c.lru_list ≡ 0)

pub evict_loop-room :
    (fuel : ℕ) (c : Cache) → length c.lru_list ≤ fuel → HasRoom (evict_loop fuel c)
unfolding evict_loop
evict_loop-room zero c h = inr (omega arith)
evict_loop-room (suc fuel) c h =
    ground (arith, evict_loop-room fuel (evict_lru c) (omega (arith, evict_lru-length c)))

pub evict_loop-Falls : (fuel : ℕ) (c : Cache) → IsCounted c → Falls c (evict_loop fuel c)
unfolding evict_loop
evict_loop-Falls zero c v = (v, (omega arith, refl))
evict_loop-Falls (suc fuel) c v =
    elim (Bool-cases (leb c.max_size c.current_size && ltb 0 (length c.lru_list))) [
      | inl e ↦
          let f = evict_lru-Falls c v in
          let r = evict_loop-Falls fuel (evict_lru c) f.0 in
          rw e ((r.0, (omega (arith, f.1.0, r.1.0), r.1.1 ∙ f.1.1)))
      | inr e ↦ rw e ((v, (omega arith, refl)))
    ]
