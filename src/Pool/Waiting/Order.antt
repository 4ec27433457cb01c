-- ===== src/Pool/Waiting/Order.antt =====
-- The order in which the clients that wait in internal/pool/pool.go are served.
use geryon.Base.{
  ℕ, zero, suc, ◌+◌, ◌-◌, ◌≤◌, ◌≡◌, refl, sym, ap, ◌∙◌, Bool, true, false, Option, none, some, List,
  [], ◌∷◌, ◌++◌, arith, Option-cases, inl, inr, ◌==◌, if◌then◌else◌, ℕ_discrete, ite, length,
  get_elem?, set, drop,
}
use geryon.Base.Map.{put}
use geryon.Pool.Waiting.{WaitQueue, compact, join, position, leave, holes, serve, signal}

-- The waiters that are still there.
abbrev pub live : List (Option ℕ) → List ℕ
live [] = []
live (none ∷ ws) = live ws
live (some w ∷ ws) = w ∷ live ws

-- The queue as its clients see it: first come, first served.
abbrev pub queued : WaitQueue → List ℕ
queued q = live (drop q.head q.waiters)

-- The first place of a number in a list is left.
abbrev pub without : ℕ → List ℕ → List ℕ
without w [] = []
without w (v ∷ vs) = let rest = without w vs in ite (ℕ_discrete v w) vs (v ∷ rest)

-- The head is inside the slice or at its end.
abbrev pub IsInside : WaitQueue → Type 0
IsInside q = q.head ≤ length q.waiters

live-append : (ws : List (Option ℕ)) (w : ℕ) → live (ws ++ some w ∷ []) ≡ live ws ++ w ∷ []
live-append [] w = refl
live-append (none ∷ ws) w = live-append ws w
live-append (some v ∷ ws) w = ap (λ l. v ∷ l) (live-append ws w)

compact-queued : (q : WaitQueue) → queued (compact q) ≡ queued q
unfolding compact
compact-queued q = ground arith

length-drop {ℓ} : {A : Type ℓ} (n : ℕ) (l : List A) → length (drop n l) ≡ length l - n
length-drop zero l = omega arith
length-drop (suc n) [] = omega arith
length-drop (suc n) (x ∷ l) = omega (arith, length-drop n l)

compact-IsInside : (q : WaitQueue) → IsInside q → IsInside (compact q)
unfolding compact
compact-IsInside q h = ground arith

plus_zero : (i : ℕ) → 0 + i ≡ i
plus_zero i = omega arith

plus_suc : (n i : ℕ) → suc n + i ≡ suc (n + i)
plus_suc n i = omega arith

module _ {ℓ} {A : Type ℓ} where
  drop-set : (n i : ℕ) (l : List A) (x : A) → drop n (set l (n + i) x) ≡ set (drop n l) i x
  drop-set zero i l x = rw (plus_zero i)
  drop-set (suc n) i [] x = refl
  drop-set (suc n) i (y ∷ l) x = rw (plus_suc n i) (drop-set n i l x)

  drop-drop : (n i : ℕ) (l : List A) → drop (n + i) l ≡ drop i (drop n l)
  drop-drop zero i l = rw (plus_zero i)
  drop-drop (suc n) zero [] = rw (plus_suc n 0)
  drop-drop (suc n) (suc i) [] = rw (plus_suc n (suc i))
  drop-drop (suc n) i (y ∷ l) = rw (plus_suc n i) (drop-drop n i l)

  get_elem?-drop : (n i : ℕ) (l : List A) → get_elem? l (n + i) ≡ get_elem? (drop n l) i
  get_elem?-drop zero i l = rw (plus_zero i)
  get_elem?-drop (suc n) i [] = refl
  get_elem?-drop (suc n) i (y ∷ l) = rw (plus_suc n i) (get_elem?-drop n i l)

  -- What is written before the head is not seen behind it.
  drop-set_before : (l : List A) (i : ℕ) (x : A) → drop (suc i) (set l i x) ≡ drop (suc i) l
  drop-set_before [] i x = refl
  drop-set_before (y ∷ l) zero x = refl
  drop-set_before (y ∷ l) (suc i) x = drop-set_before l i x

-- A client that joins stands last, unless the queue is full.
join-queued :
    (w : ℕ) (q : WaitQueue)
    → queued (join w q).0 ≡ (if (join w q).1 then queued q ++ w ∷ [] else queued q)
unfolding join
join-queued w q = ground (arith, live-append (drop q.head q.waiters) w)

-- The first waiter behind the holes.
first-hole :
    (r : List (Option ℕ))
    → live r ≡ []
    → (get_elem? r (holes r) ≡ none) × (live (drop (holes r) r) ≡ [])
unfolding holes
first-hole [] e = (refl, refl)
first-hole (none ∷ r) e = first-hole r e
first-hole (some w ∷ r) e = absurd (ground arith)

first-waiter :
    (r : List (Option ℕ)) (w : ℕ) (ws : List ℕ)
    → live r ≡ w ∷ ws
    → (get_elem? r (holes r) ≡ some (some w)) × (live (drop (suc (holes r)) r) ≡ ws)
unfolding holes
first-waiter [] w ws e = absurd (ground arith)
first-waiter (none ∷ r) w ws e = first-waiter r w ws e
first-waiter (some v ∷ r) w ws e = ground arith

-- What `Signal` does, with clients and without.
abbrev pub Signalled : ℕ → WaitQueue → WaitQueue × Bool → List ℕ → Type 0
Signalled conn q (r, b) [] = (b ≡ false) × ((queued r ≡ []) × (r.delivered ≡ q.delivered))
Signalled conn q (r, b) (w ∷ ws) =
    (b ≡ true) × ((queued r ≡ ws) × (r.delivered ≡ put ℕ_discrete w conn q.delivered))

abbrev behind : WaitQueue → WaitQueue
behind q = record q { head = q.head + holes (drop q.head q.waiters) }

found-waiter :
    (q : WaitQueue) (w : ℕ) (ws : List ℕ)
    → queued q ≡ w ∷ ws
    → get_elem? q.waiters (behind q).head ≡ some (some w)
found-waiter q w ws e =
    get_elem?-drop q.head (holes (drop q.head q.waiters)) q.waiters
    ∙ (first-waiter (drop q.head q.waiters) w ws e).0

served-rest :
    (q : WaitQueue) (w : ℕ) (ws : List ℕ)
    → queued q ≡ w ∷ ws
    → live (drop (suc (behind q).head) (set q.waiters (behind q).head none)) ≡ ws
served-rest q w ws e =
    let r = drop q.head q.waiters in
    let next : suc (q.head + holes r) ≡ q.head + suc (holes r) = omega arith in
    ap live (drop-set_before q.waiters (behind q).head none)
    ∙ ap (λ k. live (drop k q.waiters)) next
    ∙ ap live (drop-drop q.head (suc (holes r)) q.waiters)
    ∙ (first-waiter r w ws e).1

compact-delivered : (q : WaitQueue) → (compact q).delivered ≡ q.delivered
unfolding compact
compact-delivered q = ground arith

serve-Signalled :
    (conn w : ℕ) (ws : List ℕ) (q : WaitQueue)
    → live (drop (suc q.head) (set q.waiters q.head none)) ≡ ws
    → Signalled conn q (serve conn q (some (some w))) (w ∷ ws)
unfolding serve
serve-Signalled conn w ws q e =
    let c : WaitQueue = record q { waiters = set q.waiters q.head none; head = suc q.head } in
    (refl, (compact-queued c ∙ e, ap (put ℕ_discrete w conn) (compact-delivered c)))

signal-Signalled :
    (conn : ℕ) (q : WaitQueue) (l : List ℕ) → queued q ≡ l → Signalled conn q (signal conn q) l
unfolding signal serve
signal-Signalled conn q [] e =
    let r = drop q.head q.waiters in
    let h = first-hole r e in
    rw (get_elem?-drop q.head (holes r) q.waiters ∙ h.0)
      ((refl, (ap live (drop-drop q.head (holes r) q.waiters) ∙ h.1, refl)))
signal-Signalled conn q (w ∷ ws) e =
    rw (found-waiter q w ws e) (serve-Signalled conn w ws (behind q) (served-rest q w ws e))

-- `Signal` serves the client that came first: it gets the connection and leaves the queue, and the
-- others stay in order. With no client nothing is handed over.
pub signal-first : (conn : ℕ) (q : WaitQueue) → Signalled conn q (signal conn q) (queued q)
signal-first conn q = signal-Signalled conn q (queued q) refl

position-none : (w : ℕ) (r : List (Option ℕ)) → position w r ≡ none → without w (live r) ≡ live r
unfolding position
position-none w [] e = refl
position-none w (none ∷ r) e = position-none w r (ground arith)
position-none w (some v ∷ r) e = ground (arith, position-none w r)

position-some :
    (w : ℕ) (r : List (Option ℕ)) (i : ℕ)
    → position w r ≡ some i
    → live (set r i none) ≡ without w (live r)
unfolding position
position-some w [] i e = absurd (ground arith)
position-some w (none ∷ r) zero e = absurd (ground arith)
position-some w (none ∷ r) (suc i) e = position-some w r i (ground arith)
position-some w (some v ∷ r) zero e = ground arith
position-some w (some v ∷ r) (suc i) e = ground (arith, position-some w r i)

live-set_zero : (r : List (Option ℕ)) → live (drop 1 r) ≡ live (set r 0 none)
live-set_zero [] = refl
live-set_zero (x ∷ r) = refl

left :
    (w : ℕ) (q : WaitQueue) (i : ℕ)
    → position w (drop q.head q.waiters) ≡ some i
    → live (drop (if i == 0 then suc q.head else q.head) (set q.waiters (q.head + i) none))
      ≡ without w (queued q)
left w q zero e =
    let r = drop q.head q.waiters in
    let here : q.head + 0 ≡ q.head = omega arith in
    let next : suc q.head ≡ q.head + 1 = omega arith in
    rw here (
      ap live (drop-set_before q.waiters q.head none)
      ∙ ap (λ k. live (drop k q.waiters)) next
      ∙ ap live (drop-drop q.head 1 q.waiters)
      ∙ live-set_zero r
      ∙ position-some w r 0 e)
left w q (suc i) e =
    let stays : (if suc i == 0 then suc q.head else q.head) ≡ q.head = ground arith in
    ap (λ k. live (drop k (set q.waiters (q.head + suc i) none))) stays
    ∙ ap live (drop-set q.head (suc i) q.waiters none)
    ∙ position-some w (drop q.head q.waiters) (suc i) e

-- A client that leaves, served or not, is out of the queue, and the others stay in order.
pub leave-queued : (w : ℕ) (q : WaitQueue) → queued (leave w q) ≡ without w (queued q)
unfolding leave
leave-queued w q = elim (Option-cases (position w (drop q.head q.waiters))) [
  | inl e ↦ rw e (compact-queued q ∙ sym (position-none w (drop q.head q.waiters) e))
  | inr (i, e) ↦ rw e (
      compact-queued (record q {
        waiters = set q.waiters (q.head + i) none;
        head = if i == 0 then suc q.head else q.head;
      })
      ∙ left w q i e)
]
