-- ===== src/Dialer/Manager/Waiting/Places.antt =====
-- Where a write to the heap or to the pending dials of src/dialer/queueManager.js is seen: what
-- stands at a place afterwards stood there before, or was written.
use js_libp2p_swarm.Prelude.{
  ℕ, zero, suc, ◌≤◌, ◌<◌, ◌≡◌, refl, ap, ◌⊎◌, inl, inr, none, some, List, [], ◌∷◌, ◌++◌, arith,
  length, get_elem?, ◌≢◌,
}
use js_libp2p_swarm.Dialer.Queue.{Queue}
use js_libp2p_swarm.Dialer.Manager.{Cell, Pending, write, unlist}
use js_libp2p_swarm.Dialer.Manager.Listeners.{set_pending}

module _ {ℓ} {A : Type ℓ} where
  pub get_elem?-lt : (xs : List A) (k : ℕ) (x : A) → get_elem? xs k ≡ some x → k < length xs
  get_elem?-lt [] k x h = absurd (ground arith)
  get_elem?-lt (y ∷ ys) zero x h = omega arith
  get_elem?-lt (y ∷ ys) (suc k) x h = omega (arith, get_elem?-lt ys k x h)

  pub get_elem?-le : (xs : List A) (k : ℕ) → get_elem? xs k ≡ none → length xs ≤ k
  get_elem?-le [] k h = omega arith
  get_elem?-le (y ∷ ys) zero h = absurd (ground arith)
  get_elem?-le (y ∷ ys) (suc k) h = omega (arith, get_elem?-le ys k h)

  pub get_elem?-append_left :
      (xs ys : List A) (k : ℕ) (x : A) → get_elem? xs k ≡ some x → get_elem? (xs ++ ys) k ≡ some x
  get_elem?-append_left [] ys k x h = absurd (ground arith)
  get_elem?-append_left (y ∷ xs) ys zero x h = h
  get_elem?-append_left (y ∷ xs) ys (suc k) x h = get_elem?-append_left xs ys k x h

  pub get_elem?-append_last : (xs : List A) (x : A) → get_elem? (xs ++ x ∷ []) (length xs) ≡ some x
  get_elem?-append_last [] x = refl
  get_elem?-append_last (y ∷ xs) x = get_elem?-append_last xs x

  pub get_elem?-snoc :
      (xs : List A) (y : A) (k : ℕ) (x : A)
      → get_elem? (xs ++ y ∷ []) k ≡ some x
      → (get_elem? xs k ≡ some x) ⊎ (y ≡ x)
  get_elem?-snoc [] y zero x h = inr (ground arith)
  get_elem?-snoc [] y (suc k) x h = absurd (ground arith)
  get_elem?-snoc (z ∷ xs) y zero x h = inl h
  get_elem?-snoc (z ∷ xs) y (suc k) x h = get_elem?-snoc xs y k x h

pub length-write : (ref : ℕ) (q : Queue) (cs : List Cell) → length (write ref q cs) ≡ length cs
length-write ref q [] = refl
length-write zero q (c ∷ cs) = refl
length-write (suc ref) q (c ∷ cs) = ap suc (length-write ref q cs)

pub length-unlist : (ref : ℕ) (cs : List Cell) → length (unlist ref cs) ≡ length cs
length-unlist ref [] = refl
length-unlist zero (c ∷ cs) = refl
length-unlist (suc ref) (c ∷ cs) = ap suc (length-unlist ref cs)

-- What a write to one place shows at another.
pub get_elem?-write :
    (ref : ℕ) (q : Queue) (cs : List Cell) (k : ℕ) (c : Cell)
    → get_elem? (write ref q cs) k ≡ some c
    → ((k ≡ ref) × (q ≡ c.object)) ⊎ ((k ≢ ref) × (get_elem? cs k ≡ some c))
get_elem?-write ref q [] k c h = absurd (ground arith)
get_elem?-write zero q (d ∷ cs) zero c h = inl (refl, ground arith)
get_elem?-write zero q (d ∷ cs) (suc k) c h = inr (ground arith, h)
get_elem?-write (suc ref) q (d ∷ cs) zero c h = inr (ground arith, h)
get_elem?-write (suc ref) q (d ∷ cs) (suc k) c h = elim (get_elem?-write ref q cs k c h) [
  | inl (here, same) ↦ inl (ap suc here, same)
  | inr (there, old) ↦ inr (ground arith, old)
]

-- Dropping an object from `_queues` leaves the object.
pub get_elem?-unlist :
    (ref : ℕ) (cs : List Cell) (k : ℕ) (c : Cell)
    → get_elem? (unlist ref cs) k ≡ some c
    → (d : Cell) × (get_elem? cs k ≡ some d) × (d.object ≡ c.object)
get_elem?-unlist ref [] k c h = absurd (ground arith)
get_elem?-unlist zero (d ∷ cs) zero c h = (d, refl, ground arith)
get_elem?-unlist zero (d ∷ cs) (suc k) c h = (c, h, refl)
get_elem?-unlist (suc ref) (d ∷ cs) zero c h = (c, h, refl)
get_elem?-unlist (suc ref) (d ∷ cs) (suc k) c h = get_elem?-unlist ref cs k c h

pub get_elem?-set_pending :
    (k : ℕ) (p : Pending) (ps : List Pending) (j : ℕ) (r : Pending)
    → get_elem? (set_pending k p ps) j ≡ some r
    → (p ≡ r) ⊎ (get_elem? ps j ≡ some r)
unfolding set_pending
get_elem?-set_pending k p [] j r h = inr h
get_elem?-set_pending zero p (q ∷ ps) zero r h = inl (ground arith)
get_elem?-set_pending zero p (q ∷ ps) (suc j) r h = inr h
get_elem?-set_pending (suc k) p (q ∷ ps) zero r h = inr h
get_elem?-set_pending (suc k) p (q ∷ ps) (suc j) r h = get_elem?-set_pending k p ps j r h

pub get_elem?-set_pending_self :
    (k : ℕ) (p : Pending) (ps : List Pending) (r : Pending)
    → get_elem? ps k ≡ some r
    → get_elem? (set_pending k p ps) k ≡ some p
unfolding set_pending
get_elem?-set_pending_self k p [] r h = absurd (ground arith)
get_elem?-set_pending_self zero p (q ∷ ps) r h = refl
get_elem?-set_pending_self (suc k) p (q ∷ ps) r h = get_elem?-set_pending_self k p ps r h

pub get_elem?-set_pending_ne :
    (k : ℕ) (p : Pending) (ps : List Pending) (j : ℕ)
    → k ≢ j
    → get_elem? (set_pending k p ps) j ≡ get_elem? ps j
unfolding set_pending
get_elem?-set_pending_ne k p [] j n = refl
get_elem?-set_pending_ne zero p (q ∷ ps) zero n = absurd (n refl)
get_elem?-set_pending_ne zero p (q ∷ ps) (suc j) n = refl
get_elem?-set_pending_ne (suc k) p (q ∷ ps) zero n = refl
get_elem?-set_pending_ne (suc k) p (q ∷ ps) (suc j) n =
    get_elem?-set_pending_ne k p ps j (λ e. n (ap suc e))

pub set_pending_twice :
    (k : ℕ) (p q : Pending) (ps : List Pending)
    → set_pending k p (set_pending k q ps) ≡ set_pending k p ps
unfolding set_pending
set_pending_twice k p q [] = refl
set_pending_twice zero p q (r ∷ ps) = refl
set_pending_twice (suc k) p q (r ∷ ps) = ap (◌∷◌ r) (set_pending_twice k p q ps)

pub length-set_pending :
    (k : ℕ) (p : Pending) (ps : List Pending) → length (set_pending k p ps) ≡ length ps
unfolding set_pending
length-set_pending k p [] = refl
length-set_pending zero p (q ∷ ps) = refl
length-set_pending (suc k) p (q ∷ ps) = ap suc (length-set_pending k p ps)
