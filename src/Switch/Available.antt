-- ===== src/Switch/Available.antt =====
-- src/index.js: `availableTransports` and `hasTransports`. The keys of transports are numbers in the
-- order of the texts; a transport is seen by its `filter`. JavaScript's `sort` is an insertion sort
-- by the source's comparison.
use js_libp2p_swarm.Prelude.{
  ℕ, ◌≡◌, refl, Bool, true, false, not, ◌&&◌, ◌||◌, List, [], ◌∷◌, arith, ltb, ◌==◌, if◌then◌else◌,
  length, has, distinct, keys,
}

-- The addresses that a transport can use.
abbrev pub Transport : Type 0
Transport = List ℕ → List ℕ

-- The comparison of `sort`: whether `a` comes first.
abbrev pub precedes : ℕ → ℕ → ℕ → Bool
precedes circuit a b = if a == circuit then false else if b == circuit then true else ltb a b

insert_sorted : ℕ → ℕ → List ℕ → List ℕ
insert_sorted circuit x [] = x ∷ []
insert_sorted circuit x (y ∷ ys) =
    if precedes circuit x y then x ∷ y ∷ ys else y ∷ insert_sorted circuit x ys

sort : ℕ → List ℕ → List ℕ
unfolding insert_sorted
sort circuit [] = []
sort circuit (x ∷ xs) = insert_sorted circuit x (sort circuit xs)

-- The keys of the transports that have an address for the peer.
usable : List ℕ → List (ℕ × Transport) → List ℕ
usable addrs [] = []
usable addrs ((key, filter) ∷ rest) =
    if length (filter addrs) == 0 then usable addrs rest else key ∷ usable addrs rest

pub available_transports : ℕ → List (ℕ × Transport) → List ℕ → List ℕ
unfolding sort usable
available_transports circuit transports addrs = sort circuit (usable addrs transports)

unfoldable has_transports : ℕ → List (ℕ × Transport) → Bool
has_transports circuit [] = false
has_transports circuit ((key, filter) ∷ rest) = not (key == circuit) || has_transports circuit rest

-- The keys ascend, but the circuit's, which is the last.
abbrev pub is_ordered : ℕ → List ℕ → Bool
is_ordered circuit [] = true
is_ordered circuit (x ∷ []) = true
is_ordered circuit (x ∷ y ∷ l) =
    not (x == circuit) && (((y == circuit) || ltb x y) && is_ordered circuit (y ∷ l))

-- Whether the transport with this key has an address.
abbrev pub serves : List ℕ → ℕ → List (ℕ × Transport) → Bool
serves addrs k [] = false
serves addrs k ((key, filter) ∷ rest) =
    ((key == k) && not (length (filter addrs) == 0)) || serves addrs k rest

has-insert_sorted : (c k x : ℕ) (l : List ℕ) → has k (insert_sorted c x l) ≡ ((x == k) || has k l)
unfolding insert_sorted
has-insert_sorted c k x [] = refl
has-insert_sorted c k x (y ∷ l) = ground (arith, has-insert_sorted c k x l)

has-sort : (c k : ℕ) (l : List ℕ) → has k (sort c l) ≡ has k l
unfolding sort
has-sort c k [] = refl
has-sort c k (x ∷ l) = ground (arith, has-insert_sorted c k x (sort c l), has-sort c k l)

is_ordered-insert_sorted :
    (c x : ℕ) (l : List ℕ)
    → is_ordered c l ≡ true
    → has x l ≡ false
    → is_ordered c (insert_sorted c x l) ≡ true
unfolding insert_sorted
is_ordered-insert_sorted c x [] o h = refl
is_ordered-insert_sorted c x (y ∷ []) o h = ground arith
is_ordered-insert_sorted c x (y ∷ z ∷ l) o h = ground (arith, is_ordered-insert_sorted c x (z ∷ l))

is_ordered-sort : (c : ℕ) (l : List ℕ) → distinct l ≡ true → is_ordered c (sort c l) ≡ true
unfolding sort
is_ordered-sort c [] d = refl
is_ordered-sort c (x ∷ l) d =
    ground (arith, is_ordered-sort c l, is_ordered-insert_sorted c x (sort c l), has-sort c x l)

has-usable :
    (addrs : List ℕ) (k : ℕ) (ts : List (ℕ × Transport))
    → has k (usable addrs ts) ≡ serves addrs k ts
unfolding usable
has-usable addrs k [] = refl
has-usable addrs k ((key, filter) ∷ rest) = ground (arith, has-usable addrs k rest)

has-usable_mono :
    (addrs : List ℕ) (k : ℕ) (ts : List (ℕ × Transport))
    → has k (usable addrs ts) ≡ true
    → has k (keys ts) ≡ true
unfolding usable
has-usable_mono addrs k [] h = h
has-usable_mono addrs k ((key, filter) ∷ rest) h = ground (arith, has-usable_mono addrs k rest)

distinct-usable :
    (addrs : List ℕ) (ts : List (ℕ × Transport))
    → distinct (keys ts) ≡ true
    → distinct (usable addrs ts) ≡ true
unfolding usable
distinct-usable addrs [] d = refl
distinct-usable addrs ((key, filter) ∷ rest) d =
    ground (arith, distinct-usable addrs rest, has-usable_mono addrs key rest)

-- `availableTransports` gives just the transports that have an address for the peer, each once, in
-- ascending order, and the circuit last.
pub available_transports_lem :
    (circuit : ℕ) (ts : List (ℕ × Transport)) (addrs : List ℕ)
    → distinct (keys ts) ≡ true
    → (is_ordered circuit (available_transports circuit ts addrs) ≡ true)
      × ((k : ℕ) → has k (available_transports circuit ts addrs) ≡ serves addrs k ts)
unfolding available_transports
available_transports_lem circuit ts addrs d = (
  is_ordered-sort circuit (usable addrs ts) (distinct-usable addrs ts d),
  λ k. ground (arith, has-sort circuit k (usable addrs ts), has-usable addrs k ts),
)
