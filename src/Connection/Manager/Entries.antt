-- ===== src/Connection/Manager/Entries.antt =====
-- The lists by peer of src/connection/manager.js: what the helpers do to the connections in them,
-- and what makes them well formed.
use js_libp2p_swarm.Prelude.{
  ℕ, ◌≡◌, refl, Bool, true, false, not, ◌&&◌, ◌||◌, none, some, List, [], ◌∷◌, ◌++◌, arith, ◌==◌,
  if◌then◌else◌, has, distinct, Bool-cases, inl, inr,
}
use js_libp2p_swarm.Connection.Manager.{Entries, at, get_all, find_same}

-- No list for the id.
abbrev pub lacks : ℕ → Entries → Bool
lacks p [] = true
lacks p ((q, l) ∷ es) = not (q == p) && lacks p es

-- Every connection of the list belongs to the peer.
abbrev pub all_of : (ℕ → ℕ) → ℕ → List ℕ → Bool
all_of their_id p [] = true
all_of their_id p (x ∷ xs) = (their_id x == p) && all_of their_id p xs

abbrev pub is_empty : List ℕ → Bool
is_empty [] = true
is_empty (x ∷ xs) = false

-- One list for each peer that has a connection, with its connections, each once.
abbrev pub well_formed : (ℕ → ℕ) → Entries → Bool
well_formed their_id [] = true
well_formed their_id ((p, l) ∷ es) =
    lacks p es
    && (all_of their_id p l && (not (is_empty l) && (distinct l && well_formed their_id es)))

pub has-append : (x : ℕ) (l k : List ℕ) → has x (l ++ k) ≡ (has x l || has x k)
has-append x [] k = refl
has-append x (y ∷ l) k = ground (arith, has-append x l k)

pub find_same_lem : (c : ℕ) (l : List ℕ) → find_same c l ≡ (if has c l then some c else none)
unfolding find_same
find_same_lem c [] = refl
find_same_lem c (x ∷ l) = ground (arith, find_same_lem c l)

pub has_of_all : (t : ℕ → ℕ) (p x : ℕ) (l : List ℕ) → all_of t p l ≡ true → has x l ≡ true → t x ≡ p
has_of_all t p x [] a h = ground arith
has_of_all t p x (y ∷ l) a h = ground (arith, has_of_all t p x l)

-- A connection of a peer that has no list is tracked nowhere.
pub lacks-has :
    (t : ℕ → ℕ) (x : ℕ) (es : Entries)
    → well_formed t es ≡ true
    → lacks (t x) es ≡ true
    → has x (get_all es) ≡ false
unfolding get_all
lacks-has t x [] w n = refl
lacks-has t x ((p, l) ∷ es) w n =
    ground (arith, lacks-has t x es, has-append x l (get_all es), has_of_all t p x l)

pub lacks_of_at : (p : ℕ) (es : Entries) → at p es ≡ none → lacks p es ≡ true
unfolding at
lacks_of_at p [] h = refl
lacks_of_at p ((q, l) ∷ es) h = ground (arith, lacks_of_at p es)

-- What is tracked is found in the list of its peer.
pub has-at :
    (t : ℕ → ℕ) (x : ℕ) (es : Entries) (l : List ℕ)
    → well_formed t es ≡ true
    → at (t x) es ≡ some l
    → has x (get_all es) ≡ has x l
unfolding at get_all
has-at t x [] l w h = ground arith
has-at t x ((p, k) ∷ es) l w h = elim (Bool-cases (p == t x)) [
  | inl y ↦ ground (arith, lacks-has t x es, has-append x k (get_all es))
  | inr n ↦ ground (arith, has-at t x es l, has-append x k (get_all es), has_of_all t p x k)
]
