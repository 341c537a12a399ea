-- ===== src/Connection/Manager/Contents.antt =====
-- What `add` and `remove` of src/connection/manager.js do to the connections that are tracked.
use js_libp2p_swarm.Prelude.{
  ℕ, ◌≡◌, refl, true, false, not, ◌&&◌, ◌||◌, none, some, List, [], ◌∷◌, ◌++◌, arith, ◌==◌,
  if◌then◌else◌, has, distinct, Bool-cases, Option-cases, inl, inr,
}
use js_libp2p_swarm.Connection.Manager.{
  Connections, ConnectionManager, Entries, at, ensure, change, drop, get, get_all, get_all_by_id,
  push, add_unless, add, announce,
}
use js_libp2p_swarm.Connection.Manager.Entries.{
  lacks, all_of, is_empty, well_formed, has-append, find_same_lem, lacks-has, lacks_of_at, has-at,
}

abbrev snoc : ℕ → List ℕ → List ℕ
snoc c l = l ++ c ∷ []

lacks-ensure : (p q : ℕ) (es : Entries) → lacks q (ensure p es) ≡ (not (p == q) && lacks q es)
unfolding ensure
lacks-ensure p q [] = ground arith
lacks-ensure p q ((r, l) ∷ es) = ground (arith, lacks-ensure p q es)

pub lacks-change :
    (f : List ℕ → List ℕ) (p q : ℕ) (es : Entries) → lacks q (change f p es) ≡ lacks q es
unfolding change
lacks-change f p q [] = refl
lacks-change f p q ((r, l) ∷ es) = ground (arith, lacks-change f p q es)

pub lacks-drop : (p q : ℕ) (es : Entries) → lacks q es ≡ true → lacks q (drop p es) ≡ true
unfolding drop
lacks-drop p q [] h = refl
lacks-drop p q ((r, l) ∷ es) h = ground (arith, lacks-drop p q es)

at-ensure : (p : ℕ) (es : Entries) → at p (ensure p es) ≡ some (get_all_by_id p es)
unfolding at ensure get_all_by_id
at-ensure p [] = ground arith
at-ensure p ((q, l) ∷ es) = ground (arith, at-ensure p es)

ensure_of_at : (p : ℕ) (es : Entries) (l : List ℕ) → at p es ≡ some l → ensure p es ≡ es
unfolding at ensure
ensure_of_at p [] l h = ground arith
ensure_of_at p ((q, k) ∷ es) l h = ground (arith, ensure_of_at p es l)

-- The connections when one is pushed to the list of its peer.
pub has-joined :
    (c p x : ℕ) (es : Entries)
    → has x (get_all (change (snoc c) p (ensure p es))) ≡ ((c == x) || has x (get_all es))
unfolding change ensure get_all
has-joined c p x [] = ground arith
has-joined c p x ((q, l) ∷ es) = ground (
  arith,
  has-joined c p x es,
  has-append x (l ++ c ∷ []) (get_all es),
  has-append x l (c ∷ []),
  has-append x l (get_all es),
  has-append x l (get_all (change (snoc c) p (ensure p es))),
)

all_of-snoc :
    (t : ℕ → ℕ) (p c : ℕ) (l : List ℕ)
    → all_of t p l ≡ true
    → t c ≡ p
    → all_of t p (l ++ c ∷ []) ≡ true
all_of-snoc t p c [] a h = ground arith
all_of-snoc t p c (x ∷ l) a h = ground (arith, all_of-snoc t p c l)

distinct-snoc :
    (c : ℕ) (l : List ℕ) → distinct l ≡ true → has c l ≡ false → distinct (l ++ c ∷ []) ≡ true
distinct-snoc c [] d h = refl
distinct-snoc c (x ∷ l) d h = ground (arith, distinct-snoc c l, has-append x l (c ∷ []))

is_empty-snoc : (c : ℕ) (l : List ℕ) → is_empty (l ++ c ∷ []) ≡ false
is_empty-snoc c [] = refl
is_empty-snoc c (x ∷ l) = refl

pub well_formed-joined :
    (t : ℕ → ℕ) (c : ℕ) (es : Entries)
    → well_formed t es ≡ true
    → has c (get_all es) ≡ false
    → well_formed t (change (snoc c) (t c) (ensure (t c) es)) ≡ true
unfolding change ensure get_all
well_formed-joined t c [] w h = ground arith
well_formed-joined t c ((q, l) ∷ es) w h = elim (Bool-cases (q == t c)) [
  | inl y ↦ ground (
    arith,
    has-append c l (get_all es),
    all_of-snoc t q c l,
    distinct-snoc c l,
    is_empty-snoc c l,
  )
  | inr n ↦ ground (
    arith,
    well_formed-joined t c es,
    has-append c l (get_all es),
    lacks-ensure (t c) q es,
    lacks-change (snoc c) (t c) q (ensure (t c) es),
  )
]

-- Whether `get` finds a connection, before or after its peer has a list.
get-ensure :
    (s : Connections) (c : ℕ) (es : Entries)
    → well_formed s.their_id es ≡ true
    → get s c (ensure (s.their_id c) es) ≡ (if has c (get_all es) then some c else none)
unfolding get get_all_by_id
get-ensure s c es w = elim (Option-cases (at (s.their_id c) es)) [
  | inl e ↦ ground (
    arith,
    at-ensure (s.their_id c) es,
    lacks_of_at (s.their_id c) es e,
    lacks-has s.their_id c es w,
    find_same_lem c [],
  )
  | inr (l, e) ↦
      ground (arith, at-ensure (s.their_id c) es, has-at s.their_id c es l w e, find_same_lem c l)
]

ensure_of_has :
    (t : ℕ → ℕ) (c : ℕ) (es : Entries)
    → well_formed t es ≡ true
    → has c (get_all es) ≡ true
    → ensure (t c) es ≡ es
ensure_of_has t c es w h = elim (Option-cases (at (t c) es)) [
  | inl e ↦ ground (arith, lacks_of_at (t c) es e, lacks-has t c es w)
  | inr (l, e) ↦ ensure_of_at (t c) es l e
]

-- In well-formed lists `add` of a connection that is tracked already changes nothing, and any
-- other is put at the end of the list of its peer and announced.
pub add_lem :
    (s : Connections) (c : ℕ) (m : ConnectionManager)
    → well_formed s.their_id m.connections ≡ true
    → add s c m ≡ (
        if has c (get_all m.connections) then m else record {
          connections = change (snoc c) (s.their_id c) (ensure (s.their_id c) m.connections);
          log = m.log ++ announce s c;
        })
unfolding add add_unless push
add_lem s c m w = elim (Bool-cases (has c (get_all m.connections))) [
  | inl y ↦
      ground (arith, get-ensure s c m.connections w, ensure_of_has s.their_id c m.connections w)
  | inr n ↦ ground (arith, get-ensure s c m.connections w)
]
