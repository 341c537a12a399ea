-- ===== src/Connection/Manager/Tracking.antt =====
-- The connection manager of src/connection/manager.js as a set of connections.
use js_libp2p_swarm.Prelude.{
  ℕ, ◌≡◌, refl, Bool, true, false, not, ◌&&◌, none, some, List, [], ◌∷◌, arith, ◌==◌, if◌then◌else◌,
  has, insert, delete, distinct, has-insert, has-delete, ◌∙◌, distinct-insert, distinct-delete,
  Bool-cases, Option-cases, inl, inr, ==→≡,
}
use js_libp2p_swarm.Connection.Manager.{
  Connections, ConnectionManager, Entries, at, change, drop, get_all, add, after_splice, remove,
  Call, adds, removes, step, run, init, notes, peer_disconnected, peer_mux_closed,
}
use js_libp2p_swarm.Connection.Manager.Entries.{
  all_of, is_empty, well_formed, has-append, has_of_all, lacks-has, lacks_of_at,
}
use js_libp2p_swarm.Connection.Manager.Contents.{
  lacks-change, lacks-drop, has-joined, well_formed-joined, add_lem,
}

all_of-delete :
    (t : ℕ → ℕ) (p c : ℕ) (l : List ℕ) → all_of t p l ≡ true → all_of t p (delete c l) ≡ true
all_of-delete t p c [] a = refl
all_of-delete t p c (x ∷ l) a = ground (arith, all_of-delete t p c l)

-- The connections when one is taken out of the list of its peer.
has-left :
    (t : ℕ → ℕ) (c x : ℕ) (es : Entries)
    → well_formed t es ≡ true
    → has x (get_all (change (delete c) (t c) es)) ≡ (not (c == x) && has x (get_all es))
unfolding change get_all
has-left t c x [] w = ground arith
has-left t c x ((q, l) ∷ es) w = elim (Bool-cases (q == t c)) [
  | inl y ↦ ground (
    arith,
    has-append x (delete c l) (get_all es),
    has-append x l (get_all es),
    has-delete x c l,
    lacks-has t c es,
    ==→≡ q (t c) y,
    ==→≡ c x,
  )
  | inr n ↦ ground (
    arith,
    has-left t c x es,
    has-append x l (get_all es),
    has-append x l (get_all (change (delete c) (t c) es)),
    has_of_all t q c l,
    ==→≡ c x,
  )
]

-- A list that becomes empty is dropped.
get_all-drop :
    (c p : ℕ) (es : Entries) (l : List ℕ)
    → at p es ≡ some l
    → delete c l ≡ []
    → get_all (drop p (change (delete c) p es)) ≡ get_all (change (delete c) p es)
unfolding at drop change get_all
get_all-drop c p [] l h e = ground arith
get_all-drop c p ((q, k) ∷ es) l h e = ground (arith, get_all-drop c p es l)

well_formed-dropped :
    (t : ℕ → ℕ) (c p : ℕ) (es : Entries)
    → well_formed t es ≡ true
    → well_formed t (drop p (change (delete c) p es)) ≡ true
unfolding drop change
well_formed-dropped t c p [] w = refl
well_formed-dropped t c p ((q, l) ∷ es) w = ground (
  arith,
  well_formed-dropped t c p es,
  lacks-change (delete c) p q es,
  lacks-drop p q (change (delete c) p es),
)

well_formed-changed :
    (t : ℕ → ℕ) (c p : ℕ) (es : Entries) (l : List ℕ)
    → well_formed t es ≡ true
    → at p es ≡ some l
    → is_empty (delete c l) ≡ false
    → well_formed t (change (delete c) p es) ≡ true
unfolding at change
well_formed-changed t c p [] l w h e = refl
well_formed-changed t c p ((q, k) ∷ es) l w h e = ground (
  arith,
  well_formed-changed t c p es l,
  lacks-change (delete c) p q es,
  all_of-delete t q c k,
  distinct-delete c k,
)

Tracks : (ℕ → ℕ) → List ℕ → Entries → Type 0
Tracks t set es = (well_formed t es ≡ true) × ((x : ℕ) → has x (get_all es) ≡ has x set)

add-Tracks :
    (s : Connections) (c : ℕ) (set : List ℕ) (m : ConnectionManager)
    → Tracks s.their_id set m.connections
    → Tracks s.their_id (insert c set) (add s c m).connections
unfolding Tracks
add-Tracks s c set m v = elim (Bool-cases (has c (get_all m.connections))) [
  | inl y ↦
      rw (add_lem s c m v.0, y) (v.0, λ x. ground (arith, v.1 x, has-insert x c set, ==→≡ c x))
  | inr n ↦
      rw (add_lem s c m v.0, n)
        (
          well_formed-joined s.their_id c m.connections v.0 n,
          λ x.
              ground
                (arith, has-joined c (s.their_id c) x m.connections, v.1 x, has-insert x c set),
        )
]

spliced-Tracks :
    (s : Connections) (c : ℕ) (set l k : List ℕ) (m : ConnectionManager)
    → distinct set ≡ true
    → Tracks s.their_id set m.connections
    → at (s.their_id c) m.connections ≡ some l
    → delete c l ≡ k
    → Tracks s.their_id
        (delete c set)
        (after_splice s c k
          (record m { connections = change (delete c) (s.their_id c) m.connections })).connections
unfolding Tracks after_splice
spliced-Tracks s c set l [] m d v h e = (
  well_formed-dropped s.their_id c (s.their_id c) m.connections v.0,
  λ x. ground (
    arith,
    get_all-drop c (s.their_id c) m.connections l h e,
    has-left s.their_id c x m.connections v.0,
    has-delete x c set d,
    v.1 x,
  ),
)
spliced-Tracks s c set l (y ∷ k) m d v h e = (
  well_formed-changed s.their_id c (s.their_id c) m.connections l v.0 h (ground arith),
  λ x. ground (arith, has-left s.their_id c x m.connections v.0, has-delete x c set d, v.1 x),
)

absent-Tracks :
    (s : Connections) (c : ℕ) (set : List ℕ) (es : Entries)
    → distinct set ≡ true
    → Tracks s.their_id set es
    → at (s.their_id c) es ≡ none
    → Tracks s.their_id (delete c set) es
unfolding Tracks
absent-Tracks s c set es d v e = (
  v.0,
  λ x. ground (
    arith,
    lacks_of_at (s.their_id c) es e,
    lacks-has s.their_id c es v.0,
    has-delete x c set d,
    v.1 x,
    ==→≡ c x,
  ),
)

remove-Tracks :
    (s : Connections) (c : ℕ) (set : List ℕ) (m : ConnectionManager)
    → distinct set ≡ true
    → Tracks s.their_id set m.connections
    → Tracks s.their_id (delete c set) (remove s c m).connections
unfolding Tracks remove
remove-Tracks s c set m d v = elim (Option-cases (at (s.their_id c) m.connections)) [
  | inl e ↦ rw (e, remove) (untracked (s.has_peer_info c) e)
  | inr (l, e) ↦ rw (e, remove) (spliced-Tracks s c set l (delete c l) m d v e refl)
]
  where
    untracked :
        (b : Bool)
        → at (s.their_id c) m.connections ≡ none
        → Tracks s.their_id
            (delete c set)
            (if b then notes (peer_disconnected c ∷ peer_mux_closed c ∷ []) m else m).connections
    untracked false e = absent-Tracks s c set m.connections d v e
    untracked true e = absent-Tracks s c set m.connections d v e

-- The calls on a set.
abbrev pub apply : Call → List ℕ → List ℕ
apply (adds c) set = insert c set
apply (removes c) set = delete c set

abbrev pub apply_all : List ((ℕ → Bool) × Call) → List ℕ → List ℕ
apply_all [] set = set
apply_all ((muxed, a) ∷ rest) set = apply_all rest (apply a set)

distinct-apply : (a : Call) (set : List ℕ) → distinct set ≡ true → distinct (apply a set) ≡ true
distinct-apply (adds c) set d = distinct-insert c set d
distinct-apply (removes c) set d = distinct-delete c set d

step-Tracks :
    (s : Connections) (a : Call) (set : List ℕ) (m : ConnectionManager)
    → distinct set ≡ true
    → Tracks s.their_id set m.connections
    → Tracks s.their_id (apply a set) (step s a m).connections
unfolding step
step-Tracks s (adds c) set m d v = add-Tracks s c set m v
step-Tracks s (removes c) set m d v = remove-Tracks s c set m d v

run-Tracks :
    (s : Connections) (calls : List ((ℕ → Bool) × Call)) (set : List ℕ) (m : ConnectionManager)
    → distinct set ≡ true
    → Tracks s.their_id set m.connections
    → Tracks s.their_id (apply_all calls set) (run s calls m).connections
unfolding run
run-Tracks s [] set m d v = v
run-Tracks s ((muxed, a) ∷ rest) set m d v =
    run-Tracks s rest (apply a set) _ (distinct-apply a set d)
      (step-Tracks (record s { is_muxed = muxed }) a set m d v)

-- The manager implements a set: after any history of `add` and `remove` it tracks just the
-- connections that were added and not removed since, each once, in the list of its peer, and no
-- peer has an empty list or two lists.
pub run-tracks :
    (s : Connections) (calls : List ((ℕ → Bool) × Call))
    → let es = (run s calls init).connections in
      (well_formed s.their_id es ≡ true)
      × ((x : ℕ) → has x (get_all es) ≡ has x (apply_all calls []))
unfolding Tracks
run-tracks s calls = run-Tracks s calls [] init refl (unfold init get_all in (refl, λ x. refl))

distinct-apply_all :
    (calls : List ((ℕ → Bool) × Call)) (set : List ℕ)
    → distinct set ≡ true
    → distinct (apply_all calls set) ≡ true
distinct-apply_all [] set d = d
distinct-apply_all ((muxed, a) ∷ rest) set d =
    distinct-apply_all rest (apply a set) (distinct-apply a set d)

run-init-Tracks :
    (s : Connections) (calls : List ((ℕ → Bool) × Call))
    → Tracks s.their_id (apply_all calls []) (run s calls init).connections
unfolding Tracks
run-init-Tracks s calls = run-Tracks s calls [] init refl (unfold init get_all in (refl, λ x. refl))

-- One more connection is tracked, and after its removal no more.
pub add-run :
    (s : Connections) (calls : List ((ℕ → Bool) × Call)) (c x : ℕ)
    → has x (get_all (add s c (run s calls init)).connections)
      ≡ has x (insert c (apply_all calls []))
unfolding Tracks
add-run s calls c x =
    (add-Tracks s c (apply_all calls []) (run s calls init) (run-init-Tracks s calls)).1 x

pub remove-add-run :
    (s : Connections) (calls : List ((ℕ → Bool) × Call)) (c x : ℕ)
    → has x (get_all (remove s c (add s c (run s calls init))).connections)
      ≡ has x (delete c (apply_all calls []))
unfolding Tracks
remove-add-run s calls c x =
    let set = apply_all calls [] in
    let d = distinct-insert c set (distinct-apply_all calls [] refl) in
    (remove-Tracks s c (insert c set) (add s c (run s calls init)) d
        (add-Tracks s c set (run s calls init) (run-init-Tracks s calls))).1
      x
    ∙ ground (
      arith,
      has-delete x c (insert c set) d,
      has-insert x c set,
      has-delete x c set (distinct-apply_all calls [] refl),
    )
