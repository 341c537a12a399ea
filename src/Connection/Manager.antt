-- ===== src/Connection/Manager.antt =====
-- src/connection/manager.js: the connections that the switch tracks, by the id of their peer.
-- Connection objects are numbers, which `===` compares; a connection keeps its peer's id.
pub mod Entries
pub mod Contents
pub mod Tracking
pub mod Lookups
pub mod Examples
use js_libp2p_swarm.Prelude.{
  ℕ, Bool, true, false, Option, none, some, List, [], ◌∷◌, ◌++◌, ◌==◌, if◌then◌else◌, has, delete,
}

-- What the manager reads from a connection object, and from its state at the moment.
pub record Connections : Type 0 where
  pub their_id : ℕ → ℕ
  pub has_peer_info : ℕ → Bool
  pub is_muxed : ℕ → Bool

-- What the manager does to the rest of the program.
pub data Event : Type 0 where
  -- `connection:start`, `peer-mux-established`, `peer-mux-closed`, `connection:end`
  connection_start peer_mux_established peer_mux_closed connection_end : (connection : ℕ) → Event
  -- `dialer.clearDenylist(…)`, `theirPeerInfo.disconnect()`
  denylist_cleared peer_disconnected : (connection : ℕ) → Event
  -- `connection.once('muxed', …)`
  awaits_muxed : (connection : ℕ) → Event

-- `connections`: the ids with their lists, in the order of insertion.
abbrev pub Entries : Type 0
Entries = List (ℕ × List ℕ)

pub record ConnectionManager : Type 0 where
  pub connections : Entries
  pub log : List Event

-- `connections[id]`
pub at : ℕ → Entries → Option (List ℕ)
at p [] = none
at p ((q, l) ∷ es) = if q == p then some l else at p es

-- `connections[id] = connections[id] || []`
pub ensure : ℕ → Entries → Entries
ensure p [] = (p, []) ∷ []
ensure p ((q, l) ∷ es) = if q == p then (q, l) ∷ es else (q, l) ∷ ensure p es

-- The list of an id is changed in place.
pub change : (List ℕ → List ℕ) → ℕ → Entries → Entries
change f p [] = []
change f p ((q, l) ∷ es) = if q == p then (q, f l) ∷ es else (q, l) ∷ change f p es

-- `delete connections[id]`
pub drop : ℕ → Entries → Entries
drop p [] = []
drop p ((q, l) ∷ es) = if q == p then es else (q, l) ∷ drop p es

-- The loops of `get` and `getOne`.
pub find_same : ℕ → List ℕ → Option ℕ
find_same c [] = none
find_same c (x ∷ xs) = if x == c then some x else find_same c xs

find_muxed : Connections → List ℕ → Option ℕ
find_muxed s [] = none
find_muxed s (x ∷ xs) = if s.is_muxed x then some x else find_muxed s xs

-- `get`
get : Connections → ℕ → Entries → Option ℕ
unfolding at find_same
get s c es = elim (at (s.their_id c) es) [ none ↦ none | some l ↦ find_same c l ]

-- `getOne`
unfoldable pub get_one : Connections → ℕ → Entries → Option ℕ
unfolding at find_muxed
get_one s p es = elim (at p es) [ none ↦ none | some l ↦ find_muxed s l ]

-- `getAll`
pub get_all : Entries → List ℕ
get_all [] = []
get_all ((p, l) ∷ es) = l ++ get_all es

-- `getAllById`
get_all_by_id : ℕ → Entries → List ℕ
unfolding at
get_all_by_id p es = elim (at p es) [ none ↦ [] | some l ↦ l ]

abbrev pub notes : List Event → ConnectionManager → ConnectionManager
notes es m = record m { log = m.log ++ es }

-- What follows when a muxed connection is tracked; it is also the listener of `muxed`.
abbrev pub on_muxed : ℕ → List Event
on_muxed c = peer_mux_established c ∷ denylist_cleared c ∷ []

abbrev pub announce : Connections → ℕ → List Event
announce s c = connection_start c ∷ (if s.is_muxed c then on_muxed c else awaits_muxed c ∷ [])

push : Connections → ℕ → ConnectionManager → ConnectionManager
unfolding change
push s c m =
    notes (announce s c)
      (record m { connections = change (λ l. l ++ c ∷ []) (s.their_id c) m.connections })

add_unless : Connections → ℕ → Option ℕ → ConnectionManager → ConnectionManager
unfolding push
add_unless s c none m = push s c m
add_unless s c (some d) m = m

-- `add`
unfoldable pub add : Connections → ℕ → ConnectionManager → ConnectionManager
unfolding ensure get add_unless
add s c m =
    let m' = record m { connections = ensure (s.their_id c) m.connections } in
    add_unless s c (get s c m'.connections) m'

-- `remove` behind the splice, with the list that is left.
after_splice : Connections → ℕ → List ℕ → ConnectionManager → ConnectionManager
unfolding drop
after_splice s c [] m =
    notes (peer_disconnected c ∷ peer_mux_closed c ∷ connection_end c ∷ [])
      (record m { connections = drop (s.their_id c) m.connections })
after_splice s c (x ∷ xs) m = notes (connection_end c ∷ []) m

-- `remove`
unfoldable pub remove : Connections → ℕ → ConnectionManager → ConnectionManager
unfolding at change after_splice
remove s c m = elim (at (s.their_id c) m.connections) [
  | none ↦ if s.has_peer_info c then notes (peer_disconnected c ∷ peer_mux_closed c ∷ []) m else m
  | some l ↦
      after_splice s c (delete c l)
        (record m { connections = change (delete c) (s.their_id c) m.connections })
]

-- The calls that change what is tracked, each with the states of the connections at its moment.
pub data Call : Type 0 where
  adds removes : ℕ → Call

step : Connections → Call → ConnectionManager → ConnectionManager
unfolding add remove
step s (adds c) m = add s c m
step s (removes c) m = remove s c m

pub run : Connections → List ((ℕ → Bool) × Call) → ConnectionManager → ConnectionManager
unfolding step
run s [] m = m
run s ((muxed, a) ∷ rest) m = run s rest (step (record s { is_muxed = muxed }) a m)

unfoldable pub init : ConnectionManager
init = record { connections = []; log = [] }
