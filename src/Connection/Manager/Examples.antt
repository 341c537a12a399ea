-- ===== src/Connection/Manager/Examples.antt =====
-- The connection manager of src/connection/manager.js at concrete connections.
use js_libp2p_swarm.Prelude.{ℕ, ◌≡◌, ◌/◌, ◌*◌, ◌==◌, refl, Bool, true, List, [], ◌∷◌, has}
use js_libp2p_swarm.Connection.Manager.{
  Connections, ConnectionManager, Call, adds, removes, run, remove, init, get_all, at,
  connection_end,
}
use js_libp2p_swarm.Connection.Manager.Entries.{well_formed}
use js_libp2p_swarm.Connection.Manager.Tracking.{run-tracks}
use js_libp2p_swarm.Connection.Manager.Lookups.{remove_untracked}

-- Ten connections of each peer: connection 14 is peer 1's. The even ones are muxed.
abbrev ten_each : Connections
ten_each = record {
  their_id = λ c. c / 10;
  has_peer_info = λ c. true;
  is_muxed = λ c. (c / 2) * 2 == c;
}

abbrev calls : List ((ℕ → Bool) × Call)
calls =
    (ten_each.is_muxed, adds 11)
    ∷ (ten_each.is_muxed, adds 21)
    ∷ (ten_each.is_muxed, adds 14)
    ∷ (ten_each.is_muxed, adds 14)
    ∷ (ten_each.is_muxed, removes 21)
    ∷ []

abbrev two_peers : ConnectionManager
two_peers = record { connections = (1, 11 ∷ 14 ∷ []) ∷ (3, 31 ∷ []) ∷ []; log = [] }

tracked_pair : get_all (run ten_each calls init).connections ≡ 11 ∷ 14 ∷ []
unfolding run init get_all
tracked_pair = refl

run-tracks_example :
    (well_formed ten_each.their_id (run ten_each calls init).connections ≡ true)
    × ((x : ℕ) → has x (get_all (run ten_each calls init).connections) ≡ has x (11 ∷ 14 ∷ []))
run-tracks_example = run-tracks ten_each calls

remove_untracked_example :
    remove ten_each 13 two_peers ≡ record two_peers { log = connection_end 13 ∷ [] }
unfolding at get_all
remove_untracked_example = remove_untracked ten_each 13 (11 ∷ 14 ∷ []) two_peers refl refl refl
