-- ===== src/Observer/Examples.antt =====
-- The theorem on an observed connection of src/observe-connection.js at a concrete history.
use js_libp2p_swarm.Prelude.{◌+◌, ◌≡◌, refl, some, none, List, [], ◌∷◌}
use js_libp2p_swarm.Stats.Collection.{Collection, incoming, outgoing}
use js_libp2p_swarm.Stats.Collection
use js_libp2p_swarm.Stats.Collection.Shares.{everything}
use js_libp2p_swarm.Stats.Collection.Carried.{total}
use js_libp2p_swarm.Stats.Examples.{some_options, one_entry, empty_collection}
use js_libp2p_swarm.Observer.{Input, passes, sets_peer, observe_connection, run, delivered}
use js_libp2p_swarm.Observer.Traffic.{buffers, bytes, run-traffic}

-- Three buffers, of which the first is read before the peer is known.
abbrev history : List Input
history =
    passes 10 incoming (1 ∷ 2 ∷ 3 ∷ [])
    ∷ passes 11 outgoing (9 ∷ [])
    ∷ sets_peer 12 (some 7)
    ∷ passes 13 incoming (4 ∷ [])
    ∷ []

abbrev listening : Collection one_entry
listening = Collection.start one_entry some_options empty_collection

run-traffic_example :
    let end = run history (observe_connection (some 1) none none) in
    (end.passed ≡ buffers history)
    × (total one_entry some_options 0 everything
          (Collection.run one_entry some_options (delivered end.emitted) listening)
        ≡ total one_entry some_options 0 everything listening + bytes 0 (buffers history))
unfolding run observe_connection Collection.init Collection.start
run-traffic_example =
    run-traffic one_entry some_options 0 everything (some 1) none none history listening refl refl
      refl refl
