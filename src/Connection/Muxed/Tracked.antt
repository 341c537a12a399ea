-- ===== src/Connection/Muxed/Tracked.antt =====
-- An incoming connection that is muxed and identified, from the handler that
-- src/connection/manager.js registers for a muxer to its close.
use js_libp2p_swarm.Prelude.{
  ℕ, ◌≡◌, refl, ap, ◌∙◌, Bool, true, Option, some, List, [], ◌∷◌, ◌++◌, has, insert, delete,
}
use js_libp2p_swarm.Connection.States.{Fsm}
use js_libp2p_swarm.Connection.Machine.{
  drop_conn, end_muxer, abort_conn, untrack, emit_close, remove_listeners, Connection, Readings,
}
use js_libp2p_swarm.Connection.Machine
use js_libp2p_swarm.Connection.Inputs.{run}
use js_libp2p_swarm.Connection.Closing.{close_history, torn_down, run-close_history}
use js_libp2p_swarm.Connection.Manager.{Connections, Call, add, remove, get_all, init}
use js_libp2p_swarm.Connection.Manager
use js_libp2p_swarm.Connection.Manager.Tracking.{apply_all, add-run, remove-add-run}
use js_libp2p_swarm.Connection.Muxed.{PeerReadings, identified, Node, init_muxed, on_muxed_stream}

-- Where identify finds the peer of an incoming muxed connection, the handler returns and makes a
-- connection, which is tracked beside all that were tracked after any history of the manager. When
-- it is closed, its base connection is aborted and its muxer ended, the close is reported once, and
-- when the manager has removed it just the others are tracked.
pub on_muxed_stream-tracked :
    (fsm : Fsm) (r : Readings) (s : Connections) (p : PeerReadings)
    (calls : List ((ℕ → Bool) × Call)) (c conn muxer peer : ℕ) (crypto_peer : Option ℕ) (n : Node)
    → n.manager ≡ Manager.run s calls init
    → let k = init_muxed conn muxer in
      (n' : Node) × (on_muxed_stream true s p c conn muxer crypto_peer (identified (some peer)) n
        ≡ some n')
      × (n'.made ≡ n.made ++ (c, k) ∷ [])
      × ((x : ℕ) → has x (get_all n'.manager.connections) ≡ has x (insert c (apply_all calls [])))
      × (run fsm (close_history r k) k ≡ some (torn_down k))
      × ((torn_down k).log
          ≡ drop_conn
            ∷ abort_conn conn
            ∷ end_muxer muxer
            ∷ untrack
            ∷ emit_close
            ∷ remove_listeners
            ∷ [])
      × ((x : ℕ)
          → has x (get_all (remove s c n'.manager).connections)
            ≡ has x (delete c (apply_all calls [])))
unfolding on_muxed_stream init_muxed Machine.init
on_muxed_stream-tracked fsm r s p calls c conn muxer peer crypto_peer n e = (
  _,
  refl,
  refl,
  λ x. ap (λ m. has x (get_all (add s c m).connections)) e ∙ add-run s calls c x,
  run-close_history fsm r (init_muxed conn muxer) refl,
  refl,
  λ x.
      ap (λ m. has x (get_all (remove s c (add s c m)).connections)) e ∙ remove-add-run s calls c x,
)
