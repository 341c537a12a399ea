-- ===== src/Connection/Examples.antt =====
-- The theorems on the connections of src/connection/ at inputs that meet their hypotheses.
use js_libp2p_swarm.Prelude.{
  ℕ, Bool, has, insert, delete, ◌≡◌, refl, true, false, none, some, List, [], ◌∷◌,
}
use js_libp2p_swarm.Connection.States.{disconnect}
use js_libp2p_swarm.Connection.Machine.{emit_error}
use js_libp2p_swarm.Errors.{other, connection_failed}
use js_libp2p_swarm.Connection.States.{State, disconnected, dialing, muxed}
use js_libp2p_swarm.Connection.Machine.{
  Connection, Readings, init, emit_connected, emit_private, emit_encrypted, emit_muxed, emit_close,
  drop_conn, handshake, select_key, select_crypto, encrypt_conn, open_muxer, end_muxer, abort_conn,
  untrack, remove_listeners, dial_transport, attempt_failed,
}
use js_libp2p_swarm.Connection.Inputs.{
  Input, run, dials, performs, closes, transport_dialed, failed, ok, muxer_ended,
}
use js_libp2p_swarm.Connection.Manager.{Connections, Call, adds, removes, remove, get_all}
use js_libp2p_swarm.Connection.Manager
use js_libp2p_swarm.Connection.Manager.Tracking.{apply_all}
use js_libp2p_swarm.Connection.Muxed.{PeerReadings, Node, identified, init_muxed, on_muxed_stream}
use js_libp2p_swarm.Connection.Muxed.Tracked.{on_muxed_stream-tracked}
use js_libp2p_swarm.Connection.Unreachable.{is_live, run-is_live}
use js_libp2p_swarm.Connection.Closing.{close_history, torn_down, run-close_history, run-late_dial}
use js_libp2p_swarm.Connection.Dialing.{table, plain_readings, success, run-success, run-failures}
use js_libp2p_swarm.Dialer.Queue.{Dial}
use js_libp2p_swarm.Connection.Streams.{Peers}

-- Transports 1 and 2, muxer 3, and the circuit is 9.
abbrev here : Readings
here = plain_readings 1 (2 ∷ []) 3 [] 9 true

-- A dial that is closed before its transport answers.
abbrev hasty : List (Readings × Input)
hasty =
    (here, dials)
    ∷ (here, performs)
    ∷ (here, closes none)
    ∷ (here, performs)
    ∷ (here, performs)
    ∷ (here, transport_dialed (ok 50))
    ∷ (here, performs)
    ∷ []

run-is_live_example : (k : Connection) × (run table hasty init ≡ some k) × (is_live k.state ≡ true)
run-is_live_example = run-is_live table hasty

run-success_example :
    run table (success here 50 51 52 53 60) init
    ≡ some (record {
      state = muxed;
      conn = some 52;
      muxer = some 60;
      t_keys = 2 ∷ [];
      muxers = [];
      on_connected = false;
      on_private = false;
      on_encrypted = false;
      requests = [];
      log =
          dial_transport 1
          ∷ emit_connected
          ∷ emit_private
          ∷ handshake 50
          ∷ select_crypto
          ∷ encrypt_conn 51
          ∷ emit_encrypted
          ∷ handshake 52
          ∷ select_key 3
          ∷ open_muxer 53
          ∷ drop_conn
          ∷ emit_muxed
          ∷ [];
    })
run-success_example = run-success table 1 (2 ∷ []) 3 [] 9 true 50 51 52 53 60

-- A connection in use.
abbrev in_use : State → Connection
in_use s = record {
  state = s;
  conn = some 52;
  muxer = some 60;
  t_keys = [];
  muxers = [];
  on_connected = false;
  on_private = false;
  on_encrypted = false;
  requests = [];
  log = [];
}

run-close_history_example :
    run table
      ((here, closes none) ∷ (here, performs) ∷ (here, muxer_ended) ∷ (here, performs) ∷ [])
      (in_use muxed)
    ≡ some (record (in_use disconnected) {
      conn = none;
      muxer = none;
      log = drop_conn ∷ abort_conn 52 ∷ end_muxer 60 ∷ untrack ∷ emit_close ∷ remove_listeners ∷ [];
    })
run-close_history_example = run-close_history table here (in_use muxed) refl

run-failures_example :
    run table
      ((here, transport_dialed (failed (other 1)))
        ∷ (here, transport_dialed (failed (other 2)))
        ∷ [])
      (record (in_use dialing) { t_keys = 2 ∷ [] })
    ≡ some (record (in_use dialing) {
      requests = disconnect ∷ [];
      log =
          attempt_failed (other 1)
          ∷ dial_transport 2
          ∷ attempt_failed (other 2)
          ∷ emit_error connection_failed
          ∷ [];
    })
run-failures_example =
    run-failures table here (2 ∷ []) (other 1 ∷ other 2 ∷ []) (in_use dialing) refl refl

run-late_dial_example :
    run table ((here, transport_dialed (ok 77)) ∷ (here, performs) ∷ []) (in_use disconnected)
    ≡ some (record (in_use disconnected) {
      conn = some 77;
      log = untrack ∷ emit_close ∷ remove_listeners ∷ [];
    })
run-late_dial_example = run-late_dial table here (in_use disconnected) 77 refl

-- The muxer opens stream 70, and multistream selects the protocol on it.
abbrev willing : Peers
willing = record { on_new_stream = ok 70; on_handle = none; on_select = ok 71 }

abbrev waiting_dial : Dial
waiting_dial = record { protocol = some 5; use_fsm = false; callback = some 8 }

abbrev objects : Connections
objects = record { their_id = λ c. c; has_peer_info = λ c. true; is_muxed = λ c. true }

abbrev peers : PeerReadings
peers = record { is_connected = λ id. false; multiaddrs = λ id. [] }

-- Connections 5 and 6 were added, and 5 removed again.
abbrev earlier : List ((ℕ → Bool) × Call)
earlier = ((λ c. true), adds 5) ∷ ((λ c. true), adds 6) ∷ ((λ c. true), removes 5) ∷ []

abbrev node : Node
node = record { manager = Manager.run objects earlier Manager.init; made = []; calls = [] }

on_muxed_stream-tracked_example :
    let k = init_muxed 50 60 in
    (n' : Node) × (on_muxed_stream true objects peers 7 50 60 none (identified (some 7)) node
      ≡ some n')
    × (n'.made ≡ (7, k) ∷ [])
    × ((x : ℕ) → has x (get_all n'.manager.connections) ≡ has x (insert 7 (apply_all earlier [])))
    × (run table (close_history here k) k ≡ some (torn_down k))
    × ((torn_down k).log
        ≡ drop_conn ∷ abort_conn 50 ∷ end_muxer 60 ∷ untrack ∷ emit_close ∷ remove_listeners ∷ [])
    × ((x : ℕ)
        → has x (get_all (remove objects 7 n'.manager).connections)
          ≡ has x (delete 7 (apply_all earlier [])))
on_muxed_stream-tracked_example =
    on_muxed_stream-tracked table here objects peers earlier 7 50 60 7 none node refl
