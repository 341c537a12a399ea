-- ===== src/Connection/Incoming/Examples.antt =====
-- The incoming connections of src/connection/incoming.js at concrete inputs.
use js_libp2p_swarm.Prelude.{◌≡◌, ◌≤◌, refl, none, some, true, false, [], ◌∷◌}
use js_libp2p_swarm.Errors.{other}
use js_libp2p_swarm.Connection.States.{disconnected, encrypting}
use js_libp2p_swarm.Connection.Incoming.{
  IncomingConnection, Listening, run_incoming, error_emitted, untracked, close_emitted,
  listeners_removed,
}
use js_libp2p_swarm.Connection.Incoming.Progress.{rank, run-rank, run-closed, end_history, table_in}

-- A connection that is being encrypted.
abbrev securing : IncomingConnection
securing = record {
  state = encrypting;
  conn = 40;
  peer = none;
  on_error = true;
  on_private = false;
  on_encrypted = true;
  requests = [];
  log = [];
}

-- A switch with no protector and no custom handler.
abbrev plain_listening : Listening
plain_listening = record { protector = none; has_handler = false }

run-closed_example :
    run_incoming table_in
      (end_history plain_listening (other 3))
      (record securing { requests = [] })
    ≡ some (record securing {
      state = disconnected;
      on_error = false;
      on_private = false;
      on_encrypted = false;
      requests = [];
      log = error_emitted (other 3) ∷ untracked ∷ close_emitted 40 ∷ listeners_removed ∷ [];
    })
run-closed_example = run-closed table_in plain_listening (other 3) securing refl

run-rank_example : rank encrypting ≤ rank disconnected
run-rank_example =
    run-rank table_in (end_history plain_listening (other 3)) securing
      (record securing {
        state = disconnected;
        on_error = false;
        on_private = false;
        on_encrypted = false;
        log = error_emitted (other 3) ∷ untracked ∷ close_emitted 40 ∷ listeners_removed ∷ [];
      })
      (run-closed table_in plain_listening (other 3) securing refl)
