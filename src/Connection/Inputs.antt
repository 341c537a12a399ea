-- ===== src/Connection/Inputs.antt =====
-- src/connection/index.js and src/connection/base.js: the methods of a connection that others call,
-- and the callbacks that transports, protector, crypto, multistream, muxers and identify call.
use js_libp2p_swarm.Prelude.{ℕ, Option, none, some, List, [], ◌∷◌, if◌then◌else◌}
use js_libp2p_swarm.Errors.{SwitchError, connection_closed, StreamEnd, maybe_unexpected_end}
use js_libp2p_swarm.Connection.States.{done, encrypt, privatize, upgrade, stop, Fsm}
use js_libp2p_swarm.Connection.Machine.{
  Connection, Readings, attempt_failed, upgrade_failed, hold_conn, select_key, select_crypto,
  encrypt_conn, open_muxer, identify_stream, identify_failed, put_peer, request, write, close,
  call_dial, next_transport, perform,
}

-- What a callback is given: an error, or a connection, muxer or peer.
pub data Answer (E : Type 0) : Type 0 where
  failed : E → Answer E
  ok : ℕ → Answer E

pub data Input : Type 0 where
  -- fsm-event answers the oldest request
  performs : Input
  -- `dial`, `protect`, `encrypt`, `upgrade`, `close`
  dials protects encrypts upgrades : Input
  closes : Option SwitchError → Input
  -- the callback of `switch.transport.dial`
  transport_dialed : Answer SwitchError → Input
  -- of `protector.protect`
  protected : Option SwitchError → Input
  -- of the handshake for the crypto, of its selection, and of `crypto.encrypt`
  crypto_handled : Option StreamEnd → Input
  crypto_selected : Answer StreamEnd → Input
  crypto_done : Answer SwitchError → Input
  -- of the handshake for the muxers, and of the selection of one
  upgrade_handled : Option SwitchError → Input
  muxer_refused : SwitchError → Input
  muxer_selected : (conn : ℕ) → (muxer : ℕ) → Input
  -- the muxer's `close` event, and the callback of its `end`
  muxer_closed muxer_ended : Input
  -- of identify
  identified : Answer SwitchError → Input

-- `_didUpgrade`
did_upgrade : Option SwitchError → Connection → Connection
did_upgrade none k = request done k
did_upgrade (some e) k = request stop (write (upgrade_failed e) (write hold_conn k))

-- `nextMuxer(muxers.shift())`
next_muxer : List ℕ → Connection → Connection
next_muxer [] k = k
next_muxer (key ∷ rest) k = write (select_key key) (record k { muxers = rest })

-- The selection of a muxer failed: the next one is tried, if one is left.
muxer_failed : SwitchError → List ℕ → Connection → Connection
unfolding did_upgrade next_muxer
muxer_failed e [] k = did_upgrade (some e) k
muxer_failed e (key ∷ rest) k = next_muxer (key ∷ rest) k

-- `_identify`
run_identify : Connection → Connection
run_identify k = elim k.muxer [
  | none ↦ write (identify_failed connection_closed) k
  | some m ↦ write (identify_stream m) k
]

unfoldable pub receive : Readings → Input → Connection → Connection
unfolding did_upgrade next_muxer muxer_failed run_identify close
receive r performs k = k
receive r dials k = call_dial r k
receive r protects k = request privatize k
receive r encrypts k = request encrypt k
receive r upgrades k = request upgrade k
receive r (closes e) k = close r e k
receive r (transport_dialed (failed e)) k = next_transport r k.t_keys (write (attempt_failed e) k)
receive r (transport_dialed (ok n)) k = request done (record k { conn = some n })
receive r (protected (some e)) k = close r (some e) k
receive r (protected none) k = request done k
receive r (crypto_handled (some e)) k = close r (some (maybe_unexpected_end e)) k
receive r (crypto_handled none) k = write select_crypto k
receive r (crypto_selected (failed e)) k = close r (some (maybe_unexpected_end e)) k
receive r (crypto_selected (ok n)) k = write (encrypt_conn n) k
receive r (crypto_done (failed e)) k = close r (some e) k
receive r (crypto_done (ok n)) k = request done (record k { conn = some n })
receive r (upgrade_handled (some e)) k = did_upgrade (some e) k
receive r (upgrade_handled none) k = next_muxer k.muxers k
receive r (muxer_refused e) k = muxer_failed e k.muxers k
receive r (muxer_selected n m) k =
    let k' = did_upgrade none (record (write (open_muxer n) k) { muxer = some m }) in
    if r.identify then run_identify k' else k'
receive r muxer_closed k = close r none k
receive r muxer_ended k = request done (record k { muxer = none })
receive r (identified (failed e)) k = close r (some e) k
receive r (identified (ok n)) k = write (put_peer n) k

-- One input, or one answer of fsm-event; `none` is an exception.
unfoldable pub step : Fsm → Readings → Input → Connection → Option Connection
unfolding receive perform
step fsm r performs k = perform fsm r k
step fsm r i k = some (receive r i k)

-- A history of a connection.
unfoldable pub run : Fsm → List (Readings × Input) → Connection → Option Connection
unfolding step
run fsm [] k = some k
run fsm ((r, i) ∷ rest) k = elim (step fsm r i k) [ none ↦ none | some k' ↦ run fsm rest k' ]
