-- ===== src/Connection/Machine.antt =====
-- src/connection/index.js and src/connection/base.js: a `ConnectionFSM`. A call of `this._state(t)`
-- is a request; `perform` hands the oldest one to fsm-event and runs the handler of the state that
-- is entered. The answers of transports, protector, crypto, multistream, muxers and identify come as
-- inputs, in any order, before or after the requests that are still open.
use js_libp2p_swarm.Prelude.{
  ℕ, Bool, true, false, not, ◌&&◌, Option, none, some, List, [], ◌∷◌, ◌++◌, ◌==◌, if◌then◌else◌,
  has,
}
use js_libp2p_swarm.Errors.{
  SwitchError, dial_self, no_transports_registered, invalid_state_transition, connection_failed,
}
use js_libp2p_swarm.Connection.States.{
  State, disconnected, dialing, dialed, privatizing, privatized, encrypting, encrypted, upgrading,
  muxed, connected, disconnecting, aborted, errored, Trigger, dial, disconnect, done, encrypt,
  privatize, upgrade, stop, Fsm,
}

-- What the connection does to the rest of the program, in order. Connections, muxers, transports
-- and protocols are numbers.
pub data Effect : Type 0 where
  -- `emit('error', err)`, `emit('error:connection_attempt_failed')`, `emit('error:upgrade_failed')`
  emit_error attempt_failed upgrade_failed : SwitchError → Effect
  -- the other events: `connected`, `private`, `encrypted`, `muxed`, `unmuxed`, `close`
  emit_connected emit_private emit_encrypted emit_muxed emit_unmuxed emit_close : Effect
  -- `removeAllListeners()`
  remove_listeners : Effect
  -- `switch.connection.remove(this)`
  untrack : Effect
  -- `switch.transport.dial(key, …)`; before the circuit's, its address is added to the peer
  dial_transport add_circuit_address : ℕ → Effect
  -- `protector.protect(conn, …)`, a handshake on a connection, `select(key)`, `crypto.encrypt(conn)`
  protect_conn handshake select_key encrypt_conn : ℕ → Effect
  -- `select(crypto.tag)`
  select_crypto : Effect
  -- `switch.muxers[key].dialer(conn)`, `muxer.end(…)`, `conn.source.abort()`
  open_muxer end_muxer abort_conn : ℕ → Effect
  -- `switch.conns[id] = this`, and its deletion
  hold_conn drop_conn : Effect
  -- `muxer.newStream(…)` for identify, and `peerBook.put(…)` of its result
  identify_stream put_peer : ℕ → Effect
  -- identify on a connection that has no muxer
  identify_failed : SwitchError → Effect

-- What the code reads from its switch.
pub record Readings : Type 0 where
  pub is_self : Bool
  pub has_transports : Bool
  -- `availableTransports(theirPeerInfo)`
  pub available : List ℕ
  pub circuit_tag : ℕ
  pub circuit_enabled : Bool
  -- the connection that `protector.protect` returns, where there is a protector
  pub protector : Option ℕ
  -- `Object.keys(switch.muxers)`
  pub muxer_keys : List ℕ
  pub identify : Bool
  -- `this._events.error`
  pub has_error_listener : Bool

pub record Connection : Type 0 where
  pub state : State
  pub conn : Option ℕ
  pub muxer : Option ℕ
  -- the transports and muxers that are still to be tried
  pub t_keys : List ℕ
  pub muxers : List ℕ
  -- the control listeners of src/dialer/queue.js:199-201, each attached by `once`
  pub on_connected : Bool
  pub on_private : Bool
  pub on_encrypted : Bool
  -- the calls of `this._state` that were not yet answered, oldest first
  pub requests : List Trigger
  pub log : List Effect

-- A connection as src/dialer/queue.js makes it.
unfoldable pub init : Connection
init = record {
  state = disconnected;
  conn = none;
  muxer = none;
  t_keys = [];
  muxers = [];
  on_connected = true;
  on_private = true;
  on_encrypted = true;
  requests = [];
  log = [];
}

abbrev pub request : Trigger → Connection → Connection
request t k = record k { requests = k.requests ++ t ∷ [] }

abbrev pub write : Effect → Connection → Connection
write e k = record k { log = k.log ++ e ∷ [] }

-- `emit('error', err)`: without a listener it is only logged.
unfoldable pub emit_err : Readings → SwitchError → Connection → Connection
emit_err r e k = if r.has_error_listener then write (emit_error e) k else k

abbrev pub is_disconnecting : State → Bool
is_disconnecting disconnecting = true
is_disconnecting _ = false

abbrev is_dialing : State → Bool
is_dialing dialing = true
is_dialing _ = false

emit_if : Readings → Option SwitchError → Connection → Connection
unfolding emit_err
emit_if r none k = k
emit_if r (some e) k = emit_err r e k

-- `close(err)`
unfoldable pub close : Readings → Option SwitchError → Connection → Connection
unfolding emit_if
close r err k = if is_disconnecting k.state then k else request disconnect (emit_if r err k)

-- `dial()`
unfoldable pub call_dial : Readings → Connection → Connection
unfolding emit_err
call_dial r k =
    if r.is_self then emit_err r dial_self k else if is_dialing k.state then k else request dial k

-- `nextTransport(tKeys.shift())`
unfoldable pub next_transport : Readings → List ℕ → Connection → Connection
unfolding close
next_transport r [] k = close r (some connection_failed) (record k { t_keys = [] })
next_transport r (key ∷ rest) k = write (dial_transport key) (
    if key == r.circuit_tag
    then write (add_circuit_address key) (record k { t_keys = rest })
    else record k { t_keys = rest })

abbrev pub with_circuit : Readings → List ℕ
with_circuit r =
    if r.circuit_enabled && not (has r.circuit_tag r.available)
    then r.available ++ r.circuit_tag ∷ []
    else r.available

unfoldable pub on_dialing : Readings → Connection → Connection
unfolding next_transport close
on_dialing r k =
    if r.has_transports
    then next_transport r (with_circuit r) k
    else close r (some no_transports_registered) k

-- An event whose control listener, if it is still attached, calls the next trigger.
on_dialed : Connection → Connection
on_dialed k =
    if k.on_connected
    then request privatize (record (write emit_connected k) { on_connected = false })
    else write emit_connected k

on_privatized : Connection → Connection
on_privatized k =
    if k.on_private
    then request encrypt (record (write emit_private k) { on_private = false })
    else write emit_private k

on_encrypted_state : Connection → Connection
on_encrypted_state k =
    if k.on_encrypted
    then request upgrade (record (write emit_encrypted k) { on_encrypted = false })
    else write emit_encrypted k

-- A package is handed the base connection, which is `undefined` where there is none.
abbrev with_conn : (ℕ → Effect) → Connection → Connection
with_conn e k = elim k.conn [ none ↦ k | some n ↦ write (e n) k ]

on_privatizing : Readings → Connection → Connection
on_privatizing r k = elim r.protector [
  | none ↦ request done k
  | some wrapped ↦ record (with_conn protect_conn k) { conn = some wrapped }
]

on_upgrading : Readings → Connection → Connection
on_upgrading r k = elim r.muxer_keys [
  | [] ↦ request stop k
  | key ∷ rest ↦ record (with_conn handshake k) { muxers = key ∷ rest }
]

-- The base connection is aborted first, and then the muxer is ended, if there is one.
on_disconnecting : Connection → Connection
on_disconnecting k =
    let k' = record (with_conn abort_conn (write drop_conn k)) { conn = none } in
    elim k.muxer [ none ↦ request done k' | some m ↦ write (end_muxer m) k' ]

on_disconnected : Connection → Connection
on_disconnected k = record k {
  on_connected = false;
  on_private = false;
  on_encrypted = false;
  log = k.log ++ untrack ∷ emit_close ∷ remove_listeners ∷ [];
}

-- The handler of the state that was entered. `_onAborted` and `_onErrored` are called by the source
-- and defined nowhere: `none` is the exception that such a call is.
unfoldable pub enter : Readings → State → Connection → Option Connection
unfolding on_dialing on_dialed on_privatizing on_privatized on_encrypted_state on_upgrading
    on_disconnecting on_disconnected
enter r disconnected k = some (on_disconnected k)
enter r dialing k = some (on_dialing r k)
enter r dialed k = some (on_dialed k)
enter r privatizing k = some (on_privatizing r k)
enter r privatized k = some (on_privatized k)
enter r encrypting k = some (with_conn handshake k)
enter r encrypted k = some (on_encrypted_state k)
enter r upgrading k = some (on_upgrading r k)
enter r muxed k = some (write emit_muxed (write drop_conn k))
enter r connected k = some (write emit_unmuxed k)
enter r disconnecting k = some (on_disconnecting k)
enter r aborted k = none
enter r errored k = none

-- fsm-event answers a request. An invalid one ends in `_onStateError`.
unfoldable pub answer : Fsm → Readings → Trigger → Connection → Option Connection
unfolding enter emit_err
answer fsm r t k = elim (fsm.fire k.state t) [
  | none ↦ some (emit_err r invalid_state_transition k)
  | some s ↦ enter r s (record k { state = s })
]

unfoldable pub perform_from : Fsm → Readings → List Trigger → Connection → Option Connection
unfolding answer
perform_from fsm r [] k = some k
perform_from fsm r (t ∷ ts) k = answer fsm r t (record k { requests = ts })

-- The oldest request is answered.
unfoldable pub perform : Fsm → Readings → Connection → Option Connection
unfolding perform_from
perform fsm r k = perform_from fsm r k.requests k
