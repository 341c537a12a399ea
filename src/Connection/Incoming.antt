-- ===== src/Connection/Incoming.antt =====
-- src/connection/incoming.js and src/connection/handler.js: a connection that another peer has
-- dialed, over src/connection/base.js. As for a dialed connection, a call of `this._state` is a
-- request that a later input answers.
pub mod Progress
pub mod Examples
use js_libp2p_swarm.Prelude.{
  ℕ, Bool, true, false, Option, none, some, List, [], ◌∷◌, ◌++◌, ◌≡◌, if◌then◌else◌,
}
use js_libp2p_swarm.Errors.{SwitchError, invalid_state_transition}
use js_libp2p_swarm.Connection.States.{
  State, disconnected, dialed, privatizing, privatized, encrypting, encrypted, upgrading, muxed,
  disconnecting, Trigger, disconnect, done, encrypt, privatize, upgrade,
}

-- The table that the code gives to fsm-event.
pub transition_in : State → Trigger → Option State
transition_in disconnected disconnect = some disconnected
transition_in dialed privatize = some privatizing
transition_in dialed encrypt = some encrypting
transition_in privatizing done = some privatized
transition_in privatizing disconnect = some disconnecting
transition_in privatized encrypt = some encrypting
transition_in encrypting done = some encrypted
transition_in encrypting disconnect = some disconnecting
transition_in encrypted upgrade = some upgrading
transition_in encrypted disconnect = some disconnecting
transition_in upgrading done = some muxed
transition_in muxed disconnect = some disconnecting
transition_in disconnecting done = some disconnected
transition_in _ _ = none

-- fsm-event over this table.
pub record IncomingFsm : Type 0 where
  pub fire : State → Trigger → Option State
  pub follows : (s : State) (t : Trigger) → fire s t ≡ transition_in s t

-- What the connection does to the rest of the program.
pub data IncomingEffect : Type 0 where
  -- the events `error`, `private`, `encrypted`, `muxed`, `crypto handshaking failed` and `close`
  error_emitted handshaking_failed : SwitchError → IncomingEffect
  private_emitted encrypted_emitted muxed_emitted close_emitted : (conn : ℕ) → IncomingEffect
  -- the custom handler is called
  handed_over : (conn : ℕ) → IncomingEffect
  -- `protector.protect`, `msListener.handle`, `crypto.encrypt`, `protocolMuxer`
  protected_conn handled encrypted_conn muxed_protocols : (conn : ℕ) → IncomingEffect
  -- `switch.connection.remove(this)`, `removeAllListeners()`
  untracked listeners_removed : IncomingEffect

-- What the code reads from its switch, and the handler that the transport was given.
pub record Listening : Type 0 where
  -- the connection that `protector.protect` returns, where there is a protector
  pub protector : Option ℕ
  pub has_handler : Bool

pub record IncomingConnection : Type 0 where
  pub state : State
  pub conn : ℕ
  -- `theirPeerInfo`
  pub peer : Option ℕ
  -- the listeners of src/connection/handler.js, each attached by `once`
  pub on_error : Bool
  pub on_private : Bool
  pub on_encrypted : Bool
  pub requests : List Trigger
  pub log : List IncomingEffect

abbrev pub asks : Trigger → IncomingConnection → IncomingConnection
asks t k = record k { requests = k.requests ++ t ∷ [] }

abbrev pub notes : IncomingEffect → IncomingConnection → IncomingConnection
notes e k = record k { log = k.log ++ e ∷ [] }

-- The listener of src/connection/handler.js: it makes the connection and protects it.
pub accept : ℕ → Option ℕ → IncomingConnection
accept conn peer = record {
  state = dialed;
  conn = conn;
  peer = peer;
  on_error = true;
  on_private = true;
  on_encrypted = true;
  requests = privatize ∷ [];
  log = [];
}

-- `emit('error', err)`: the listener is there once.
emit_error : SwitchError → IncomingConnection → IncomingConnection
emit_error e k = if k.on_error then notes (error_emitted e) (record k { on_error = false }) else k

is_disconnecting : State → Bool
is_disconnecting disconnecting = true
is_disconnecting _ = false

emit_error_if : Option SwitchError → IncomingConnection → IncomingConnection
unfolding emit_error
emit_error_if none k = k
emit_error_if (some e) k = emit_error e k

-- `close(err)` of src/connection/base.js
close_incoming : Option SwitchError → IncomingConnection → IncomingConnection
unfolding emit_error_if is_disconnecting
close_incoming err k = if is_disconnecting k.state then k else asks disconnect (emit_error_if err k)

-- `_onPrivatizing`
start_privatizing : Listening → IncomingConnection → IncomingConnection
start_privatizing r k = elim r.protector [
  | none ↦ asks done k
  | some wrapped ↦ record (notes (protected_conn k.conn) k) { conn = wrapped }
]

-- `private`: a custom handler takes the connection over.
report_private : Listening → IncomingConnection → IncomingConnection
report_private r k =
    let k' = record (notes (private_emitted k.conn) k) { on_private = false } in
    if k.on_private
    then if r.has_handler then notes (handed_over k.conn) k' else asks encrypt k'
    else k'

report_encrypted : IncomingConnection → IncomingConnection
report_encrypted k =
    let k' = record (notes (encrypted_emitted k.conn) k) { on_encrypted = false } in
    if k.on_encrypted then asks upgrade k' else k'

-- `_onDisconnected`
leave : IncomingConnection → IncomingConnection
leave k = record k {
  on_error = false;
  on_private = false;
  on_encrypted = false;
  log = k.log ++ untracked ∷ close_emitted k.conn ∷ listeners_removed ∷ [];
}

-- The handler of the state that was entered; the table leads to no other state.
enter_incoming : Listening → State → IncomingConnection → IncomingConnection
unfolding start_privatizing report_private report_encrypted leave
enter_incoming r disconnected k = leave k
enter_incoming r privatizing k = start_privatizing r k
enter_incoming r privatized k = report_private r k
enter_incoming r encrypting k = notes (handled k.conn) k
enter_incoming r encrypted k = report_encrypted k
enter_incoming r upgrading k = asks done (notes (muxed_protocols k.conn) k)
enter_incoming r muxed k = notes (muxed_emitted k.conn) k
enter_incoming r disconnecting k = asks done k
enter_incoming r _ k = k

-- fsm-event answers a request. No handler is there for its errors: an `error` of fsm-event without
-- a listener is thrown, `none`.
answer_incoming : IncomingFsm → Listening → Trigger → IncomingConnection → Option IncomingConnection
unfolding enter_incoming
answer_incoming fsm r t k = elim (fsm.fire k.state t) [
  | none ↦ none
  | some s ↦ some (enter_incoming r s (record k { state = s }))
]

pub data IncomingInput : Type 0 where
  -- fsm-event answers the oldest request
  answered : IncomingInput
  -- `close`
  closed : Option SwitchError → IncomingInput
  -- the callback of `protector.protect`
  privacy_done : Option SwitchError → IncomingInput
  -- the other peer selected the crypto, and `crypto.encrypt` returned a connection
  crypto_begun : (conn : ℕ) → (secret : ℕ) → IncomingInput
  -- the callback of `crypto.encrypt`, and of `getPeerInfo` after it
  crypto_failed : SwitchError → IncomingInput
  peer_known : Option ℕ → IncomingInput
  -- the callback of `msListener.handle` with an error
  handshake_failed : SwitchError → IncomingInput

take : IncomingFsm → Listening → List Trigger → IncomingConnection → Option IncomingConnection
unfolding answer_incoming
take fsm r [] k = some k
take fsm r (t ∷ ts) k = answer_incoming fsm r t (record k { requests = ts })

step_incoming :
    IncomingFsm → Listening → IncomingInput → IncomingConnection → Option IncomingConnection
unfolding take close_incoming
step_incoming fsm r answered k = take fsm r k.requests k
step_incoming fsm r (closed e) k = some (close_incoming e k)
step_incoming fsm r (privacy_done (some e)) k = some (close_incoming (some e) k)
step_incoming fsm r (privacy_done none) k = some (asks done k)
step_incoming fsm r (crypto_begun conn secret) k =
    some (record (notes (encrypted_conn conn) k) { conn = secret })
step_incoming fsm r (crypto_failed e) k = some (close_incoming (some e) k)
step_incoming fsm r (peer_known p) k = some (asks done (record k { peer = p }))
step_incoming fsm r (handshake_failed e) k = some (notes (handshaking_failed e) k)

abbrev pub resume_incoming :
    (IncomingConnection → Option IncomingConnection)
    → Option IncomingConnection
    → Option IncomingConnection
resume_incoming f none = none
resume_incoming f (some k) = f k

pub run_incoming :
    IncomingFsm → List (Listening × IncomingInput) → IncomingConnection → Option IncomingConnection
unfolding step_incoming
run_incoming fsm [] k = some k
run_incoming fsm ((r, i) ∷ rest) k =
    resume_incoming (run_incoming fsm rest) (step_incoming fsm r i k)
