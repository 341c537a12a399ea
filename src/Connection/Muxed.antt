-- ===== src/Connection/Muxed.antt =====
-- src/connection/manager.js: `addStreamMuxer` with its handler for incoming streams, `crypto`,
-- `enableCircuitRelay` and `reuse`, and the connection of src/connection/index.js that is made muxed. What the crypto, the
-- muxer, multistream and identify answer is given beforehand. PeerReadings, multiaddrs, codecs, muxers and
-- connection objects are numbers.
pub mod Tracked
use js_libp2p_swarm.Prelude.{
  ℕ, Bool, true, false, Option, none, some, List, [], ◌∷◌, ◌++◌, if◌then◌else◌, put, ◌||◌,
}
use js_libp2p_swarm.Errors.{SwitchError}
use js_libp2p_swarm.Connection.States.{muxed}
use js_libp2p_swarm.Connection.Machine.{Connection}
use js_libp2p_swarm.Connection.Machine
use js_libp2p_swarm.Connection.Manager.{Connections, ConnectionManager, add}
use js_libp2p_swarm.Transports.Registry.{Registry}
use js_libp2p_swarm.Transports.Registry
use js_libp2p_swarm.Switch.Protocols.{Protocols, handle}

-- What these methods set on the switch.
pub record Setup : Type 0 where
  pub muxers : List (ℕ × ℕ)
  pub identify : Bool
  -- the tag and the function of the crypto
  pub crypto : Option ℕ × Option ℕ
  pub protocols : Protocols

-- The `switch.handle` of a muxer; `handler` is the function below.
unfoldable pub add_stream_muxer : (codec : ℕ) → (muxer : ℕ) → (handler : ℕ) → Setup → Setup
unfolding handle
add_stream_muxer codec muxer handler s = record s {
  muxers = put codec muxer s.muxers;
  protocols = handle codec (some handler) none s.protocols;
}

-- `crypto(tag, encrypt)`, with the tag and the function of src/plaintext.js.
unfoldable pub set_crypto : ℕ × ℕ → Option ℕ → Option ℕ → Setup → Setup
set_crypto plain none none s = record s { crypto = (some plain.0, some plain.1) }
set_crypto plain tag encrypt s = record s { crypto = (tag, encrypt) }

unfoldable pub reuse : (codec : ℕ) → (handler : ℕ) → Setup → Setup
unfolding handle
reuse codec handler s = record s {
  identify = true;
  protocols = handle codec (some handler) none s.protocols;
}

-- `enableCircuitRelay`: the config, if there is one, is whether the relay is enabled, and its `hop`.
-- The relay is added as a transport with the hop that it gets; `none` is the exception of `add`.
unfoldable pub enable_circuit_relay :
    (tag : ℕ)
    → Option (Bool × Option (Bool × Bool))
    → Registry
    → Option (Registry × Option (Bool × Bool))
enable_circuit_relay tag none m = some (m, none)
enable_circuit_relay tag (some (false, hop)) m = some (m, none)
enable_circuit_relay tag (some (true, hop)) m = elim (Registry.add tag none m) [
  | none ↦ none
  | some m' ↦ some (m', some (elim hop [ none ↦ (false, false) | some h ↦ h ]))
]

-- What `peerInfo.connect` is given: a multiaddr, or the text made of the id.
pub data Address : Type 0 where
  multiaddr : ℕ → Address
  ipfs_id : (id : ℕ) → Address

pub data MuxEffect : Type 0 where
  -- `muxer.listener(conn)`, `muxedConn.on('stream', protocolMuxer(null))`
  listener streams_handled : (conn : ℕ) → MuxEffect
  -- `muxedConn.newStream()`, `muxedConn.end(…)`
  new_stream end_muxer : (muxer : ℕ) → MuxEffect
  -- `msHandle`, `msSelect`, and `identifyDialer` with the peer that the crypto found
  ms_handle ms_select : MuxEffect
  identify_dialer : (crypto_peer : Option ℕ) → MuxEffect
  -- `conn.setPeerInfo(…)`, `peerBook.put(…)`, `peerInfo.connect(…)`
  set_peer_info put_peer : (peer : ℕ) → MuxEffect
  connect_to : (peer : ℕ) → Address → MuxEffect
  -- `muxedConn.once('close', …)`
  awaits_close : (muxer : ℕ) → MuxEffect

-- How the stream of identify ends: the first error of its three parts, or a peer info, if any.
pub data Identified : Type 0 where
  not_handled not_selected not_identified : SwitchError → Identified
  identified : Option ℕ → Identified

-- What the peer book's peer info answers.
pub record PeerReadings : Type 0 where
  pub is_connected : ℕ → Bool
  pub multiaddrs : ℕ → List ℕ

pub record Node : Type 0 where
  pub manager : ConnectionManager
  -- the connection objects that were made, with their numbers
  pub made : List (ℕ × Connection)
  pub calls : List MuxEffect

-- A connection that is made with a muxer.
unfoldable pub init_muxed : (conn : ℕ) → (muxer : ℕ) → Connection
unfolding Machine.init
init_muxed conn muxer = record Machine.init {
  state = muxed;
  conn = some conn;
  muxer = some muxer;
  on_connected = false;
  on_private = false;
  on_encrypted = false;
}

abbrev pub first_address : ℕ → List ℕ → Address
first_address peer [] = ipfs_id peer
first_address peer (a ∷ rest) = multiaddr a

-- `peerInfo.connect(…)`, if it is not connected.
unfoldable pub connect_peer : PeerReadings → ℕ → List MuxEffect
connect_peer p peer =
    if p.is_connected peer
    then []
    else connect_to peer (first_address peer (p.multiaddrs peer)) ∷ []

abbrev pub calling : List MuxEffect → Node → Node
calling es n = record n { calls = n.calls ++ es }

-- The second call of `getPeerInfo` and its callback. `none` is the exception where identify answers
-- neither an error nor a peer info. `c` is the number of the connection object that is made.
unfoldable pub on_identified :
    Connections
    → PeerReadings
    → (c : ℕ) → (conn : ℕ) → (muxer : ℕ) → (crypto_peer : Option ℕ) → Identified
    → Node
    → Option Node
unfolding init_muxed connect_peer
on_identified s p c conn muxer crypto_peer (not_handled e) n =
    some (calling (ms_handle ∷ end_muxer muxer ∷ []) n)
on_identified s p c conn muxer crypto_peer (not_selected e) n =
    some (calling (ms_handle ∷ ms_select ∷ end_muxer muxer ∷ []) n)
on_identified s p c conn muxer crypto_peer (not_identified e) n =
    some (calling (ms_handle ∷ ms_select ∷ identify_dialer crypto_peer ∷ end_muxer muxer ∷ []) n)
on_identified s p c conn muxer crypto_peer (identified none) n = none
on_identified s p c conn muxer crypto_peer (identified (some peer)) n = some (record n {
  manager = add s c n.manager;
  made = n.made ++ (c, init_muxed conn muxer) ∷ [];
  calls =
      n.calls
      ++ ms_handle
        ∷ ms_select
        ∷ identify_dialer crypto_peer
        ∷ set_peer_info peer
        ∷ put_peer peer
        ∷ (connect_peer p peer ++ awaits_close muxer ∷ []);
})

-- The handler of the muxer's protocol, with the muxed connection that `listener` gives.
unfoldable pub on_muxed_stream :
    Bool
    → Connections
    → PeerReadings
    → (c : ℕ) → (conn : ℕ) → (muxer : ℕ) → (crypto_peer : Option ℕ) → Identified
    → Node
    → Option Node
unfolding on_identified
on_muxed_stream identify s p c conn muxer crypto_peer answer n =
    let n' = calling (listener conn ∷ streams_handled muxer ∷ []) n in
    if identify
    then on_identified s p c conn muxer crypto_peer answer (calling (new_stream muxer ∷ []) n')
    else some n'
