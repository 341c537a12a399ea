-- ===== src/Observer.antt =====
-- src/observer.js and src/observe-connection.js: a connection that is observed. A buffer is a list
-- of bytes, and passes unchanged; its length is reported once the peer of the connection is known.
-- A promise that is resolved calls at once what waits for it, in order.
pub mod Traffic
pub mod Examples
use js_libp2p_swarm.Prelude.{ℕ, Option, none, some, List, [], ◌∷◌, ◌++◌, length}
use js_libp2p_swarm.Connection.Manager.{
  Connections, Event, connection_start, peer_mux_established, peer_mux_closed, connection_end,
  denylist_cleared, peer_disconnected, awaits_muxed,
}
use js_libp2p_swarm.Stats.Collection.{Direction, Message, Call, messages, closes}

-- The promise of the peer info: a peer info, or a value that is none.
pub data PeerPromise : Type 0 where
  pending : PeerPromise
  resolved : Option ℕ → PeerPromise

pub record Chunk : Type 0 where
  pub direction : Direction
  pub size : ℕ

pub record Observed : Type 0 where
  pub transport : Option ℕ
  pub protocol : Option ℕ
  pub peer : PeerPromise
  -- what waits for the peer
  pub waiting : List Chunk
  -- what went through, by direction, and the `message` events, each with the time of its call
  pub passed : List (Direction × List ℕ)
  pub emitted : List (ℕ × Message)

message_of : Option ℕ → Option ℕ → ℕ → Chunk → Message
message_of transport protocol peer k = record {
  peer = peer;
  transport = transport;
  protocol = protocol;
  direction = k.direction;
  length = k.size;
}

-- The callback of `willObserve` for each of the chunks.
emit_all : Option ℕ → Option ℕ → ℕ → Option ℕ → List Chunk → List (ℕ × Message)
unfolding message_of
emit_all transport protocol now none ks = []
emit_all transport protocol now (some peer) [] = []
emit_all transport protocol now (some peer) (k ∷ ks) =
    (now, message_of transport protocol peer k) ∷ emit_all transport protocol now (some peer) ks

-- `observeConnection`, with what `getPeerInfo` answers.
pub observe_connection : Option ℕ → Option ℕ → Option ℕ → Observed
observe_connection transport protocol answer = record {
  transport = transport;
  protocol = protocol;
  peer = elim answer [ none ↦ pending | some p ↦ resolved (some p) ];
  waiting = [];
  passed = [];
  emitted = [];
}

-- `willObserve`
will_observe : ℕ → Chunk → PeerPromise → Observed → Observed
unfolding emit_all
will_observe now k pending o = record o { waiting = o.waiting ++ k ∷ [] }
will_observe now k (resolved p) o = record o {
  emitted = o.emitted ++ emit_all o.transport o.protocol now p (k ∷ []);
}

-- `map((buffer) => …)` of `observe`
pass : ℕ → Direction → List ℕ → Observed → Observed
unfolding will_observe
pass now d buffer o =
    let o' = will_observe now (record { direction = d; size = length buffer }) o.peer o in
    record o' { passed = o'.passed ++ (d, buffer) ∷ [] }

-- The `setPeerInfo` that replaces the connection's own: a promise is resolved once.
resolve : ℕ → Option ℕ → PeerPromise → Observed → Observed
unfolding emit_all
resolve now p pending o = record o {
  peer = resolved p;
  waiting = [];
  emitted = o.emitted ++ emit_all o.transport o.protocol now p o.waiting;
}
resolve now p (resolved q) o = o

pub data Input : Type 0 where
  passes : (now : ℕ) → Direction → List ℕ → Input
  sets_peer : (now : ℕ) → Option ℕ → Input

step : Input → Observed → Observed
unfolding pass resolve
step (passes now d buffer) o = pass now d buffer o
step (sets_peer now p) o = resolve now p o.peer o

pub run : List Input → Observed → Observed
unfolding step
run [] o = o
run (i ∷ rest) o = run rest (step i o)

-- `peer-mux-closed` of the switch is `peer:closed` of the observer, which the statistics hear.
unfoldable peer_closed : Connections → Event → List Call
peer_closed s (peer_mux_closed c) = closes (s.their_id c) ∷ []
peer_closed s _ = []

-- The `message` events, as the statistics get them.
abbrev pub delivered : List (ℕ × Message) → List Call
delivered [] = []
delivered ((now, msg) ∷ rest) = messages now msg ∷ delivered rest
