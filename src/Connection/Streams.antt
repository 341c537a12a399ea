-- ===== src/Connection/Streams.antt =====
-- src/connection/index.js:166-184 and 462-481: `shake` and `_protocolHandshake`, which open a stream
-- for a protocol. What the muxer and multistream answer is given beforehand.
use js_libp2p_swarm.Prelude.{ℕ, ◌≡◌, refl, Option, none, some, List, [], ◌∷◌, ◌⊎◌, inl, inr}
use js_libp2p_swarm.Errors.{SwitchError}
use js_libp2p_swarm.Connection.Inputs.{Answer, failed, ok}
use js_libp2p_swarm.Dialer.Queue.{Dial, Effect, connected, shaken}
use js_libp2p_swarm.Dialer.Queue

-- What is called for a handshake.
pub data StreamEffect : Type 0 where
  -- `muxer.newStream(…)`, `msDialer.handle(connection, …)`, `msDialer.select(protocol, …)`
  new_stream : (muxer : ℕ) → StreamEffect
  handle : (connection : ℕ) → StreamEffect
  select : (protocol : ℕ) → StreamEffect
  -- `emit('connection', conn)`
  connection_emitted : (conn : ℕ) → StreamEffect

-- The answers of the muxer to `newStream`, and of multistream to `handle` and `select`.
pub record Peers : Type 0 where
  pub on_new_stream : Answer SwitchError
  pub on_handle : Option SwitchError
  pub on_select : Answer SwitchError

-- What was called, and the two arguments of the callback.
pub record Shaken : Type 0 where
  pub calls : List StreamEffect
  pub error : Option SwitchError
  pub conn : Option ℕ

abbrev failing : List StreamEffect → SwitchError → Shaken
failing calls e = record { calls = calls; error = some e; conn = none }

-- The callback of `select`.
selected : Answer SwitchError → List StreamEffect → List StreamEffect → Shaken
selected (failed e) calls more = failing calls e
selected (ok n) calls more = record { calls = more; error = none; conn = some n }

abbrev emitted : Answer SwitchError → List StreamEffect
emitted (failed e) = []
emitted (ok n) = connection_emitted n ∷ []

-- `_protocolHandshake`
protocol_handshake : Peers → ℕ → ℕ → Shaken
unfolding selected
protocol_handshake a protocol connection = elim a.on_handle [
  | some e ↦ failing (handle connection ∷ []) e
  | none ↦
      selected a.on_select (handle connection ∷ select protocol ∷ [])
        (handle connection ∷ select protocol ∷ emitted a.on_select)
]

abbrev before : StreamEffect → Shaken → Shaken
before e s = record s { calls = e ∷ s.calls }

-- The callback of `newStream`.
streamed : Peers → ℕ → ℕ → Answer SwitchError → Shaken
unfolding protocol_handshake
streamed a protocol muxer (failed e) = failing (new_stream muxer ∷ []) e
streamed a protocol muxer (ok stream) =
    before (new_stream muxer) (protocol_handshake a protocol stream)

-- `shake` on a connection with a muxer, if it has one, and a base connection.
pub shake : Peers → (muxer : Option ℕ) → (conn : ℕ) → (protocol : Option ℕ) → Shaken
unfolding streamed protocol_handshake
shake a muxer conn none = record { calls = []; error = none; conn = none }
shake a none conn (some p) = protocol_handshake a p conn
shake a (some m) conn (some p) = streamed a p m a.on_new_stream

-- The callback of a dial is given the stream that was selected, or an error.
abbrev pub Concludes : Dial → Answer SwitchError → Shaken → Type 0
Concludes d x s =
    ((stream : ℕ) × (x ≡ ok stream)
      × (s.conn ≡ some stream)
      × (shaken d s.error s.conn ≡ connected d.callback stream))
    ⊎ ((e : SwitchError) × (s.error ≡ some e)
        × (s.conn ≡ none)
        × (shaken d s.error s.conn ≡ Queue.failed d.callback e))

handshake-Concludes :
    (n x : Answer SwitchError) (h : Option SwitchError) (d : Dial) (protocol conn : ℕ)
    → Concludes d x (
        protocol_handshake
          (record { on_new_stream = n; on_handle = h; on_select = x })
          protocol
          conn)
unfolding protocol_handshake selected shaken
handshake-Concludes n x (some e) d protocol conn = inr (e, refl, refl, refl)
handshake-Concludes n (failed e) none d protocol conn = inr (e, refl, refl, refl)
handshake-Concludes n (ok stream) none d protocol conn = inl (stream, refl, refl, refl)

-- The handshake of a dial with a protocol gives the dial's callback either the stream that
-- multistream selected, or an error, never neither.
pub shake-Concludes :
    (a : Peers) (muxer : Option ℕ) (conn protocol : ℕ) (d : Dial)
    → Concludes d a.on_select (shake a muxer conn (some protocol))
unfolding shake streamed shaken
shake-Concludes a none conn protocol d =
    handshake-Concludes a.on_new_stream a.on_select a.on_handle d protocol conn
shake-Concludes a (some m) conn protocol d = through a.on_new_stream
  where
    through : (n : Answer SwitchError) → Concludes d a.on_select (streamed a protocol m n)
    through (failed e) = inr (e, refl, refl, refl)
    through (ok stream) =
        handshake-Concludes a.on_new_stream a.on_select a.on_handle d protocol stream
