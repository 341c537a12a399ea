-- ===== src/Dialer/Queue.antt =====
-- src/dialer/queue.js: the dial requests of one peer. A method returns the queue it leaves, what
-- it called, and whether it ended by `onStopped`: in every method that call, the call of
-- `connectionFSM.dial()` and an exception of the peer book come last, so the manager goes on
-- from the outcome.
pub mod Denylist
pub mod Running
pub mod Dials
pub mod Waiting
pub mod Told
use js_libp2p_swarm.Prelude.{
  ℕ, ◌+◌, ◌-◌, ◌*◌, ◌/◌, ◌^◌, Bool, true, false, not, ◌||◌, ◌&&◌, Option, none, some, List, [], ◌∷◌,
  ◌++◌, map, ltb, leb, ◌==◌, if◌then◌else◌,
}
use js_libp2p_swarm.Errors.{SwitchError, dial_aborted, err_denied}
use js_libp2p_swarm.Dialer.Context.{Context, random_unit}

-- A callback is `none` where the caller gave none, and an empty protocol is `none`.
pub record Dial : Type 0 where
  pub protocol : Option ℕ
  pub use_fsm : Bool
  pub callback : Option ℕ

-- `denylisted`: `null`, a time, or `Infinity`.
pub data Deny : Type 0 where
  allowed : Deny
  until : ℕ → Deny
  forever : Deny

pub record Queue : Type 0 where
  pub id : ℕ
  pub queue : List Dial
  pub denylisted : Deny
  pub denylist_count : ℕ
  pub is_running : Bool

-- What the queue does to the rest of the program, in order.
pub data Effect : Type 0 where
  -- `callback(err)` at once, and by `nextTick`
  failed deferred : Option ℕ → SwitchError → Effect
  -- `callback()` with neither an error nor a connection
  called_empty : Option ℕ → Effect
  -- `callback(null, conn)`, with the peer set on the stream
  connected : Option ℕ → ℕ → Effect
  -- `nextTick(callback, null, connectionFSM)`
  gave_fsm : Option ℕ → ℕ → Effect
  -- `connection.shake(protocol, …)` for a dial
  shook : (connection : ℕ) → Dial → Effect
  -- a new `ConnectionFSM` for the peer, added to the connection manager, and its `dial()`
  created dialed : (connection : ℕ) → (peer : ℕ) → Effect

pub record Outcome : Type 0 where
  pub queue : Queue
  pub effects : List Effect
  -- `onStopped(id)` was called
  pub stopped : Bool
  -- the dial that waits for the connection that was created
  pub waits : Option Dial
  -- `_peerBook.get` threw
  pub threw : Bool

unfoldable pub init : ℕ → Queue
init peer_id = record {
  id = peer_id;
  queue = [];
  denylisted = allowed;
  denylist_count = 0;
  is_running = false;
}

-- The state and effects of a method that neither stopped the queue nor left a dial waiting.
abbrev pub plain : Queue → List Effect → Outcome
plain q es = record { queue = q; effects = es; stopped = false; waits = none; threw = false }

-- `createConnectionWithProtocol`, up to the answer of the handshake.
create_connection_with_protocol : ℕ → Dial → Effect
create_connection_with_protocol connection d = elim d.protocol [
  | none ↦ called_empty d.callback
  | some p ↦ shook connection d
]

-- The callback that it hands to `shake`.
unfoldable pub shaken : Dial → Option SwitchError → Option ℕ → Effect
shaken d err (some stream) = connected d.callback stream
shaken d (some e) none = failed d.callback e
shaken d none none = called_empty d.callback

is_past : Context → Deny → Bool
is_past c allowed = true
is_past c (until t) = ltb t c.now || (t == 0)
is_past c forever = false

-- A time that has passed is reset; `0` is no denial to the source's test.
reset : Context → Deny → Deny
reset c allowed = allowed
reset c (until t) = if ltb t c.now && not (t == 0) then allowed else until t
reset c forever = forever

unfoldable pub is_dial_allowed : Context → Queue → Queue × Bool
unfolding is_past reset
is_dial_allowed c q = (record q { denylisted = reset c q.denylisted }, is_past c q.denylisted)

unfoldable pub add : Context → Dial → Queue → Outcome
unfolding is_dial_allowed
add c d q =
    let (q', ok) = is_dial_allowed c q in
    if ok
    then plain (record q' { queue = q'.queue ++ d ∷ [] }) []
    else plain q' (deferred d.callback err_denied ∷ [])

unfoldable pub stop : Queue → Outcome
stop q =
    if q.is_running
    then record (plain (record q { is_running = false }) []) { stopped = true }
    else plain q []

-- The loop of `abort`: each dial is shifted and its callback called with an error.
pub drain : List Dial → List Effect
drain [] = []
drain (d ∷ ds) = failed d.callback dial_aborted ∷ drain ds

unfoldable pub abort : Queue → Outcome
unfolding stop drain
abort q = record (stop (record q { queue = [] })) { effects = drain q.queue }

-- `Math.floor(Math.random() * (maxTTL - minTTL) + minTTL)` for `minTTL = ttl * 0.9` and
-- `maxTTL = ttl * 1.1`, over the rationals: the rounding of the doubles is left out.
unfoldable pub jitter : ℕ → ℕ → ℕ
jitter random ttl = (random * (ttl * 11 - ttl * 9) + ttl * 9 * random_unit) / (10 * random_unit)

unfoldable pub base_ttl : Context → ℕ → ℕ
base_ttl c count = c.deny_ttl * count ^ 3

pub denylist : Context → Queue → Outcome
unfolding abort
denylist c q =
    let count = q.denylist_count + 1 in
    if leb c.deny_attempts count
    then plain (record q { denylist_count = count; denylisted = forever }) []
    else abort (record q {
      denylist_count = count;
      denylisted = until (c.now + jitter c.random (base_ttl c count));
    })

-- `_getOrCreateConnection` and the rest of `_run` for a dial that was shifted, where no muxed
-- connection is at hand. The new connection is disconnected, so the handshake of the next case
-- is never made for it, and it is dialed.
unfoldable pub dial_new : ℕ → Dial → Queue → Outcome
dial_new fresh d q = record {
  queue = q;
  effects =
      created fresh q.id ∷ (if d.use_fsm then gave_fsm d.callback fresh ∷ [] else [])
      ++ dialed fresh q.id ∷ [];
  stopped = false;
  waits = some d;
  threw = false;
}

-- A muxed connection is at hand: hand it out, and start the handshake.
dial_muxed : ℕ → Dial → List Effect
unfolding create_connection_with_protocol
dial_muxed connection d =
    (if d.use_fsm then gave_fsm d.callback connection ∷ [] else [])
    ++ create_connection_with_protocol connection d ∷ []

abbrev prepend : List Effect → Outcome → Outcome
prepend es o = record o { effects = es ++ o.effects }

-- `_run` on a queue that holds the given dials; `fresh` is the connection that
-- `new ConnectionFSM` would make. `next()` is the recursive call.
run_dials : Context → ℕ → Queue → List Dial → Outcome
unfolding stop dial_new dial_muxed
run_dials c fresh q [] = stop (record q { queue = [] })
run_dials c fresh q (d ∷ ds) =
    let rest = run_dials c fresh q ds in
    if not q.is_running
    then stop (record q { queue = d ∷ ds })
    else if not (c.in_peer_book q.id)
    then record (plain (record q { queue = d ∷ ds }) []) { threw = true }
    else elim (c.get_one q.id) [
      | some connection ↦ prepend (dial_muxed connection d) rest
      | none ↦ dial_new fresh d (record q { queue = ds })
    ]

unfoldable pub run : Context → ℕ → Queue → Outcome
unfolding run_dials
run c fresh q = run_dials c fresh q q.queue

-- `start`: the Boolean result is whether the queue was at rest.
unfoldable pub start : Context → ℕ → Queue → Outcome × Bool
unfolding run
start c fresh q =
    if not q.is_running
    then (run c fresh (record q { is_running = true }), true)
    else (plain q [], false)

-- The listener of the `error` event for a dial that waits.
unfoldable pub on_error : Context → SwitchError → Dial → Queue → Outcome
unfolding denylist
on_error c err d q =
    if c.is_identified q.id && c.is_connected q.id
    then plain q (failed d.callback err ∷ [])
    else prepend (failed d.callback err ∷ []) (denylist c q)

-- The listener of `muxed` and of `unmuxed`, up to `next()`.
unfoldable pub on_established : ℕ → Dial → Queue → Queue × Effect
unfolding create_connection_with_protocol
on_established connection d q =
    (record q { denylist_count = 0 }, create_connection_with_protocol connection d)
