-- ===== src/Lib.antt =====
-- libp2p-switch: how a node dials its peers and is dialed, over which transports, and what it
-- counts of the traffic.
--
-- The switch (src/index.js) goes from STOPPED over STARTING to STARTED, where it listens on its
-- transports (src/transport.js), and over STOPPING back, and starts and stops the statistics
-- (src/stats/) and the dialer. A caller dials a peer through src/dialer/index.js. The peer is looked
-- up by src/get-peer-info.js, and the request goes to the `DialQueueManager` of
-- src/dialer/queueManager.js, which keeps one queue (src/dialer/queue.js) for each peer, runs at
-- most `MAX_PARALLEL_DIALS` of them at a time, beside those of connected peers, and holds back
-- further cold calls. A queue that runs
-- hands each request to a muxed connection, if the connection manager has one, or makes a
-- `ConnectionFSM` (src/connection/index.js over src/connection/base.js), dials it and goes on when
-- that is muxed, unmuxed or closed; a failure denies the peer for a time. The connection tries the
-- transports in turn, and protects, encrypts and muxes what it gets. A transport is dialed at the
-- addresses of the peer that are not our own, one after the other (src/limit-dialer/). The streams
-- of a connection are answered by src/protocol-muxer.js, and what passes through them is reported by
-- src/observer.js to the statistics.
--
-- Files:
--   Prelude            names of the libraries, Boolean tests, lists and sets over native numbers
--   Constants, Errors  src/constants.js, src/errors.js
--   PeerInfos          src/get-peer-info.js: `getPeerInfo`
--   Dialer/Context     what the dialer reads from the switch at a moment
--   Dialer/Queue       src/dialer/queue.js: `add`, `isDialAllowed`, `start`, `stop`, `abort`,
--                      `denylist`, `_run`, and the listeners on a connection
--     Queue/Denylist   how long a denial lasts; Queue/Dials: where every request goes;
--     Queue/Running    what a method may do to a queue that the manager relies on;
--     Queue/Waiting    what a method leaves waiting for a connection; Queue/Told: that the
--                      connection was told to dial
--   Dialer/Manager     src/dialer/queueManager.js: `add`, `run`, `_onQueueStopped`, `getQueue`,
--                      `clearDenylist`, `start`
--     Manager/Sweep    `stop` and `_clean`; Manager/Listeners: the events of a connection;
--     Manager/History  any sequence of these
--     Manager/Slots, Invariant, Methods, Idle, Histories   the invariant and its proof
--     Manager/Shutdown, FirstDial                          what `stop` and a first `add` do
--     Manager/Waiting with Places, Calls, Events, Alive    what each slot waits for
--     Manager/Announced, Growth, Answers, Flag             what a call or an event leaves of the rest
--   Dialer/Api         src/dialer/index.js: `dial`, `dialFSM`, `connect`, `clearDenylist`
--   Connection/States  the table that src/connection/index.js gives to fsm-event
--   Connection/Machine the handlers of the states; Connection/Inputs: methods and callbacks
--   Connection/Unreachable, Closing, Dialing   what is proved of them
--   Connection/Streams `shake` and `_protocolHandshake` of src/connection/index.js
--   Connection/Identify `_identify` of src/connection/index.js, the promises of src/utils.js, and
--                      src/plaintext.js
--   Connection/Manager src/connection/manager.js: `add`, `get`, `getOne`, `remove`, `getAll`
--     Manager/Entries, Contents, Tracking        the tracked connections as a set;
--     Manager/Lookups                            `getOne`, and `remove` without effect on the lists
--   Connection/Muxed   src/connection/manager.js: `addStreamMuxer`, `crypto`, `enableCircuitRelay`,
--                      `reuse`; Muxed/Tracked: an incoming muxed connection to its close
--   Connection/Incoming src/connection/incoming.js and src/connection/handler.js;
--     Incoming/Progress                          its stages, and how it is closed
--   Transports/Texts   the operations of JavaScript's strings that src/transport.js uses
--   Transports/Addresses src/transport.js: `dialables`, `ourAddresses`, `getDestination`, the
--                      addresses of `listen`, and `uniqueBy` of src/utils.js;
--     Transports/Ours, Keys   which of them are dialed, and listened on
--   Transports/Registry src/transport.js: `add`, `remove`, `removeAll`, `close`, `listen`
--   Transports/LimitDialer src/limit-dialer/index.js and src/limit-dialer/queue.js;
--     LimitDialer/Tried                          what a list of addresses comes to
--   Transports/Dial    src/transport.js: `dial`, from the filter to `peerInfo.connect`
--   Stats/Stat         src/stats/stat.js; Stat/Counting, Stat/Sampling: what it counts, and what its
--                      moving averages are told
--   Stats/Collection   src/stats/index.js and src/stats/old-peers.js; Collection/Shares, Carried: what the
--                      statistics count together
--   Observer           src/observer.js and src/observe-connection.js; Observer/Traffic: from the
--                      bytes of a connection to the statistics
--   Switch/Available   src/index.js: `availableTransports`, `hasTransports`
--   Switch/Protocols   src/index.js: `handle`, `unhandle`, and src/protocol-muxer.js;
--     Protocols/Handled                          what their calls leave registered
--   Switch/Lifecycle   src/index.js: the state machine, `start`, `stop`, `hangUp`, with the manager of
--                      src/dialer/index.js; Switch/Running, Starting, Stopping, Hasty: what is proved,
--                      over Switch/Jobs and Dialer/Manager/Flag
--   System             the dialer with the connections that it makes and the connection manager:
--                      src/dialer/queue.js:184-277, and the listener of src/connection/manager.js:42
--     System/Endings, Sound, Opened, Heard, Holds, Emitted, Reached: the invariant of the three
--     System/Slots: what it says of slots and of events
--   Examples           in each part, runs and the theorems at concrete inputs
--
-- How the model corresponds to the code. Peer ids, protocols, callbacks, connections and muxers
-- are numbers, since the code only compares them and passes them on. A method takes the state and
-- the readings of its moment (clock, `Math.random`, peer book, connection manager) and gives the
-- state that it leaves with the list of what it called; a callback of a user is logged at each
-- call (`add` wraps it by `once`, so only the first reaches the user) and does not call back into
-- the dialer. Queue objects stand in a heap, since a listener keeps its queue after `_queues` has
-- dropped it. `peerBook.get` may throw, and the throw is modelled up to the caller of `add`. The
-- recursion of `run` and `_onQueueStopped` takes a peer from a set each time, so it is structural
-- and needs no fuel, as is `_run` on the queue's list. The state machine of a connection is
-- asynchronous: a call of `this._state` is a request that a later input answers, and the answers
-- of transports, protector, crypto, multistream, muxers and identify come as inputs in any order.
-- The switch is modelled in the same way: each use of `eachSeries` and `each` of the package async is
-- a job, whose answers come as inputs. An `error` that the switch emits without a listener is an
-- uncaught exception and ends the history; what a dial, an event of a connection or `hangUp` throws to
-- what called it is an effect in the switch's log. Which name multistream calls a handler of the
-- protocol muxer with is a parameter. `tryEach` of async and the cache hashlru are parameters with
-- the laws that the code relies on; `parallel` and `timeout` of async, retimer, moving-average,
-- multistream and multiaddr are seen by the calls that they get and the answers that they give.
-- fsm-event and the peer book are packages, parameters of the model with the behaviour that their
-- documentation gives. The jitter of a denial is computed over the rationals, without the rounding
-- of doubles. In System the connection of a dial is the link at the place of the dial, and an event
-- waits in an inbox until its listeners have run, each before the next; incoming connections and
-- the listeners of users are left out there.
--
-- Not modelled: the limit of eight dials for each peer in src/limit-dialer/queue.js is that of the
-- package's `queue`; the dials of one list come one after the other. The listeners for `update` on
-- statistics only emit `update` again. Transports, muxers, relays, identify and multistream are
-- packages. Logging is left out.
pub mod Prelude
pub mod Constants
pub mod Errors
pub mod PeerInfos
pub mod Dialer
pub mod Connection
pub mod Transports
pub mod Stats
pub mod Observer
pub mod Switch
pub mod System
