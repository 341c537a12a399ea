-- ===== src/Dialer/Context.antt =====
-- What the code of src/dialer/ reads from its switch while it runs: the dialer's options
-- (src/dialer/index.js:114-117), the clock, `Math.random`, the peer book and the connection
-- manager. Each call takes the readings of its own moment. Peer ids, callbacks, protocols and
-- connections are numbers, since the code only compares them.
use js_libp2p_swarm.Prelude.{ℕ, ◌^◌, Bool, Option}

pub record Limits : Type 0 where
  pub deny_attempts : ℕ
  pub deny_ttl : ℕ
  pub max_cold_calls : ℕ
  pub max_parallel_dials : ℕ

pub record Context : Type 0 where
  pub limits : Limits
  pub open limits use *
  -- `Date.now()`
  pub now : ℕ
  -- `Math.random()`, in units of 1 / 2 ^ 53
  pub random : ℕ
  -- whether `_peerBook.get(id)` finds a peer; it throws where it does not
  pub in_peer_book : ℕ → Bool
  -- `peerInfo.isConnected()`
  pub is_connected : ℕ → Bool
  -- `peerInfo.protocols.size > 0`
  pub is_identified : ℕ → Bool
  -- `switch.connection.getOne(id)`: a muxed connection to the peer
  pub get_one : ℕ → Option ℕ

abbrev pub random_unit : ℕ
random_unit = 2 ^ 53
