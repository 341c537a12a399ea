-- ===== src/Connection/States.antt =====
-- src/connection/index.js:61-115: the states of a `ConnectionFSM` and the transitions that it gives
-- to fsm-event. That package is not part of the repository: `Fsm` is its documented use of such a
-- table. A trigger that the state's row lacks is an error, `none`.
use js_libp2p_swarm.Prelude.{◌≡◌, Option, none, some}

pub data State : Type 0 where
  disconnected dialing dialed privatizing privatized encrypting encrypted : State
  upgrading muxed connected disconnecting aborted errored : State

pub data Trigger : Type 0 where
  dial disconnect done abort error encrypt privatize upgrade stop : Trigger

unfoldable pub transition : State → Trigger → Option State
transition disconnected dial = some dialing
transition disconnected disconnect = some disconnected
transition disconnected done = some disconnected
transition dialing abort = some aborted
transition dialing done = some dialed
transition dialing error = some errored
transition dialing disconnect = some disconnecting
transition dialed encrypt = some encrypting
transition dialed privatize = some privatizing
transition privatizing done = some privatized
transition privatizing abort = some aborted
transition privatizing disconnect = some disconnecting
transition privatized encrypt = some encrypting
transition encrypting done = some encrypted
transition encrypting error = some errored
transition encrypting disconnect = some disconnecting
transition encrypted upgrade = some upgrading
transition encrypted disconnect = some disconnecting
transition upgrading stop = some connected
transition upgrading done = some muxed
transition upgrading error = some errored
transition upgrading disconnect = some disconnecting
transition muxed disconnect = some disconnecting
transition connected disconnect = some disconnecting
transition disconnecting done = some disconnected
transition disconnecting disconnect = some disconnecting
transition errored disconnect = some disconnecting
transition _ _ = none

pub record Fsm : Type 0 where
  pub fire : State → Trigger → Option State
  pub follows : (s : State) (t : Trigger) → fire s t ≡ transition s t
