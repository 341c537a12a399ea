-- ===== src/Connection.antt =====
-- src/connection/: the state machines of the connections that this node dials and accepts, the
-- streams that are opened over them, and the manager that tracks the connections of the switch.
pub mod States
pub mod Machine
pub mod Inputs
pub mod Unreachable
pub mod Closing
pub mod Dialing
pub mod Manager
pub mod Incoming
pub mod Streams
pub mod Identify
pub mod Muxed
pub mod Examples
