-- ===== src/Transports.antt =====
-- src/transport.js and src/limit-dialer/: the transports of the switch, which addresses of a peer
-- are dialed, and how.
pub mod Texts
pub mod Addresses
pub mod Ours
pub mod Keys
pub mod Registry
pub mod LimitDialer
pub mod Dial
pub mod Examples
