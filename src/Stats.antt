-- ===== src/Stats.antt =====
-- src/stats/: the counters of the traffic, and the collection of them by peer, transport and
-- protocol.
pub mod Stat
pub mod Collection
pub mod Examples
