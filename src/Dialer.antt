-- ===== src/Dialer.antt =====
-- src/dialer/: the dial queue of a peer, the manager of all queues, and the dialer's interface.
pub mod Context
pub mod Queue
pub mod Manager
pub mod Api
pub mod Examples
