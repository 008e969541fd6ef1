-- ===== src/Managed.antt =====
-- base/src/net/rw.rs: the managed endpoint, its tasks and its closing.
pub mod Report
pub mod Listener
pub mod Receiver
pub mod Root
pub mod Endpoint
