-- ===== src/Daemon.antt =====
-- server/daemon.py: the way of a packet from Bluetooth to the fragment manager, the session manager
-- and the relay engine. The globals are those that `run` has set.
pub mod Repeats
pub mod State
pub mod Dispatch
pub mod Invariant
pub mod Table
pub mod Once
pub mod Sending
pub mod Link
