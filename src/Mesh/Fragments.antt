-- ===== src/Mesh/Fragments.antt =====
-- server/bitchatd/mesh/fragment_manager.py: packets that are too long for one message are cut in
-- pieces, and put together again from the pieces, in any order.
pub mod Payload
pub mod Split
pub mod Manager
pub mod Receive
pub mod Cleanup
pub mod Bounds
pub mod Merge
pub mod Accounting
pub mod Caps
pub mod Gather
pub mod Deliver
pub mod Cut
pub mod RoundTrip
pub mod Fit
pub mod Stamps
