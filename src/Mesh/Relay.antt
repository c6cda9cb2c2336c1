-- ===== src/Mesh/Relay.antt =====
-- server/bitchatd/mesh/relay_engine.py: whether a received packet is passed on, and to whom. What a
-- call sends is the list of its actions; the clock, the random number and the callbacks are arguments.
pub mod Cache
pub mod Route
pub mod Decision
pub mod Engine
pub mod Hops
pub mod Order
pub mod Dedup
pub mod Once
pub mod Routing
pub mod Flood
