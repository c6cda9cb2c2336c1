-- ===== src/Tests.antt =====
-- Runs of the model at concrete inputs, and the theorems at inputs that meet their hypotheses.
mod Zlibs
mod Codecs
mod Relays
mod Fragments
mod Registry
mod Noise
mod Sessions
mod Messages
mod Daemons
