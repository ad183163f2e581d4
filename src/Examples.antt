-- ===== src/Examples.antt =====
-- Runs at concrete inputs, and the theorems applied there.
mod Data
mod Noise
mod Kad
mod Lookup
mod Host
mod Pubsub
mod Crypto
mod Peers
mod Nodes
mod Mux
mod Redial
