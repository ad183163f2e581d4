-- ===== src/Noise.antt =====
-- The crate crates/libp2p-cat-noise: the AEAD helpers, the XX handshake over its symmetric state, and
-- the transport of an established session.
pub mod Aead
pub mod Transport
pub mod Primitives
pub mod Symmetric
pub mod Handshake
