-- ===== src/Types.antt =====
-- The crate crates/libp2p-cat-types: errors, addresses, peer and protocol identifiers.
pub mod Error
pub mod Addr
pub mod PeerId
pub mod ProtocolId
