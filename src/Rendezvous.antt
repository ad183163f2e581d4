-- ===== src/Rendezvous.antt =====
-- The crate crates/libp2p-cat-rendezvous: the wire codec, and the node that answers and forwards.
pub mod Codec
pub mod Event
pub mod Node
