-- ===== src/Pubsub.antt =====
-- The crate crates/libp2p-cat-pubsub: topics, the tables of decoders and relays, the wire forms of
-- authenticators and frames, and the mux over a host.
pub mod Topic
pub mod State
pub mod Auth
pub mod Codec
pub mod Mux
