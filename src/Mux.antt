-- ===== src/Mux.antt =====
-- The crate crates/libp2p-cat-mux: the protocols of the other crates over one host.
pub mod Event
pub mod Node
pub mod Lookup
