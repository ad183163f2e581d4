-- ===== src/Identity.antt =====
-- The crate crates/libp2p-cat-identity: Ed25519 identities, and the binding of a static key to one.
pub mod Keypair
pub mod SignedStaticKey
