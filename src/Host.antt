-- ===== src/Host.antt =====
-- The crate crates/libp2p-cat-host: the bounded tables of peers, the source-address
-- cookies and the dispatch of datagrams.
pub mod Capacity
pub mod State
pub mod Table
pub mod Cookie
pub mod Dispatch
