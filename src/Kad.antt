-- ===== src/Kad.antt =====
-- The crate crates/libp2p-cat-kad: identifiers, distances, buckets and the routing table, the wire
-- codec, and the iterative lookup.
pub mod AddrCodec
pub mod Codec
pub mod Distance
pub mod NodeId
pub mod Bucket
pub mod RoutingTable
pub mod Event
pub mod Lookup
pub mod Node
