-- ===== src/Kad/Event.antt =====
-- crates/libp2p-cat-kad/src/event.rs: what one step of the node reports. Reason texts are not kept.
use libp2p_cat_rs.Prelude.{ℕ, List}
use libp2p_cat_rs.Types.Addr.{UdpAddr}
use libp2p_cat_rs.Types.PeerId.{PeerId}
use libp2p_cat_rs.Kad.NodeId.{NodeId}
use libp2p_cat_rs.Kad.Bucket.{Entry}

pub data KadEvent : Type 0 where
  handshake_progress : UdpAddr → KadEvent
  handshake_complete : UdpAddr → List ℕ → PeerId → NodeId → KadEvent
  ping_request_received : UdpAddr → KadEvent
  ping_response_received : UdpAddr → KadEvent
  find_node_request_received : UdpAddr → NodeId → ℕ → KadEvent
  find_node_response_received : UdpAddr → List Entry → KadEvent
  rejected : UdpAddr → KadEvent
