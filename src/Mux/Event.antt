-- ===== src/Mux/Event.antt =====
-- crates/libp2p-cat-mux/src/event.rs: what a multi-protocol node reports. Reason texts of rejections
-- are not kept.
use libp2p_cat_rs.Prelude.{ℕ, Bool, List}
use libp2p_cat_rs.Types.Addr.{UdpAddr}
use libp2p_cat_rs.Types.PeerId.{PeerId}
use libp2p_cat_rs.Noise.Primitives.{StaticPublicKey}
use libp2p_cat_rs.Kad.NodeId.{NodeId}
use libp2p_cat_rs.Kad.Bucket.{Entry}
use libp2p_cat_rs.Pubsub.Topic.{Topic}

pub data MultiProtocolEvent : Type 0 where
  handshake_progress : UdpAddr → MultiProtocolEvent
  handshake_complete : UdpAddr → StaticPublicKey → PeerId → NodeId → MultiProtocolEvent
  app_data : UdpAddr → List ℕ → MultiProtocolEvent
  pubsub_absorbed : UdpAddr → Topic → MultiProtocolEvent
  pubsub_delivered : UdpAddr → Topic → List ℕ → MultiProtocolEvent
  pubsub_relayed : UdpAddr → Topic → ℕ → MultiProtocolEvent
  pubsub_redundant : UdpAddr → Topic → MultiProtocolEvent
  kad_ping_request_received : UdpAddr → MultiProtocolEvent
  kad_ping_response_received : UdpAddr → MultiProtocolEvent
  kad_find_node_request_received : UdpAddr → NodeId → ℕ → MultiProtocolEvent
  kad_find_node_response_received : UdpAddr → List Entry → MultiProtocolEvent
  observe_request_received : UdpAddr → MultiProtocolEvent
  observe_response_received : UdpAddr → UdpAddr → MultiProtocolEvent
  punch_request_received : UdpAddr → UdpAddr → Bool → MultiProtocolEvent
  punch_forward_received : UdpAddr → UdpAddr → MultiProtocolEvent
  relay_forwarded : UdpAddr → UdpAddr → Bool → ℕ → MultiProtocolEvent
  relay_received : UdpAddr → UdpAddr → List ℕ → MultiProtocolEvent
  relay_failed : UdpAddr → UdpAddr → List ℕ → MultiProtocolEvent
  rpc_datagram : UdpAddr → List ℕ → MultiProtocolEvent
  rejected : UdpAddr → MultiProtocolEvent
