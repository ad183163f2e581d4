-- ===== src/Rendezvous/Event.antt =====
-- crates/libp2p-cat-rendezvous/src/event.rs: what one step of the node reports. The text of a
-- rejection is not kept; that of a failed relay is bytes.
use libp2p_cat_rs.Prelude.{ℕ, Bool, List}
use libp2p_cat_rs.Types.Addr.{UdpAddr}
use libp2p_cat_rs.Types.PeerId.{PeerId}
use libp2p_cat_rs.Noise.Primitives.{StaticPublicKey}

pub data RendezvousEvent : Type 0 where
  handshake_progress : UdpAddr → RendezvousEvent
  handshake_complete : UdpAddr → StaticPublicKey → PeerId → RendezvousEvent
  observe_request_received : UdpAddr → RendezvousEvent
  observe_response_received : UdpAddr → UdpAddr → RendezvousEvent
  punch_request_received : UdpAddr → UdpAddr → Bool → RendezvousEvent
  punch_forward_received : UdpAddr → UdpAddr → RendezvousEvent
  relay_forwarded : UdpAddr → UdpAddr → Bool → ℕ → RendezvousEvent
  relay_received : UdpAddr → UdpAddr → List ℕ → RendezvousEvent
  relay_failed : UdpAddr → UdpAddr → List ℕ → RendezvousEvent
  rejected : UdpAddr → RendezvousEvent
