-- ===== src/Host/State.antt =====
-- crates/libp2p-cat-host/src/state.rs, src/event.rs and the records of src/host.rs: the states of a
-- peer, the host that holds them, and what it reports. Reason texts are not kept.
use libp2p_cat_rs.Prelude.{ℕ, List}
use libp2p_cat_rs.Prelude.BTreeMap.{BTreeMap}
use libp2p_cat_rs.Types.Addr.{UdpAddr}
use libp2p_cat_rs.Types.PeerId.{PeerId}
use libp2p_cat_rs.Noise.Primitives.{StaticKeypair, StaticPublicKey}
use libp2p_cat_rs.Noise.Handshake.{InitiatorAfterE, ResponderAfterResponse}
use libp2p_cat_rs.Noise.Transport.{TransportState}
use libp2p_cat_rs.Identity.SignedStaticKey.{SignedStaticKey}
use libp2p_cat_rs.Udp.{UdpTransport}
use libp2p_cat_rs.Host.Capacity.{Capacity}

pub data HandshakeState : Type 0 where
  initiator_awaiting_response : InitiatorAfterE → List ℕ → HandshakeState
  responder_awaiting_finalize : ResponderAfterResponse → HandshakeState

pub record InFlightHandshake : Type 0 where
  pub state : HandshakeState
  pub last_activity : ℕ

pub record EstablishedConnection : Type 0 where
  pub transport : TransportState
  pub remote_static : StaticPublicKey
  pub remote_peer_id : PeerId
  pub last_activity : ℕ

pub record HostIdentity : Type 0 where
  pub static_keypair : StaticKeypair
  pub signed_static_key : SignedStaticKey
  pub peer_id : PeerId
  pub cookie_secret : List ℕ

-- `K` is the operating system's socket.
pub record Host (K : Type 0) : Type 0 where
  pub socket : UdpTransport K
  pub identity : HostIdentity
  pub handshakes : BTreeMap UdpAddr InFlightHandshake
  pub established : BTreeMap UdpAddr EstablishedConnection
  pub capacity : Capacity
  pub tick : ℕ

pub data HostEvent : Type 0 where
  handshake_progress : UdpAddr → HostEvent
  handshake_complete : UdpAddr → StaticPublicKey → PeerId → HostEvent
  datagram_delivered : UdpAddr → List ℕ → HostEvent
  rejected : UdpAddr → HostEvent
