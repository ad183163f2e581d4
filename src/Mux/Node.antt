-- ===== src/Mux/Node.antt =====
-- crates/libp2p-cat-mux/src/node.rs: one host under the tables of Kademlia and pubsub. The first byte
-- of a plaintext says whose it is; a transient node of that protocol handles the rest.
pub mod Isolation
use libp2p_cat_rs.Prelude.{
  ℕ, ◌==◌, ◌||◌, Bool, none, some, List, ◌∷◌, if◌then◌else◌, first, slice_from, or_empty,
}
use libp2p_cat_rs.Types.Error.{Result, ok, ◌>>=◌}
use libp2p_cat_rs.Types.Addr.{UdpAddr}
use libp2p_cat_rs.Udp.{UdpSocket}
use libp2p_cat_rs.Host.State
use libp2p_cat_rs.Host.State.{Host, HostEvent}
use libp2p_cat_rs.Host.Dispatch
use libp2p_cat_rs.Host.Dispatch.{Crypto}
use libp2p_cat_rs.Kad.NodeId.{NodeId}
use libp2p_cat_rs.Kad.RoutingTable
use libp2p_cat_rs.Kad.RoutingTable.{RoutingTable}
use libp2p_cat_rs.Kad.Codec as KadCodec
use libp2p_cat_rs.Kad.Codec.{ping_req_frame, find_node_req_frame}
use libp2p_cat_rs.Kad.Event as KadEvent
use libp2p_cat_rs.Kad.Event.{KadEvent}
use libp2p_cat_rs.Kad.Node as KadNode
use libp2p_cat_rs.Rendezvous.Codec as RendezvousCodec
use libp2p_cat_rs.Rendezvous.Codec.{observe_req_frame, punch_req_frame}
use libp2p_cat_rs.Rendezvous.Event as RendezvousEvent
use libp2p_cat_rs.Rendezvous.Event.{RendezvousEvent}
use libp2p_cat_rs.Rendezvous.Node as Rendezvous
use libp2p_cat_rs.Pubsub.Topic.{Topic}
use libp2p_cat_rs.Pubsub.State as Tables
use libp2p_cat_rs.Pubsub.State.{PubsubState}
use libp2p_cat_rs.Pubsub.Auth.{WireAuthenticator}
use libp2p_cat_rs.Pubsub.Mux as Pubsub
use libp2p_cat_rs.Pubsub.Mux.{Rng, Coding, PubsubMux, MuxEvent}
use libp2p_cat_rs.Pubsub.Mux.Receive
use libp2p_cat_rs.Mux.Event
use libp2p_cat_rs.Mux.Event.{MultiProtocolEvent}

abbrev pub kind_app : ℕ
kind_app = 0

abbrev pub kind_pubsub : ℕ
kind_pubsub = 1

abbrev pub kind_kad : ℕ
kind_kad = 2

abbrev pub kind_rendezvous : ℕ
kind_rendezvous = 3

abbrev pub kind_rpc : ℕ
kind_rpc = 4

pub record MultiProtocolNode (K D R C : Type 0) : Type 0 where
  pub host : Host K
  pub pubsub_state : PubsubState D R C
  pub kad_table : RoutingTable

abbrev pub kind_wrap : ℕ → List ℕ → List ℕ
kind_wrap kind bytes = kind ∷ bytes

-- Handshake events are the host's; from a plaintext they are reported as rejections.
unfoldable pub lift_pubsub_event : MuxEvent → MultiProtocolEvent
lift_pubsub_event (Pubsub.app_data addr bytes) = Event.app_data addr bytes
lift_pubsub_event (Pubsub.pubsub_absorbed addr topic) = Event.pubsub_absorbed addr topic
lift_pubsub_event (Pubsub.pubsub_delivered addr topic bytes) =
    Event.pubsub_delivered addr topic bytes
lift_pubsub_event (Pubsub.pubsub_redundant addr topic) = Event.pubsub_redundant addr topic
lift_pubsub_event (Pubsub.pubsub_relayed source topic fanout_count) =
    Event.pubsub_relayed source topic fanout_count
lift_pubsub_event (Pubsub.handshake_progress addr) = Event.rejected addr
lift_pubsub_event (Pubsub.handshake_complete addr remote_static remote_peer_id) =
    Event.rejected addr
lift_pubsub_event (Pubsub.rejected addr) = Event.rejected addr

unfoldable pub lift_kad_event : KadEvent → MultiProtocolEvent
lift_kad_event (KadEvent.ping_request_received source) = Event.kad_ping_request_received source
lift_kad_event (KadEvent.ping_response_received source) = Event.kad_ping_response_received source
lift_kad_event (KadEvent.find_node_request_received source target returned) =
    Event.kad_find_node_request_received source target returned
lift_kad_event (KadEvent.find_node_response_received source peers) =
    Event.kad_find_node_response_received source peers
lift_kad_event (KadEvent.rejected addr) = Event.rejected addr
lift_kad_event (KadEvent.handshake_progress addr) = Event.rejected addr
lift_kad_event (KadEvent.handshake_complete addr remote_static remote_peer_id remote_node_id) =
    Event.rejected addr

unfoldable pub lift_rendezvous_event : RendezvousEvent → MultiProtocolEvent
lift_rendezvous_event (RendezvousEvent.observe_request_received source) =
    Event.observe_request_received source
lift_rendezvous_event (RendezvousEvent.observe_response_received source observed) =
    Event.observe_response_received source observed
lift_rendezvous_event (RendezvousEvent.punch_request_received source target forwarded) =
    Event.punch_request_received source target forwarded
lift_rendezvous_event (RendezvousEvent.punch_forward_received source initiator) =
    Event.punch_forward_received source initiator
lift_rendezvous_event (RendezvousEvent.relay_forwarded source target forwarded payload_len) =
    Event.relay_forwarded source target forwarded payload_len
lift_rendezvous_event (RendezvousEvent.relay_received source originator payload) =
    Event.relay_received source originator payload
lift_rendezvous_event (RendezvousEvent.relay_failed source peer reason) =
    Event.relay_failed source peer reason
lift_rendezvous_event (RendezvousEvent.rejected addr) = Event.rejected addr
lift_rendezvous_event (RendezvousEvent.handshake_progress addr) = Event.rejected addr
lift_rendezvous_event (RendezvousEvent.handshake_complete addr remote_static remote_peer_id) =
    Event.rejected addr

module _ {K : Type 0} (crypto : Crypto) (os : UdpSocket K) where
  unfoldable pub send_with_kind : UdpAddr → ℕ → List ℕ → Host K → Result (Host K)
  send_with_kind addr kind body host = Dispatch.send crypto os addr (kind_wrap kind body) host

module _ {K D R C : Type 0} (crypto : Crypto) (os : UdpSocket K) where
  unfoldable pub new : Host K → ℕ → MultiProtocolNode K D R C
  new host k = record {
    host = host;
    pubsub_state = Tables.new D R C;
    kad_table = RoutingTable.new (KadNode.node_id_of crypto os host.identity.peer_id) k;
  }

  unfoldable pub dial :
      UdpAddr → List ℕ → MultiProtocolNode K D R C → Result (MultiProtocolNode K D R C)
  dial addr ephemeral_seed node = do
    host ← Dispatch.dial crypto os addr ephemeral_seed node.host
    ok (record node { host = host })

  unfoldable pub send_kad_frame :
      UdpAddr → KadCodec.Frame → MultiProtocolNode K D R C → Result (MultiProtocolNode K D R C)
  send_kad_frame peer frame node = do
    body ← KadCodec.encode frame
    host ← send_with_kind crypto os peer kind_kad body node.host
    ok (record node { host = host })

  unfoldable pub kad_ping : UdpAddr → MultiProtocolNode K D R C → Result (MultiProtocolNode K D R C)
  kad_ping peer node = send_kad_frame peer ping_req_frame node

  unfoldable pub kad_find_node :
      UdpAddr → NodeId → MultiProtocolNode K D R C → Result (MultiProtocolNode K D R C)
  kad_find_node peer target node = send_kad_frame peer (find_node_req_frame target) node

  unfoldable pub send_rpc :
      UdpAddr → List ℕ → MultiProtocolNode K D R C → Result (MultiProtocolNode K D R C)
  send_rpc peer body node = do
    host ← Dispatch.send crypto os peer (kind_wrap kind_rpc body) node.host
    ok (record node { host = host })

  unfoldable pub send_rendezvous_frame :
      UdpAddr
      → RendezvousCodec.Frame
      → MultiProtocolNode K D R C
      → Result (MultiProtocolNode K D R C)
  send_rendezvous_frame peer frame node = do
    body ← RendezvousCodec.encode frame
    host ← send_with_kind crypto os peer kind_rendezvous body node.host
    ok (record node { host = host })

  unfoldable pub send_observe_req :
      UdpAddr → MultiProtocolNode K D R C → Result (MultiProtocolNode K D R C)
  send_observe_req server node = send_rendezvous_frame server observe_req_frame node

  unfoldable pub send_punch_req :
      UdpAddr → UdpAddr → MultiProtocolNode K D R C → Result (MultiProtocolNode K D R C)
  send_punch_req server target node = send_rendezvous_frame server (punch_req_frame target) node

-- The operations of pubsub alone.
module _ {K D R C T P O : Type 0} (coding : Coding D R C T P O) where
  unfoldable pub register_topic :
      Topic → ℕ → ℕ → C → MultiProtocolNode K D R C → MultiProtocolNode K D R C
  register_topic topic piece_count piece_byte_len commitment node = record node {
    pubsub_state =
        Tables.register_topic coding.new_decoder coding.new_recoder topic piece_count piece_byte_len
          commitment node.pubsub_state;
  }

  unfoldable pub register_relay :
      Topic → ℕ → ℕ → C → MultiProtocolNode K D R C → MultiProtocolNode K D R C
  register_relay topic piece_count piece_byte_len commitment node = record node {
    pubsub_state =
        Tables.register_relay coding.new_decoder coding.new_recoder topic piece_count piece_byte_len
          commitment node.pubsub_state;
  }

module _ {K D R C : Type 0} where
  unfoldable pub unregister_topic : Topic → MultiProtocolNode K D R C → MultiProtocolNode K D R C
  unregister_topic topic node = record node {
    pubsub_state = Tables.unregister_topic topic node.pubsub_state;
  }

  unfoldable pub unregister_relay : Topic → MultiProtocolNode K D R C → MultiProtocolNode K D R C
  unregister_relay topic node = record node {
    pubsub_state = Tables.unregister_relay topic node.pubsub_state;
  }

  unfoldable pub evict_idle_topics :
      ℕ → MultiProtocolNode K D R C → MultiProtocolNode K D R C × List Topic
  evict_idle_topics max_idle_ticks node =
      let r = Tables.evict_idle_topics max_idle_ticks node.pubsub_state in
      (record node { pubsub_state = r.0 }, r.1)

  unfoldable pub evict_idle_relays :
      ℕ → MultiProtocolNode K D R C → MultiProtocolNode K D R C × List Topic
  evict_idle_relays max_idle_ticks node =
      let r = Tables.evict_idle_relays max_idle_ticks node.pubsub_state in
      (record node { pubsub_state = r.0 }, r.1)

module _ {K D R C : Type 0} (crypto : Crypto) (os : UdpSocket K) where
  unfoldable pub send_app :
      UdpAddr → List ℕ → MultiProtocolNode K D R C → Result (MultiProtocolNode K D R C)
  send_app addr payload node = do
    pubsub_mux ←
        Pubsub.send_app crypto os addr payload
          (record { host = node.host; state = node.pubsub_state })
    ok (record node { host = pubsub_mux.host; pubsub_state = pubsub_mux.state })

module _ {K D R C T P O : Type 0} (crypto : Crypto) (os : UdpSocket K)
    (wire : WireAuthenticator C T) (coding : Coding D R C T P O) where
  unfoldable pub broadcast :
      Topic → O → ℕ → Rng → MultiProtocolNode K D R C → Result (MultiProtocolNode K D R C × C)
  broadcast topic original num_pieces rng node = do
    (pubsub_mux, commitment) ←
        Pubsub.broadcast crypto os wire coding topic original num_pieces rng
          (record { host = node.host; state = node.pubsub_state })
    ok (record node { host = pubsub_mux.host; pubsub_state = pubsub_mux.state }, commitment)

-- `relay_fail_reason` is the text of a failed relay, for an address.
module _ {K D R C T P O : Type 0} (crypto : Crypto) (os : UdpSocket K)
    (wire : WireAuthenticator C T) (coding : Coding D R C T P O) (is_utf8 : List ℕ → Bool)
    (relay_fail_reason : UdpAddr → List ℕ) where
  unfoldable pub dispatch_pubsub :
      UdpAddr
      → List ℕ
      → Rng
      → MultiProtocolNode K D R C
      → Result (MultiProtocolNode K D R C × MultiProtocolEvent)
  dispatch_pubsub addr plaintext relay_rng node = do
    (pubsub_mux, ev) ←
        Receive.dispatch_plaintext crypto os wire coding is_utf8 addr plaintext relay_rng
          (record { host = node.host; state = node.pubsub_state })
    ok (
      record node { host = pubsub_mux.host; pubsub_state = pubsub_mux.state },
      lift_pubsub_event ev,
    )

  unfoldable pub dispatch_kad :
      UdpAddr
      → List ℕ
      → MultiProtocolNode K D R C
      → Result (MultiProtocolNode K D R C × MultiProtocolEvent)
  dispatch_kad addr body node = do
    (kad_node, ev) ←
        KadNode.handle_datagram crypto os addr body (kind_wrap kind_kad)
          (record { host = node.host; table = node.kad_table })
    ok (record node { host = kad_node.host; kad_table = kad_node.table }, lift_kad_event ev)

  unfoldable pub dispatch_rendezvous :
      UdpAddr
      → List ℕ
      → MultiProtocolNode K D R C
      → Result (MultiProtocolNode K D R C × MultiProtocolEvent)
  dispatch_rendezvous addr body node = do
    (rendezvous_node, ev) ←
        Rendezvous.handle_datagram crypto is_utf8 relay_fail_reason os addr body
          (kind_wrap kind_rendezvous) (record { host = node.host })
    ok (record node { host = rendezvous_node.host }, lift_rendezvous_event ev)

  unfoldable pub dispatch_plaintext :
      UdpAddr
      → List ℕ
      → Rng
      → MultiProtocolNode K D R C
      → Result (MultiProtocolNode K D R C × MultiProtocolEvent)
  dispatch_plaintext addr plaintext relay_rng node = elim (first plaintext) [
    | none ↦ ok (node, Event.rejected addr)
    | some kind ↦
        let body = or_empty (slice_from 1 plaintext) in
        if kind == kind_app || kind == kind_pubsub
        then dispatch_pubsub addr plaintext relay_rng node
        else if kind == kind_kad
        then dispatch_kad addr body node
        else if kind == kind_rendezvous
        then dispatch_rendezvous addr body node
        else if kind == kind_rpc
        then ok (node, Event.rpc_datagram addr body)
        else ok (node, Event.rejected addr)
  ]

  unfoldable pub handle_host_event :
      HostEvent
      → Rng
      → MultiProtocolNode K D R C
      → Result (MultiProtocolNode K D R C × MultiProtocolEvent)
  handle_host_event (State.handshake_progress addr) relay_rng node =
      ok (node, Event.handshake_progress addr)
  handle_host_event (State.handshake_complete addr remote_static remote_peer_id) relay_rng node =
      let remote_node_id = KadNode.node_id_of crypto os remote_peer_id in
      ok (
        record node { kad_table = (RoutingTable.insert remote_node_id addr node.kad_table).0 },
        Event.handshake_complete addr remote_static remote_peer_id remote_node_id,
      )
  handle_host_event (State.rejected addr) relay_rng node = ok (node, Event.rejected addr)
  handle_host_event (State.datagram_delivered addr plaintext) relay_rng node =
      dispatch_plaintext addr plaintext relay_rng node

  unfoldable pub recv_one :
      List ℕ
      → Rng
      → MultiProtocolNode K D R C
      → Result (MultiProtocolNode K D R C × MultiProtocolEvent)
  recv_one ephemeral_seed relay_rng node = do
    (host, host_event) ← Dispatch.recv_one crypto os ephemeral_seed node.host
    handle_host_event host_event relay_rng (record node { host = host })
