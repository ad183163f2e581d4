-- ===== src/Kad/Node.antt =====
-- crates/libp2p-cat-kad/src/node.rs: a host with a routing table, which answers requests.
pub mod Table
pub mod Answers
pub mod Redial
use libp2p_cat_rs.Prelude.{ℕ, Option, none, some, List, [], ◌∷◌, if◌then◌else◌, length}
use libp2p_cat_rs.Prelude.Lex.{key_eq}
use libp2p_cat_rs.Types.Error.{Result, ok, err, ◌>>=◌}
use libp2p_cat_rs.Types.Addr.{UdpAddr}
use libp2p_cat_rs.Types.PeerId.{PeerId}
use libp2p_cat_rs.Udp.{UdpSocket}
use libp2p_cat_rs.Host.State
use libp2p_cat_rs.Host.State.{Host, HostEvent}
use libp2p_cat_rs.Host.Dispatch
use libp2p_cat_rs.Host.Dispatch.{Crypto, remote_peer_id_of}
use libp2p_cat_rs.Kad.NodeId.{NodeId, node_id_lex, from_peer_id}
use libp2p_cat_rs.Kad.Bucket.{Entry}
use libp2p_cat_rs.Kad.RoutingTable
use libp2p_cat_rs.Kad.RoutingTable.{RoutingTable}
use libp2p_cat_rs.Kad.Codec.{
  Frame, ping_req_frame, ping_resp_frame, find_node_req_frame, find_node_resp_frame, encode, decode,
}
use libp2p_cat_rs.Kad.Event.{
  KadEvent, handshake_progress, handshake_complete, ping_request_received, ping_response_received,
  find_node_request_received, find_node_response_received, rejected,
}
use libp2p_cat_rs.Kad.Lookup.{LookupConfig}
use libp2p_cat_rs.Kad.Lookup.Drive.{LookupNode, run_lookup}

pub record KademliaNode (K : Type 0) : Type 0 where
  pub host : Host K
  pub table : RoutingTable

-- The fold over the peers of a FIND_NODE response: each is inserted but the node itself.
unfoldable pub insert_peers : List Entry → RoutingTable → RoutingTable
insert_peers [] acc = acc
insert_peers ((id, peer_addr) ∷ peers) acc =
    insert_peers peers
      (if key_eq id acc.self_id then acc else (RoutingTable.insert id peer_addr acc).0)

abbrev pub identity_wrap : List ℕ → List ℕ
identity_wrap bytes = bytes

module _ (crypto : Crypto) {K : Type 0} (os : UdpSocket K) where
  abbrev pub node_id_of : PeerId → NodeId
  node_id_of peer_id = from_peer_id crypto.blake3.hash peer_id

  unfoldable pub new : Host K → ℕ → KademliaNode K
  new host k = record { host = host; table = RoutingTable.new (node_id_of host.identity.peer_id) k }

  unfoldable pub dial : UdpAddr → List ℕ → KademliaNode K → Result (KademliaNode K)
  dial addr ephemeral_seed node = Dispatch.dial crypto os addr ephemeral_seed node.host >>= λ host.
      ok (record node { host = host })

  unfoldable pub send_frame : UdpAddr → Frame → KademliaNode K → Result (KademliaNode K)
  send_frame peer frame node = do
    bytes ← encode frame
    host ← Dispatch.send crypto os peer bytes node.host
    ok (record node { host = host })

  unfoldable pub ping : UdpAddr → KademliaNode K → Result (KademliaNode K)
  ping peer node = send_frame peer ping_req_frame node

  unfoldable pub find_node : UdpAddr → NodeId → KademliaNode K → Result (KademliaNode K)
  find_node peer target node = send_frame peer (find_node_req_frame target) node

  unfoldable pub auto_reply_ping :
      UdpAddr → (List ℕ → List ℕ) → KademliaNode K → Result (KademliaNode K × KadEvent)
  auto_reply_ping addr wrap node = do
    bytes ← encode ping_resp_frame
    host ← Dispatch.send crypto os addr (wrap bytes) node.host
    ok (record node { host = host }, ping_request_received addr)

  unfoldable pub auto_reply_find_node :
      UdpAddr → NodeId → (List ℕ → List ℕ) → KademliaNode K → Result (KademliaNode K × KadEvent)
  auto_reply_find_node addr target wrap node = do
    let peers = RoutingTable.closest_to target node.table.k node.table
    bytes ← encode (find_node_resp_frame peers)
    host ← Dispatch.send crypto os addr (wrap bytes) node.host
    ok (record node { host = host }, find_node_request_received addr target (length peers))

  unfoldable pub dispatch_frame :
      UdpAddr → Frame → (List ℕ → List ℕ) → KademliaNode K → Result (KademliaNode K × KadEvent)
  dispatch_frame addr ping_req_frame wrap node = auto_reply_ping addr wrap node
  dispatch_frame addr ping_resp_frame wrap node = ok (node, ping_response_received addr)
  dispatch_frame addr (find_node_req_frame target) wrap node =
      auto_reply_find_node addr target wrap node
  dispatch_frame addr (find_node_resp_frame peers) wrap node = ok (
    record node { table = insert_peers peers node.table },
    find_node_response_received addr peers,
  )

  -- The sender enters the table under the identifier that the host has verified.
  unfoldable pub learn_sender : UdpAddr → KademliaNode K → KademliaNode K
  learn_sender addr node = elim (remote_peer_id_of addr node.host) [
    | some peer_id ↦ record node {
      table = (RoutingTable.insert (node_id_of peer_id) addr node.table).0;
    }
    | none ↦ node
  ]

  unfoldable pub handle_datagram :
      UdpAddr → List ℕ → (List ℕ → List ℕ) → KademliaNode K → Result (KademliaNode K × KadEvent)
  handle_datagram addr plaintext wrap node = elim (decode plaintext) [
    | err e ↦ ok (node, rejected addr)
    | ok frame ↦ dispatch_frame addr frame wrap (learn_sender addr node)
  ]

  unfoldable pub process_plaintext :
      UdpAddr → List ℕ → KademliaNode K → Result (KademliaNode K × KadEvent)
  process_plaintext addr plaintext node = handle_datagram addr plaintext identity_wrap node

  unfoldable pub handle_host_event : HostEvent → KademliaNode K → Result (KademliaNode K × KadEvent)
  handle_host_event (State.handshake_progress addr) node = ok (node, handshake_progress addr)
  handle_host_event (State.handshake_complete addr remote_static remote_peer_id) node = ok (
    record node { table = (RoutingTable.insert (node_id_of remote_peer_id) addr node.table).0 },
    handshake_complete addr remote_static remote_peer_id (node_id_of remote_peer_id),
  )
  handle_host_event (State.rejected addr) node = ok (node, rejected addr)
  handle_host_event (State.datagram_delivered addr plaintext) node =
      process_plaintext addr plaintext node

  unfoldable pub recv_one : List ℕ → KademliaNode K → Result (KademliaNode K × KadEvent)
  recv_one ephemeral_seed node = do
    (host, host_event) ← Dispatch.recv_one crypto os ephemeral_seed node.host
    handle_host_event host_event (record node { host = host })

  -- The node as the lookup uses it.
  abbrev pub lookup_interface : LookupNode (KademliaNode K)
  lookup_interface = record {
    node_id = λ node. node.table.self_id;
    closest_to = λ target k node. RoutingTable.closest_to target k node.table;
    is_established = λ addr node. Dispatch.is_established addr node.host;
    find_node = find_node;
    dial = dial;
    recv_one = recv_one;
  }

  unfoldable pub lookup_node :
      NodeId → LookupConfig → (ℕ → List ℕ) → KademliaNode K → Result (KademliaNode K × List Entry)
  lookup_node target config seed_factory node =
      run_lookup lookup_interface seed_factory node target config
