-- ===== src/Kad/Node/Answers.antt =====
-- The requests of crates/libp2p-cat-kad/src/node.rs, and the frames that answer them.
use mathlib.Core.List.{foldl}
use libp2p_cat_rs.Prelude.{
  ℕ, ◌≡◌, refl, some, List, [], ◌∷◌, map, length, Option-cases, inl, inr, if◌then◌else◌,
}
use libp2p_cat_rs.Prelude.Lex.{key_eq}
use libp2p_cat_rs.Types.PeerId.{PeerId}
use libp2p_cat_rs.Types.Error.{ok, ◌>>=◌}
use libp2p_cat_rs.Types.Addr.{UdpAddr}
use libp2p_cat_rs.Udp.{UdpSocket}
use libp2p_cat_rs.Host.Dispatch
use libp2p_cat_rs.Host.Dispatch.{Crypto, remote_peer_id_of}
use libp2p_cat_rs.Kad.NodeId.{NodeId, IsNodeId, node_id_lex, distance, from_peer_id}
use libp2p_cat_rs.Kad.Distance.{bucket_index}
use libp2p_cat_rs.Kad.Bucket.{Entry}
use libp2p_cat_rs.Kad.RoutingTable
use libp2p_cat_rs.Kad.RoutingTable.{RoutingTable, closest_to}
use libp2p_cat_rs.Kad.RoutingTable.Placement.{insert_self, insert_other}
use libp2p_cat_rs.Kad.Codec.{find_node_req_frame, find_node_resp_frame, encode}
use libp2p_cat_rs.Kad.Codec.Laws.{IsFrame, frame_on_wire, entry_on_wire, decode-encode}
use libp2p_cat_rs.Kad.Event.{find_node_request_received, find_node_response_received}
use libp2p_cat_rs.Kad.Node.{
  KademliaNode, insert_peers, auto_reply_find_node, dispatch_frame, learn_sender, handle_datagram,
}

-- A peer of a FIND_NODE response enters the table, unless it is the node itself.
abbrev pub enters : RoutingTable → Entry → RoutingTable
enters acc e = if key_eq e.0 acc.self_id then acc else (RoutingTable.insert e.0 e.1 acc).0

insert_peers-foldl :
    (peers : List Entry) (t : RoutingTable) → insert_peers peers t ≡ foldl enters t peers
unfolding insert_peers
insert_peers-foldl [] t = refl
insert_peers-foldl (e ∷ es) t = insert_peers-foldl es (enters t e)

k-insert :
    (id : NodeId) (addr : UdpAddr) (t : RoutingTable) → (RoutingTable.insert id addr t).0.k ≡ t.k
k-insert id addr t = elim (Option-cases (bucket_index (distance t.self_id id))) [
  | inl e ↦ rw (insert_self id t addr e) refl
  | inr (idx, e) ↦ rw (insert_other id t addr e) refl
]

-- The table with a peer that the host has verified, at its address.
abbrev pub learned : Crypto → PeerId → UdpAddr → RoutingTable → RoutingTable
learned crypto peer addr t = (RoutingTable.insert (from_peer_id crypto.blake3.hash peer) addr t).0

module _ (crypto : Crypto) {K : Type 0} (os : UdpSocket K) where
  learn_sender-learned :
      (addr : UdpAddr) (node : KademliaNode K) (peer : PeerId)
      → remote_peer_id_of addr node.host ≡ some peer
      → learn_sender crypto os addr node
        ≡ record node { table = learned crypto peer addr node.table }
  unfolding learn_sender
  learn_sender-learned addr node peer h = rw (learn_sender, h) refl

  -- Of two connected nodes, whose hosts have verified each other's peer identifiers: a FIND_NODE
  -- request of a well-formed target has an encoding, and the node that reads it enters its sender
  -- in its table, under the identifier that hashes the sender's peer identifier, and sends back the
  -- encoding of the `k` nearest peers of its table then, where these are well-formed and at most
  -- 255. The node that reads that reply enters its sender likewise, then these peers one by one, in
  -- order, less the two IPv6 fields that are not sent, and without itself, and reports them.
  pub handle_datagram-find_node :
      (addr server_addr : UdpAddr) (target : NodeId) (server client : KademliaNode K)
      (client_peer server_peer : PeerId) (wrap wrap' : List ℕ → List ℕ)
      → IsNodeId target
      → remote_peer_id_of addr server.host ≡ some client_peer
      → remote_peer_id_of server_addr client.host ≡ some server_peer
      → IsFrame (
          find_node_resp_frame
            (closest_to target server.table.k (learned crypto client_peer addr server.table)))
      → (request : List ℕ) × (reply : List ℕ) × (encode (find_node_req_frame target) ≡ ok request)
        × (handle_datagram crypto os addr request wrap server ≡ (
            let heard = learned crypto client_peer addr server.table in
            Dispatch.send crypto os addr (wrap reply) server.host >>= λ host. ok (
              record { host = host; table = heard },
              find_node_request_received addr target
                  (length (closest_to target server.table.k heard)),
            )))
        × (handle_datagram crypto os server_addr reply wrap' client ≡ (
            let heard = learned crypto client_peer addr server.table in
            let peers = map entry_on_wire (closest_to target server.table.k heard) in
            let asked = learned crypto server_peer server_addr client.table in
            ok (
              record client { table = foldl enters asked peers },
              find_node_response_received server_addr peers,
            )))
  unfolding handle_datagram dispatch_frame auto_reply_find_node
  handle_datagram-find_node addr server_addr target server client client_peer server_peer wrap wrap'
        valid here there fits =
      let heard = learned crypto client_peer addr server.table in
      let asked = learned crypto server_peer server_addr client.table in
      let peers = closest_to target server.table.k heard in
      let (request, wrote, read) = decode-encode (find_node_req_frame target) valid in
      let (reply, wrote', read') = decode-encode (find_node_resp_frame peers) fits in
      (
        request,
        reply,
        wrote,
        rw (handle_datagram, read)
            (unfold frame_on_wire in
              rw (learn_sender-learned addr server client_peer here) (
                rw (k-insert (from_peer_id crypto.blake3.hash client_peer) addr server.table)
                  (rw wrote' refl))),
        rw (handle_datagram, read')
            (unfold frame_on_wire in
              rw (learn_sender-learned server_addr client server_peer there)
                (rw (insert_peers-foldl (map entry_on_wire peers) asked) refl)),
      )
