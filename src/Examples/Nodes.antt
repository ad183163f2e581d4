-- ===== src/Examples/Nodes.antt =====
-- Nodes of the two protocols that answer each other.
use mathlib.Core.List.{foldl}
use libp2p_cat_rs.Prelude.{
  ℕ, ◌+◌, ◌≡◌, refl, true, false, List, [], ◌∷◌, length, map, replicate, arith,
}
use libp2p_cat_rs.Prelude.Bytes.{to_be_bytes}
use libp2p_cat_rs.Prelude.Lex.{lex}
use libp2p_cat_rs.Prelude.BTreeMap
use libp2p_cat_rs.Prelude.BTreeMap.{BTreeMap}
use libp2p_cat_rs.Types.Error.{ok, err, ◌>>=◌, datagram_too_large}
use libp2p_cat_rs.Types.Addr.{UdpAddr}
use libp2p_cat_rs.Noise.Transport
use libp2p_cat_rs.Noise.Transport.{transport_overhead}
use libp2p_cat_rs.Kad.Distance.{
  distance_lex, bucket_index, is_zero, leading_zeros, find_nonzero, u8_leading_zeros,
}
use libp2p_cat_rs.Kad.NodeId.{NodeId, IsNodeId, node_id_lex, distance, from_peer_id}
use libp2p_cat_rs.Kad.Bucket
use libp2p_cat_rs.Kad.Bucket.{Entry}
use libp2p_cat_rs.Kad.RoutingTable
use libp2p_cat_rs.Kad.RoutingTable.{RoutingTable, closest_to}
use libp2p_cat_rs.Kad.RoutingTable.Placement.{new-IsTable}
use libp2p_cat_rs.Kad.AddrCodec.Laws.{on_wire}
use libp2p_cat_rs.Kad.Codec as KadCodec
use libp2p_cat_rs.Kad.Codec.{find_node_req_frame, find_node_resp_frame}
use libp2p_cat_rs.Kad.Codec.Laws.{IsFrame, entry_on_wire}
use libp2p_cat_rs.Kad.Event as KadEvent
use libp2p_cat_rs.Kad.Node as Kad
use libp2p_cat_rs.Kad.Node.{KademliaNode}
use libp2p_cat_rs.Identity.Keypair.{peer_id}
use libp2p_cat_rs.Kad.Node.Table.{Keeps, recv_one-Keeps}
use libp2p_cat_rs.Kad.Node.Answers.{learned, enters, handle_datagram-find_node}
use libp2p_cat_rs.Rendezvous.Codec as Rendezvous
use libp2p_cat_rs.Rendezvous.Codec.{encode_addr}
use libp2p_cat_rs.Rendezvous.Event as RendezvousEvent
use libp2p_cat_rs.Rendezvous.Node.{RendezvousNode, process_plaintext}
use libp2p_cat_rs.Rendezvous.Node.Relay.{
  handle_datagram-observe, handle_datagram-relay, read_by, sends,
}
use libp2p_cat_rs.Rendezvous.Node.Oversized.{process_plaintext_oversized}
use libp2p_cat_rs.Host.Dispatch
use libp2p_cat_rs.Host.Dispatch.{is_established}
use libp2p_cat_rs.Examples.Data.{
  id, id-IsNodeId, bytes_checked, home, away, home-IsAddr, away-IsAddr, key, other_key,
  tagging-IsAead,
}
use libp2p_cat_rs.Examples.Crypto.{
  crypto, tagging-IsSealing, os, connection, idle, sender, receiver, signer,
}
use libp2p_cat_rs.Examples.Peers.{stray_received}

abbrev node : KademliaNode (Unit {0})
node = record { host = idle; table = RoutingTable.new (id 5) 20 }

node_received :
    Kad.recv_one crypto os key node
    ≡ ok (record node { host = record idle { tick = 1 } }, KadEvent.rejected away)
unfolding Kad.recv_one Kad.handle_host_event
node_received = rw stray_received refl

recv_one-Keeps_example : Keeps node.table node.table
recv_one-Keeps_example =
    recv_one-Keeps crypto os key node (record node { host = record idle { tick = 1 } })
      (KadEvent.rejected away) (new-IsTable (id 5) 20) node_received

abbrev quiet : List ℕ → List ℕ
quiet bytes = bytes

abbrev relay : RendezvousNode (Unit {0})
relay = record { host = sender }

abbrev reason : UdpAddr → List ℕ
reason addr = 110 ∷ 111 ∷ []

handle_datagram-observe_example :
    (request : List ℕ) × (reply : List ℕ) × (Rendezvous.encode Rendezvous.observe_req_frame
      ≡ ok request)
    × (read_by crypto (λ bs. true) reason os relay home request quiet
        ≡ sends crypto
            (λ bs. true)
            reason
            os
            relay
            home
            reply
            (RendezvousEvent.observe_request_received home))
    × (read_by crypto (λ bs. true) reason os relay away reply quiet
        ≡ ok (relay, RendezvousEvent.observe_response_received away home))
unfolding on_wire
handle_datagram-observe_example =
    handle_datagram-observe crypto (λ bs. true) reason os home away relay relay quiet quiet
      home-IsAddr

handle_datagram-relay_example :
    (request : List ℕ) × (deliver : List ℕ) × (refuse : List ℕ) × (Rendezvous.encode
        (Rendezvous.relay_data_req_frame home (1 ∷ 2 ∷ []))
      ≡ ok request)
    × (Rendezvous.encode (Rendezvous.relay_data_deliver_frame away (1 ∷ 2 ∷ [])) ≡ ok deliver)
    × (is_established home sender ≡ true
        → read_by crypto (λ bs. true) reason os relay away request quiet
          ≡ sends crypto
              (λ bs. true)
              reason
              os
              relay
              home
              deliver
              (RendezvousEvent.relay_forwarded away home true 2))
    × (is_established home sender ≡ false
        → read_by crypto (λ bs. true) reason os relay away request quiet
          ≡ sends crypto
              (λ bs. true)
              reason
              os
              relay
              away
              refuse
              (RendezvousEvent.relay_forwarded away home false 2))
    × (read_by crypto (λ bs. true) reason os relay home deliver quiet
        ≡ ok (relay, RendezvousEvent.relay_received home (on_wire away) (1 ∷ 2 ∷ [])))
    × (read_by crypto (λ bs. true) reason os relay home refuse quiet
        ≡ ok (relay, RendezvousEvent.relay_failed home home (reason home)))
unfolding on_wire
handle_datagram-relay_example =
    handle_datagram-relay crypto (λ bs. true) reason os away home home (1 ∷ 2 ∷ []) relay relay
      quiet quiet away-IsAddr home-IsAddr refl

abbrev long : List ℕ
long = replicate 1200 0

process_plaintext_oversized_example :
    (request : List ℕ) × (Rendezvous.encode (Rendezvous.relay_data_req_frame home long)
      ≡ ok request)
    × (process_plaintext crypto (λ bs. true) reason os away request relay
        ≡ err (
            datagram_too_large
              (1 + length (encode_addr away) + length long + transport_overhead)
              1200))
unfolding BTreeMap.get lex Transport.new encode_addr on_wire to_be_bytes
process_plaintext_oversized_example =
    process_plaintext_oversized crypto (λ bs. true) reason os tagging-IsAead tagging-IsSealing away
      home long relay (connection key other_key) away-IsAddr home-IsAddr refl (omega arith)
      (omega arith) (omega arith)

-- Two nodes whose hosts are connected to `home`. The toy hash gives both their peers the same
-- identifier.
abbrev server : KademliaNode (Unit {0})
server = record { host = receiver; table = (RoutingTable.insert (id 3) away node.table).0 }

abbrev client : KademliaNode (Unit {0})
client = record { host = sender; table = node.table }

abbrev heard : RoutingTable
heard = learned crypto (peer_id signer) home server.table

abbrev hashed : NodeId
hashed = record { bytes = replicate 32 5 }

two_peers : closest_to (id 3) server.table.k heard ≡ (id 3, away) ∷ (hashed, home) ∷ []
unfolding closest_to RoutingTable.new RoutingTable.insert RoutingTable.insert_into_bucket
    RoutingTable.insert_fold RoutingTable.sort_by_key RoutingTable.insert_by_key
    RoutingTable.with_distance RoutingTable.all_entries Bucket.new Bucket.insert Bucket.remove_first
    Bucket.is_full bucket_index is_zero leading_zeros find_nonzero u8_leading_zeros distance
    from_peer_id lex
two_peers = refl

hashed-IsNodeId : IsNodeId hashed
hashed-IsNodeId = (refl, bytes_checked (replicate 32 5) refl)

fits : IsFrame (find_node_resp_frame (closest_to (id 3) server.table.k heard))
fits =
    rw two_peers
      (omega arith, ((id-IsNodeId 3 refl, away-IsAddr), ((hashed-IsNodeId, home-IsAddr), tt)))

handle_datagram-find_node_example :
    (request : List ℕ) × (reply : List ℕ) × (KadCodec.encode (find_node_req_frame (id 3))
      ≡ ok request)
    × (Kad.handle_datagram crypto os home request quiet server ≡ (
        Dispatch.send crypto os home reply server.host >>= λ host. ok (
          record { host = host; table = heard },
          KadEvent.find_node_request_received home
              (id 3)
              (length (closest_to (id 3) server.table.k heard)),
        )))
    × (Kad.handle_datagram crypto os home reply quiet client ≡ (
        let peers = map entry_on_wire (closest_to (id 3) server.table.k heard) in
        let asked = learned crypto (peer_id signer) home client.table in
        ok (
          record client { table = foldl enters asked peers },
          KadEvent.find_node_response_received home peers,
        )))
handle_datagram-find_node_example =
    handle_datagram-find_node crypto os home home (id 3) server client (peer_id signer)
      (peer_id signer) quiet quiet (id-IsNodeId 3 refl)
      (unfold Dispatch.remote_peer_id_of BTreeMap.get lex in refl)
      (unfold Dispatch.remote_peer_id_of BTreeMap.get lex in refl) fits
