-- ===== src/Kad/Node/Table.antt =====
-- The routing table of a node of crates/libp2p-cat-kad/src/node.rs over its operations.
use libp2p_cat_rs.Prelude.{ℕ, ◌≡◌, refl, ◌∙◌, List, [], ◌∷◌, inl, inr, Bool-cases, Option-cases}
use libp2p_cat_rs.Prelude.Lex.{key_eq}
use libp2p_cat_rs.Types.Error.{ok, Ensures, Ensures-elim, Ensures-bind}
use libp2p_cat_rs.Types.Addr.{UdpAddr}
use libp2p_cat_rs.Noise.Transport.Replay.{Result-cases}
use libp2p_cat_rs.Udp.{UdpSocket}
use libp2p_cat_rs.Host.State
use libp2p_cat_rs.Host.State.{Host, HostEvent}
use libp2p_cat_rs.Host.Dispatch
use libp2p_cat_rs.Host.Dispatch.{Crypto, remote_peer_id_of}
use libp2p_cat_rs.Kad.NodeId.{NodeId, node_id_lex, distance}
use libp2p_cat_rs.Kad.Distance.{bucket_index}
use libp2p_cat_rs.Kad.Bucket.{Entry}
use libp2p_cat_rs.Kad.RoutingTable
use libp2p_cat_rs.Kad.RoutingTable.{RoutingTable}
use libp2p_cat_rs.Kad.RoutingTable.Placement.{IsTable, insert-IsTable, insert_self, insert_other}
use libp2p_cat_rs.Kad.Codec.{
  Frame, ping_req_frame, ping_resp_frame, find_node_req_frame, find_node_resp_frame, encode, decode,
}
use libp2p_cat_rs.Kad.Event.{KadEvent}
use libp2p_cat_rs.Kad.Node.{
  KademliaNode, insert_peers, auto_reply_ping, auto_reply_find_node, dispatch_frame, learn_sender,
  handle_datagram, process_plaintext, handle_host_event, recv_one,
}

-- A valid table of the same node and capacity.
pub record Keeps (t next : RoutingTable) : Type 0 where
  pub valid : IsTable next
  pub self_id : next.self_id ≡ t.self_id
  pub k : next.k ≡ t.k

pub insert-Keeps :
    (id : NodeId) (addr : UdpAddr) (t : RoutingTable)
    → IsTable t
    → Keeps t (RoutingTable.insert id addr t).0
insert-Keeps id addr t v = record {
  valid = insert-IsTable id addr t v;
  self_id = elim (Option-cases (bucket_index (distance t.self_id id))) [
    | inl e ↦ rw (insert_self id t addr e) refl
    | inr (idx, e) ↦ rw (insert_other id t addr e) refl
  ];
  k = elim (Option-cases (bucket_index (distance t.self_id id))) [
    | inl e ↦ rw (insert_self id t addr e) refl
    | inr (idx, e) ↦ rw (insert_other id t addr e) refl
  ];
}

Keeps-trans : {t u w : RoutingTable} → Keeps t u → Keeps u w → Keeps t w
Keeps-trans a b = record { valid = b.valid; self_id = b.self_id ∙ a.self_id; k = b.k ∙ a.k }

pub Keeps-refl : {t : RoutingTable} → IsTable t → Keeps t t
Keeps-refl v = record { valid = v; self_id = refl; k = refl }

insert_peers-Keeps :
    (peers : List Entry) (t : RoutingTable) → IsTable t → Keeps t (insert_peers peers t)
unfolding insert_peers
insert_peers-Keeps [] t v = Keeps-refl v
insert_peers-Keeps ((id, addr) ∷ peers) t v = elim (Bool-cases (key_eq id t.self_id)) [
  | inl e ↦ rw e (insert_peers-Keeps peers t v)
  | inr e ↦
      let one = insert-Keeps id addr t v in
      rw e (Keeps-trans one (insert_peers-Keeps peers (RoutingTable.insert id addr t).0 one.valid))
]

module _ (crypto : Crypto) {K : Type 0} (os : UdpSocket K) where
  abbrev pub KeepsTable : RoutingTable → KademliaNode K × KadEvent → Type 0
  KeepsTable t r = Keeps t r.0.table

  learn_sender-Keeps :
      (addr : UdpAddr) (node : KademliaNode K)
      → IsTable node.table
      → Keeps node.table (learn_sender crypto os addr node).table
  unfolding learn_sender
  learn_sender-Keeps addr node v = elim (Option-cases (remote_peer_id_of addr node.host)) [
    | inl e ↦ rw (learn_sender, e) (Keeps-refl v)
    | inr (peer, e) ↦ rw (learn_sender, e) (insert-Keeps _ addr node.table v)
  ]

  dispatch_frame-Keeps :
      (t : RoutingTable) (addr : UdpAddr) (frame : Frame) (wrap : List ℕ → List ℕ)
      (node : KademliaNode K)
      → Keeps t node.table
      → Ensures (KeepsTable t) (dispatch_frame crypto os addr frame wrap node)
  unfolding dispatch_frame auto_reply_ping auto_reply_find_node
  dispatch_frame-Keeps t addr ping_req_frame wrap node v =
      Ensures-bind (KeepsTable t) (encode ping_resp_frame) _ λ bytes p.
        Ensures-bind (KeepsTable t) (Dispatch.send crypto os addr (wrap bytes) node.host) _
          λ host q. v
  dispatch_frame-Keeps t addr ping_resp_frame wrap node v = v
  dispatch_frame-Keeps t addr (find_node_req_frame target) wrap node v =
      Ensures-bind (KeepsTable t)
        (encode (find_node_resp_frame (RoutingTable.closest_to target node.table.k node.table))) _
        λ bytes p.
          Ensures-bind (KeepsTable t) (Dispatch.send crypto os addr (wrap bytes) node.host) _
            λ host q. v
  dispatch_frame-Keeps t addr (find_node_resp_frame peers) wrap node v =
      Keeps-trans v (insert_peers-Keeps peers node.table v.valid)

  pub handle_datagram-Keeps :
      (addr : UdpAddr) (plaintext : List ℕ) (wrap : List ℕ → List ℕ) (node : KademliaNode K)
      → IsTable node.table
      → Ensures (KeepsTable node.table) (handle_datagram crypto os addr plaintext wrap node)
  unfolding handle_datagram
  handle_datagram-Keeps addr plaintext wrap node v = elim (Result-cases (decode plaintext)) [
    | inl (e, p) ↦ rw (Ensures, p) (Keeps-refl v)
    | inr (frame, p) ↦
        rw (Ensures, p)
          (dispatch_frame-Keeps node.table addr frame wrap (learn_sender crypto os addr node)
            (learn_sender-Keeps addr node v))
  ]

  handle_host_event-Keeps :
      (event : HostEvent) (node : KademliaNode K)
      → IsTable node.table
      → Ensures (KeepsTable node.table) (handle_host_event crypto os event node)
  unfolding handle_host_event process_plaintext
  handle_host_event-Keeps (State.handshake_progress addr) node v = Keeps-refl v
  handle_host_event-Keeps (State.handshake_complete addr remote_static peer) node v =
      insert-Keeps _ addr node.table v
  handle_host_event-Keeps (State.rejected addr) node v = Keeps-refl v
  handle_host_event-Keeps (State.datagram_delivered addr plaintext) node v =
      handle_datagram-Keeps addr plaintext _ node v

  -- Whatever datagram arrives, the node's table stays valid, and stays the table of that node with
  -- that capacity.
  pub recv_one-Keeps :
      (seed : List ℕ) (node next : KademliaNode K) (event : KadEvent)
      → IsTable node.table
      → recv_one crypto os seed node ≡ ok (next, event)
      → Keeps node.table next.table
  unfolding recv_one
  recv_one-Keeps seed node next event v h =
      Ensures-elim (KeepsTable node.table) (recv_one crypto os seed node)
        (Ensures-bind (KeepsTable node.table) (Dispatch.recv_one crypto os seed node.host) _
          λ (host, host_event) p.
            handle_host_event-Keeps host_event (record node { host = host }) v)
        h
