-- ===== src/Kad/Node/Redial.antt =====
-- A lookup of crates/libp2p-cat-kad/src/node.rs that meets a peer with a handshake in flight.
use libp2p_cat_rs.Prelude.{
  ℕ, suc, ◌-◌, ◌≡◌, ◌<◌, refl, ◌∙◌, ap, true, false, List, ◌∷◌, is_empty, length, arith,
}
use libp2p_cat_rs.Prelude.BTreeMap.{contains_key}
use libp2p_cat_rs.Types.Error.{err, host_state}
use libp2p_cat_rs.Types.Addr.{UdpAddr, addr_lex}
use libp2p_cat_rs.Udp.{UdpSocket}
use libp2p_cat_rs.Host.Dispatch
use libp2p_cat_rs.Host.Dispatch.{Crypto, prepare_dial, is_established}
use libp2p_cat_rs.Kad.NodeId.{NodeId}
use libp2p_cat_rs.Kad.Bucket.{Entry}
use libp2p_cat_rs.Kad.RoutingTable.{closest_to}
use libp2p_cat_rs.Kad.Lookup.{LookupConfig, new, is_done, pick_next_alpha, has_pending}
use libp2p_cat_rs.Kad.Lookup.Shortlist.{is_done-pick_next_alpha, length-pick_next_alpha}
use libp2p_cat_rs.Kad.Lookup.Drive.{
  LookupNode, run_lookup, drive_rounds, choose_actions, send_chain, send_action,
}
use libp2p_cat_rs.Kad.Node as KadNode
use libp2p_cat_rs.Kad.Node.{KademliaNode, lookup_node}

module _ {N : Type 0} (node_of : LookupNode N) (seed_factory : ℕ → List ℕ) where
  -- A fresh lookup that has a peer to pick has not finished.
  new-unfinished :
      (self_id target : NodeId) (config : LookupConfig) (initial : List Entry) {e : Entry}
      {es : List Entry}
      → pick_next_alpha (new self_id target config initial) ≡ e ∷ es
      → is_done (new self_id target config initial) ≡ false
  unfolding new has_pending
  new-unfinished self_id target config initial {e} {es} h =
      let l = new self_id target config initial in
      let picked : length (pick_next_alpha l) ≡ suc (length es) = ap (λ xs. length xs) h in
      is_done-pick_next_alpha l (omega (arith, picked, length-pick_next_alpha l)) refl
      ∙ ap (λ xs. is_empty xs) h

  -- The first send of a lookup fails, and the lookup with it.
  run_lookup_failed_dial :
      (node : N) (target : NodeId) (config : LookupConfig) (peer : NodeId) (addr : UdpAddr)
      (peers : List Entry) (rounds : ℕ)
      → pick_next_alpha
          (new (node_of.node_id node) target config (node_of.closest_to target config.k node))
        ≡ (peer, addr) ∷ peers
      → config.max_rounds ≡ suc rounds
      → node_of.is_established addr node ≡ false
      → node_of.dial addr (seed_factory 0) node ≡ err host_state
      → run_lookup node_of seed_factory node target config ≡ err host_state
  unfolding run_lookup drive_rounds choose_actions send_chain send_action is_done new
      pick_next_alpha
  run_lookup_failed_dial node target config peer addr peers rounds pick more fresh fails =
      rw
        (
          more,
          new-unfinished (node_of.node_id node) target config
              (node_of.closest_to target config.k node) pick,
          pick,
          fresh,
          fails,
        )
        refl

module _ (crypto : Crypto) {K : Type 0} (os : UdpSocket K) where
  dial_in_flight :
      (addr : UdpAddr) (seed : List ℕ) (node : KademliaNode K)
      → contains_key addr node.host.handshakes ≡ true
      → KadNode.dial crypto os addr seed node ≡ err host_state
  unfolding KadNode.dial Dispatch.dial prepare_dial
  dial_in_flight addr seed node there = rw there refl

  -- A lookup that may run a round and whose first pick is a peer that is not connected but has a
  -- handshake in flight ends with the error of the second dial: it has no result, whatever the
  -- other peers would answer.
  pub lookup_node_in_flight :
      (target : NodeId) (config : LookupConfig) (seed_factory : ℕ → List ℕ) (node : KademliaNode K)
      (peer : NodeId) (addr : UdpAddr) (peers : List Entry)
      → pick_next_alpha
          (new node.table.self_id target config (closest_to target config.k node.table))
        ≡ (peer, addr) ∷ peers
      → 0 < config.max_rounds
      → contains_key addr node.host.handshakes ≡ true
      → is_established addr node.host ≡ false
      → lookup_node crypto os target config seed_factory node ≡ err host_state
  unfolding lookup_node
  lookup_node_in_flight target config seed_factory node peer addr peers pick more there fresh =
      run_lookup_failed_dial (KadNode.lookup_interface crypto os) seed_factory node target config
        peer addr peers (config.max_rounds - 1) pick (omega arith) fresh
        (dial_in_flight addr (seed_factory 0) node there)
