-- ===== src/Mux/Lookup.antt =====
-- crates/libp2p-cat-mux/src/node.rs: the lookup over a multi-protocol node. The actions of a round and
-- their marks are those of crates/libp2p-cat-kad/src/lookup.rs, which the source repeats.
pub mod Agreement
use libp2p_cat_rs.Prelude.{
  ℕ, zero, suc, none, Bool, ◌&&◌, ◌||◌, List, [], ◌∷◌, is_empty, if◌then◌else◌,
}
use libp2p_cat_rs.Types.Error.{Result, ok, ◌>>=◌, map_ok}
use libp2p_cat_rs.Types.Addr.{UdpAddr}
use libp2p_cat_rs.Udp.{UdpSocket}
use libp2p_cat_rs.Host.Dispatch
use libp2p_cat_rs.Host.Dispatch.{Crypto}
use libp2p_cat_rs.Kad.NodeId.{NodeId}
use libp2p_cat_rs.Kad.Bucket.{Entry}
use libp2p_cat_rs.Kad.RoutingTable
use libp2p_cat_rs.Kad.Lookup
use libp2p_cat_rs.Kad.Lookup.{
  Lookup, LookupConfig, is_done, pick_next_alpha, is_pending_dial, complete_dial, record_response,
  skip_pending_queries, skip_pending_dials, top_k_results,
}
use libp2p_cat_rs.Kad.Lookup.Drive.{RoundAction, query, dial_peer, mark_all}
use libp2p_cat_rs.Pubsub.Auth.{WireAuthenticator}
use libp2p_cat_rs.Pubsub.Mux.{Rng, Coding}
use libp2p_cat_rs.Mux.Event
use libp2p_cat_rs.Mux.Event.{MultiProtocolEvent}
use libp2p_cat_rs.Mux.Node
use libp2p_cat_rs.Mux.Node.{MultiProtocolNode, kad_find_node, recv_one}

abbrev pub unused_relay_rng : Rng
unused_relay_rng n = none

unfoldable pub absorb_lookup_event : MultiProtocolEvent → Lookup → Lookup
absorb_lookup_event (Event.kad_find_node_response_received source peers) lookup =
    (record_response source peers lookup).0
absorb_lookup_event (Event.handshake_complete addr remote_static peer_id node_id) lookup =
    if is_pending_dial addr lookup then complete_dial addr lookup else lookup
absorb_lookup_event ev lookup = lookup

module _ {K D R C : Type 0} (crypto : Crypto) (os : UdpSocket K) (seed_factory : ℕ → List ℕ) where
  -- The action for each picked peer; `calls` counts the calls of `seed_factory`.
  unfoldable pub choose_lookup_actions :
      MultiProtocolNode K D R C → ℕ → List Entry → List (NodeId × RoundAction) × ℕ
  choose_lookup_actions node calls [] = ([], calls)
  choose_lookup_actions node calls ((id, addr) ∷ peers) =
      let established = Dispatch.is_established addr node.host in
      let next_calls = if established then calls else suc calls in
      let action = if established then query addr else dial_peer addr (seed_factory calls) in
      let (actions, last_calls) = choose_lookup_actions node next_calls peers in
      ((id, action) ∷ actions, last_calls)

  unfoldable pub send_lookup_action :
      NodeId → RoundAction → MultiProtocolNode K D R C → Result (MultiProtocolNode K D R C)
  send_lookup_action target (query addr) node = kad_find_node crypto os addr target node
  send_lookup_action target (dial_peer addr seed) node = Node.dial crypto os addr seed node

  unfoldable pub send_lookup_chain :
      NodeId
      → List (NodeId × RoundAction)
      → MultiProtocolNode K D R C
      → Result (MultiProtocolNode K D R C)
  send_lookup_chain target [] node = ok node
  send_lookup_chain target ((id, action) ∷ actions) node = do
    next ← send_lookup_action target action node
    send_lookup_chain target actions next

module _ {K D R C T P O : Type 0} (crypto : Crypto) (os : UdpSocket K)
    (wire : WireAuthenticator C T) (coding : Coding D R C T P O) (is_utf8 : List ℕ → Bool)
    (relay_fail_reason : UdpAddr → List ℕ) (seed_factory : ℕ → List ℕ) where
  unfoldable pub drain_lookup_responses :
      ℕ → MultiProtocolNode K D R C → Lookup → ℕ → Result (MultiProtocolNode K D R C × Lookup × ℕ)
  drain_lookup_responses zero node lookup calls = ok (node, lookup, calls)
  drain_lookup_responses (suc budget) node lookup calls =
      if is_empty lookup.pending_queries && is_empty lookup.pending_dials
      then ok (node, lookup, calls)
      else (do
        (next_node, ev) ←
            recv_one crypto os wire coding is_utf8 relay_fail_reason (seed_factory calls)
              unused_relay_rng node
        drain_lookup_responses budget next_node (absorb_lookup_event ev lookup) (suc calls))

  unfoldable pub drive_lookup_rounds :
      ℕ → MultiProtocolNode K D R C → Lookup → ℕ → Result (MultiProtocolNode K D R C × Lookup × ℕ)
  drive_lookup_rounds zero node lookup calls = ok (node, lookup, calls)
  drive_lookup_rounds (suc rounds_left) node lookup calls =
      if is_done lookup || is_empty (pick_next_alpha lookup) then ok (node, lookup, calls) else (do
        let (actions, calls_sent) =
            choose_lookup_actions crypto os seed_factory node calls (pick_next_alpha lookup)
        let marked = mark_all actions lookup
        sent ← send_lookup_chain crypto os seed_factory marked.target actions node
        (drained, after_drain, calls_drained) ←
            drain_lookup_responses marked.config.max_recv_per_round sent marked calls_sent
        drive_lookup_rounds rounds_left drained
            (skip_pending_dials (skip_pending_queries after_drain)) calls_drained)

  unfoldable pub lookup_node :
      NodeId
      → LookupConfig
      → MultiProtocolNode K D R C
      → Result (MultiProtocolNode K D R C × List Entry)
  lookup_node target config node =
      let initial = RoutingTable.closest_to target config.k node.kad_table in
      let lookup = Lookup.new node.kad_table.self_id target config initial in
      map_ok (λ r. (r.0, top_k_results r.1)) (drive_lookup_rounds config.max_rounds node lookup 0)
