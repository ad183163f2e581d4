-- ===== src/Kad/Lookup/Drive.antt =====
-- crates/libp2p-cat-kad/src/lookup.rs: the rounds of a lookup. The node is an interface; `Io<Error, _>`
-- that ends is a result, and the datagrams that will arrive are part of the node's state.
use libp2p_cat_rs.Prelude.{ℕ, zero, suc, Bool, ◌&&◌, ◌||◌, List, [], ◌∷◌, is_empty, if◌then◌else◌}
use libp2p_cat_rs.Types.Error.{Result, ok, ◌>>=◌, map_ok}
use libp2p_cat_rs.Types.Addr.{UdpAddr}
use libp2p_cat_rs.Kad.NodeId.{NodeId}
use libp2p_cat_rs.Kad.Bucket.{Entry}
use libp2p_cat_rs.Kad.Event.{
  KadEvent, handshake_progress, handshake_complete, ping_request_received, ping_response_received,
  find_node_request_received, find_node_response_received, rejected,
}
use libp2p_cat_rs.Kad.Lookup.{
  Lookup, LookupConfig, new, is_done, pick_next_alpha, mark_in_flight, mark_dialing,
  is_pending_dial, complete_dial, record_response, skip_pending_queries, skip_pending_dials,
  top_k_results,
}

-- What the driver uses of the node.
pub record LookupNode (N : Type 0) : Type 0 where
  pub node_id : N → NodeId
  pub closest_to : NodeId → ℕ → N → List Entry
  pub is_established : UdpAddr → N → Bool
  pub find_node : UdpAddr → NodeId → N → Result N
  pub dial : UdpAddr → List ℕ → N → Result N
  pub recv_one : List ℕ → N → Result (N × KadEvent)

pub data RoundAction : Type 0 where
  query : UdpAddr → RoundAction
  dial_peer : UdpAddr → List ℕ → RoundAction

-- What one event does to the lookup.
unfoldable pub on_event : KadEvent → Lookup → Lookup
on_event (find_node_response_received source peers) lookup = (record_response source peers lookup).0
on_event (handshake_complete addr remote_static remote_peer_id remote_node_id) lookup =
    if is_pending_dial addr lookup then complete_dial addr lookup else lookup
on_event (handshake_progress addr) lookup = lookup
on_event (ping_request_received source) lookup = lookup
on_event (ping_response_received source) lookup = lookup
on_event (find_node_request_received source target returned) lookup = lookup
on_event (rejected addr) lookup = lookup

unfoldable pub mark_action : NodeId × RoundAction → Lookup → Lookup
mark_action (id, query addr) lookup = mark_in_flight id addr lookup
mark_action (id, dial_peer addr seed) lookup = mark_dialing id addr lookup

unfoldable pub mark_all : List (NodeId × RoundAction) → Lookup → Lookup
mark_all [] lookup = lookup
mark_all (a ∷ actions) lookup = mark_all actions (mark_action a lookup)

module _ {N : Type 0} (node_of : LookupNode N) (seed_factory : ℕ → List ℕ) where
  -- The action for each picked peer. `calls` counts the calls of `seed_factory` so far, which may
  -- answer differently each time.
  unfoldable pub choose_actions : N → ℕ → List Entry → List (NodeId × RoundAction) × ℕ
  choose_actions node calls [] = ([], calls)
  choose_actions node calls ((id, addr) ∷ peers) =
      let established = node_of.is_established addr node in
      let next_calls = if established then calls else suc calls in
      let action = if established then query addr else dial_peer addr (seed_factory calls) in
      let (actions, last_calls) = choose_actions node next_calls peers in
      ((id, action) ∷ actions, last_calls)

  unfoldable pub send_action : NodeId → RoundAction → N → Result N
  send_action target (query addr) node = node_of.find_node addr target node
  send_action target (dial_peer addr seed) node = node_of.dial addr seed node

  unfoldable pub send_chain : NodeId → List (NodeId × RoundAction) → N → Result N
  unfolding send_action
  send_chain target [] node = ok node
  send_chain target ((id, action) ∷ actions) node = do
    next ← send_action target action node
    send_chain target actions next

  unfoldable pub drain_responses : ℕ → N → Lookup → ℕ → Result (N × Lookup × ℕ)
  drain_responses zero node lookup calls = ok (node, lookup, calls)
  drain_responses (suc budget) node lookup calls =
      if is_empty lookup.pending_queries && is_empty lookup.pending_dials
      then ok (node, lookup, calls)
      else (do
        (next_node, ev) ← node_of.recv_one (seed_factory calls) node
        drain_responses budget next_node (on_event ev lookup) (suc calls))

  unfoldable pub drive_rounds : ℕ → N → Lookup → ℕ → Result (N × Lookup × ℕ)
  drive_rounds zero node lookup calls = ok (node, lookup, calls)
  drive_rounds (suc rounds_left) node lookup calls =
      if is_done lookup || is_empty (pick_next_alpha lookup) then ok (node, lookup, calls) else (do
        let (actions, calls_sent) = choose_actions node calls (pick_next_alpha lookup)
        let marked = mark_all actions lookup
        sent ← send_chain marked.target actions node
        (drained, after_drain, calls_drained) ←
            drain_responses marked.config.max_recv_per_round sent marked calls_sent
        drive_rounds rounds_left drained (skip_pending_dials (skip_pending_queries after_drain))
            calls_drained)

  unfoldable pub run_lookup : N → NodeId → LookupConfig → Result (N × List Entry)
  run_lookup node target config =
      let initial = node_of.closest_to target config.k node in
      let lookup = new (node_of.node_id node) target config initial in
      map_ok (λ r. (r.0, top_k_results r.1)) (drive_rounds config.max_rounds node lookup 0)
