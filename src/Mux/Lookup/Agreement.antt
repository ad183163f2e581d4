-- ===== src/Mux/Lookup/Agreement.antt =====
-- The lookup of crates/libp2p-cat-mux/src/node.rs is that of crates/libp2p-cat-kad/src/lookup.rs.
use libp2p_cat_rs.Prelude.{
  ℕ, zero, suc, ◌≡◌, refl, ap, sym, ◌∙◌, ◌&&◌, ◌||◌, Bool, Bool-cases, inl, inr, List, [], ◌∷◌,
  is_empty, if◌then◌else◌,
}
use libp2p_cat_rs.Types.Error.{Result, ok, err, ◌>>=◌, map_ok}
use libp2p_cat_rs.Types.Addr.{UdpAddr}
use libp2p_cat_rs.Udp.{UdpSocket}
use libp2p_cat_rs.Host.Dispatch
use libp2p_cat_rs.Host.Dispatch.{Crypto}
use libp2p_cat_rs.Kad.NodeId.{NodeId}
use libp2p_cat_rs.Kad.Bucket.{Entry}
use libp2p_cat_rs.Kad.RoutingTable
use libp2p_cat_rs.Kad.Event.{KadEvent}
use libp2p_cat_rs.Kad.Lookup.{
  Lookup, LookupConfig, is_done, pick_next_alpha, skip_pending_queries, skip_pending_dials,
}
use libp2p_cat_rs.Kad.Lookup.Drive.{
  LookupNode, RoundAction, query, dial_peer, mark_all, on_event, choose_actions, send_action,
  send_chain, drain_responses, drive_rounds, run_lookup,
}
use libp2p_cat_rs.Pubsub.Auth.{WireAuthenticator}
use libp2p_cat_rs.Pubsub.Mux.{Coding}
use libp2p_cat_rs.Mux.Event
use libp2p_cat_rs.Mux.Event.{MultiProtocolEvent}
use libp2p_cat_rs.Mux.Node
use libp2p_cat_rs.Mux.Node.{MultiProtocolNode, kad_find_node, recv_one}
use libp2p_cat_rs.Mux.Lookup.{
  unused_relay_rng, absorb_lookup_event, choose_lookup_actions, send_lookup_action,
  send_lookup_chain, drain_lookup_responses, drive_lookup_rounds, lookup_node,
}

-- An event as the Kademlia lookup sees it: what does not concern it is a rejection.
unfoldable pub kad_view : MultiProtocolEvent → KadEvent
kad_view (Event.kad_find_node_response_received source peers) =
    KadEvent.find_node_response_received source peers
kad_view (Event.handshake_complete addr remote_static peer_id node_id) =
    KadEvent.handshake_complete addr remote_static peer_id node_id
kad_view (Event.handshake_progress addr) = KadEvent.handshake_progress addr
kad_view (Event.app_data addr bytes) = KadEvent.rejected addr
kad_view (Event.pubsub_absorbed addr topic) = KadEvent.rejected addr
kad_view (Event.pubsub_delivered addr topic bytes) = KadEvent.rejected addr
kad_view (Event.pubsub_relayed addr topic n) = KadEvent.rejected addr
kad_view (Event.pubsub_redundant addr topic) = KadEvent.rejected addr
kad_view (Event.kad_ping_request_received addr) = KadEvent.ping_request_received addr
kad_view (Event.kad_ping_response_received addr) = KadEvent.ping_response_received addr
kad_view (Event.kad_find_node_request_received addr target n) =
    KadEvent.find_node_request_received addr target n
kad_view (Event.observe_request_received addr) = KadEvent.rejected addr
kad_view (Event.observe_response_received addr observed) = KadEvent.rejected addr
kad_view (Event.punch_request_received addr target forwarded) = KadEvent.rejected addr
kad_view (Event.punch_forward_received addr initiator) = KadEvent.rejected addr
kad_view (Event.relay_forwarded addr target forwarded n) = KadEvent.rejected addr
kad_view (Event.relay_received addr originator payload) = KadEvent.rejected addr
kad_view (Event.relay_failed addr peer reason) = KadEvent.rejected addr
kad_view (Event.rpc_datagram addr bytes) = KadEvent.rejected addr
kad_view (Event.rejected addr) = KadEvent.rejected addr

on_event-kad_view :
    (ev : MultiProtocolEvent) (lookup : Lookup)
    → absorb_lookup_event ev lookup ≡ on_event (kad_view ev) lookup
unfolding kad_view absorb_lookup_event on_event
on_event-kad_view (Event.kad_find_node_response_received source peers) lookup = refl
on_event-kad_view (Event.handshake_complete addr remote_static peer_id node_id) lookup = refl
on_event-kad_view (Event.handshake_progress addr) lookup = refl
on_event-kad_view (Event.app_data addr bytes) lookup = refl
on_event-kad_view (Event.pubsub_absorbed addr topic) lookup = refl
on_event-kad_view (Event.pubsub_delivered addr topic bytes) lookup = refl
on_event-kad_view (Event.pubsub_relayed addr topic n) lookup = refl
on_event-kad_view (Event.pubsub_redundant addr topic) lookup = refl
on_event-kad_view (Event.kad_ping_request_received addr) lookup = refl
on_event-kad_view (Event.kad_ping_response_received addr) lookup = refl
on_event-kad_view (Event.kad_find_node_request_received addr target n) lookup = refl
on_event-kad_view (Event.observe_request_received addr) lookup = refl
on_event-kad_view (Event.observe_response_received addr observed) lookup = refl
on_event-kad_view (Event.punch_request_received addr target forwarded) lookup = refl
on_event-kad_view (Event.punch_forward_received addr initiator) lookup = refl
on_event-kad_view (Event.relay_forwarded addr target forwarded n) lookup = refl
on_event-kad_view (Event.relay_received addr originator payload) lookup = refl
on_event-kad_view (Event.relay_failed addr peer reason) lookup = refl
on_event-kad_view (Event.rpc_datagram addr bytes) lookup = refl
on_event-kad_view (Event.rejected addr) lookup = refl

-- Two computations that run alike have one result.
bind_same :
    {A B : Type 0} (m : Result A) (f g : A → Result B)
    → ((a : A) → f a ≡ g a)
    → (m >>= f) ≡ (m >>= g)
bind_same (ok a) f g h = h a
bind_same (err e) f g h = refl

map_bind :
    {A B C : Type 0} (m : Result A) (f : A → B) (g : B → Result C)
    → (map_ok f m >>= g) ≡ (m >>= λ a. g (f a))
map_bind (ok a) f g = refl
map_bind (err e) f g = refl

module _ {K D R C T P O : Type 0} (crypto : Crypto) (os : UdpSocket K)
    (wire : WireAuthenticator C T) (coding : Coding D R C T P O) (is_utf8 : List ℕ → Bool)
    (relay_fail_reason : UdpAddr → List ℕ) (seed_factory : ℕ → List ℕ) where
  -- The multi-protocol node as the Kademlia lookup uses a node.
  abbrev pub lookup_interface : LookupNode (MultiProtocolNode K D R C)
  lookup_interface = record {
    node_id = λ node. node.kad_table.self_id;
    closest_to = λ target k node. RoutingTable.closest_to target k node.kad_table;
    is_established = λ addr node. Dispatch.is_established addr node.host;
    find_node = λ addr target node. kad_find_node crypto os addr target node;
    dial = λ addr seed node. Node.dial crypto os addr seed node;
    recv_one = λ seed node.
        map_ok (λ r. (r.0, kad_view r.1))
          (recv_one crypto os wire coding is_utf8 relay_fail_reason seed unused_relay_rng node);
  }

  choose_actions_lem :
      (node : MultiProtocolNode K D R C) (calls : ℕ) (peers : List Entry)
      → choose_lookup_actions crypto os seed_factory node calls peers
        ≡ choose_actions lookup_interface seed_factory node calls peers
  unfolding choose_lookup_actions choose_actions
  choose_actions_lem node calls [] = refl
  choose_actions_lem node calls ((id, addr) ∷ peers) =
      let established = Dispatch.is_established addr node.host in
      let next_calls = if established then calls else suc calls in
      let action = if established then query addr else dial_peer addr (seed_factory calls) in
      ap (λ (r : List (NodeId × RoundAction) × ℕ). ((id, action) ∷ r.0, r.1))
        (choose_actions_lem node next_calls peers)

  send_chain_lem :
      (target : NodeId) (actions : List (NodeId × RoundAction)) (node : MultiProtocolNode K D R C)
      → send_lookup_chain crypto os seed_factory target actions node
        ≡ send_chain lookup_interface seed_factory target actions node
  unfolding send_lookup_chain send_chain send_lookup_action send_action
  send_chain_lem target [] node = refl
  send_chain_lem target ((id, query addr) ∷ actions) node =
      bind_same (kad_find_node crypto os addr target node) _ _ (send_chain_lem target actions)
  send_chain_lem target ((id, dial_peer addr seed) ∷ actions) node =
      bind_same (Node.dial crypto os addr seed node) _ _ (send_chain_lem target actions)

  drain_responses_lem :
      (budget : ℕ) (node : MultiProtocolNode K D R C) (lookup : Lookup) (calls : ℕ)
      → drain_lookup_responses crypto os wire coding is_utf8 relay_fail_reason seed_factory budget
          node lookup calls
        ≡ drain_responses lookup_interface seed_factory budget node lookup calls
  unfolding drain_lookup_responses drain_responses
  drain_responses_lem zero node lookup calls = refl
  drain_responses_lem (suc budget) node lookup calls =
      elim (Bool-cases (is_empty lookup.pending_queries && is_empty lookup.pending_dials)) [
        | inl stop ↦ rw stop refl
        | inr more ↦ rw more (
            bind_same
              (recv_one crypto os wire coding is_utf8 relay_fail_reason (seed_factory calls)
                unused_relay_rng node)
              _ _
              (λ r.
                drain_responses_lem budget r.0 (absorb_lookup_event r.1 lookup) (suc calls)
                ∙ ap (λ l. drain_responses lookup_interface seed_factory budget r.0 l (suc calls))
                    (on_event-kad_view r.1 lookup))
            ∙ sym (
                map_bind
                  (recv_one crypto os wire coding is_utf8 relay_fail_reason (seed_factory calls)
                    unused_relay_rng node)
                  _ _))
      ]

  drive_rounds_lem :
      (rounds : ℕ) (node : MultiProtocolNode K D R C) (lookup : Lookup) (calls : ℕ)
      → drive_lookup_rounds crypto os wire coding is_utf8 relay_fail_reason seed_factory rounds node
          lookup calls
        ≡ drive_rounds lookup_interface seed_factory rounds node lookup calls
  unfolding drive_lookup_rounds drive_rounds
  drive_rounds_lem zero node lookup calls = refl
  drive_rounds_lem (suc rounds) node lookup calls =
      elim (Bool-cases (is_done lookup || is_empty (pick_next_alpha lookup))) [
        | inl stop ↦ rw stop refl
        | inr more ↦ rw more (
            rw (choose_actions_lem node calls (pick_next_alpha lookup)) (
              let r =
                choose_actions lookup_interface seed_factory node calls (pick_next_alpha lookup) in
              let marked = mark_all r.0 lookup in
              rw (send_chain_lem marked.target r.0 node) (
                bind_same (send_chain lookup_interface seed_factory marked.target r.0 node) _ _
                  λ sent.
                    rw (drain_responses_lem marked.config.max_recv_per_round sent marked r.1) (
                      bind_same
                        (drain_responses lookup_interface seed_factory
                          marked.config.max_recv_per_round sent marked r.1)
                        _ _
                        λ d.
                          drive_rounds_lem rounds d.0
                            (skip_pending_dials (skip_pending_queries d.1)) d.2))))
      ]

  -- The lookup of a multi-protocol node is the Kademlia lookup over that node, which sees what does
  -- not concern it as rejections.
  pub lookup_node-run_lookup :
      (target : NodeId) (config : LookupConfig) (node : MultiProtocolNode K D R C)
      → lookup_node crypto os wire coding is_utf8 relay_fail_reason seed_factory target config node
        ≡ run_lookup lookup_interface seed_factory node target config
  unfolding lookup_node run_lookup
  lookup_node-run_lookup target config node =
      ap (map_ok _) (drive_rounds_lem config.max_rounds node _ 0)
