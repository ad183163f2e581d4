-- ===== src/Mux/Node/Isolation.antt =====
-- What a plaintext of one protocol leaves of the others in crates/libp2p-cat-mux/src/node.rs.
use libp2p_cat_rs.Prelude.{
  ℕ, zero, suc, ◌≡◌, ◌≢◌, ◌<◌, ◌==◌, refl, Bool, false, Option, none, some, first, List, [], ◌∷◌,
  slice_from, or_empty, arith,
}
use libp2p_cat_rs.Types.Error.{ok, Ensures, Ensures-elim, Ensures-bind}
use libp2p_cat_rs.Types.Addr.{UdpAddr}
use libp2p_cat_rs.Udp.{UdpSocket}
use libp2p_cat_rs.Host.Dispatch.{Crypto}
use libp2p_cat_rs.Kad.RoutingTable.Placement.{IsTable}
use libp2p_cat_rs.Kad.Node as KadNode
use libp2p_cat_rs.Kad.Node.Table.{Keeps, Keeps-refl, KeepsTable, handle_datagram-Keeps}
use libp2p_cat_rs.Rendezvous.Node as Rendezvous
use libp2p_cat_rs.Pubsub.Auth.{WireAuthenticator}
use libp2p_cat_rs.Pubsub.Mux.{Rng, Coding}
use libp2p_cat_rs.Pubsub.Mux.Receive
use libp2p_cat_rs.Mux.Event.{MultiProtocolEvent}
use libp2p_cat_rs.Mux.Node.{
  MultiProtocolNode, kind_app, kind_pubsub, kind_kad, kind_rendezvous, kind_wrap, dispatch_pubsub,
  dispatch_kad, dispatch_rendezvous, dispatch_plaintext,
}

-- Only a plaintext of its own kind (the first byte, if there is one) changes a protocol's state, and the routing table stays valid.
pub record IsIsolated {K D R C : Type 0} (kind : Option ℕ) (node next : MultiProtocolNode K D R C)
    : Type 0 where
  pub table : Keeps node.kad_table next.kad_table
  pub kad : kind ≢ some kind_kad → next.kad_table ≡ node.kad_table
  pub pubsub : kind ≢ some kind_pubsub → next.pubsub_state ≡ node.pubsub_state

untouched :
    {K D R C : Type 0} (kind : Option ℕ) (node : MultiProtocolNode K D R C)
    → IsTable node.kad_table
    → IsIsolated kind node node
untouched kind node v = record { table = Keeps-refl v; kad = λ h. refl; pubsub = λ h. refl }

unknown_kind : (n k : ℕ) → k < 5 → (suc (suc (suc (suc (suc n)))) == k) ≡ false
unknown_kind n k h = ground arith

module _ {K D R C T P O : Type 0} (crypto : Crypto) (os : UdpSocket K)
    (wire : WireAuthenticator C T) (coding : Coding D R C T P O) (is_utf8 : List ℕ → Bool)
    (relay_fail_reason : UdpAddr → List ℕ) where
  abbrev Isolates :
      Option ℕ → MultiProtocolNode K D R C → MultiProtocolNode K D R C × MultiProtocolEvent → Type 0
  Isolates kind node r = IsIsolated kind node r.0

  dispatch_kad-Isolates :
      (addr : UdpAddr) (body : List ℕ) (node : MultiProtocolNode K D R C)
      → IsTable node.kad_table
      → Ensures
          (Isolates (some kind_kad) node)
          (dispatch_kad crypto os wire coding is_utf8 relay_fail_reason addr body node)
  unfolding dispatch_kad
  dispatch_kad-Isolates addr body node v =
      Ensures-bind (Isolates (some kind_kad) node)
        (KadNode.handle_datagram crypto os addr body (kind_wrap kind_kad)
          (record { host = node.host; table = node.kad_table }))
        _
        λ r p. record {
          table =
              Ensures-elim (KeepsTable crypto os node.kad_table) _
                (handle_datagram-Keeps crypto os addr body (kind_wrap kind_kad)
                  (record { host = node.host; table = node.kad_table }) v)
                p;
          kad = λ h. absurd (h refl);
          pubsub = λ h. refl;
        }

  dispatch_rendezvous-Isolates :
      (addr : UdpAddr) (body : List ℕ) (kind : Option ℕ) (node : MultiProtocolNode K D R C)
      → IsTable node.kad_table
      → Ensures
          (Isolates kind node)
          (dispatch_rendezvous crypto os wire coding is_utf8 relay_fail_reason addr body node)
  unfolding dispatch_rendezvous
  dispatch_rendezvous-Isolates addr body kind node v =
      Ensures-bind (Isolates kind node)
        (Rendezvous.handle_datagram crypto is_utf8 relay_fail_reason os addr body
          (kind_wrap kind_rendezvous) (record { host = node.host }))
        _ λ r p. record { table = Keeps-refl v; kad = λ h. refl; pubsub = λ h. refl }

  dispatch_pubsub-Isolates :
      (addr : UdpAddr) (body : List ℕ) (rng : Rng) (node : MultiProtocolNode K D R C)
      → IsTable node.kad_table
      → Ensures (Isolates (some kind_pubsub) node) (
          dispatch_pubsub crypto os wire coding is_utf8 relay_fail_reason addr
            (kind_pubsub ∷ body)
            rng
            node)
  unfolding dispatch_pubsub
  dispatch_pubsub-Isolates addr body rng node v =
      Ensures-bind (Isolates (some kind_pubsub) node)
        (Receive.dispatch_plaintext crypto os wire coding is_utf8 addr (kind_pubsub ∷ body) rng
          (record { host = node.host; state = node.pubsub_state }))
        _ λ r p. record { table = Keeps-refl v; kad = λ h. refl; pubsub = λ h. absurd (h refl) }

  dispatch_pubsub_app :
      (addr : UdpAddr) (body : List ℕ) (rng : Rng) (node : MultiProtocolNode K D R C)
      → IsTable node.kad_table
      → Ensures (Isolates (some kind_app) node) (
          dispatch_pubsub crypto os wire coding is_utf8 relay_fail_reason addr
            (kind_app ∷ body)
            rng
            node)
  unfolding dispatch_pubsub Receive.dispatch_plaintext
  dispatch_pubsub_app addr body rng node v = untouched (some kind_app) node v

  dispatch_plaintext-Isolates :
      (addr : UdpAddr) (plaintext : List ℕ) (rng : Rng) (node : MultiProtocolNode K D R C)
      → IsTable node.kad_table
      → Ensures (Isolates (first plaintext) node) (
          dispatch_plaintext crypto os wire coding is_utf8 relay_fail_reason addr plaintext rng
            node)
  unfolding dispatch_plaintext
  dispatch_plaintext-Isolates addr [] rng node v = untouched none node v
  dispatch_plaintext-Isolates addr (zero ∷ body) rng node v =
      dispatch_pubsub_app addr body rng node v
  dispatch_plaintext-Isolates addr ((suc zero) ∷ body) rng node v =
      dispatch_pubsub-Isolates addr body rng node v
  dispatch_plaintext-Isolates addr ((suc (suc zero)) ∷ body) rng node v =
      dispatch_kad-Isolates addr (or_empty (slice_from 1 (2 ∷ body))) node v
  dispatch_plaintext-Isolates addr ((suc (suc (suc zero))) ∷ body) rng node v =
      dispatch_rendezvous-Isolates addr (or_empty (slice_from 1 (3 ∷ body))) (some 3) node v
  dispatch_plaintext-Isolates addr ((suc (suc (suc (suc zero)))) ∷ body) rng node v =
      untouched (some 4) node v
  dispatch_plaintext-Isolates addr ((suc (suc (suc (suc (suc n))))) ∷ body) rng node v =
      rw (unknown_kind n 0 (omega arith), unknown_kind n 1 (omega arith))
        (rw
          (
            unknown_kind n 2 (omega arith),
            unknown_kind n 3 (omega arith),
            unknown_kind n 4 (omega arith),
          )
          (untouched (some (suc (suc (suc (suc (suc n)))))) node v))

  -- Whatever plaintext a peer sends to a node with a valid routing table, the empty one included:
  -- where the node returns, its routing table is valid, of the same node and capacity, and only a
  -- plaintext of Kademlia's kind has changed it; and only a plaintext of pubsub's kind has changed
  -- pubsub's state.
  pub dispatch_plaintext-IsIsolated :
      (addr : UdpAddr) (plaintext : List ℕ) (rng : Rng) (node next : MultiProtocolNode K D R C)
      (event : MultiProtocolEvent)
      → IsTable node.kad_table
      → dispatch_plaintext crypto os wire coding is_utf8 relay_fail_reason addr plaintext rng node
        ≡ ok (next, event)
      → IsIsolated (first plaintext) node next
  dispatch_plaintext-IsIsolated addr plaintext rng node next event v h =
      Ensures-elim (Isolates (first plaintext) node) _
        (dispatch_plaintext-Isolates addr plaintext rng node v) h
