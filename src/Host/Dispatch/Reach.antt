-- ===== src/Host/Dispatch/Reach.antt =====
-- A host of crates/libp2p-cat-host/src/host.rs as its operations take it from state to state.
use libp2p_cat_rs.Prelude.{
  ℕ, ◌-◌, ◌≡◌, refl, ◌∙◌, List, Bool-cases, inl, inr, arith, length-filter-le, leb, ◌||◌,
  Option-cases,
}
use libp2p_cat_rs.Prelude.Words.{wrapping_suc}
use libp2p_cat_rs.Prelude.BTreeMap
use libp2p_cat_rs.Prelude.BTreeMap.{contains_key, filter-IsSorted}
use libp2p_cat_rs.Types.Error.{ok, Ensures, Ensures-elim, Ensures-bind}
use libp2p_cat_rs.Types.Addr.{UdpAddr, addr_lex}
use libp2p_cat_rs.Noise.Primitives.{StaticKeypair}
use libp2p_cat_rs.Noise.Transport
use libp2p_cat_rs.Noise.Transport.Replay.{Result-cases}
use libp2p_cat_rs.Identity.Keypair.{Ed25519Keypair}
use libp2p_cat_rs.Identity.SignedStaticKey
use libp2p_cat_rs.Udp
use libp2p_cat_rs.Udp.{UdpSocket, UdpTransport}
use libp2p_cat_rs.Host.Capacity.{Capacity, IsPositive}
use libp2p_cat_rs.Host.State.{initiator_awaiting_response, Host, HostEvent}
use libp2p_cat_rs.Host.Table.{
  evict, evict_idle, sweep_idle, sweep_idle_established, handshake_activity, established_activity,
}
use libp2p_cat_rs.Host.Table.Laws.{get-sweep_idle}
use libp2p_cat_rs.Host.Dispatch.{
  Crypto, dial, prepare_dial, send, prepare_send, send_raw, recv_one, with_capacity,
}
use libp2p_cat_rs.Host.Dispatch.Invariant.{
  IsHost, update_established-IsTables, remove_handshake-IsTables, remove_established-IsTables,
}
use libp2p_cat_rs.Host.Dispatch.Handlers.{dispatch_inbound-IsHost, store_handshake-IsHost}

module _ {K : Type 0} (crypto : Crypto) (os : UdpSocket K) where
  -- One operation that succeeds.
  pub data Step : Host K → Host K → Type 0 where
    dialled :
        (addr : UdpAddr) (seed : List ℕ) {h h' : Host K}
        → dial crypto os addr seed h ≡ ok h'
        → Step h h'
    sent :
        (addr : UdpAddr) (plaintext : List ℕ) {h h' : Host K}
        → send crypto os addr plaintext h ≡ ok h'
        → Step h h'
    sent_raw :
        (addr : UdpAddr) (bytes : List ℕ) {h h' : Host K}
        → send_raw crypto os addr bytes h ≡ ok h'
        → Step h h'
    received :
        (seed : List ℕ) {h h' : Host K} {event : HostEvent}
        → recv_one crypto os seed h ≡ ok (h', event)
        → Step h h'
    evicted : (addr : UdpAddr) {h : Host K} → Step h (evict addr h)
    swept : (max_idle_ticks : ℕ) {h : Host K} → Step h (evict_idle max_idle_ticks h).0

  pub data Reach : Host K → Host K → Type 0 where
    here : {h : Host K} → Reach h h
    next : {h h' h'' : Host K} → Reach h h' → Step h' h'' → Reach h h''

  dial-IsHost :
      (addr : UdpAddr) (seed : List ℕ) (h : Host K)
      → IsHost h
      → Ensures IsHost (dial crypto os addr seed h)
  unfolding dial prepare_dial
  dial-IsHost addr seed h t =
      elim (Bool-cases (contains_key addr h.handshakes || contains_key addr h.established)) [
        | inl known ↦ rw (Ensures, known) tt
        | inr unknown ↦
            Ensures-bind IsHost (prepare_dial crypto os addr seed h) _ λ (after_e, msg1) p.
              Ensures-bind IsHost (Udp.send os addr msg1 h.socket) _ λ socket q.
                store_handshake-IsHost addr (initiator_awaiting_response after_e msg1)
                  (wrapping_suc h.tick) (record h { socket = socket; tick = wrapping_suc h.tick }) t
                  (ground (arith, unknown))
      ]

  send-IsHost :
      (addr : UdpAddr) (plaintext : List ℕ) (h : Host K)
      → IsHost h
      → Ensures IsHost (send crypto os addr plaintext h)
  unfolding send prepare_send
  send-IsHost addr plaintext h t = elim (Option-cases (BTreeMap.get addr h.established)) [
    | inl e ↦ rw (Ensures, e) tt
    | inr (conn, e) ↦
        elim (Result-cases (Transport.encrypt crypto.cipher plaintext conn.transport)) [
          | inl (error, p) ↦ rw (Ensures, e) (rw p tt)
          | inr ((transport, datagram), p) ↦
              rw (Ensures, e)
                (rw p (
                  Ensures-bind IsHost (Udp.send os addr datagram h.socket) _ λ socket q.
                    update_established-IsTables h.capacity h.handshakes h.established addr t _ e))
        ]
  ]

  evict-IsHost : (addr : UdpAddr) (h : Host K) → IsHost h → IsHost (evict addr h)
  unfolding evict
  evict-IsHost addr h t =
      remove_established-IsTables h.capacity (BTreeMap.remove addr h.handshakes) h.established addr
        (remove_handshake-IsTables h.capacity h.handshakes h.established addr t)

  evict_idle-IsHost : (n : ℕ) (h : Host K) → IsHost h → IsHost (evict_idle n h).0
  unfolding evict_idle sweep_idle sweep_idle_established
  evict_idle-IsHost n h t =
      let cutoff = h.tick - n in
      record {
        handshakes_sorted = filter-IsSorted _ h.handshakes t.handshakes_sorted;
        established_sorted = filter-IsSorted _ h.established t.established_sorted;
        handshakes_within = omega (
          arith,
          t.handshakes_within,
          length-filter-le (λ e. leb cutoff (handshake_activity e.1)) h.handshakes,
        );
        established_within = omega (
          arith,
          t.established_within,
          length-filter-le (λ e. leb cutoff (established_activity e.1)) h.established,
        );
        positive = t.positive;
        disjoint = λ j. elim (t.disjoint j) [
          | inl gone ↦ inl (
              get-sweep_idle handshake_activity cutoff j h.handshakes t.handshakes_sorted
              ∙ rw gone refl)
          | inr gone ↦ inr (
              get-sweep_idle established_activity cutoff j h.established t.established_sorted
              ∙ rw gone refl)
        ];
      }

  Step-IsHost : {h h' : Host K} → Step h h' → IsHost h → IsHost h'
  unfolding send_raw recv_one
  Step-IsHost (dialled addr seed {h} {h'} p) t =
      Ensures-elim IsHost (dial crypto os addr seed h) (dial-IsHost addr seed h t) p
  Step-IsHost (sent addr plaintext {h} {h'} p) t =
      Ensures-elim IsHost (send crypto os addr plaintext h) (send-IsHost addr plaintext h t) p
  Step-IsHost (sent_raw addr bytes {h} {h'} p) t =
      Ensures-elim IsHost (send_raw crypto os addr bytes h)
        (Ensures-bind IsHost (Udp.send os addr bytes h.socket) _ λ socket q. t) p
  Step-IsHost (received seed {h} {h'} {event} p) t =
      let kept : Host K × HostEvent → Type 0 = λ r. IsHost r.0 in
      Ensures-elim kept (recv_one crypto os seed h)
        (Ensures-bind kept (Udp.recv os h.socket) _ λ ((source, datagram), socket) q.
          dispatch_inbound-IsHost crypto os source datagram seed (record h { socket = socket }) t)
        p
  Step-IsHost (evicted addr {h}) t = evict-IsHost addr h t
  Step-IsHost (swept n {h}) t = evict_idle-IsHost n h t

  Reach-IsHost : {h h' : Host K} → Reach h h' → IsHost h → IsHost h'
  Reach-IsHost here t = t
  Reach-IsHost (next r s) t = Step-IsHost s (Reach-IsHost r t)

  -- A host that was built with a capacity of two positive caps has, after any operations that
  -- succeed, both tables sorted and within their caps, and no peer in both.
  pub with_capacity-Reach-IsHost :
      (socket : UdpTransport K) (keypair : StaticKeypair) (identity : Ed25519Keypair)
      (secret : List ℕ) (capacity : Capacity) (h h' : Host K)
      → IsPositive capacity
      → with_capacity crypto os socket keypair identity secret capacity ≡ ok h
      → Reach h h'
      → IsHost h'
  unfolding with_capacity
  with_capacity-Reach-IsHost socket keypair identity secret capacity h h' positive built run =
      Reach-IsHost run (
        Ensures-elim IsHost (with_capacity crypto os socket keypair identity secret capacity)
          (Ensures-bind IsHost (SignedStaticKey.create crypto.scheme identity keypair.public) _
            λ signed q. record {
              handshakes_sorted = tt;
              established_sorted = tt;
              handshakes_within = omega arith;
              established_within = omega arith;
              positive = positive;
              disjoint = λ j. inl (unfold BTreeMap.get in refl);
            })
          built)
