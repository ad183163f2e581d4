-- ===== src/Host/Dispatch/Complete.antt =====
-- Handshakes that complete, and datagrams that are delivered, in crates/libp2p-cat-host/src/host.rs.
use libp2p_cat_rs.Prelude.{
  ℕ, ◌≡◌, refl, ◌∙◌, none, some, List, inl, inr, Bool-cases, slice_from, or_empty, ◌++◌,
}
use libp2p_cat_rs.Prelude.Words.{wrapping_suc}
use libp2p_cat_rs.Prelude.Lex.{key_eq_refl}
use libp2p_cat_rs.Prelude.BTreeMap
use libp2p_cat_rs.Prelude.BTreeMap.{BTreeMap, contains_key, get-insert, get-remove}
use libp2p_cat_rs.Types.Error.{Ensures, Ensures-elim, Ensures-bind}
use libp2p_cat_rs.Types.Addr.{UdpAddr, addr_lex}
use libp2p_cat_rs.Types.PeerId.{PeerId}
use libp2p_cat_rs.Noise.Primitives.{StaticPublicKey}
use libp2p_cat_rs.Noise.Transport.{TransportState}
use libp2p_cat_rs.Noise.Transport.Replay.{Result-cases}
use libp2p_cat_rs.Noise.Handshake.{InitiatorAfterE, ResponderAfterResponse}
use libp2p_cat_rs.Udp
use libp2p_cat_rs.Udp.{UdpSocket, UdpTransport}
use libp2p_cat_rs.Host.Cookie.{is_challenge}
use libp2p_cat_rs.Host.State.{
  HandshakeState, initiator_awaiting_response, responder_awaiting_finalize, InFlightHandshake,
  EstablishedConnection, Host, HostEvent, handshake_complete,
}
use libp2p_cat_rs.Host.Table.{insert_with_lru, insert_established_with_lru}
use libp2p_cat_rs.Host.Dispatch.Binding.{
  IsBound, initiator_outcome-IsBound, responder_outcome-IsBound,
}
use libp2p_cat_rs.Host.Dispatch.{
  Crypto, advance_entry, answer_cookie_challenge, initiator_consume_msg2, responder_consume_msg3,
  initiator_outcome, responder_outcome, store_established,
}

module _ {K : Type 0} (crypto : Crypto) (os : UdpSocket K) where
  -- Where `r` reports a completed handshake, the peer of `source` had one in flight and was not
  -- established; now it is established with what is reported, and no longer in flight; and the
  -- payload that the handshake in flight reads from the datagram binds the static key, which it
  -- also reads from it, to the reported identifier.
  abbrev pub IsAuthentic : Host K → UdpAddr → List ℕ → Host K × HostEvent → Type 0
  IsAuthentic h source datagram r =
      (a : UdpAddr) (remote_static : StaticPublicKey) (peer : PeerId)
      → r.1 ≡ handshake_complete a remote_static peer
      → (a ≡ source)
        × (entry : InFlightHandshake) × (BTreeMap.get source h.handshakes ≡ some entry)
        × (BTreeMap.get source h.established ≡ none)
        × (BTreeMap.get source r.0.handshakes ≡ none)
        × (conn : EstablishedConnection) × (BTreeMap.get source r.0.established ≡ some conn)
        × (conn.remote_static ≡ remote_static)
        × (conn.remote_peer_id ≡ peer)
        × IsBound crypto entry.state datagram remote_static peer

  module _ (source : UdpAddr) (h0 : Host K) (entry : InFlightHandshake)
      (there : BTreeMap.get source h0.handshakes ≡ some entry)
      (fresh : BTreeMap.get source h0.established ≡ none) where
    abbrev without : Host K
    without = record h0 { handshakes = BTreeMap.remove source h0.handshakes }

    established_now :
        (datagram : List ℕ) (transport : TransportState) (remote_static : StaticPublicKey)
        (peer : PeerId) (at_tick : ℕ) (socket : UdpTransport K)
        → IsBound crypto entry.state datagram remote_static peer
        → IsAuthentic h0 source datagram (
          store_established source transport remote_static peer at_tick
              (record without { socket = socket; tick = at_tick }),
          handshake_complete source remote_static peer,
        )
    unfolding store_established insert_established_with_lru insert_with_lru
    established_now datagram transport remote_static peer at_tick socket bound a rs p q =
        let same_static : remote_static ≡ rs = cc in
        let same_peer : peer ≡ p = cc in
        (
          cc,
          entry,
          there,
          fresh,
          get-remove source source h0.handshakes ∙ rw (key_eq_refl source) refl,
          record {
            transport = transport;
            remote_static = remote_static;
            remote_peer_id = peer;
            last_activity = at_tick;
          },
          get-insert source source _ _ ∙ rw (key_eq_refl source) refl,
          same_static,
          same_peer,
          rw (← same_static, ← same_peer) bound,
        )

    initiator_consume_msg2-IsAuthentic :
        (after_e : InitiatorAfterE) (msg1 : List ℕ) (at_tick : ℕ) (datagram : List ℕ)
        → entry.state ≡ initiator_awaiting_response after_e msg1
        → Ensures
            (IsAuthentic h0 source datagram)
            (initiator_consume_msg2 crypto os source after_e msg1 at_tick datagram without)
    unfolding initiator_consume_msg2
    initiator_consume_msg2-IsAuthentic after_e msg1 at_tick datagram same =
        elim (Result-cases (initiator_outcome crypto h0.identity after_e datagram)) [
          | inl (e, p) ↦ rw (Ensures, p) λ a rs peer q. absurd (cc)
          | inr ((transport, msg3, remote_static, peer), p) ↦
              rw (Ensures, p)
                (Ensures-bind (IsAuthentic h0 source datagram) (Udp.send os source msg3 h0.socket) _
                  λ socket sent.
                    established_now datagram transport remote_static peer (wrapping_suc h0.tick)
                      socket
                      (rw same (
                        Ensures-elim
                          (λ r.
                            IsBound crypto (initiator_awaiting_response after_e msg1) datagram r.2
                              r.3)
                          (initiator_outcome crypto h0.identity after_e datagram)
                          (initiator_outcome-IsBound crypto h0.identity after_e msg1 datagram) p)))
        ]

    responder_consume_msg3-IsAuthentic :
        (after_resp : ResponderAfterResponse) (at_tick : ℕ) (datagram : List ℕ)
        → entry.state ≡ responder_awaiting_finalize after_resp
        → Ensures
            (IsAuthentic h0 source datagram)
            (responder_consume_msg3 crypto os source after_resp at_tick datagram without)
    unfolding responder_consume_msg3
    responder_consume_msg3-IsAuthentic after_resp at_tick datagram same =
        elim (Result-cases (responder_outcome crypto after_resp datagram)) [
          | inl (e, p) ↦ rw (Ensures, p) λ a rs peer q. absurd (cc)
          | inr ((transport, remote_static, peer), p) ↦
              rw (Ensures, p)
                (established_now datagram transport remote_static peer (wrapping_suc h0.tick)
                  h0.socket
                  (rw same (
                    Ensures-elim
                      (λ r.
                        IsBound crypto (responder_awaiting_finalize after_resp) datagram r.1 r.2)
                      (responder_outcome crypto after_resp datagram)
                      (responder_outcome-IsBound crypto after_resp datagram) p)))
        ]

    pub advance_entry-IsAuthentic :
        (state : HandshakeState) (at_tick : ℕ) (datagram : List ℕ)
        → entry.state ≡ state
        → Ensures
            (IsAuthentic h0 source datagram)
            (advance_entry crypto os source state at_tick datagram without)
    unfolding advance_entry answer_cookie_challenge
    advance_entry-IsAuthentic (initiator_awaiting_response after_e msg1) at_tick datagram same =
        elim (Bool-cases (is_challenge datagram)) [
          | inl e ↦
              rw (Ensures, e)
                (Ensures-bind (IsAuthentic h0 source datagram)
                  (Udp.send os source (msg1 ++ or_empty (slice_from 1 datagram)) h0.socket) _
                  λ socket sent a rs peer q. absurd (cc))
          | inr e ↦
              rw (Ensures, e)
                (initiator_consume_msg2-IsAuthentic after_e msg1 at_tick datagram same)
        ]
    advance_entry-IsAuthentic (responder_awaiting_finalize after_resp) at_tick datagram same =
        responder_consume_msg3-IsAuthentic after_resp at_tick datagram same
