-- ===== src/Host/Dispatch/Handlers.antt =====
-- The handlers of received datagrams of crates/libp2p-cat-host/src/host.rs, and the tables.
use libp2p_cat_rs.Prelude.{
  ℕ, ◌≡◌, refl, ◌∙◌, Option, none, some, List, length, arith, inl, inr, Bool-cases, Option-cases,
  slice_to, slice_from, or_empty, ◌++◌, ◌==◌,
}
use libp2p_cat_rs.Prelude.Words.{wrapping_suc}
use libp2p_cat_rs.Prelude.Lex.{key_eq_refl}
use libp2p_cat_rs.Prelude.BTreeMap
use libp2p_cat_rs.Prelude.BTreeMap.{BTreeMap, contains_key, get-remove, filter-IsSorted}
use libp2p_cat_rs.Types.Error.{Result, ok, err, Ensures, Ensures-bind, ok_or, host_state}
use libp2p_cat_rs.Types.Addr.{UdpAddr, addr_lex}
use libp2p_cat_rs.Noise.Transport
use libp2p_cat_rs.Noise.Transport.{TransportState}
use libp2p_cat_rs.Noise.Transport.Replay.{Result-cases}
use libp2p_cat_rs.Udp
use libp2p_cat_rs.Udp.{UdpSocket, UdpTransport}
use libp2p_cat_rs.Host.State.{
  HandshakeState, initiator_awaiting_response, responder_awaiting_finalize, EstablishedConnection,
  Host, HostEvent,
}
use libp2p_cat_rs.Host.Table.{insert_established_with_lru}
use libp2p_cat_rs.Noise.Handshake.{InitiatorAfterE, ResponderAfterResponse, message_1_len}
use libp2p_cat_rs.Host.Cookie
use libp2p_cat_rs.Host.Cookie.{is_challenge, msg1_with_cookie_len}
use libp2p_cat_rs.Host.Dispatch.{
  Crypto, dispatch_inbound, decrypt_established, settle_decrypt, advance_in_flight, advance_entry,
  answer_cookie_challenge, initiator_consume_msg2, responder_consume_msg3, initiator_outcome,
  responder_outcome, try_responder_msg1, respond_to_validated_msg1, response_to, store_handshake,
  store_established,
}
use libp2p_cat_rs.Host.Dispatch.Invariant.{
  IsHost, insert_handshake-IsTables, insert_established-IsTables, update_established-IsTables,
  remove_handshake-IsTables,
}

-- `ok_or` of a value that is known.
pub ok_or-eq-ok : {A : Type 0} (o : Option A) {a : A} → ok_or host_state o ≡ ok a → o ≡ some a
ok_or-eq-ok none h = cc
ok_or-eq-ok (some b) h = ground arith

module _ {K : Type 0} where
  pub store_handshake-IsHost :
      (addr : UdpAddr) (state : HandshakeState) (at_tick : ℕ) (h : Host K)
      → IsHost h
      → BTreeMap.get addr h.established ≡ none
      → IsHost (store_handshake addr state at_tick h)
  unfolding store_handshake
  store_handshake-IsHost addr state at_tick h t fresh =
      insert_handshake-IsTables h.capacity h.handshakes h.established addr t _ fresh

  store_established-IsHost :
      (addr : UdpAddr) (conn : EstablishedConnection) (h : Host K)
      → IsHost h
      → BTreeMap.get addr h.handshakes ≡ none
      → IsHost (
          store_established addr conn.transport conn.remote_static conn.remote_peer_id
            conn.last_activity h)
  unfolding store_established insert_established_with_lru
  store_established-IsHost addr conn h t fresh =
      insert_established-IsTables h.capacity h.handshakes h.established addr t _ fresh

  -- After a peer's handshake was taken out of the table.
  get_removed :
      (addr : UdpAddr) (h : Host K) → BTreeMap.get addr (BTreeMap.remove addr h.handshakes) ≡ none
  get_removed addr h = get-remove addr addr h.handshakes ∙ rw (key_eq_refl addr) refl

module _ {K : Type 0} (crypto : Crypto) (os : UdpSocket K) where
  abbrev Kept : Host K × HostEvent → Type 0
  Kept r = IsHost r.0

  settle_decrypt-IsHost :
      (source : UdpAddr) (conn : EstablishedConnection) (outcome : TransportState × Result (List ℕ))
      (h : Host K)
      → IsHost h
      → BTreeMap.get source h.established ≡ some conn
      → IsHost (settle_decrypt crypto os source conn outcome h).0
  unfolding settle_decrypt
  settle_decrypt-IsHost source conn (transport, err e) h t there =
      update_established-IsTables h.capacity h.handshakes h.established source t _ there
  settle_decrypt-IsHost source conn (transport, ok p) h t there =
      update_established-IsTables h.capacity h.handshakes h.established source t _ there

  decrypt_established-IsHost :
      (source : UdpAddr) (datagram : List ℕ) (h : Host K)
      → IsHost h
      → Ensures Kept (decrypt_established crypto os source datagram h)
  unfolding decrypt_established
  decrypt_established-IsHost source datagram h t =
      Ensures-bind Kept (ok_or host_state (BTreeMap.get source h.established)) _ λ conn p.
        settle_decrypt-IsHost source conn (Transport.decrypt crypto.cipher datagram conn.transport)
          h t (ok_or-eq-ok _ p)

  -- The handlers of a peer that is in neither table.
  module _ (source : UdpAddr) (h : Host K) (t : IsHost h)
      (fresh_h : BTreeMap.get source h.handshakes ≡ none)
      (fresh_e : BTreeMap.get source h.established ≡ none) where
    initiator_consume_msg2-IsHost :
        (after_e : InitiatorAfterE) (msg1 : List ℕ) (at_tick : ℕ) (datagram : List ℕ)
        → Ensures Kept (initiator_consume_msg2 crypto os source after_e msg1 at_tick datagram h)
    unfolding initiator_consume_msg2
    initiator_consume_msg2-IsHost after_e msg1 at_tick datagram =
        elim (Result-cases (initiator_outcome crypto h.identity after_e datagram)) [
          | inl (e, p) ↦
              rw (Ensures, p)
                (store_handshake-IsHost source _ at_tick (record h { tick = wrapping_suc h.tick }) t
                  fresh_e)
          | inr ((transport, msg3, remote_static, peer), p) ↦
              rw (Ensures, p)
                (Ensures-bind Kept (Udp.send os source msg3 h.socket) _ λ socket sent.
                  store_established-IsHost source
                    (record {
                      transport = transport;
                      remote_static = remote_static;
                      remote_peer_id = peer;
                      last_activity = wrapping_suc h.tick;
                    })
                    (record h { socket = socket; tick = wrapping_suc h.tick }) t fresh_h)
        ]

    responder_consume_msg3-IsHost :
        (after_resp : ResponderAfterResponse) (at_tick : ℕ) (datagram : List ℕ)
        → Ensures Kept (responder_consume_msg3 crypto os source after_resp at_tick datagram h)
    unfolding responder_consume_msg3
    responder_consume_msg3-IsHost after_resp at_tick datagram =
        elim (Result-cases (responder_outcome crypto after_resp datagram)) [
          | inl (e, p) ↦
              rw (Ensures, p)
                (store_handshake-IsHost source _ at_tick (record h { tick = wrapping_suc h.tick }) t
                  fresh_e)
          | inr ((transport, remote_static, peer), p) ↦
              rw (Ensures, p)
                (store_established-IsHost source
                  (record {
                    transport = transport;
                    remote_static = remote_static;
                    remote_peer_id = peer;
                    last_activity = wrapping_suc h.tick;
                  })
                  (record h { tick = wrapping_suc h.tick }) t fresh_h)
        ]

    advance_entry-IsHost :
        (state : HandshakeState) (at_tick : ℕ) (datagram : List ℕ)
        → Ensures Kept (advance_entry crypto os source state at_tick datagram h)
    unfolding advance_entry answer_cookie_challenge
    advance_entry-IsHost (initiator_awaiting_response after_e msg1) at_tick datagram =
        elim (Bool-cases (is_challenge datagram)) [
          | inl e ↦
              rw (Ensures, e)
                (Ensures-bind Kept
                  (Udp.send os source (msg1 ++ or_empty (slice_from 1 datagram)) h.socket) _
                  λ socket sent.
                    store_handshake-IsHost source _ at_tick (record h { socket = socket }) t
                      fresh_e)
          | inr e ↦ rw (Ensures, e) (initiator_consume_msg2-IsHost after_e msg1 at_tick datagram)
        ]
    advance_entry-IsHost (responder_awaiting_finalize after_resp) at_tick datagram =
        responder_consume_msg3-IsHost after_resp at_tick datagram

    respond_to_validated_msg1-IsHost :
        (e_bytes seed : List ℕ)
        → Ensures Kept (respond_to_validated_msg1 crypto os source e_bytes seed h)
    unfolding respond_to_validated_msg1
    respond_to_validated_msg1-IsHost e_bytes seed =
        elim (Result-cases (response_to crypto h.identity e_bytes seed)) [
          | inl (e, p) ↦ rw (Ensures, p) t
          | inr ((after_resp, msg2), p) ↦
              rw (Ensures, p)
                (Ensures-bind Kept (Udp.send os source msg2 h.socket) _ λ socket sent.
                  store_handshake-IsHost source _ (wrapping_suc h.tick)
                    (record h { socket = socket; tick = wrapping_suc h.tick }) t fresh_e)
        ]

    try_responder_msg1-IsHost :
        (datagram seed : List ℕ)
        → Ensures Kept (try_responder_msg1 crypto os source datagram seed h)
    unfolding try_responder_msg1
    try_responder_msg1-IsHost datagram seed = elim (Bool-cases (length datagram == message_1_len)) [
      | inl e ↦
          rw (Ensures, e)
            (Ensures-bind Kept
              (Udp.send os source
                (Cookie.challenge crypto.keyed_hash h.identity.cookie_secret source datagram)
                h.socket)
              _ λ socket sent. t)
      | inr e ↦
          rw (Ensures, e)
            (elim (Bool-cases (length datagram == msg1_with_cookie_len)) [
              | inr f ↦ rw (Ensures, f) t
              | inl f ↦
                  rw (Ensures, f)
                    (elim (Bool-cases (
                      Cookie.verify crypto.keyed_hash h.identity.cookie_secret source
                        (or_empty (slice_to message_1_len datagram))
                        (or_empty (slice_from message_1_len datagram)))) [
                          | inl good ↦ rw (Ensures, good) (respond_to_validated_msg1-IsHost _ seed)
                          | inr bad ↦ rw (Ensures, bad) t
                        ])
            ])
    ]

  pub dispatch_inbound-IsHost :
      (source : UdpAddr) (datagram seed : List ℕ) (h : Host K)
      → IsHost h
      → Ensures Kept (dispatch_inbound crypto os source datagram seed h)
  unfolding dispatch_inbound advance_in_flight
  dispatch_inbound-IsHost source datagram seed h t =
      elim (Option-cases (BTreeMap.get source h.established)) [
        | inr (conn, e) ↦ rw (Ensures, e) (decrypt_established-IsHost source datagram h t)
        | inl e ↦
            rw (Ensures, e)
              (elim (Option-cases (BTreeMap.get source h.handshakes)) [
                | inl f ↦ rw (Ensures, f) (try_responder_msg1-IsHost source h t f e datagram seed)
                | inr (entry, f) ↦
                    rw (Ensures, f)
                      (advance_entry-IsHost source
                        (record h { handshakes = BTreeMap.remove source h.handshakes })
                        (remove_handshake-IsTables h.capacity h.handshakes h.established source t)
                        (get_removed source h) e entry.state entry.last_activity datagram)
              ])
      ]
