-- ===== src/Host/Dispatch/Unchanged.antt =====
-- Datagrams that leave the tables of a host of crates/libp2p-cat-host/src/host.rs as they are.
use libp2p_cat_rs.Prelude.{
  ℕ, ◌≡◌, refl, sym, ap, ◌∙◌, ◌⊎◌, true, false, not, ◌&&◌, none, some, List, length, arith, inl,
  inr, Bool-cases, Option-cases, leb, slice_to, slice_from, or_empty, ◌++◌, ◌==◌,
}
use libp2p_cat_rs.Prelude.Words.{wrapping_suc}
use libp2p_cat_rs.Prelude.Lex.{key_eq, eq_of_key_eq}
use libp2p_cat_rs.Prelude.BTreeMap
use libp2p_cat_rs.Prelude.BTreeMap.{BTreeMap, contains_key, get-insert, get-remove, length-remove}
use libp2p_cat_rs.Types.Error.{ok, Ensures, Ensures-elim, Ensures-bind, Ensures-map}
use libp2p_cat_rs.Types.Addr.{UdpAddr, addr_lex}
use libp2p_cat_rs.Noise.Transport
use libp2p_cat_rs.Noise.Transport.{TransportState, decrypt_checked}
use libp2p_cat_rs.Noise.Transport.Replay.{Result-cases, decrypt_cases}
use libp2p_cat_rs.Noise.Handshake.{InitiatorAfterE, ResponderAfterResponse, message_1_len}
use libp2p_cat_rs.Udp
use libp2p_cat_rs.Udp.{UdpSocket, UdpTransport}
use libp2p_cat_rs.Host.Cookie
use libp2p_cat_rs.Host.Cookie.{is_challenge, msg1_with_cookie_len}
use libp2p_cat_rs.Host.State.{
  HandshakeState, initiator_awaiting_response, responder_awaiting_finalize, EstablishedConnection,
  Host, HostEvent, rejected,
}
use libp2p_cat_rs.Host.Table.{handshake_activity}
use libp2p_cat_rs.Host.Table.Laws.{insert_in_place}
use libp2p_cat_rs.Host.Dispatch.{
  Crypto, dispatch_inbound, decrypt_established, settle_decrypt, advance_in_flight, advance_entry,
  answer_cookie_challenge, initiator_consume_msg2, responder_consume_msg3, initiator_outcome,
  responder_outcome, try_responder_msg1, respond_to_validated_msg1, response_to, store_handshake,
}
use libp2p_cat_rs.Host.Dispatch.Invariant.{IsHost}

-- An entry taken out of a table and put back is where it was.
get_put_back :
    {V : Type 0} (addr j : UdpAddr) (entry : V) (m : BTreeMap UdpAddr V)
    → BTreeMap.get addr m ≡ some entry
    → BTreeMap.get j (BTreeMap.insert addr entry (BTreeMap.remove addr m)) ≡ BTreeMap.get j m
get_put_back addr j entry m there =
    get-insert j addr entry (BTreeMap.remove addr m) ∙ elim (Bool-cases (key_eq j addr)) [
      | inl same ↦ rw same (rw (eq_of_key_eq j addr same) (sym there))
      | inr other ↦ rw other (get-remove j addr m ∙ rw other refl)
    ]

module _ {K : Type 0} where
  -- Every peer has in `h'` what it has in `h`.
  abbrev pub SameTables : Host K → Host K → Type 0
  SameTables h h' =
      (j : UdpAddr)
      → (BTreeMap.get j h'.handshakes ≡ BTreeMap.get j h.handshakes)
        × (BTreeMap.get j h'.established ≡ BTreeMap.get j h.established)

  -- Putting an entry in flight back evicts nobody.
  store_back :
      (addr : UdpAddr) (state : HandshakeState) (at_tick : ℕ) (h h' : Host K)
      → IsHost h
      → BTreeMap.get addr h.handshakes ≡ some (record { state = state; last_activity = at_tick })
      → h'.handshakes ≡ BTreeMap.remove addr h.handshakes
      → h'.established ≡ h.established
      → h'.capacity ≡ h.capacity
      → SameTables h (store_handshake addr state at_tick h')
  unfolding store_handshake
  store_back addr state at_tick h h' t there hs es cap j =
      let room : (not (contains_key addr (BTreeMap.remove addr h.handshakes))
            && leb h.capacity.max_handshakes_in_flight (length (BTreeMap.remove addr h.handshakes)))
          ≡ false =
        ground
          (arith, t.handshakes_within, length-remove addr h.handshakes (ground (arith, there))) in
      (
        rw (hs, cap)
            (rw
              (insert_in_place handshake_activity addr
                (record { state = state; last_activity = at_tick })
                h.capacity.max_handshakes_in_flight (BTreeMap.remove addr h.handshakes) room)
              (get_put_back addr j _ h.handshakes there)),
        rw es refl,
      )

module _ {K : Type 0} (crypto : Crypto) (os : UdpSocket K) where
  -- Where `r` reports a rejection, it is of `source`, nothing was sent, and the tables are those
  -- of `h`.
  abbrev pub IsInert : Host K → UdpAddr → Host K × HostEvent → Type 0
  IsInert h source r =
      (a : UdpAddr) → r.1 ≡ rejected a → (a ≡ source) × (r.0.socket ≡ h.socket) × SameTables h r.0

  settle_decrypt-IsInert :
      (source : UdpAddr) (conn : EstablishedConnection) (datagram : List ℕ) (h : Host K)
      → BTreeMap.get source h.established ≡ some conn
      → IsInert h source (
          settle_decrypt crypto os source conn
            (Transport.decrypt crypto.cipher datagram conn.transport)
            h)
  unfolding settle_decrypt
  settle_decrypt-IsInert source conn datagram h there =
      elim (decrypt_cases crypto.cipher datagram conn.transport) [
        | inl (e, p, q) ↦
            rw q λ a r. (cc, refl, λ j. (refl, get_put_back source j conn h.established there))
        | inr (n, plaintext, fresh, p, q) ↦ rw q λ a r. absurd (cc)
      ]

  module _ (source : UdpAddr) (h0 : Host K) (t : IsHost h0) where
    -- The host without the entry in flight.
    abbrev without : Host K
    without = record h0 { handshakes = BTreeMap.remove source h0.handshakes }

    abbrev IsThere : HandshakeState → ℕ → Type 0
    IsThere state at_tick =
        BTreeMap.get source h0.handshakes ≡ some (record { state = state; last_activity = at_tick })

    initiator_consume_msg2-IsInert :
        (after_e : InitiatorAfterE) (msg1 : List ℕ) (at_tick : ℕ) (datagram : List ℕ)
        → IsThere (initiator_awaiting_response after_e msg1) at_tick
        → Ensures
            (IsInert h0 source)
            (initiator_consume_msg2 crypto os source after_e msg1 at_tick datagram without)
    unfolding initiator_consume_msg2
    initiator_consume_msg2-IsInert after_e msg1 at_tick datagram there =
        elim (Result-cases (initiator_outcome crypto h0.identity after_e datagram)) [
          | inl (e, p) ↦
              rw (Ensures, p)
                λ a q. (
                  cc,
                  unfold store_handshake in refl,
                  store_back source _ at_tick h0 (record without { tick = wrapping_suc h0.tick }) t
                      there refl refl refl,
                )
          | inr ((transport, msg3, remote_static, peer), p) ↦
              rw (Ensures, p)
                (Ensures-bind (IsInert h0 source) (Udp.send os source msg3 h0.socket) _
                  λ socket sent a q. absurd (cc))
        ]

    responder_consume_msg3-IsInert :
        (after_resp : ResponderAfterResponse) (at_tick : ℕ) (datagram : List ℕ)
        → IsThere (responder_awaiting_finalize after_resp) at_tick
        → Ensures
            (IsInert h0 source)
            (responder_consume_msg3 crypto os source after_resp at_tick datagram without)
    unfolding responder_consume_msg3
    responder_consume_msg3-IsInert after_resp at_tick datagram there =
        elim (Result-cases (responder_outcome crypto after_resp datagram)) [
          | inl (e, p) ↦
              rw (Ensures, p)
                λ a q. (
                  cc,
                  unfold store_handshake in refl,
                  store_back source _ at_tick h0 (record without { tick = wrapping_suc h0.tick }) t
                      there refl refl refl,
                )
          | inr ((transport, remote_static, peer), p) ↦ rw (Ensures, p) λ a q. absurd (cc)
        ]

    advance_entry-IsInert :
        (state : HandshakeState) (at_tick : ℕ) (datagram : List ℕ)
        → IsThere state at_tick
        → Ensures
            (IsInert h0 source)
            (advance_entry crypto os source state at_tick datagram without)
    unfolding advance_entry answer_cookie_challenge
    advance_entry-IsInert (initiator_awaiting_response after_e msg1) at_tick datagram there =
        elim (Bool-cases (is_challenge datagram)) [
          | inl e ↦
              rw (Ensures, e)
                (Ensures-bind (IsInert h0 source)
                  (Udp.send os source (msg1 ++ or_empty (slice_from 1 datagram)) h0.socket) _
                  λ socket sent a q. absurd (cc))
          | inr e ↦
              rw (Ensures, e) (initiator_consume_msg2-IsInert after_e msg1 at_tick datagram there)
        ]
    advance_entry-IsInert (responder_awaiting_finalize after_resp) at_tick datagram there =
        responder_consume_msg3-IsInert after_resp at_tick datagram there

  -- What a datagram of a peer in neither table may do: only one whose cookie is valid touches the
  -- handshakes, none touches the connections, and each one counts a tick.
  abbrev pub IsGuarded : Host K → UdpAddr → List ℕ → Host K × HostEvent → Type 0
  IsGuarded h source datagram r =
      (r.0.established ≡ h.established)
      × (r.0.tick ≡ wrapping_suc h.tick)
      × ((r.0.handshakes ≡ h.handshakes)
          ⊎ ((length datagram ≡ msg1_with_cookie_len)
              × (Cookie.verify crypto.keyed_hash h.identity.cookie_secret source
                    (or_empty (slice_to message_1_len datagram))
                    (or_empty (slice_from message_1_len datagram))
                  ≡ true)))

  respond_to_validated_msg1_parts :
      (source : UdpAddr) (e_bytes seed : List ℕ) (h : Host K)
      → Ensures
          (λ r.
            (r.0.established ≡ h.established)
            × (r.0.tick ≡ wrapping_suc h.tick)
            × IsInert h source r)
          (respond_to_validated_msg1 crypto os source e_bytes seed h)
  unfolding respond_to_validated_msg1 store_handshake
  respond_to_validated_msg1_parts source e_bytes seed h =
      elim (Result-cases (response_to crypto h.identity e_bytes seed)) [
        | inl (e, p) ↦ rw (Ensures, p) (refl, refl, λ a q. (cc, refl, λ j. (refl, refl)))
        | inr ((after_resp, msg2), p) ↦
            rw (Ensures, p)
              (Ensures-bind
                (λ r.
                  (r.0.established ≡ h.established)
                  × (r.0.tick ≡ wrapping_suc h.tick)
                  × IsInert h source r)
                (Udp.send os source msg2 h.socket) _
                λ socket sent. (refl, refl, λ a q. absurd (cc)))
      ]

  abbrev Both : Host K → UdpAddr → List ℕ → Host K × HostEvent → Type 0
  Both h source datagram r = IsGuarded h source datagram r × IsInert h source r

  try_responder_msg1_parts :
      (source : UdpAddr) (datagram seed : List ℕ) (h : Host K)
      → Ensures (Both h source datagram) (try_responder_msg1 crypto os source datagram seed h)
  unfolding try_responder_msg1
  try_responder_msg1_parts source datagram seed h =
      let idle : (h' : Host K)
          → h'.handshakes ≡ h.handshakes
          → h'.established ≡ h.established
          → h'.socket ≡ h.socket
          → IsInert h source (h', rejected source) =
        λ h' hs es same a q. (cc, same, λ j. (ap (BTreeMap.get j) hs, ap (BTreeMap.get j) es)) in
      let next : Host K = record h { tick = wrapping_suc h.tick } in
      elim (Bool-cases (length datagram == message_1_len)) [
        | inl e ↦
            rw (Ensures, e)
              (Ensures-bind (Both h source datagram)
                (Udp.send os source
                  (Cookie.challenge crypto.keyed_hash h.identity.cookie_secret source datagram)
                  h.socket)
                _ λ socket sent. ((refl, refl, inl refl), λ a q. absurd (cc)))
        | inr e ↦ elim (Bool-cases (length datagram == msg1_with_cookie_len)) [
          | inr f ↦ rw (Ensures, e, f) ((refl, refl, inl refl), idle next refl refl refl)
          | inl f ↦
              let e_bytes = or_empty (slice_to message_1_len datagram) in
              let mac = or_empty (slice_from message_1_len datagram) in
              elim (Bool-cases
                (Cookie.verify crypto.keyed_hash h.identity.cookie_secret source e_bytes mac)) [
                  | inl good ↦
                      rw (Ensures, e, f, good)
                        (Ensures-map _ (Both h source datagram)
                          (respond_to_validated_msg1 crypto os source e_bytes seed h)
                          (λ r (es, tick, inert).
                            ((es, tick, inr (ground (arith, f), good)), inert))
                          (respond_to_validated_msg1_parts source e_bytes seed h))
                  | inr bad ↦
                      rw (Ensures, e, f, bad) ((refl, refl, inl refl), idle next refl refl refl)
                ]
        ]
      ]

  dispatch_inbound-IsInert :
      (source : UdpAddr) (datagram seed : List ℕ) (h : Host K)
      → IsHost h
      → Ensures (IsInert h source) (dispatch_inbound crypto os source datagram seed h)
  unfolding dispatch_inbound advance_in_flight decrypt_established
  dispatch_inbound-IsInert source datagram seed h t =
      elim (Option-cases (BTreeMap.get source h.established)) [
        | inr (conn, e) ↦ rw (Ensures, e) (settle_decrypt-IsInert source conn datagram h e)
        | inl e ↦
            rw (Ensures, e)
              (elim (Option-cases (BTreeMap.get source h.handshakes)) [
                | inl f ↦
                    rw (Ensures, f)
                      (Ensures-map (Both h source datagram) (IsInert h source)
                        (try_responder_msg1 crypto os source datagram seed h) (λ r p. p.1)
                        (try_responder_msg1_parts source datagram seed h))
                | inr (entry, f) ↦
                    rw (Ensures, f)
                      (advance_entry-IsInert source h t entry.state entry.last_activity datagram f)
              ])
      ]

  -- Where the host reports a rejection, it is of the source of the datagram, nothing was sent, and
  -- every peer has in both tables what it had before.
  pub rejected-SameTables :
      (source a : UdpAddr) (datagram seed : List ℕ) (h h' : Host K)
      → IsHost h
      → dispatch_inbound crypto os source datagram seed h ≡ ok (h', rejected a)
      → (a ≡ source) × (h'.socket ≡ h.socket) × SameTables h h'
  rejected-SameTables source a datagram seed h h' t e =
      Ensures-elim (IsInert h source) (dispatch_inbound crypto os source datagram seed h)
        (dispatch_inbound-IsInert source datagram seed h t) e a refl

  pub dispatch_inbound_unknown :
      (source : UdpAddr) (datagram seed : List ℕ) (h : Host K)
      → BTreeMap.get source h.handshakes ≡ none
      → BTreeMap.get source h.established ≡ none
      → dispatch_inbound crypto os source datagram seed h
        ≡ try_responder_msg1 crypto os source datagram seed h
  unfolding dispatch_inbound
  dispatch_inbound_unknown source datagram seed h fresh_h fresh_e =
      let not_established : contains_key source h.established ≡ false = ground (arith, fresh_e) in
      let not_in_flight : contains_key source h.handshakes ≡ false = ground (arith, fresh_h) in
      rw (dispatch_inbound, not_established) (rw not_in_flight refl)

  -- A datagram of a peer in neither table never touches the connections, and touches the handshakes
  -- only where it has the length of a first message with a cookie and that cookie is valid for its
  -- source. In every case the host's tick moves by one.
  pub dispatch_inbound-IsGuarded :
      (source : UdpAddr) (datagram seed : List ℕ) (h h' : Host K) (event : HostEvent)
      → BTreeMap.get source h.handshakes ≡ none
      → BTreeMap.get source h.established ≡ none
      → dispatch_inbound crypto os source datagram seed h ≡ ok (h', event)
      → IsGuarded h source datagram (h', event)
  dispatch_inbound-IsGuarded source datagram seed h h' event fresh_h fresh_e e =
      (Ensures-elim (Both h source datagram) (try_responder_msg1 crypto os source datagram seed h)
        (try_responder_msg1_parts source datagram seed h)
        (sym (dispatch_inbound_unknown source datagram seed h fresh_h fresh_e) ∙ e)).0
