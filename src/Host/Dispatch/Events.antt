-- ===== src/Host/Dispatch/Events.antt =====
-- What the events of crates/libp2p-cat-host/src/host.rs say of the host.
use libp2p_cat_rs.Prelude.{
  ℕ, ◌≡◌, ◌≢◌, refl, ◌∙◌, true, false, some, List, length, arith, inl, inr, Bool-cases,
  Option-cases, if◌then◌else◌, slice_from, slice_to, or_empty, ◌==◌,
}
use libp2p_cat_rs.Prelude.Words.{wrapping_suc}
use libp2p_cat_rs.Prelude.Lex.{key_eq}
use libp2p_cat_rs.Prelude.BTreeMap
use libp2p_cat_rs.Prelude.BTreeMap.{BTreeMap, contains_key, get-insert, get-remove}
use libp2p_cat_rs.Types.Error.{ok, Ensures, Ensures-elim, Ensures-bind, Ensures-map}
use libp2p_cat_rs.Types.Addr.{UdpAddr, addr_lex}
use libp2p_cat_rs.Types.PeerId.{PeerId}
use libp2p_cat_rs.Noise.Primitives.{StaticPublicKey}
use libp2p_cat_rs.Noise.Transport
use libp2p_cat_rs.Noise.Transport.Replay.{Result-cases, refuses, accepted, decrypt_cases}
use libp2p_cat_rs.Noise.Transport.Session.{decrypt-encrypt}
use libp2p_cat_rs.Noise.Aead.{IsAead}
use libp2p_cat_rs.Noise.Handshake.{message_1_len}
use libp2p_cat_rs.Udp
use libp2p_cat_rs.Udp.{UdpSocket}
use libp2p_cat_rs.Host.Cookie
use libp2p_cat_rs.Host.Cookie.{msg1_with_cookie_len}
use libp2p_cat_rs.Host.State.{
  EstablishedConnection, Host, HostEvent, handshake_complete, datagram_delivered,
}
use libp2p_cat_rs.Host.Dispatch.{
  Crypto, dispatch_inbound, decrypt_established, settle_decrypt, advance_in_flight,
  try_responder_msg1, respond_to_validated_msg1, response_to, prepare_send,
}
use libp2p_cat_rs.Host.Dispatch.Complete.{IsAuthentic, advance_entry-IsAuthentic}

module _ {K : Type 0} (crypto : Crypto) (os : UdpSocket K) where
  -- Nothing but a handshake in flight completes.
  abbrev IsIncomplete : Host K × HostEvent → Type 0
  IsIncomplete r =
      (a : UdpAddr) (rs : StaticPublicKey) (peer : PeerId) → r.1 ≢ handshake_complete a rs peer

  try_responder_msg1-IsIncomplete :
      (source : UdpAddr) (datagram seed : List ℕ) (h : Host K)
      → Ensures IsIncomplete (try_responder_msg1 crypto os source datagram seed h)
  unfolding try_responder_msg1 respond_to_validated_msg1
  try_responder_msg1-IsIncomplete source datagram seed h =
      elim (Bool-cases (length datagram == message_1_len)) [
        | inl e ↦
            rw (Ensures, e)
              (Ensures-bind IsIncomplete
                (Udp.send os source
                  (Cookie.challenge crypto.keyed_hash h.identity.cookie_secret source datagram)
                  h.socket)
                _ λ socket sent a rs peer q. cc)
        | inr e ↦ elim (Bool-cases (length datagram == msg1_with_cookie_len)) [
          | inr f ↦ rw (Ensures, e, f) λ a rs peer q. cc
          | inl f ↦
              let e_bytes = or_empty (slice_to message_1_len datagram) in
              let mac = or_empty (slice_from message_1_len datagram) in
              elim (Bool-cases
                (Cookie.verify crypto.keyed_hash h.identity.cookie_secret source e_bytes mac)) [
                  | inr bad ↦ rw (Ensures, e, f, bad) λ a rs peer q. cc
                  | inl good ↦ elim (Result-cases (response_to crypto h.identity e_bytes seed)) [
                    | inl (x, p) ↦ rw (Ensures, e, f, good, p) λ a rs peer q. cc
                    | inr ((after_resp, msg2), p) ↦
                        rw (Ensures, e, f, good, p)
                          (Ensures-bind IsIncomplete (Udp.send os source msg2 h.socket) _
                            λ socket sent a rs peer q. cc)
                  ]
                ]
        ]
      ]

  settle_decrypt-IsIncomplete :
      (source : UdpAddr) (conn : EstablishedConnection) (datagram : List ℕ) (h : Host K)
      → IsIncomplete (
          settle_decrypt crypto os source conn
            (Transport.decrypt crypto.cipher datagram conn.transport)
            h)
  unfolding settle_decrypt
  settle_decrypt-IsIncomplete source conn datagram h =
      elim (decrypt_cases crypto.cipher datagram conn.transport) [
        | inl (e, p, q) ↦ rw q λ a rs peer r. cc
        | inr (n, plaintext, fresh, p, q) ↦ rw q λ a rs peer r. cc
      ]

  dispatch_inbound-IsAuthentic :
      (source : UdpAddr) (datagram seed : List ℕ) (h : Host K)
      → Ensures
          (IsAuthentic crypto os h source datagram)
          (dispatch_inbound crypto os source datagram seed h)
  unfolding dispatch_inbound advance_in_flight decrypt_established
  dispatch_inbound-IsAuthentic source datagram seed h =
      let P = IsAuthentic crypto os h source datagram in
      let never : (r : Host K × HostEvent) → IsIncomplete r → P r =
        λ r i a rs peer q. absurd (i a rs peer q) in
      elim (Option-cases (BTreeMap.get source h.established)) [
        | inr (conn, e) ↦
            rw (Ensures, e)
              (never
                (settle_decrypt crypto os source conn
                  (Transport.decrypt crypto.cipher datagram conn.transport) h)
                (settle_decrypt-IsIncomplete source conn datagram h))
        | inl e ↦
            rw (Ensures, e)
              (elim (Option-cases (BTreeMap.get source h.handshakes)) [
                | inl f ↦
                    rw (Ensures, f)
                      (Ensures-map IsIncomplete P
                        (try_responder_msg1 crypto os source datagram seed h) never
                        (try_responder_msg1-IsIncomplete source datagram seed h))
                | inr (entry, f) ↦
                    rw (Ensures, f)
                      (advance_entry-IsAuthentic crypto os source h entry f e entry.state
                        entry.last_activity datagram refl)
              ])
      ]

  -- Where the host reports a completed handshake, the source of the datagram had one in flight and
  -- was not established; now it is established, with the reported static key and identifier, and no
  -- longer in flight; and the payload that the handshake in flight reads from this datagram, along
  -- with that static key, binds the key to that identifier by a signature that verifies.
  pub handshake_complete-IsAuthentic :
      (source a : UdpAddr) (datagram seed : List ℕ) (h h' : Host K)
      (remote_static : StaticPublicKey) (peer : PeerId)
      → dispatch_inbound crypto os source datagram seed h
        ≡ ok (h', handshake_complete a remote_static peer)
      → IsAuthentic crypto os h source datagram (h', handshake_complete a remote_static peer)
  handshake_complete-IsAuthentic source a datagram seed h h' remote_static peer e =
      Ensures-elim (IsAuthentic crypto os h source datagram)
        (dispatch_inbound crypto os source datagram seed h)
        (dispatch_inbound-IsAuthentic source datagram seed h) e

  dispatch_inbound_known :
      (source : UdpAddr) (datagram seed : List ℕ) (h : Host K) (conn : EstablishedConnection)
      → BTreeMap.get source h.established ≡ some conn
      → dispatch_inbound crypto os source datagram seed h
        ≡ ok (
            settle_decrypt crypto os source conn
              (Transport.decrypt crypto.cipher datagram conn.transport)
              h)
  unfolding dispatch_inbound decrypt_established
  dispatch_inbound_known source datagram seed h conn e =
      let known : contains_key source h.established ≡ true = ground (arith, e) in
      rw (dispatch_inbound, known) (rw e refl)

  -- The host after it has read a datagram of `source` with nonce `n`.
  abbrev pub HasRead : UdpAddr → EstablishedConnection → ℕ → Host K → Host K → Type 0
  HasRead source conn n h h' =
      (h'.tick ≡ wrapping_suc h.tick)
      × (h'.handshakes ≡ h.handshakes)
      × ((j : UdpAddr)
          → BTreeMap.get j h'.established ≡ (
              if key_eq j source
              then some (record conn {
                transport = accepted conn.transport n;
                last_activity = wrapping_suc h.tick;
              })
              else BTreeMap.get j h.established))

  -- Given a cipher that opens what it sealed: what one host prepares for a connection, another host
  -- whose connection to it has the matching key, and whose replay window does not refuse the
  -- sender's nonce, delivers as the plaintext; its tick and the connection's activity and window
  -- move, and nothing else of its tables does.
  pub dispatch_inbound-prepare_send :
      (law : IsAead crypto.cipher) (to source : UdpAddr) (sender receiver : Host K)
      (plaintext datagram seed : List ℕ) (out back out' : EstablishedConnection)
      (rest : BTreeMap UdpAddr EstablishedConnection)
      → BTreeMap.get to sender.established ≡ some out
      → BTreeMap.get source receiver.established ≡ some back
      → out.transport.send_key ≡ back.transport.recv_key
      → refuses back.transport out.transport.send_nonce ≡ false
      → prepare_send crypto os to plaintext sender ≡ ok (rest, out', datagram)
      → (h' : Host K) × (dispatch_inbound crypto os source datagram seed receiver
          ≡ ok (h', datagram_delivered source plaintext))
        × HasRead source back out.transport.send_nonce receiver h'
  unfolding prepare_send settle_decrypt
  dispatch_inbound-prepare_send law to source sender receiver plaintext datagram seed out back out'
        rest there here keys fresh h =
      let wire : Transport.encrypt crypto.cipher plaintext out.transport
          ≡ ok (out'.transport, datagram) =
        elim (Result-cases (Transport.encrypt crypto.cipher plaintext out.transport)) [
          | inl (e, p) ↦ absurd (ground (arith, there, p))
          | inr ((t, d), p) ↦ ground (arith, there, p)
        ] in
      let (read, next) =
        decrypt-encrypt crypto.cipher law out.transport out'.transport back.transport plaintext
          datagram keys fresh wire in
      let conn : EstablishedConnection = record back {
        transport = accepted back.transport out.transport.send_nonce;
        last_activity = wrapping_suc receiver.tick;
      } in
      let kept = BTreeMap.remove source receiver.established in
      (
        record receiver {
          established = BTreeMap.insert source conn kept;
          tick = wrapping_suc receiver.tick;
        },
        dispatch_inbound_known source datagram seed receiver back here ∙ rw read refl,
        (
          refl,
          refl,
          λ j. get-insert j source conn kept ∙ elim (Bool-cases (key_eq j source)) [
            | inl same ↦ rw same refl
            | inr other ↦ rw other (get-remove j source receiver.established ∙ rw other refl)
          ],
        ),
      )
