-- ===== src/Host/Dispatch.antt =====
-- crates/libp2p-cat-host/src/host.rs: dialling, sending, and the dispatch of received datagrams. An
-- `Io` is the result of running it; where it fails, the host is consumed, as in the source.
pub mod Invariant
pub mod Handlers
pub mod Reach
pub mod Unchanged
pub mod Binding
pub mod Complete
pub mod Events
pub mod Peers
pub mod Oversized
use libp2p_cat_rs.Prelude.{
  ℕ, ◌≡◌, Bool, ◌&&◌, ◌||◌, Option, none, some, List, [], ◌++◌, map, length, slice_to, slice_from,
  or_empty, ◌==◌, if◌then◌else◌,
}
use mathlib.Core.Option
use libp2p_cat_rs.Prelude.Words.{wrapping_suc}
use libp2p_cat_rs.Prelude.BTreeMap
use libp2p_cat_rs.Prelude.BTreeMap.{BTreeMap, contains_key, keys}
use libp2p_cat_rs.Types.Error.{Result, ok, err, ◌>>=◌, ok_or, map_ok, host_state}
use libp2p_cat_rs.Types.Addr.{UdpAddr, addr_lex}
use libp2p_cat_rs.Types.PeerId.{PeerId}
use libp2p_cat_rs.Noise.Aead.{Chacha20Poly1305}
use libp2p_cat_rs.Noise.Primitives.{X25519, StaticKeypair, StaticPublicKey}
use libp2p_cat_rs.Noise.Symmetric.{Blake3}
use libp2p_cat_rs.Noise.Handshake.{
  InitiatorAfterE, ResponderAfterResponse, new_initiator, new_responder, write_e, read_e,
  write_response, read_response, write_s, read_s, message_1_len,
}
use libp2p_cat_rs.Noise.Transport
use libp2p_cat_rs.Noise.Transport.{TransportState}
use libp2p_cat_rs.Identity.Keypair
use libp2p_cat_rs.Identity.Keypair.{Ed25519, Ed25519Keypair}
use libp2p_cat_rs.Identity.SignedStaticKey
use libp2p_cat_rs.Identity.SignedStaticKey.{to_bytes, from_bytes}
use libp2p_cat_rs.Udp
use libp2p_cat_rs.Udp.{UdpSocket, UdpTransport}
use libp2p_cat_rs.Host.Capacity.{Capacity, default_capacity}
use libp2p_cat_rs.Host.State.{
  HandshakeState, initiator_awaiting_response, responder_awaiting_finalize, InFlightHandshake,
  EstablishedConnection, HostIdentity, Host, HostEvent, handshake_progress, handshake_complete,
  datagram_delivered, rejected,
}
use libp2p_cat_rs.Host.Table.{insert_with_lru, insert_established_with_lru, handshake_activity}
use libp2p_cat_rs.Host.Cookie
use libp2p_cat_rs.Host.Cookie.{is_challenge, msg1_with_cookie_len}

-- The cryptography of the crates that the host stands on.
pub record Crypto : Type 0 where
  pub cipher : Chacha20Poly1305
  pub curve : X25519
  pub blake3 : Blake3
  pub keyed_hash : List ℕ → List ℕ → List ℕ
  pub scheme : Ed25519

module _ {K : Type 0} where
  abbrev pub is_established : UdpAddr → Host K → Bool
  is_established addr h = contains_key addr h.established

  unfoldable pub remote_peer_id_of : UdpAddr → Host K → Option PeerId
  remote_peer_id_of addr h = Option.map (λ c. c.remote_peer_id) (BTreeMap.get addr h.established)

  unfoldable pub remote_static_of : UdpAddr → Host K → Option StaticPublicKey
  remote_static_of addr h = Option.map (λ c. c.remote_static) (BTreeMap.get addr h.established)

  unfoldable pub established_addrs : Host K → List UdpAddr
  established_addrs h = keys h.established

  -- An in-flight entry put into the table, with eviction.
  unfoldable pub store_handshake : UdpAddr → HandshakeState → ℕ → Host K → Host K
  store_handshake addr state last_activity h = record h {
    handshakes =
        insert_with_lru handshake_activity addr
          (record { state = state; last_activity = last_activity })
          h.capacity.max_handshakes_in_flight h.handshakes;
  }

  unfoldable pub store_established :
      UdpAddr → TransportState → StaticPublicKey → PeerId → ℕ → Host K → Host K
  store_established addr transport remote_static remote_peer_id last_activity h = record h {
    established =
        insert_established_with_lru addr
          (record {
            transport = transport;
            remote_static = remote_static;
            remote_peer_id = remote_peer_id;
            last_activity = last_activity;
          })
          h.capacity.max_established h.established;
  }

module _ (crypto : Crypto) where
  unfoldable pub verify_binding : List ℕ → StaticPublicKey → Result PeerId
  verify_binding payload remote_static = do
    signed ← from_bytes payload
    (_pk, peer_id) ← SignedStaticKey.verify crypto.scheme remote_static signed
    ok peer_id

  -- What the initiator makes of `msg2`: the transport, `msg3`, and who the peer is.
  unfoldable pub initiator_outcome :
      HostIdentity
      → InitiatorAfterE
      → List ℕ
      → Result (TransportState × List ℕ × StaticPublicKey × PeerId)
  initiator_outcome identity after_e datagram = do
    (after_resp, msg2_payload) ←
        read_response crypto.cipher crypto.curve crypto.blake3 datagram after_e
    remote_peer_id ← verify_binding msg2_payload after_resp.remote_static
    (transport, msg3, remote_static) ←
        write_s crypto.cipher crypto.curve crypto.blake3 (to_bytes identity.signed_static_key)
          after_resp
    ok (transport, msg3, remote_static, remote_peer_id)

  unfoldable pub responder_outcome :
      ResponderAfterResponse → List ℕ → Result (TransportState × StaticPublicKey × PeerId)
  responder_outcome after_resp datagram = do
    (transport, remote_static, msg3_payload) ←
        read_s crypto.cipher crypto.curve crypto.blake3 datagram after_resp
    remote_peer_id ← verify_binding msg3_payload remote_static
    ok (transport, remote_static, remote_peer_id)

  -- What the responder makes of a validated `msg1`.
  unfoldable pub response_to :
      HostIdentity → List ℕ → List ℕ → Result (ResponderAfterResponse × List ℕ)
  response_to identity e_bytes ephemeral_seed = do
    after_e ←
        read_e crypto.cipher crypto.curve crypto.blake3 e_bytes
          (new_responder identity.static_keypair)
    write_response crypto.cipher crypto.curve crypto.blake3 ephemeral_seed
        (to_bytes identity.signed_static_key) after_e

  module _ {K : Type 0} (os : UdpSocket K) where
    unfoldable pub with_capacity :
        UdpTransport K → StaticKeypair → Ed25519Keypair → List ℕ → Capacity → Result (Host K)
    with_capacity socket static_keypair identity cookie_secret capacity = do
      signed_static_key ← SignedStaticKey.create crypto.scheme identity static_keypair.public
      ok (record {
        socket = socket;
        identity = record {
          static_keypair = static_keypair;
          signed_static_key = signed_static_key;
          peer_id = Keypair.peer_id identity;
          cookie_secret = cookie_secret;
        };
        handshakes = [];
        established = [];
        capacity = capacity;
        tick = 0;
      })

    unfoldable pub new : UdpTransport K → StaticKeypair → Ed25519Keypair → List ℕ → Result (Host K)
    new socket static_keypair identity cookie_secret =
        with_capacity socket static_keypair identity cookie_secret default_capacity

    unfoldable pub prepare_dial : UdpAddr → List ℕ → Host K → Result (InitiatorAfterE × List ℕ)
    prepare_dial addr ephemeral_seed h =
        if contains_key addr h.handshakes || contains_key addr h.established
        then err host_state
        else write_e crypto.cipher crypto.curve crypto.blake3 ephemeral_seed
            (new_initiator h.identity.static_keypair)

    unfoldable pub dial : UdpAddr → List ℕ → Host K → Result (Host K)
    dial addr ephemeral_seed h = do
      (after_e, msg1) ← prepare_dial addr ephemeral_seed h
      socket ← Udp.send os addr msg1 h.socket
      let next_tick = wrapping_suc h.tick
      ok (
          store_handshake addr (initiator_awaiting_response after_e msg1) next_tick
            (record h { socket = socket; tick = next_tick }))

    -- The table without the connection, the connection after `plaintext`, and its datagram.
    unfoldable pub prepare_send :
        UdpAddr
        → List ℕ
        → Host K
        → Result (BTreeMap UdpAddr EstablishedConnection × EstablishedConnection × List ℕ)
    prepare_send addr plaintext h = do
      conn ← ok_or host_state (BTreeMap.get addr h.established)
      (transport, datagram) ← Transport.encrypt crypto.cipher plaintext conn.transport
      ok (BTreeMap.remove addr h.established, record conn { transport = transport }, datagram)

    unfoldable pub send : UdpAddr → List ℕ → Host K → Result (Host K)
    send addr plaintext h = do
      (established, conn, datagram) ← prepare_send addr plaintext h
      let next_tick = wrapping_suc h.tick
      let next_conn = record conn { last_activity = next_tick }
      socket ← Udp.send os addr datagram h.socket
      ok (record h {
        socket = socket;
        established = BTreeMap.insert addr next_conn established;
        tick = next_tick;
      })

    unfoldable pub send_raw : UdpAddr → List ℕ → Host K → Result (Host K)
    send_raw addr bytes h = do
      socket ← Udp.send os addr bytes h.socket
      ok (record h { socket = socket; tick = wrapping_suc h.tick })

    -- The host after the outcome of a decryption, and what it reports.
    unfoldable pub settle_decrypt :
        UdpAddr
        → EstablishedConnection
        → TransportState × Result (List ℕ)
        → Host K
        → Host K × HostEvent
    settle_decrypt source conn (transport, err e) h = (
      record h {
        established =
            BTreeMap.insert source (record conn { transport = transport })
              (BTreeMap.remove source h.established);
      },
      rejected source,
    )
    settle_decrypt source conn (transport, ok plaintext) h = (
      record h {
        established =
            BTreeMap.insert source
              (record conn { transport = transport; last_activity = wrapping_suc h.tick })
              (BTreeMap.remove source h.established);
        tick = wrapping_suc h.tick;
      },
      datagram_delivered source plaintext,
    )

    unfoldable pub decrypt_established : UdpAddr → List ℕ → Host K → Result (Host K × HostEvent)
    decrypt_established source datagram h = do
      conn ← ok_or host_state (BTreeMap.get source h.established)
      ok (settle_decrypt source conn (Transport.decrypt crypto.cipher datagram conn.transport) h)

    -- The next functions take the host without the entry in flight.
    unfoldable pub answer_cookie_challenge :
        UdpAddr → InitiatorAfterE → List ℕ → ℕ → List ℕ → Host K → Result (Host K × HostEvent)
    answer_cookie_challenge source after_e msg1 last_activity datagram h = do
      let mac = or_empty (slice_from 1 datagram)
      socket ← Udp.send os source (msg1 ++ mac) h.socket
      ok (
        store_handshake source (initiator_awaiting_response after_e msg1) last_activity
            (record h { socket = socket }),
        handshake_progress source,
      )

    unfoldable pub initiator_consume_msg2 :
        UdpAddr → InitiatorAfterE → List ℕ → ℕ → List ℕ → Host K → Result (Host K × HostEvent)
    initiator_consume_msg2 source after_e msg1 last_activity datagram h =
        let next_tick = wrapping_suc h.tick in
        elim (initiator_outcome h.identity after_e datagram) [
          | ok (transport, msg3, remote_static, remote_peer_id) ↦
              Udp.send os source msg3 h.socket >>= λ socket. ok (
                store_established source transport remote_static remote_peer_id next_tick
                    (record h { socket = socket; tick = next_tick }),
                handshake_complete source remote_static remote_peer_id,
              )
          | err e ↦ ok (
            store_handshake source (initiator_awaiting_response after_e msg1) last_activity
                (record h { tick = next_tick }),
            rejected source,
          )
        ]

    unfoldable pub responder_consume_msg3 :
        UdpAddr → ResponderAfterResponse → ℕ → List ℕ → Host K → Result (Host K × HostEvent)
    responder_consume_msg3 source after_resp last_activity datagram h =
        let next_tick = wrapping_suc h.tick in
        elim (responder_outcome after_resp datagram) [
          | ok (transport, remote_static, remote_peer_id) ↦ ok (
            store_established source transport remote_static remote_peer_id next_tick
                (record h { tick = next_tick }),
            handshake_complete source remote_static remote_peer_id,
          )
          | err e ↦ ok (
            store_handshake source (responder_awaiting_finalize after_resp) last_activity
                (record h { tick = next_tick }),
            rejected source,
          )
        ]

    unfoldable pub advance_entry :
        UdpAddr → HandshakeState → ℕ → List ℕ → Host K → Result (Host K × HostEvent)
    advance_entry source (initiator_awaiting_response after_e msg1) last_activity datagram h =
        if is_challenge datagram
        then answer_cookie_challenge source after_e msg1 last_activity datagram h
        else initiator_consume_msg2 source after_e msg1 last_activity datagram h
    advance_entry source (responder_awaiting_finalize after_resp) last_activity datagram h =
        responder_consume_msg3 source after_resp last_activity datagram h

    unfoldable pub advance_in_flight : UdpAddr → List ℕ → Host K → Result (Host K × HostEvent)
    advance_in_flight source datagram h = do
      entry ← ok_or host_state (BTreeMap.get source h.handshakes)
      advance_entry source entry.state entry.last_activity datagram
          (record h { handshakes = BTreeMap.remove source h.handshakes })

    unfoldable pub respond_to_validated_msg1 :
        UdpAddr → List ℕ → List ℕ → Host K → Result (Host K × HostEvent)
    respond_to_validated_msg1 source e_bytes ephemeral_seed h =
        let next_tick = wrapping_suc h.tick in
        elim (response_to h.identity e_bytes ephemeral_seed) [
          | ok (after_resp, msg2) ↦ Udp.send os source msg2 h.socket >>= λ socket. ok (
            store_handshake source (responder_awaiting_finalize after_resp) next_tick
                (record h { socket = socket; tick = next_tick }),
            handshake_progress source,
          )
          | err e ↦ ok (record h { tick = next_tick }, rejected source)
        ]

    unfoldable pub try_responder_msg1 :
        UdpAddr → List ℕ → List ℕ → Host K → Result (Host K × HostEvent)
    try_responder_msg1 source datagram ephemeral_seed h =
        let next_tick = wrapping_suc h.tick in
        if length datagram == message_1_len
        then (do
          let reply = Cookie.challenge crypto.keyed_hash h.identity.cookie_secret source datagram
          socket ← Udp.send os source reply h.socket
          ok (record h { socket = socket; tick = next_tick }, handshake_progress source))
        else if length datagram == msg1_with_cookie_len
        then (let e_bytes = or_empty (slice_to message_1_len datagram) in
            let mac = or_empty (slice_from message_1_len datagram) in
            if Cookie.verify crypto.keyed_hash h.identity.cookie_secret source e_bytes mac
            then respond_to_validated_msg1 source e_bytes ephemeral_seed h
            else ok (record h { tick = next_tick }, rejected source))
        else ok (record h { tick = next_tick }, rejected source)

    unfoldable pub dispatch_inbound :
        UdpAddr → List ℕ → List ℕ → Host K → Result (Host K × HostEvent)
    dispatch_inbound source datagram ephemeral_seed h =
        if contains_key source h.established
        then decrypt_established source datagram h
        else if contains_key source h.handshakes
        then advance_in_flight source datagram h
        else try_responder_msg1 source datagram ephemeral_seed h

    unfoldable pub recv_one : List ℕ → Host K → Result (Host K × HostEvent)
    recv_one ephemeral_seed h = do
      ((source, datagram), socket) ← Udp.recv os h.socket
      dispatch_inbound source datagram ephemeral_seed (record h { socket = socket })
