-- ===== src/Host/Dispatch/Oversized.antt =====
-- Sending through crates/libp2p-cat-host/src/host.rs what the socket refuses as too large.
use libp2p_cat_rs.Prelude.{
  ℕ, ◌+◌, ◌^◌, ◌<◌, ◌≡◌, refl, ap, List, [], length, length-append, lt→ltb, some, arith, inl, inr,
}
use libp2p_cat_rs.Prelude.Bytes.{to_be_bytes, length-to_be_bytes}
use libp2p_cat_rs.Prelude.BTreeMap
use libp2p_cat_rs.Types.Error.{ok, err, datagram_too_large}
use libp2p_cat_rs.Types.Addr.{UdpAddr, addr_lex}
use libp2p_cat_rs.Noise.Aead.{
  IsAead, IsSealing, aead_encrypt, aead_decrypt-aead_encrypt, chacha_nonce,
}
use libp2p_cat_rs.Noise.Transport
use libp2p_cat_rs.Noise.Transport.{TransportState, checked_suc, transport_overhead}
use libp2p_cat_rs.Noise.Transport.Replay.{Result-cases}
use libp2p_cat_rs.Noise.Transport.Session.{encrypt-eq-ok}
use libp2p_cat_rs.Udp
use libp2p_cat_rs.Udp.{UdpSocket}
use libp2p_cat_rs.Host.State.{EstablishedConnection, Host}
use libp2p_cat_rs.Host.Dispatch
use libp2p_cat_rs.Host.Dispatch.{Crypto, prepare_send}

module _ (crypto : Crypto) (aead : IsAead crypto.cipher) (sealing : IsSealing crypto.cipher) where
  -- A session whose counter is not used up encrypts, and adds the overhead.
  encrypt_total :
      (plaintext : List ℕ) (s : TransportState)
      → length plaintext < 2 ^ 32
      → s.send_nonce + 1 < 2 ^ 64
      → (s' : TransportState) × (datagram : List ℕ) × (Transport.encrypt crypto.cipher plaintext s
          ≡ ok (s', datagram))
        × (length datagram ≡ length plaintext + transport_overhead)
  encrypt_total plaintext s short fresh =
      let (c, sealed) = sealing s.send_key (chacha_nonce s.send_nonce) [] plaintext short in
      elim (Result-cases (Transport.encrypt crypto.cipher plaintext s)) [
        | inl (e, p) ↦ absurd (
            unfold Transport.encrypt in
            unfold aead_encrypt in
            unfold checked_suc in ground (arith, sealed, lt→ltb (s.send_nonce + 1) (2 ^ 64) fresh))
        | inr ((s', datagram), p) ↦
            let (c', sealed', small, wire, next) = encrypt-eq-ok crypto.cipher aead plaintext s p in
            let (opened, tagged) =
              aead_decrypt-aead_encrypt crypto.cipher aead s.send_key s.send_nonce [] plaintext
                sealed' in
            (
              s',
              datagram,
              p,
              omega (
                arith,
                ap (λ (t : List ℕ). length t) wire,
                length-append (to_be_bytes 8 s.send_nonce) c',
                length-to_be_bytes 8 s.send_nonce,
                tagged,
              ),
            )
      ]

  module _ {K : Type 0} (os : UdpSocket K) where
    -- A plaintext that does not fit the socket's datagrams is an error of the whole operation.
    pub send_too_large :
        (addr : UdpAddr) (plaintext : List ℕ) (h : Host K) (conn : EstablishedConnection)
        → BTreeMap.get addr h.established ≡ some conn
        → length plaintext < 2 ^ 32
        → conn.transport.send_nonce + 1 < 2 ^ 64
        → h.socket.max_send_payload < length plaintext + transport_overhead
        → Dispatch.send crypto os addr plaintext h
          ≡ err
              (datagram_too_large (length plaintext + transport_overhead) h.socket.max_send_payload)
    unfolding Dispatch.send prepare_send Udp.send
    send_too_large addr plaintext h conn there short fresh large =
        let (s', datagram, p, len) = encrypt_total plaintext conn.transport short fresh in
        rw (Dispatch.send, there) (rw p (rw (len, lt→ltb h.socket.max_send_payload _ large) refl))
