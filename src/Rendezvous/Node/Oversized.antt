-- ===== src/Rendezvous/Node/Oversized.antt =====
-- A relay request that the server of crates/libp2p-cat-rendezvous/src/node.rs cannot send on.
use libp2p_cat_rs.Prelude.{
  ℕ, ◌+◌, ◌^◌, ◌<◌, ◌≡◌, refl, Bool, true, List, ◌∷◌, ◌++◌, length, length-append, some, arith,
}
use libp2p_cat_rs.Prelude.BTreeMap
use libp2p_cat_rs.Types.Error.{ok, err, datagram_too_large}
use libp2p_cat_rs.Types.Addr.{UdpAddr, IsAddr, addr_lex}
use libp2p_cat_rs.Noise.Aead.{IsAead, IsSealing}
use libp2p_cat_rs.Noise.Transport.{transport_overhead}
use libp2p_cat_rs.Udp.{UdpSocket}
use libp2p_cat_rs.Host.State.{EstablishedConnection}
use libp2p_cat_rs.Host.Dispatch.{Crypto, is_established}
use libp2p_cat_rs.Host.Dispatch.Oversized.{send_too_large}
use libp2p_cat_rs.Kad.AddrCodec.Laws.{on_wire}
use libp2p_cat_rs.Rendezvous.Codec.{
  relay_data_req_frame, relay_data_deliver, encode, encode_addr, to_byte,
}
use libp2p_cat_rs.Rendezvous.Codec.Laws.{frame_on_wire, decode-encode_rendezvous}
use libp2p_cat_rs.Rendezvous.Node.{
  RendezvousNode, process_plaintext, handle_datagram, handle_frame, auto_forward_relay, send_frame,
}

module _ (crypto : Crypto) (is_utf8 : List ℕ → Bool) (relay_fail_reason : UdpAddr → List ℕ)
    {K : Type 0} (os : UdpSocket K) (aead : IsAead crypto.cipher)
    (sealing : IsSealing crypto.cipher) where
  -- Given a cipher that opens what it sealed and seals whatever is below 2 ^ 32 bytes: a
  -- well-formed request to relay a payload to a peer with which the server has a live connection,
  -- where the frame to send on does not fit the server's datagrams, is not reported as rejected but
  -- ends the server's step with an error of the socket's layer.
  pub process_plaintext_oversized :
      (client target : UdpAddr) (payload : List ℕ) (server : RendezvousNode K)
      (conn : EstablishedConnection)
      → IsAddr client
      → IsAddr target
      → BTreeMap.get (on_wire target) server.host.established ≡ some conn
      → conn.transport.send_nonce + 1 < 2 ^ 64
      → 1 + length (encode_addr client) + length payload < 2 ^ 32
      → server.host.socket.max_send_payload
        < 1 + length (encode_addr client) + length payload + transport_overhead
      → (request : List ℕ) × (encode (relay_data_req_frame target payload) ≡ ok request)
        × (process_plaintext crypto is_utf8 relay_fail_reason os client request server
            ≡ err (
                datagram_too_large
                  (1 + length (encode_addr client) + length payload + transport_overhead)
                  server.host.socket.max_send_payload))
  unfolding process_plaintext handle_datagram handle_frame auto_forward_relay send_frame encode
      frame_on_wire
  process_plaintext_oversized client target payload server conn valid_c valid_t there fresh short
        large =
      let (request, wrote, read) =
        decode-encode_rendezvous is_utf8 (relay_data_req_frame target payload) valid_t in
      let frame = to_byte relay_data_deliver ∷ (encode_addr client ++ payload) in
      let len : length frame ≡ 1 + length (encode_addr client) + length payload =
        omega (arith, length-append (encode_addr client) payload) in
      let known : is_established (on_wire target) server.host ≡ true = ground (arith, there) in
      let refused =
        send_too_large crypto aead sealing os (on_wire target) frame server.host conn there
          (rw len short) fresh (rw len large) in
      (request, wrote, rw (handle_datagram, read) (rw known (rw refused (rw len refl))))
