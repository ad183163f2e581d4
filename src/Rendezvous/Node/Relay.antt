-- ===== src/Rendezvous/Node/Relay.antt =====
-- What crosses the nodes of crates/libp2p-cat-rendezvous/src/node.rs from a client to a server and on.
use libp2p_cat_rs.Prelude.{ℕ, ◌≡◌, refl, Bool, true, false, List, length}
use libp2p_cat_rs.Types.Error.{Result, ok, err, ◌>>=◌}
use libp2p_cat_rs.Types.Addr.{UdpAddr, v4, v6, IsAddr, addr_lex}
use libp2p_cat_rs.Udp.{UdpSocket}
use libp2p_cat_rs.Host.State.{Host}
use libp2p_cat_rs.Host.Dispatch
use libp2p_cat_rs.Host.Dispatch.{Crypto, is_established}
use libp2p_cat_rs.Kad.AddrCodec.Laws.{on_wire}
use libp2p_cat_rs.Rendezvous.Codec.{
  Frame, observe_req_frame, observe_resp_frame, relay_data_req_frame, relay_data_deliver_frame,
  relay_fail_frame, encode,
}
use libp2p_cat_rs.Rendezvous.Codec.Laws.{frame_on_wire, decode-encode_rendezvous}
use libp2p_cat_rs.Rendezvous.Event.{
  RendezvousEvent, observe_request_received, observe_response_received, relay_forwarded,
  relay_received, relay_failed,
}
use libp2p_cat_rs.Rendezvous.Node.{
  RendezvousNode, send_frame, auto_reply_observe, auto_forward_relay, handle_frame, handle_datagram,
}

on_wire-on_wire : (a : UdpAddr) → on_wire (on_wire a) ≡ on_wire a
unfolding on_wire
on_wire-on_wire (v4 s) = refl
on_wire-on_wire (v6 s) = refl

on_wire-IsAddr : (a : UdpAddr) → IsAddr a → IsAddr (on_wire a)
unfolding on_wire
on_wire-IsAddr (v4 s) h = h
on_wire-IsAddr (v6 s) h = h

module _ (crypto : Crypto) (is_utf8 : List ℕ → Bool) (relay_fail_reason : UdpAddr → List ℕ)
    {K : Type 0} (os : UdpSocket K) where
  -- `handle_datagram` of this section.
  abbrev pub read_by :
      RendezvousNode K
      → UdpAddr
      → List ℕ
      → (List ℕ → List ℕ)
      → Result (RendezvousNode K × RendezvousEvent)
  read_by node source bytes wrap =
      handle_datagram crypto is_utf8 relay_fail_reason os source bytes wrap node

  -- The bytes that the node sends to `to`, and what it then reports.
  abbrev pub sends :
      RendezvousNode K
      → UdpAddr
      → List ℕ
      → RendezvousEvent
      → Result (RendezvousNode K × RendezvousEvent)
  sends node to bytes event =
      Dispatch.send crypto os to bytes node.host >>= λ host. ok (record { host = host }, event)

  -- `send_frame` under an event.
  sent_frame :
      (node : RendezvousNode K) (to : UdpAddr) (frame : Frame) (wrap : List ℕ → List ℕ)
      (event : RendezvousEvent) {bytes : List ℕ}
      → encode frame ≡ ok bytes
      → ◌>>=◌ {B = RendezvousNode K × RendezvousEvent}
          (send_frame crypto is_utf8 relay_fail_reason os to frame wrap node)
          (λ next. ok (next, event))
        ≡ sends node to (wrap bytes) event
  unfolding send_frame
  sent_frame node to frame wrap event {bytes} h =
      rw (send_frame, h) (again (Dispatch.send crypto os to (wrap bytes) node.host))
    where
      again :
          (m : Result (Host K))
          → ◌>>=◌ {B = RendezvousNode K × RendezvousEvent}
              (◌>>=◌ {B = RendezvousNode K} m (λ host. ok (record { host = host })))
              (λ next. ok (next, event))
            ≡ ◌>>=◌ {B = RendezvousNode K × RendezvousEvent} m
                (λ host. ok (record { host = host }, event))
      again (ok host) = refl
      again (err e) = refl

  -- A client's OBSERVE request makes the server send a reply, and the client that reads the reply
  -- reports the address that the server saw, less the two IPv6 fields that are not sent.
  pub handle_datagram-observe :
      (client server_addr : UdpAddr) (server node : RendezvousNode K) (wrap wrap' : List ℕ → List ℕ)
      → IsAddr client
      → (request : List ℕ) × (reply : List ℕ) × (encode observe_req_frame ≡ ok request)
        × (read_by server client request wrap
            ≡ sends server client (wrap reply) (observe_request_received client))
        × (read_by node server_addr reply wrap'
            ≡ ok (node, observe_response_received server_addr (on_wire client)))
  unfolding handle_datagram handle_frame auto_reply_observe
  handle_datagram-observe client server_addr server node wrap wrap' valid =
      let (request, wrote, read) = decode-encode_rendezvous is_utf8 observe_req_frame tt in
      let (reply, wrote', read') =
        decode-encode_rendezvous is_utf8 (observe_resp_frame client) valid in
      (
        request,
        reply,
        wrote,
        rw (handle_datagram, read)
            (unfold frame_on_wire in
              sent_frame server client (observe_resp_frame client) wrap _ wrote'),
        rw (handle_datagram, read') (unfold frame_on_wire in refl),
      )

  -- A client's request to relay a payload to `target`. Where the server has a connection with the
  -- target, it sends on a frame that makes the target's node report the payload and the client's
  -- address. Where it has none, it sends the client a frame that makes it report the failed target
  -- with the server's reason, as long as that is UTF-8. Addresses lose the two IPv6 fields that are
  -- not sent.
  pub handle_datagram-relay :
      (client target server_addr : UdpAddr) (payload : List ℕ) (server node : RendezvousNode K)
      (wrap wrap' : List ℕ → List ℕ)
      → IsAddr client
      → IsAddr target
      → is_utf8 (relay_fail_reason (on_wire target)) ≡ true
      → (request : List ℕ) × (deliver : List ℕ) × (refuse : List ℕ) × (encode
            (relay_data_req_frame target payload)
          ≡ ok request)
        × (encode (relay_data_deliver_frame client payload) ≡ ok deliver)
        × (is_established (on_wire target) server.host ≡ true
            → read_by server client request wrap
              ≡ sends server
                  (on_wire target)
                  (wrap deliver)
                  (relay_forwarded client (on_wire target) true (length payload)))
        × (is_established (on_wire target) server.host ≡ false
            → read_by server client request wrap
              ≡ sends server client
                  (wrap refuse)
                  (relay_forwarded client (on_wire target) false (length payload)))
        × (read_by node server_addr deliver wrap'
            ≡ ok (node, relay_received server_addr (on_wire client) payload))
        × (read_by node server_addr refuse wrap'
            ≡ ok (
              node,
              relay_failed server_addr (on_wire target) (relay_fail_reason (on_wire target)),
            ))
  unfolding handle_datagram handle_frame auto_forward_relay frame_on_wire
  handle_datagram-relay client target server_addr payload server node wrap wrap' valid_c valid_t
        utf8 =
      let (request, wrote, read) =
        decode-encode_rendezvous is_utf8 (relay_data_req_frame target payload) valid_t in
      let (deliver, wrote_d, read_d) =
        decode-encode_rendezvous is_utf8 (relay_data_deliver_frame client payload) valid_c in
      let (refuse, wrote_f, read_f) =
        decode-encode_rendezvous is_utf8
          (relay_fail_frame (on_wire target) (relay_fail_reason (on_wire target)))
          (on_wire-IsAddr target valid_t, utf8) in
      (
        request,
        deliver,
        refuse,
        wrote,
        wrote_d,
        λ there.
            rw (handle_datagram, read)
              (rw there (
                sent_frame server (on_wire target) (relay_data_deliver_frame client payload) wrap _
                  wrote_d)),
        λ absent.
            rw (handle_datagram, read)
              (rw absent (
                sent_frame server client
                  (relay_fail_frame (on_wire target) (relay_fail_reason (on_wire target))) wrap _
                  wrote_f)),
        rw (handle_datagram, read_d) refl,
        rw (handle_datagram, read_f) (rw (on_wire-on_wire target) refl),
      )
