-- ===== src/Rendezvous/Node.antt =====
-- crates/libp2p-cat-rendezvous/src/node.rs: a host that answers and forwards rendezvous frames.
pub mod Relay
pub mod Oversized
use libp2p_cat_rs.Prelude.{
  ℕ, zero, suc, Bool, true, false, List, [], ◌∷◌, if◌then◌else◌, length, Option, none, some,
}
use libp2p_cat_rs.Prelude.Lex.{key_eq}
use libp2p_cat_rs.Types.Error.{Result, ok, err, ◌>>=◌, map_ok}
use libp2p_cat_rs.Types.Addr.{UdpAddr, addr_lex}
use libp2p_cat_rs.Udp.{UdpSocket}
use libp2p_cat_rs.Host.State
use libp2p_cat_rs.Host.State.{Host, HostEvent}
use libp2p_cat_rs.Host.Dispatch
use libp2p_cat_rs.Host.Dispatch.{Crypto, is_established}
use libp2p_cat_rs.Rendezvous.Codec.{
  Frame, observe_req_frame, observe_resp_frame, punch_req_frame, punch_forward_frame,
  relay_data_req_frame, relay_data_deliver_frame, relay_fail_frame, encode, decode,
}
use libp2p_cat_rs.Rendezvous.Event.{
  RendezvousEvent, handshake_progress, handshake_complete, observe_request_received,
  observe_response_received, punch_request_received, punch_forward_received, relay_forwarded,
  relay_received, relay_failed, rejected,
}

abbrev pub punch_byte : ℕ
punch_byte = 0x00

pub record RendezvousNode (K : Type 0) : Type 0 where
  pub host : Host K

abbrev pub identity_wrap : List ℕ → List ℕ
identity_wrap bytes = bytes

-- `is_utf8` is the check of `from_utf8`; `relay_fail_reason` is the text for an address.
module _ (crypto : Crypto) (is_utf8 : List ℕ → Bool) (relay_fail_reason : UdpAddr → List ℕ)
    {K : Type 0} (os : UdpSocket K) where
  -- A frame, wrapped, sent to `addr`.
  unfoldable pub send_frame :
      UdpAddr → Frame → (List ℕ → List ℕ) → RendezvousNode K → Result (RendezvousNode K)
  send_frame addr frame wrap node = do
    bytes ← encode frame
    host ← Dispatch.send crypto os addr (wrap bytes) node.host
    ok (record { host = host })

  unfoldable pub dial : UdpAddr → List ℕ → RendezvousNode K → Result (RendezvousNode K)
  dial addr ephemeral_seed node =
      Dispatch.dial crypto os addr ephemeral_seed node.host >>= λ host. ok (record { host = host })

  unfoldable pub send : UdpAddr → List ℕ → RendezvousNode K → Result (RendezvousNode K)
  send addr plaintext node =
      Dispatch.send crypto os addr plaintext node.host >>= λ host. ok (record { host = host })

  unfoldable pub send_observe_req : UdpAddr → RendezvousNode K → Result (RendezvousNode K)
  send_observe_req server_addr node = send_frame server_addr observe_req_frame identity_wrap node

  unfoldable pub punch_via : UdpAddr → UdpAddr → RendezvousNode K → Result (RendezvousNode K)
  punch_via server_addr target_addr node =
      send_frame server_addr (punch_req_frame target_addr) identity_wrap node

  unfoldable pub relay_via :
      UdpAddr → UdpAddr → List ℕ → RendezvousNode K → Result (RendezvousNode K)
  relay_via server_addr target_addr payload node =
      send_frame server_addr (relay_data_req_frame target_addr payload) identity_wrap node

  unfoldable pub auto_reply_observe :
      UdpAddr → (List ℕ → List ℕ) → RendezvousNode K → Result (RendezvousNode K × RendezvousEvent)
  auto_reply_observe addr wrap node = do
    next ← send_frame addr (observe_resp_frame addr) wrap node
    ok (next, observe_request_received addr)

  unfoldable pub auto_forward_punch :
      UdpAddr
      → UdpAddr
      → (List ℕ → List ℕ)
      → RendezvousNode K
      → Result (RendezvousNode K × RendezvousEvent)
  auto_forward_punch source target wrap node =
      if is_established target node.host
      then (do
        next ← send_frame target (punch_forward_frame source) wrap node
        ok (next, punch_request_received source target true))
      else ok (node, punch_request_received source target false)

  unfoldable pub auto_send_punch :
      UdpAddr → UdpAddr → RendezvousNode K → Result (RendezvousNode K × RendezvousEvent)
  auto_send_punch source initiator node = do
    host ← Dispatch.send_raw crypto os initiator (punch_byte ∷ []) node.host
    ok (record { host = host }, punch_forward_received source initiator)

  unfoldable pub auto_forward_relay :
      UdpAddr
      → UdpAddr
      → List ℕ
      → (List ℕ → List ℕ)
      → RendezvousNode K
      → Result (RendezvousNode K × RendezvousEvent)
  auto_forward_relay source target payload wrap node =
      if is_established target node.host
      then (do
        next ← send_frame target (relay_data_deliver_frame source payload) wrap node
        ok (next, relay_forwarded source target true (length payload)))
      else (do
        next ← send_frame source (relay_fail_frame target (relay_fail_reason target)) wrap node
        ok (next, relay_forwarded source target false (length payload)))

  unfoldable pub handle_frame :
      UdpAddr
      → Frame
      → (List ℕ → List ℕ)
      → RendezvousNode K
      → Result (RendezvousNode K × RendezvousEvent)
  handle_frame addr observe_req_frame wrap node = auto_reply_observe addr wrap node
  handle_frame addr (observe_resp_frame observed) wrap node =
      ok (node, observe_response_received addr observed)
  handle_frame addr (punch_req_frame target) wrap node = auto_forward_punch addr target wrap node
  handle_frame addr (punch_forward_frame initiator) wrap node = auto_send_punch addr initiator node
  handle_frame addr (relay_data_req_frame target payload) wrap node =
      auto_forward_relay addr target payload wrap node
  handle_frame addr (relay_data_deliver_frame originator payload) wrap node =
      ok (node, relay_received addr originator payload)
  handle_frame addr (relay_fail_frame peer reason) wrap node =
      ok (node, relay_failed addr peer reason)

  unfoldable pub handle_datagram :
      UdpAddr
      → List ℕ
      → (List ℕ → List ℕ)
      → RendezvousNode K
      → Result (RendezvousNode K × RendezvousEvent)
  handle_datagram addr plaintext wrap node = elim (decode is_utf8 plaintext) [
    | err e ↦ ok (node, rejected addr)
    | ok frame ↦ handle_frame addr frame wrap node
  ]

  unfoldable pub process_plaintext :
      UdpAddr → List ℕ → RendezvousNode K → Result (RendezvousNode K × RendezvousEvent)
  process_plaintext addr plaintext node = handle_datagram addr plaintext identity_wrap node

  unfoldable pub handle_host_event :
      HostEvent → RendezvousNode K → Result (RendezvousNode K × RendezvousEvent)
  handle_host_event (State.handshake_progress addr) node = ok (node, handshake_progress addr)
  handle_host_event (State.handshake_complete addr remote_static remote_peer_id) node =
      ok (node, handshake_complete addr remote_static remote_peer_id)
  handle_host_event (State.rejected addr) node = ok (node, rejected addr)
  handle_host_event (State.datagram_delivered addr plaintext) node =
      process_plaintext addr plaintext node

  unfoldable pub recv_one : List ℕ → RendezvousNode K → Result (RendezvousNode K × RendezvousEvent)
  recv_one ephemeral_seed node = do
    (host, host_event) ← Dispatch.recv_one crypto os ephemeral_seed node.host
    handle_host_event host_event (record { host = host })

  -- The answer that the client waits for, where the event is that.
  unfoldable pub observed_by : UdpAddr → RendezvousEvent → Option UdpAddr
  observed_by server_addr (observe_response_received source observed) =
      if key_eq source server_addr then some observed else none
  observed_by server_addr event = none

  -- The loop of the client over datagrams until the answer comes. It has no bound in the source:
  -- `none` means that it was still waiting after `fuel` datagrams. `seeds` is the factory.
  unfoldable pub drain_for_observe_response :
      ℕ → UdpAddr → (ℕ → List ℕ) → ℕ → RendezvousNode K → Result (RendezvousNode K × Option UdpAddr)
  drain_for_observe_response zero server_addr seeds calls node = ok (node, none)
  drain_for_observe_response (suc fuel) server_addr seeds calls node =
      recv_one (seeds calls) node >>= λ (next, event). elim (observed_by server_addr event) [
        | some observed ↦ ok (next, some observed)
        | none ↦ drain_for_observe_response fuel server_addr seeds (suc calls) next
      ]

  unfoldable pub observe_self :
      ℕ → UdpAddr → (ℕ → List ℕ) → RendezvousNode K → Result (RendezvousNode K × Option UdpAddr)
  observe_self fuel server_addr seeds node = send_observe_req server_addr node >>= λ next.
      drain_for_observe_response fuel server_addr seeds 0 next
