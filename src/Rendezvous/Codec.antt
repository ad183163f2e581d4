-- ===== src/Rendezvous/Codec.antt =====
-- crates/libp2p-cat-rendezvous/src/codec.rs: the frames of observation, hole punching and relay.
-- A string is its UTF-8 bytes; whether bytes are UTF-8 is a parameter, `core::str::from_utf8`.
pub mod Laws
use libp2p_cat_rs.Prelude.{
  ℕ, ◌+◌, ◌≡◌, Bool, Option, none, some, List, [], ◌∷◌, ◌++◌, ◌==◌, if◌then◌else◌, is_empty, first,
  slice_to, slice_from, slice, or_empty, try_array,
}
use libp2p_cat_rs.Prelude.Bytes.{to_be_bytes, from_be_bytes}
use libp2p_cat_rs.Types.Error.{pubsub_protocol, Result, ok, err, ◌>>=◌, ok_or, map_ok}
use libp2p_cat_rs.Types.Addr.{UdpAddr, SocketAddrV4, SocketAddrV6, v4, v6}

pub data Opcode : Type 0 where
  observe_req : Opcode
  observe_resp : Opcode
  punch_req : Opcode
  punch_forward : Opcode
  relay_data_req : Opcode
  relay_data_deliver : Opcode
  relay_fail : Opcode

unfoldable pub to_byte : Opcode → ℕ
to_byte observe_req = 0x00
to_byte observe_resp = 0x01
to_byte punch_req = 0x02
to_byte punch_forward = 0x03
to_byte relay_data_req = 0x04
to_byte relay_data_deliver = 0x05
to_byte relay_fail = 0x06

unfoldable pub from_byte : ℕ → Result Opcode
from_byte byte =
    if byte == 0x00
    then ok observe_req
    else if byte == 0x01
    then ok observe_resp
    else if byte == 0x02
    then ok punch_req
    else if byte == 0x03
    then ok punch_forward
    else if byte == 0x04
    then ok relay_data_req
    else if byte == 0x05
    then ok relay_data_deliver
    else if byte == 0x06
    then ok relay_fail
    else err pubsub_protocol

pub data Frame : Type 0 where
  observe_req_frame : Frame
  observe_resp_frame : UdpAddr → Frame
  punch_req_frame : UdpAddr → Frame
  punch_forward_frame : UdpAddr → Frame
  relay_data_req_frame : UdpAddr → List ℕ → Frame
  relay_data_deliver_frame : UdpAddr → List ℕ → Frame
  relay_fail_frame : UdpAddr → List ℕ → Frame

abbrev pub addr_kind_v4 : ℕ
addr_kind_v4 = 0x04

abbrev pub addr_kind_v6 : ℕ
addr_kind_v6 = 0x06

abbrev pub addr_v4_body_len : ℕ
addr_v4_body_len = 4 + 2

abbrev pub addr_v6_body_len : ℕ
addr_v6_body_len = 16 + 2

unfoldable pub encode_addr : UdpAddr → List ℕ
encode_addr (v4 s) = addr_kind_v4 ∷ (s.ip ++ to_be_bytes 2 s.port)
encode_addr (v6 s) = addr_kind_v6 ∷ (s.ip ++ to_be_bytes 2 s.port)

unfoldable pub encode : Frame → Result (List ℕ)
encode observe_req_frame = ok (to_byte observe_req ∷ [])
encode (observe_resp_frame observed) = ok (to_byte observe_resp ∷ encode_addr observed)
encode (punch_req_frame target) = ok (to_byte punch_req ∷ encode_addr target)
encode (punch_forward_frame initiator) = ok (to_byte punch_forward ∷ encode_addr initiator)
encode (relay_data_req_frame target payload) =
    ok (to_byte relay_data_req ∷ (encode_addr target ++ payload))
encode (relay_data_deliver_frame originator payload) =
    ok (to_byte relay_data_deliver ∷ (encode_addr originator ++ payload))
encode (relay_fail_frame peer reason) = ok (to_byte relay_fail ∷ (encode_addr peer ++ reason))

unfoldable pub decode_addr_v4 : List ℕ → Result UdpAddr
decode_addr_v4 body = do
  ip_slice ← ok_or pubsub_protocol (slice_to 4 body)
  port_slice ← ok_or pubsub_protocol (slice 4 addr_v4_body_len body)
  ip_arr ← ok_or pubsub_protocol (try_array 4 ip_slice)
  port_arr ← ok_or pubsub_protocol (try_array 2 port_slice)
  ok (v4 (record { ip = ip_arr; port = from_be_bytes port_arr }))

unfoldable pub decode_addr_v6 : List ℕ → Result UdpAddr
decode_addr_v6 body = do
  ip_slice ← ok_or pubsub_protocol (slice_to 16 body)
  port_slice ← ok_or pubsub_protocol (slice 16 addr_v6_body_len body)
  ip_arr ← ok_or pubsub_protocol (try_array 16 ip_slice)
  port_arr ← ok_or pubsub_protocol (try_array 2 port_slice)
  ok (v6 (record { ip = ip_arr; port = from_be_bytes port_arr; flowinfo = 0; scope_id = 0 }))

unfoldable pub decode_addr : List ℕ → Result (UdpAddr × ℕ)
decode_addr buf = do
  kind ← ok_or pubsub_protocol (first buf)
  let body = or_empty (slice_from 1 buf)
  if kind == addr_kind_v4
      then map_ok (λ addr. (addr, 1 + addr_v4_body_len)) (decode_addr_v4 body)
      else if kind == addr_kind_v6
      then map_ok (λ addr. (addr, 1 + addr_v6_body_len)) (decode_addr_v6 body)
      else err pubsub_protocol

unfoldable pub decode_relay_data_req : List ℕ → Result Frame
decode_relay_data_req body = do
  (target, consumed) ← decode_addr body
  let payload = or_empty (slice_from consumed body)
  ok (relay_data_req_frame target payload)

unfoldable pub decode_relay_data_deliver : List ℕ → Result Frame
decode_relay_data_deliver body = do
  (originator, consumed) ← decode_addr body
  let payload = or_empty (slice_from consumed body)
  ok (relay_data_deliver_frame originator payload)

unfoldable pub decode_observe_req : List ℕ → Result Frame
decode_observe_req body = if is_empty body then ok observe_req_frame else err pubsub_protocol

unfoldable pub decode_addr_body : List ℕ → (UdpAddr → Frame) → Result Frame
decode_addr_body body wrap = do
  (addr, consumed) ← decode_addr body
  let trailing = or_empty (slice_from consumed body)
  if is_empty trailing then ok (wrap addr) else err pubsub_protocol

module _ (is_utf8 : List ℕ → Bool) where
  unfoldable pub decode_relay_fail : List ℕ → Result Frame
  decode_relay_fail body = do
    (peer, consumed) ← decode_addr body
    let reason_bytes = or_empty (slice_from consumed body)
    if is_utf8 reason_bytes then ok (relay_fail_frame peer reason_bytes) else err pubsub_protocol

  unfoldable pub decode_body : Opcode → List ℕ → Result Frame
  decode_body observe_req body = decode_observe_req body
  decode_body observe_resp body = decode_addr_body body observe_resp_frame
  decode_body punch_req body = decode_addr_body body punch_req_frame
  decode_body punch_forward body = decode_addr_body body punch_forward_frame
  decode_body relay_data_req body = decode_relay_data_req body
  decode_body relay_data_deliver body = decode_relay_data_deliver body
  decode_body relay_fail body = decode_relay_fail body

  unfoldable pub decode : List ℕ → Result Frame
  decode bytes = do
    opcode_byte ← ok_or pubsub_protocol (first bytes)
    opcode ← from_byte opcode_byte
    decode_body opcode (or_empty (slice_from 1 bytes))
