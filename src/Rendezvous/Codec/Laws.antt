-- ===== src/Rendezvous/Codec/Laws.antt =====
-- The frames of crates/libp2p-cat-rendezvous/src/codec.rs: encoding against decoding.
use libp2p_cat_rs.Prelude.{
  ℕ, ◌≡◌, refl, ◌↔◌, Bool, true, List, [], ◌++◌, append-nil, length, slice_from, slice_from-append,
  slice_from-cons, some, arith,
}
use libp2p_cat_rs.Types.Error.{ok}
use libp2p_cat_rs.Types.Addr.{UdpAddr, v4, v6, IsAddr}
use libp2p_cat_rs.Kad.AddrCodec
use libp2p_cat_rs.Kad.AddrCodec.Laws
use libp2p_cat_rs.Kad.AddrCodec.Laws.{on_wire}
use libp2p_cat_rs.Rendezvous.Codec.{
  Opcode, observe_req, observe_resp, punch_req, punch_forward, relay_data_req, relay_data_deliver,
  relay_fail, to_byte, from_byte, Frame, observe_req_frame, observe_resp_frame, punch_req_frame,
  punch_forward_frame, relay_data_req_frame, relay_data_deliver_frame, relay_fail_frame,
  encode_addr, encode, decode_addr_v4, decode_addr_v6, decode_addr, decode_relay_data_req,
  decode_relay_data_deliver, decode_observe_req, decode_addr_body, decode_relay_fail, decode_body,
  decode,
}

-- This crate's copy of the address codec does what the Kademlia crate's does.
encode_addr_agrees : (a : UdpAddr) → encode_addr a ≡ AddrCodec.encode_addr a
unfolding encode_addr AddrCodec.encode_addr
encode_addr_agrees (v4 s) = refl
encode_addr_agrees (v6 s) = refl

decode_addr_agrees : (buf : List ℕ) → decode_addr buf ≡ AddrCodec.decode_addr buf
unfolding decode_addr decode_addr_v4 decode_addr_v6 AddrCodec.decode_addr AddrCodec.decode_addr_v4
    AddrCodec.decode_addr_v6
decode_addr_agrees buf = refl

pub addr_codec_agrees :
    (a : UdpAddr) (buf : List ℕ)
    → (encode_addr a ≡ AddrCodec.encode_addr a) × (decode_addr buf ≡ AddrCodec.decode_addr buf)
addr_codec_agrees a buf = (encode_addr_agrees a, decode_addr_agrees buf)

-- `from_byte` reads `to_byte` back, and accepts no other byte.
pub from_byte_iff : (o : Opcode) (b : ℕ) → (from_byte b ≡ ok o) ↔ (b ≡ to_byte o)
unfolding from_byte to_byte
from_byte_iff observe_req b = (λ h. ground arith, λ h. ground arith)
from_byte_iff observe_resp b = (λ h. ground arith, λ h. ground arith)
from_byte_iff punch_req b = (λ h. ground arith, λ h. ground arith)
from_byte_iff punch_forward b = (λ h. ground arith, λ h. ground arith)
from_byte_iff relay_data_req b = (λ h. ground arith, λ h. ground arith)
from_byte_iff relay_data_deliver b = (λ h. ground arith, λ h. ground arith)
from_byte_iff relay_fail b = (λ h. ground arith, λ h. ground arith)

decode_addr-encode_addr :
    (a : UdpAddr) (rest : List ℕ)
    → IsAddr a
    → decode_addr (encode_addr a ++ rest) ≡ ok (on_wire a, length (encode_addr a))
decode_addr-encode_addr a rest h = cc (
  encode_addr_agrees a,
  decode_addr_agrees (encode_addr a ++ rest),
  Laws.decode_addr-encode_addr a rest h,
)

-- The bytes behind an encoded address.
slice_from-encode_addr :
    (a : UdpAddr) (rest : List ℕ)
    → slice_from (length (encode_addr a)) (encode_addr a ++ rest) ≡ some rest
slice_from-encode_addr a rest = slice_from-append (encode_addr a) rest _ refl

decode_addr_body_lem :
    (a : UdpAddr) (wrap : UdpAddr → Frame)
    → IsAddr a
    → decode_addr_body (encode_addr a) wrap ≡ ok (wrap (on_wire a))
unfolding decode_addr_body
decode_addr_body_lem a wrap h =
    let read = rw append-nil at (decode_addr-encode_addr a [] h) in
    let rest = rw append-nil at (slice_from-encode_addr a []) in rw read (rw rest refl)

module _ (is_utf8 : List ℕ → Bool) where
  -- Well-formed addresses, and a reason that is a string.
  abbrev pub IsFrame : Frame → Type 0
  IsFrame observe_req_frame = Unit
  IsFrame (observe_resp_frame a) = IsAddr a
  IsFrame (punch_req_frame a) = IsAddr a
  IsFrame (punch_forward_frame a) = IsAddr a
  IsFrame (relay_data_req_frame a payload) = IsAddr a
  IsFrame (relay_data_deliver_frame a payload) = IsAddr a
  IsFrame (relay_fail_frame a reason) = IsAddr a × (is_utf8 reason ≡ true)

unfoldable pub frame_on_wire : Frame → Frame
frame_on_wire observe_req_frame = observe_req_frame
frame_on_wire (observe_resp_frame a) = observe_resp_frame (on_wire a)
frame_on_wire (punch_req_frame a) = punch_req_frame (on_wire a)
frame_on_wire (punch_forward_frame a) = punch_forward_frame (on_wire a)
frame_on_wire (relay_data_req_frame a payload) = relay_data_req_frame (on_wire a) payload
frame_on_wire (relay_data_deliver_frame a payload) = relay_data_deliver_frame (on_wire a) payload
frame_on_wire (relay_fail_frame a reason) = relay_fail_frame (on_wire a) reason

relay_data_req_lem :
    (a : UdpAddr) (payload : List ℕ)
    → IsAddr a
    → decode_relay_data_req (encode_addr a ++ payload)
      ≡ ok (relay_data_req_frame (on_wire a) payload)
unfolding decode_relay_data_req
relay_data_req_lem a payload h =
    rw (decode_addr-encode_addr a payload h) (rw (slice_from-encode_addr a payload) refl)

relay_data_deliver_lem :
    (a : UdpAddr) (payload : List ℕ)
    → IsAddr a
    → decode_relay_data_deliver (encode_addr a ++ payload)
      ≡ ok (relay_data_deliver_frame (on_wire a) payload)
unfolding decode_relay_data_deliver
relay_data_deliver_lem a payload h =
    rw (decode_addr-encode_addr a payload h) (rw (slice_from-encode_addr a payload) refl)

relay_fail_lem :
    (is_utf8 : List ℕ → Bool) (a : UdpAddr) (reason : List ℕ)
    → IsAddr a
    → is_utf8 reason ≡ true
    → decode_relay_fail is_utf8 (encode_addr a ++ reason) ≡ ok (relay_fail_frame (on_wire a) reason)
unfolding decode_relay_fail
relay_fail_lem is_utf8 a reason h u =
    rw (decode_addr-encode_addr a reason h) (rw (slice_from-encode_addr a reason) (rw u refl))

-- A frame of well-formed addresses, whose reason is UTF-8 where it has one, is encoded, and its
-- bytes decode to the frame without the two IPv6 fields that are not sent, its payload unchanged.
pub decode-encode_rendezvous :
    (is_utf8 : List ℕ → Bool) (f : Frame)
    → IsFrame is_utf8 f
    → (bytes : List ℕ) × (encode f ≡ ok bytes) × (decode is_utf8 bytes ≡ ok (frame_on_wire f))
unfolding encode decode frame_on_wire decode_body decode_observe_req to_byte from_byte
decode-encode_rendezvous is_utf8 observe_req_frame h =
    (_, refl, rw (slice_from-cons {A = ℕ} 0 []) refl)
decode-encode_rendezvous is_utf8 (observe_resp_frame a) h =
    (_, refl, rw (slice_from-cons 1 (encode_addr a)) (decode_addr_body_lem a observe_resp_frame h))
decode-encode_rendezvous is_utf8 (punch_req_frame a) h =
    (_, refl, rw (slice_from-cons 2 (encode_addr a)) (decode_addr_body_lem a punch_req_frame h))
decode-encode_rendezvous is_utf8 (punch_forward_frame a) h =
    (_, refl, rw (slice_from-cons 3 (encode_addr a)) (decode_addr_body_lem a punch_forward_frame h))
decode-encode_rendezvous is_utf8 (relay_data_req_frame a payload) h =
    (_, refl, rw (slice_from-cons 4 (encode_addr a ++ payload)) (relay_data_req_lem a payload h))
decode-encode_rendezvous is_utf8 (relay_data_deliver_frame a payload) h = (
  _,
  refl,
  rw (slice_from-cons 5 (encode_addr a ++ payload)) (relay_data_deliver_lem a payload h),
)
decode-encode_rendezvous is_utf8 (relay_fail_frame a reason) (h, u) = (
  _,
  refl,
  rw (slice_from-cons 6 (encode_addr a ++ reason)) (relay_fail_lem is_utf8 a reason h u),
)
