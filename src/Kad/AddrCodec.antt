-- ===== src/Kad/AddrCodec.antt =====
-- crates/libp2p-cat-kad/src/codec.rs: the addresses inside the frames.
pub mod Laws
pub mod Canonical
use libp2p_cat_rs.Prelude.{
  ℕ, ◌+◌, ◌≡◌, List, [], ◌∷◌, ◌++◌, ◌==◌, if◌then◌else◌, first, slice_to, slice_from, slice,
  or_empty, try_array,
}
use libp2p_cat_rs.Prelude.Bytes.{to_be_bytes, from_be_bytes}
use libp2p_cat_rs.Types.Error.{pubsub_protocol, Result, ok, err, ◌>>=◌, ok_or, map_ok}
use libp2p_cat_rs.Types.Addr.{UdpAddr, SocketAddrV4, SocketAddrV6, v4, v6}

abbrev pub addr_kind_v4 : ℕ
addr_kind_v4 = 0x04

abbrev pub addr_kind_v6 : ℕ
addr_kind_v6 = 0x06

abbrev pub addr_v4_body_len : ℕ
addr_v4_body_len = 4 + 2

abbrev pub addr_v6_body_len : ℕ
addr_v6_body_len = 16 + 2

unfoldable pub encode_addr : UdpAddr → List ℕ
encode_addr (v4 s) = addr_kind_v4 ∷ (s.ip ++ to_be_bytes 2 s.port)
encode_addr (v6 s) = addr_kind_v6 ∷ (s.ip ++ to_be_bytes 2 s.port)

unfoldable pub decode_addr_v4 : List ℕ → Result UdpAddr
decode_addr_v4 body = do
  ip_slice ← ok_or pubsub_protocol (slice_to 4 body)
  port_slice ← ok_or pubsub_protocol (slice 4 addr_v4_body_len body)
  ip_arr ← ok_or pubsub_protocol (try_array 4 ip_slice)
  port_arr ← ok_or pubsub_protocol (try_array 2 port_slice)
  ok (v4 (record { ip = ip_arr; port = from_be_bytes port_arr }))

unfoldable pub decode_addr_v6 : List ℕ → Result UdpAddr
decode_addr_v6 body = do
  ip_slice ← ok_or pubsub_protocol (slice_to 16 body)
  port_slice ← ok_or pubsub_protocol (slice 16 addr_v6_body_len body)
  ip_arr ← ok_or pubsub_protocol (try_array 16 ip_slice)
  port_arr ← ok_or pubsub_protocol (try_array 2 port_slice)
  ok (v6 (record { ip = ip_arr; port = from_be_bytes port_arr; flowinfo = 0; scope_id = 0 }))

-- The address and the number of bytes it takes.
unfoldable pub decode_addr : List ℕ → Result (UdpAddr × ℕ)
unfolding decode_addr_v4 decode_addr_v6
decode_addr buf = do
  kind ← ok_or pubsub_protocol (first buf)
  let body = or_empty (slice_from 1 buf)
  if kind == addr_kind_v4
      then map_ok (λ addr. (addr, 1 + addr_v4_body_len)) (decode_addr_v4 body)
      else if kind == addr_kind_v6
      then map_ok (λ addr. (addr, 1 + addr_v6_body_len)) (decode_addr_v6 body)
      else err pubsub_protocol
