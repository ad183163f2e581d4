-- ===== src/Kad/AddrCodec/Laws.antt =====
-- The address codec of crates/libp2p-cat-kad/src/codec.rs: encoding against decoding.
use libp2p_cat_rs.Prelude.{
  ℕ, ◌≡◌, refl, sym, ap, List, ◌++◌, arith, append_assoc, length, length-append, slice_to-append,
  slice-append, slice_from-cons, try_array-of_length,
}
use libp2p_cat_rs.Prelude.Bytes.{to_be_bytes, length-to_be_bytes, from_be_bytes-to_be_bytes}
use libp2p_cat_rs.Types.Error.{ok}
use libp2p_cat_rs.Types.Addr.{UdpAddr, SocketAddrV4, SocketAddrV6, v4, v6, IsAddr}
use libp2p_cat_rs.Kad.AddrCodec.{encode_addr, decode_addr_v4, decode_addr_v6, decode_addr}

-- The address as the wire carries it: `flowinfo` and `scope_id` are not sent.
unfoldable pub on_wire : UdpAddr → UdpAddr
on_wire (v4 s) = v4 s
on_wire (v6 s) = v6 (record s { flowinfo = 0; scope_id = 0 })

-- Four steps of the decoder, on a body whose parts are known.
decode_addr_v4-append :
    (s : SocketAddrV4) (rest : List ℕ)
    → IsAddr (v4 s)
    → decode_addr_v4 (s.ip ++ (to_be_bytes 2 s.port ++ rest)) ≡ ok (v4 s)
unfolding decode_addr_v4
decode_addr_v4-append s rest (hip, bytes, hport) =
    rw
      (
        slice_to-append s.ip (to_be_bytes 2 s.port ++ rest) 4 hip,
        slice-append s.ip (to_be_bytes 2 s.port) rest 4 6 hip
            (omega (arith, length-to_be_bytes 2 s.port)),
      )
      (rw
        (
          try_array-of_length 4 s.ip hip,
          try_array-of_length 2 (to_be_bytes 2 s.port) (length-to_be_bytes 2 s.port),
          from_be_bytes-to_be_bytes 2 s.port hport,
        )
        refl)

decode_addr_v6-append :
    (s : SocketAddrV6) (rest : List ℕ)
    → IsAddr (v6 s)
    → decode_addr_v6 (s.ip ++ (to_be_bytes 2 s.port ++ rest))
      ≡ ok (v6 (record s { flowinfo = 0; scope_id = 0 }))
unfolding decode_addr_v6
decode_addr_v6-append s rest (hip, bytes, hport) =
    rw
      (
        slice_to-append s.ip (to_be_bytes 2 s.port ++ rest) 16 hip,
        slice-append s.ip (to_be_bytes 2 s.port) rest 16 18 hip
            (omega (arith, length-to_be_bytes 2 s.port)),
      )
      (rw
        (
          try_array-of_length 16 s.ip hip,
          try_array-of_length 2 (to_be_bytes 2 s.port) (length-to_be_bytes 2 s.port),
          from_be_bytes-to_be_bytes 2 s.port hport,
        )
        refl)

pub length-encode_addr-v4 : (s : SocketAddrV4) → IsAddr (v4 s) → length (encode_addr (v4 s)) ≡ 7
unfolding encode_addr
length-encode_addr-v4 s (hip, bytes, h) =
    omega (arith, length-append s.ip (to_be_bytes 2 s.port), length-to_be_bytes 2 s.port)

pub length-encode_addr-v6 : (s : SocketAddrV6) → IsAddr (v6 s) → length (encode_addr (v6 s)) ≡ 19
unfolding encode_addr
length-encode_addr-v6 s (hip, bytes, h) =
    omega (arith, length-append s.ip (to_be_bytes 2 s.port), length-to_be_bytes 2 s.port)

-- Decoding reads an encoded address back, and counts its bytes, whatever follows it.
pub decode_addr-encode_addr :
    (a : UdpAddr) (rest : List ℕ)
    → IsAddr a
    → decode_addr (encode_addr a ++ rest) ≡ ok (on_wire a, length (encode_addr a))
unfolding decode_addr encode_addr on_wire
decode_addr-encode_addr (v4 s) rest h =
    rw
      (
        slice_from-cons 4 ((s.ip ++ to_be_bytes 2 s.port) ++ rest),
        append_assoc s.ip (to_be_bytes 2 s.port) rest,
      )
      (rw (decode_addr_v4-append s rest h)
        (ap (λ (n : ℕ). ok (v4 s, n)) (sym (length-encode_addr-v4 s h))))
decode_addr-encode_addr (v6 s) rest h =
    rw
      (
        slice_from-cons 6 ((s.ip ++ to_be_bytes 2 s.port) ++ rest),
        append_assoc s.ip (to_be_bytes 2 s.port) rest,
      )
      (rw (decode_addr_v6-append s rest h) (
        ap (λ (n : ℕ). ok (v6 (record s { flowinfo = 0; scope_id = 0 }), n))
          (sym (length-encode_addr-v6 s h))))
