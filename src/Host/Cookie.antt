-- ===== src/Host/Cookie.antt =====
-- crates/libp2p-cat-host/src/cookie.rs: the stateless proof of a source address. Keyed BLAKE3 is a
-- parameter.
pub mod Laws
use libp2p_cat_rs.Prelude.{
  ℕ, ◌+◌, ◌≡◌, Bool, false, ◌&&◌, List, [], ◌∷◌, ◌++◌, Option, none, some, ◌==◌, if◌then◌else◌,
  length, all, take, drop, get_or, from_fn, first, bit_xor, try_array,
}
use Prim.Native.Nat.{bit_or}
use libp2p_cat_rs.Prelude.Text.{ascii}
use libp2p_cat_rs.Prelude.Bytes.{to_be_bytes}
use libp2p_cat_rs.Types.Addr.{UdpAddr, v4, v6}
use libp2p_cat_rs.Noise.Handshake.{message_1_len}

abbrev pub cookie_domain : List ℕ
cookie_domain = ascii "libp2p-cat-host cookie v1"

abbrev pub cookie_mac_len : ℕ
cookie_mac_len = 16

abbrev pub cookie_reply_marker : ℕ
cookie_reply_marker = 0xC0

abbrev pub cookie_reply_len : ℕ
cookie_reply_len = 1 + cookie_mac_len

abbrev pub msg1_with_cookie_len : ℕ
msg1_with_cookie_len = message_1_len + cookie_mac_len

-- `Ipv6Addr::to_canonical` takes an address of ::ffff:0:0/96 to its last four octets.
unfoldable pub is_v4_mapped : List ℕ → Bool
is_v4_mapped ip = all (λ b. b == 0) (take 10 ip) && (get_or ip 10 0 == 255 && get_or ip 11 0 == 255)

unfoldable pub addr_bytes : UdpAddr → List ℕ
addr_bytes (v4 s) = 0x04 ∷ (s.ip ++ to_be_bytes 2 s.port)
addr_bytes (v6 s) =
    if is_v4_mapped s.ip
    then 0x04 ∷ (drop 12 s.ip ++ to_be_bytes 2 s.port)
    else 0x06 ∷ (s.ip ++ to_be_bytes 2 s.port)

-- The fold that ORs the differences of the paired bytes.
unfoldable pub diff_bytes : ℕ → List ℕ → List ℕ → ℕ
diff_bytes acc [] ys = acc
diff_bytes acc (x ∷ xs) [] = acc
diff_bytes acc (x ∷ xs) (y ∷ ys) = diff_bytes (bit_or acc (bit_xor x y)) xs ys

unfoldable pub is_challenge : List ℕ → Bool
is_challenge datagram =
    length datagram == cookie_reply_len
    && elim (first datagram) [ none ↦ false | some b ↦ b == cookie_reply_marker ]

module _ (keyed_hash : List ℕ → List ℕ → List ℕ) where
  unfoldable pub mint : List ℕ → UdpAddr → List ℕ → List ℕ
  mint secret source e =
      let bytes = keyed_hash secret (cookie_domain ++ (addr_bytes source ++ e)) in
      from_fn cookie_mac_len (λ i. get_or bytes i 0)

  unfoldable pub challenge : List ℕ → UdpAddr → List ℕ → List ℕ
  challenge secret source e = cookie_reply_marker ∷ mint secret source e

  unfoldable pub verify : List ℕ → UdpAddr → List ℕ → List ℕ → Bool
  verify secret source e mac = elim (try_array cookie_mac_len mac) [
    | none ↦ false
    | some echoed ↦ diff_bytes 0 (mint secret source e) echoed == 0
  ]
