-- ===== src/Types/Addr.antt =====
-- crates/libp2p-cat-types/src/addr.rs: UDP addresses over the standard library's socket addresses.
-- An IP is its list of octets.
use libp2p_cat_rs.Prelude.{
  ℕ, ◌^◌, ◌<◌, ◌≡◌, refl, List, [], ◌∷◌, ◌++◌, length, All, append_injective,
}
use libp2p_cat_rs.Prelude.Bytes.{IsByte}
use libp2p_cat_rs.Prelude.Lex.{LexKey}

pub record SocketAddrV4 : Type 0 where
  pub ip : List ℕ
  pub port : ℕ

pub record SocketAddrV6 : Type 0 where
  pub ip : List ℕ
  pub port : ℕ
  pub flowinfo : ℕ
  pub scope_id : ℕ

pub data UdpAddr : Type 0 where
  v4 : SocketAddrV4 → UdpAddr
  v6 : SocketAddrV6 → UdpAddr

-- The ranges of the fields.
abbrev pub IsAddr : UdpAddr → Type 0
IsAddr (v4 s) = (length s.ip ≡ 4) × All IsByte s.ip × (s.port < 2 ^ 16)
IsAddr (v6 s) = (length s.ip ≡ 16) × All IsByte s.ip × (s.port < 2 ^ 16)

-- `Ord`: V4 before V6, then the IP, the port and the other fields.
abbrev pub addr_key : UdpAddr → List ℕ
addr_key (v4 s) = 0 ∷ (s.ip ++ (s.port ∷ []))
addr_key (v6 s) = 1 ∷ (s.ip ++ (s.port ∷ s.flowinfo ∷ s.scope_id ∷ []))

pub addr_key_injective : (a b : UdpAddr) → addr_key a ≡ addr_key b → a ≡ b
addr_key_injective (v4 a) (v4 b) h =
    let (p, q) = append_injective a.ip b.ip (a.port ∷ []) (b.port ∷ []) refl (cc) in cc
addr_key_injective (v4 a) (v6 b) h = cc
addr_key_injective (v6 a) (v4 b) h = cc
addr_key_injective (v6 a) (v6 b) h =
    let (p, q) =
      append_injective a.ip b.ip (a.port ∷ a.flowinfo ∷ a.scope_id ∷ [])
        (b.port ∷ b.flowinfo ∷ b.scope_id ∷ []) refl (cc) in
    cc

instance abbrev pub addr_lex : LexKey UdpAddr
addr_lex = record { to_key = addr_key; to_key_injective = addr_key_injective }
