-- ===== src/Types/PeerId.antt =====
-- crates/libp2p-cat-types/src/peer_id.rs: a peer identifier is the identity multihash of a
-- protobuf-encoded public key.
pub mod Laws
use libp2p_cat_rs.Prelude.{
  ℕ, ◌+◌, ◌-◌, ◌&&◌, Option, none, some, List, [], ◌∷◌, ltb, leb, ◌==◌, if◌then◌else◌, length,
  get_or, from_fn, ◌≡◌,
}
use libp2p_cat_rs.Prelude.Lex.{LexKey}
use libp2p_cat_rs.Types.Error.{Result, ok_or, invalid_peer_id}

abbrev pub max_inline_key_bytes : ℕ
max_inline_key_bytes = 42

abbrev key_type_ed25519 : ℕ
key_type_ed25519 = 1

abbrev identity_multihash_code : ℕ
identity_multihash_code = 0x00

abbrev pub ed25519_key_len : ℕ
ed25519_key_len = 32

abbrev ed25519_protobuf_len : ℕ
ed25519_protobuf_len = 4 + ed25519_key_len

abbrev ed25519_peer_id_len : ℕ
ed25519_peer_id_len = 2 + ed25519_protobuf_len

pub record PeerId : Type 0 where
  pub bytes : List ℕ

instance abbrev pub peer_id_lex : LexKey PeerId
peer_id_lex = record {
  to_key = λ p. p.bytes;
  to_key_injective = λ a b h. λ i. record { bytes = h i };
}

-- The closures of the two `array::from_fn` calls. The lengths fit a byte, so `u8::try_from` never
-- takes its default.
abbrev pub protobuf_byte : List ℕ → ℕ → ℕ
protobuf_byte key i =
    if i == 0
    then 0x08
    else if i == 1
    then key_type_ed25519
    else if i == 2
    then 0x12
    else if i == 3
    then ed25519_key_len
    else get_or key (i - 4) 0

abbrev pub multihash_byte : List ℕ → ℕ → ℕ
multihash_byte pb i =
    if i == 0
    then identity_multihash_code
    else if i == 1
    then ed25519_protobuf_len
    else get_or pb (i - 2) 0

unfoldable pub ed25519_protobuf : List ℕ → List ℕ
ed25519_protobuf key = from_fn ed25519_protobuf_len (protobuf_byte key)

unfoldable pub identity_multihash_from_array : List ℕ → List ℕ
identity_multihash_from_array pb = from_fn ed25519_peer_id_len (multihash_byte pb)

unfoldable pub from_ed25519 : List ℕ → PeerId
from_ed25519 key = record { bytes = identity_multihash_from_array (ed25519_protobuf key) }

-- `u8::try_from(len).ok()`
try_u8 : ℕ → Option ℕ
try_u8 n = if ltb n 256 then some n else none

unfoldable pub from_public_key_protobuf : List ℕ → Result PeerId
unfolding try_u8
from_public_key_protobuf pb = ok_or invalid_peer_id (elim (try_u8 (length pb)) [
  | none ↦ none
  | some n ↦
      if leb n max_inline_key_bytes && ltb n 0x80
      then some (record { bytes = identity_multihash_code ∷ n ∷ pb })
      else none
])

pub len : PeerId → ℕ
len p = length p.bytes
