-- ===== src/Types/PeerId/Laws.antt =====
-- The constructors of crates/libp2p-cat-types/src/peer_id.rs.
use libp2p_cat_rs.Prelude.{
  ℕ, zero, suc, ◌+◌, ◌≤◌, ◌<◌, ◌≡◌, refl, List, ◌∷◌, arith, length, get_or, from_fn, from_fn_at-eq,
}
use libp2p_cat_rs.Types.Error.{ok, err, invalid_peer_id}
use libp2p_cat_rs.Types.PeerId.{
  ed25519_protobuf, protobuf_byte, multihash_byte, identity_multihash_from_array, from_ed25519,
  from_public_key_protobuf, max_inline_key_bytes,
}

from_fn-eq :
    (xs : List ℕ) (n : ℕ) (f : ℕ → ℕ)
    → length xs ≡ n
    → ((j : ℕ) → j < length xs → f (0 + j) ≡ get_or xs j 0)
    → from_fn n f ≡ xs
from_fn-eq xs n f e h = rw (← e) (from_fn_at-eq xs 0 f 0 h)

abbrev with_header : List ℕ → List ℕ
with_header key = 0x08 ∷ 0x01 ∷ 0x12 ∷ 0x20 ∷ key

protobuf_byte-eq : (key : List ℕ) (j : ℕ) → protobuf_byte key (0 + j) ≡ get_or (with_header key) j 0
protobuf_byte-eq key zero = refl
protobuf_byte-eq key (suc zero) = refl
protobuf_byte-eq key (suc (suc zero)) = refl
protobuf_byte-eq key (suc (suc (suc zero))) = refl
protobuf_byte-eq key (suc (suc (suc (suc j)))) = ground arith

multihash_byte-eq :
    (pb : List ℕ) (j : ℕ) → multihash_byte pb (0 + j) ≡ get_or (0x00 ∷ 0x24 ∷ pb) j 0
multihash_byte-eq pb zero = refl
multihash_byte-eq pb (suc zero) = refl
multihash_byte-eq pb (suc (suc j)) = ground arith

-- The protobuf of a 32-byte key is the four header bytes and the key.
pub ed25519_protobuf-eq : (key : List ℕ) → length key ≡ 32 → ed25519_protobuf key ≡ with_header key
unfolding ed25519_protobuf
ed25519_protobuf-eq key h =
    from_fn-eq (with_header key) 36 (protobuf_byte key) (omega arith)
      (λ j _. protobuf_byte-eq key j)

pub from_ed25519-eq :
    (key : List ℕ) → length key ≡ 32 → (from_ed25519 key).bytes ≡ 0x00 ∷ 0x24 ∷ with_header key
unfolding from_ed25519 identity_multihash_from_array
from_ed25519-eq key h = rw (ed25519_protobuf-eq key h) (
    from_fn-eq (0x00 ∷ 0x24 ∷ with_header key) 38 (multihash_byte (with_header key)) (omega arith)
      (λ j _. multihash_byte-eq (with_header key) j))

-- A 32-byte Ed25519 key gives the same peer identifier through its protobuf message as directly.
pub from_public_key_protobuf-from_ed25519 :
    (key : List ℕ)
    → length key ≡ 32
    → from_public_key_protobuf (ed25519_protobuf key) ≡ ok (from_ed25519 key)
unfolding from_public_key_protobuf
from_public_key_protobuf-from_ed25519 key h =
    let bytes = from_ed25519-eq key h in let pb = ed25519_protobuf-eq key h in ground (arith, pb)

-- Different 32-byte keys have different peer identifiers.
pub from_ed25519_injective :
    (a b : List ℕ) → length a ≡ 32 → length b ≡ 32 → from_ed25519 a ≡ from_ed25519 b → a ≡ b
from_ed25519_injective a b ha hb e = cc (from_ed25519-eq a ha, from_ed25519-eq b hb)

-- A protobuf message is accepted exactly when it has at most 42 bytes, and is then embedded whole
-- behind the code and the length; a longer one is an invalid peer identifier.
pub from_public_key_protobuf_cases :
    (pb : List ℕ)
    → (length pb ≤ max_inline_key_bytes
        → from_public_key_protobuf pb ≡ ok (record { bytes = 0x00 ∷ length pb ∷ pb }))
      × (max_inline_key_bytes < length pb → from_public_key_protobuf pb ≡ err invalid_peer_id)
unfolding from_public_key_protobuf
from_public_key_protobuf_cases pb = (λ h. ground arith, λ h. ground arith)
