-- ===== src/Identity/Keypair.antt =====
-- crates/libp2p-cat-identity/src/keypair.rs: Ed25519 keys and signatures. A newtype of bytes is its
-- list of bytes; Ed25519 itself is a parameter.
use libp2p_cat_rs.Prelude.{ℕ, ◌≡◌, List, Option, some, Bool, true, length, if◌then◌else◌}
use libp2p_cat_rs.Prelude.Text.{ascii}
use libp2p_cat_rs.Types.Error.{Result, ok, err, ok_or, identity_verify}
use libp2p_cat_rs.Types.PeerId.{PeerId, from_ed25519}

abbrev pub domain_tag : List ℕ
domain_tag = ascii "libp2p-cat-identity-static-key:"

abbrev pub ed25519_public_key_len : ℕ
ed25519_public_key_len = 32

abbrev pub ed25519_signature_len : ℕ
ed25519_signature_len = 64

abbrev pub Ed25519PublicKey : Type 0
Ed25519PublicKey = List ℕ

abbrev pub Ed25519Signature : Type 0
Ed25519Signature = List ℕ

-- The signing key of a seed is the seed; `is_point` says whether bytes are a curve point, and
-- `verify_strict` takes the public key, the message and the signature.
pub record Ed25519 : Type 0 where
  pub public_key : List ℕ → List ℕ
  pub try_sign : List ℕ → List ℕ → Option (List ℕ)
  pub is_point : List ℕ → Bool
  pub verify_strict : List ℕ → List ℕ → List ℕ → Bool

-- What is documented of it: the widths, that a derived public key is a point, and that a signature
-- verifies under the key that made it.
pub record IsEd25519 (scheme : Ed25519) : Type 0 where
  pub key_width : (seed : List ℕ) → length (scheme.public_key seed) ≡ ed25519_public_key_len
  pub signature_width :
      (seed message : List ℕ) {signature : List ℕ}
      → scheme.try_sign seed message ≡ some signature
      → length signature ≡ ed25519_signature_len
  pub point : (seed : List ℕ) → scheme.is_point (scheme.public_key seed) ≡ true
  pub verifies :
      (seed message : List ℕ) {signature : List ℕ}
      → scheme.try_sign seed message ≡ some signature
      → scheme.verify_strict (scheme.public_key seed) message signature ≡ true

pub record Ed25519Keypair : Type 0 where
  pub signing_key : List ℕ
  pub public_key : Ed25519PublicKey

unfoldable pub peer_id_of_key : Ed25519PublicKey → PeerId
peer_id_of_key key = from_ed25519 key

unfoldable pub peer_id : Ed25519Keypair → PeerId
peer_id k = peer_id_of_key k.public_key

module _ (scheme : Ed25519) where
  unfoldable pub verifying_key : Ed25519PublicKey → Result Ed25519PublicKey
  verifying_key key = if scheme.is_point key then ok key else err identity_verify

  unfoldable pub from_seed : List ℕ → Ed25519Keypair
  from_seed seed = record { signing_key = seed; public_key = scheme.public_key seed }

  unfoldable pub try_sign : List ℕ → Ed25519Keypair → Result Ed25519Signature
  try_sign message k = ok_or identity_verify (scheme.try_sign k.signing_key message)

  -- A key pair that `from_seed` made.
  abbrev pub IsIdentity : Ed25519Keypair → Type 0
  IsIdentity k = k.public_key ≡ scheme.public_key k.signing_key
