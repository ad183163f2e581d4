-- ===== src/Noise/Primitives.antt =====
-- crates/libp2p-cat-noise/src/primitives.rs: X25519 keys. A newtype of 32 bytes is its list of bytes;
-- the curve itself is a parameter.
use libp2p_cat_rs.Prelude.{ℕ, ◌≡◌, List, length}
use libp2p_cat_rs.Noise.Aead.{key_len}

-- `PublicKey::from(&StaticSecret::from(private))`, and `diffie_hellman` of a private and a public key.
pub record X25519 : Type 0 where
  pub public_key : List ℕ → List ℕ
  pub diffie_hellman : List ℕ → List ℕ → List ℕ

-- What is documented of it: a public key has 32 bytes, and the two sides compute one secret.
pub record IsX25519 (curve : X25519) : Type 0 where
  pub width : (private : List ℕ) → length (curve.public_key private) ≡ key_len
  pub agrees :
      (a b : List ℕ)
      → curve.diffie_hellman a (curve.public_key b) ≡ curve.diffie_hellman b (curve.public_key a)

abbrev pub StaticPrivateKey : Type 0
StaticPrivateKey = List ℕ

abbrev pub StaticPublicKey : Type 0
StaticPublicKey = List ℕ

abbrev pub EphemeralPrivateKey : Type 0
EphemeralPrivateKey = List ℕ

abbrev pub EphemeralPublicKey : Type 0
EphemeralPublicKey = List ℕ

abbrev pub DhOutput : Type 0
DhOutput = List ℕ

pub record StaticKeypair : Type 0 where
  pub private : StaticPrivateKey
  pub public : StaticPublicKey

module _ (curve : X25519) where
  unfoldable pub from_private_bytes : List ℕ → StaticKeypair
  from_private_bytes private_bytes = record {
    private = private_bytes;
    public = curve.public_key private_bytes;
  }

  abbrev pub ephemeral_public : EphemeralPrivateKey → EphemeralPublicKey
  ephemeral_public private = curve.public_key private

  abbrev dh_raw : List ℕ → List ℕ → List ℕ
  dh_raw private_bytes public_bytes = curve.diffie_hellman private_bytes public_bytes

  abbrev pub dh_ee : EphemeralPrivateKey → EphemeralPublicKey → DhOutput
  dh_ee private public = dh_raw private public

  abbrev pub dh_es : EphemeralPrivateKey → StaticPublicKey → DhOutput
  dh_es private public = dh_raw private public

  abbrev pub dh_se : StaticPrivateKey → EphemeralPublicKey → DhOutput
  dh_se private public = dh_raw private public

  -- A key pair that `from_private_bytes` made.
  abbrev pub IsKeypair : StaticKeypair → Type 0
  IsKeypair k = k.public ≡ curve.public_key k.private
