-- ===== src/Noise/Symmetric.antt =====
-- crates/libp2p-cat-noise/src/symmetric.rs: the running state of a handshake. BLAKE3 is a parameter.
use libp2p_cat_rs.Prelude.{
  ℕ, ◌+◌, ◌%◌, ◌^◌, ◌≡◌, List, [], ◌++◌, Option, none, some, length, get_or, from_fn, arith, inl,
  inr,
}
use libp2p_cat_rs.Prelude.Text.{ascii}
use libp2p_cat_rs.Types.Error.{Result, ok, ◌>>=◌}
use libp2p_cat_rs.Noise.Aead.{
  key_len, aead_tag_len, Chacha20Poly1305, IsAead, aead_encrypt, aead_decrypt,
  aead_decrypt-aead_encrypt,
}
use libp2p_cat_rs.Noise.Primitives.{DhOutput}
use libp2p_cat_rs.Noise.Transport.Replay.{Result-cases}

-- The hash of a message, and so many bytes of the keyed hash's extended output.
pub record Blake3 : Type 0 where
  pub hash : List ℕ → List ℕ
  pub keyed_xof : List ℕ → List ℕ → ℕ → List ℕ

abbrev pub protocol_name : List ℕ
protocol_name = ascii "Noise_XX_25519_ChaChaPoly_BLAKE3"

pub record SymmetricState : Type 0 where
  pub chaining_key : List ℕ
  pub hash : List ℕ
  pub cipher_key : Option (List ℕ)
  pub nonce : ℕ

unfoldable pub initialize : SymmetricState
initialize = record {
  chaining_key = protocol_name;
  hash = protocol_name;
  cipher_key = none;
  nonce = 0;
}

module _ (blake3 : Blake3) where
  unfoldable pub kdf_two : List ℕ → List ℕ → List ℕ × List ℕ
  kdf_two key input =
      let out = blake3.keyed_xof key input (key_len + key_len) in
      (from_fn key_len (λ i. get_or out i 0), from_fn key_len (λ i. get_or out (i + key_len) 0))

  unfoldable pub blake3_hash_two : List ℕ → List ℕ → List ℕ
  blake3_hash_two previous_hash input = blake3.hash (previous_hash ++ input)

  unfoldable pub mix_hash : List ℕ → SymmetricState → SymmetricState
  mix_hash input s = record s { hash = blake3_hash_two s.hash input }

  unfoldable pub mix_key : DhOutput → SymmetricState → SymmetricState
  mix_key input s =
      let (next_chaining_key, next_cipher_key) = kdf_two s.chaining_key input in
      record s { chaining_key = next_chaining_key; cipher_key = some next_cipher_key; nonce = 0 }

  unfoldable pub split : SymmetricState → List ℕ × List ℕ
  split s = kdf_two s.chaining_key []

module _ (cipher : Chacha20Poly1305) (blake3 : Blake3) where
  -- The state behind a sealed message: the counter has moved, the ciphertext is hashed in.
  abbrev after : List ℕ → SymmetricState → SymmetricState
  after ciphertext s = mix_hash blake3 ciphertext (record s { nonce = (s.nonce + 1) % 2 ^ 64 })

  unfoldable pub encrypt_and_hash : List ℕ → SymmetricState → Result (SymmetricState × List ℕ)
  encrypt_and_hash plaintext s = elim s.cipher_key [
    | none ↦ ok (mix_hash blake3 plaintext s, plaintext)
    | some key ↦ aead_encrypt cipher key s.nonce s.hash plaintext >>= λ ciphertext.
        ok (after ciphertext s, ciphertext)
  ]

  unfoldable pub decrypt_and_hash : List ℕ → SymmetricState → Result (SymmetricState × List ℕ)
  decrypt_and_hash ciphertext s = elim s.cipher_key [
    | none ↦ ok (mix_hash blake3 ciphertext s, ciphertext)
    | some key ↦ aead_decrypt cipher key s.nonce s.hash ciphertext >>= λ plaintext.
        ok (after ciphertext s, plaintext)
  ]

  -- What one side seals, the other side opens, and the two states agree after it.
  pub decrypt_and_hash-encrypt_and_hash :
      IsAead cipher
      → (s : SymmetricState) {s' : SymmetricState} (key plaintext : List ℕ) {ciphertext : List ℕ}
      → s.cipher_key ≡ some key
      → encrypt_and_hash plaintext s ≡ ok (s', ciphertext)
      → (decrypt_and_hash ciphertext s ≡ ok (s', plaintext))
        × (length ciphertext ≡ length plaintext + aead_tag_len)
  unfolding encrypt_and_hash decrypt_and_hash
  decrypt_and_hash-encrypt_and_hash law s key plaintext keyed h =
      elim (Result-cases (aead_encrypt cipher key s.nonce s.hash plaintext)) [
        | inl (e, p) ↦ absurd (ground (arith, p))
        | inr (c, p) ↦
            let (opened, tagged) =
              aead_decrypt-aead_encrypt cipher law key s.nonce s.hash plaintext p in
            (ground (arith, p, opened), ground (arith, p, tagged))
      ]

  pub encrypt_and_hash-cipher_key :
      (s : SymmetricState) {s' : SymmetricState} {key : List ℕ} (plaintext : List ℕ)
      {ciphertext : List ℕ}
      → s.cipher_key ≡ some key
      → encrypt_and_hash plaintext s ≡ ok (s', ciphertext)
      → s'.cipher_key ≡ some key
  unfolding encrypt_and_hash mix_hash
  encrypt_and_hash-cipher_key s {key = key} plaintext keyed h =
      elim (Result-cases (aead_encrypt cipher key s.nonce s.hash plaintext)) [
        | inl (e, p) ↦ absurd (ground (arith, p))
        | inr (c, p) ↦ ground (arith, p)
      ]
