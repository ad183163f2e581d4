-- ===== src/Noise/Aead.antt =====
-- crates/libp2p-cat-noise/src/symmetric.rs, the AEAD helpers. ChaCha20-Poly1305 itself is a parameter.
use libp2p_cat_rs.Prelude.{
  ℕ, zero, suc, ◌+◌, ◌-◌, ◌/◌, ◌%◌, ◌^◌, ◌<◌, ◌≡◌, List, [], ◌∷◌, Option, some, length, leb,
  if◌then◌else◌, get_or, from_fn, arith, refl,
}
use libp2p_cat_rs.Types.Error.{Result, ok, ok_or, noise_decrypt}

abbrev pub key_len : ℕ
key_len = 32

abbrev pub aead_tag_len : ℕ
aead_tag_len = 16

-- The cipher: key, 12-byte nonce, associated data, message.
pub record Chacha20Poly1305 : Type 0 where
  pub encrypt : List ℕ → List ℕ → List ℕ → List ℕ → Option (List ℕ)
  pub decrypt : List ℕ → List ℕ → List ℕ → List ℕ → Option (List ℕ)

-- What is documented of it: it opens what it has sealed, and a sealed message is longer by the tag.
pub record IsAead (cipher : Chacha20Poly1305) : Type 0 where
  pub opens :
      (key nonce aad plaintext : List ℕ) {ciphertext : List ℕ}
      → cipher.encrypt key nonce aad plaintext ≡ some ciphertext
      → cipher.decrypt key nonce aad ciphertext ≡ some plaintext
  pub tagged :
      (key nonce aad plaintext : List ℕ) {ciphertext : List ℕ}
      → cipher.encrypt key nonce aad plaintext ≡ some ciphertext
      → length ciphertext ≡ length plaintext + aead_tag_len

-- It seals every message below 2 ^ 32 bytes, and more than that.
abbrev pub IsSealing : Chacha20Poly1305 → Type 0
IsSealing cipher =
    (key nonce aad plaintext : List ℕ)
    → length plaintext < 2 ^ 32
    → (ciphertext : List ℕ) × (cipher.encrypt key nonce aad plaintext ≡ some ciphertext)

unfoldable pub to_le_bytes : ℕ → ℕ → List ℕ
to_le_bytes zero x = []
to_le_bytes (suc n) x = x % 256 ∷ to_le_bytes n (x / 256)

unfoldable pub chacha_nonce : ℕ → List ℕ
chacha_nonce counter =
    let counter_bytes = to_le_bytes 8 counter in
    from_fn 12 (λ i. if leb i 3 then 0 else get_or counter_bytes (i - 4) 0)

module _ (cipher : Chacha20Poly1305) where
  unfoldable pub aead_encrypt : List ℕ → ℕ → List ℕ → List ℕ → Result (List ℕ)
  aead_encrypt key nonce aad plaintext =
      ok_or noise_decrypt (cipher.encrypt key (chacha_nonce nonce) aad plaintext)

  unfoldable pub aead_decrypt : List ℕ → ℕ → List ℕ → List ℕ → Result (List ℕ)
  aead_decrypt key nonce aad ciphertext =
      ok_or noise_decrypt (cipher.decrypt key (chacha_nonce nonce) aad ciphertext)

  pub aead_decrypt-aead_encrypt :
      IsAead cipher
      → (key : List ℕ) (nonce : ℕ) (aad plaintext : List ℕ) {ciphertext : List ℕ}
      → aead_encrypt key nonce aad plaintext ≡ ok ciphertext
      → (aead_decrypt key nonce aad ciphertext ≡ ok plaintext)
        × (length ciphertext ≡ length plaintext + aead_tag_len)
  unfolding aead_encrypt aead_decrypt
  aead_decrypt-aead_encrypt law key nonce aad plaintext h =
      let e : cipher.encrypt key (chacha_nonce nonce) aad plaintext ≡ some _ = ground arith in
      (
        rw (law.opens key (chacha_nonce nonce) aad plaintext e) refl,
        law.tagged key (chacha_nonce nonce) aad plaintext e,
      )
