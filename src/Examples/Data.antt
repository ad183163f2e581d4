-- ===== src/Examples/Data.antt =====
-- The data of the examples: identifiers, addresses, a cipher that only appends a tag.
use libp2p_cat_rs.Prelude.{
  ℕ, ◌-◌, ◌≡◌, refl, ap, true, List, [], ◌∷◌, ◌++◌, all, All, ltb, replicate, length, length-append,
  take, take-append, some, arith,
}
use libp2p_cat_rs.Prelude.Bytes.{IsByte}
use libp2p_cat_rs.Types.Addr.{UdpAddr, v4, v6, IsAddr}
use libp2p_cat_rs.Kad.NodeId.{NodeId, IsNodeId}
use libp2p_cat_rs.Noise.Aead.{Chacha20Poly1305, IsAead}

pub bytes_checked : (bs : List ℕ) → all (λ b. ltb b 256) bs ≡ true → All IsByte bs
bytes_checked [] h = tt
bytes_checked (b ∷ bs) h = (ground arith, bytes_checked bs (ground arith))

abbrev pub id : ℕ → NodeId
id n = record { bytes = replicate 31 0 ++ (n ∷ []) }

pub id-IsNodeId : (n : ℕ) → ltb n 256 ≡ true → IsNodeId (id n)
id-IsNodeId n h = (refl, bytes_checked (replicate 31 0 ++ (n ∷ [])) (ground arith))

abbrev pub home : UdpAddr
home = v4 (record { ip = 127 ∷ 0 ∷ 0 ∷ 1 ∷ []; port = 4001 })

abbrev pub away : UdpAddr
away = v6 (record { ip = replicate 15 0 ++ (1 ∷ []); port = 4002; flowinfo = 0; scope_id = 3 })

pub home-IsAddr : IsAddr home
home-IsAddr = (refl, bytes_checked (127 ∷ 0 ∷ 0 ∷ 1 ∷ []) refl, omega arith)

pub away-IsAddr : IsAddr away
away-IsAddr = (refl, bytes_checked (replicate 15 0 ++ (1 ∷ [])) refl, omega arith)

abbrev pub key : List ℕ
key = replicate 32 7

abbrev pub other_key : List ℕ
other_key = replicate 32 9

abbrev pub tag : List ℕ
tag = replicate 16 0

abbrev pub tagging : Chacha20Poly1305
tagging = record {
  encrypt = λ key nonce aad plaintext. some (plaintext ++ tag);
  decrypt = λ key nonce aad ciphertext. some (take (length ciphertext - 16) ciphertext);
}

pub tagging-IsAead : IsAead tagging
tagging-IsAead = record {
  opens = λ key nonce aad plaintext {ciphertext} h.
      let same : ciphertext ≡ plaintext ++ tag = ground arith in
      let short : length (plaintext ++ tag) - 16 ≡ length plaintext =
        omega (arith, length-append plaintext tag) in
      rw (same, short) (ap (λ t. some t) (take-append plaintext tag (length plaintext) refl));
  tagged = λ key nonce aad plaintext {ciphertext} h.
      let same : ciphertext ≡ plaintext ++ tag = ground arith in
      rw same (length-append plaintext tag);
}
