-- ===== src/Noise/Handshake/Agreement.antt =====
-- The two sides of the handshake of crates/libp2p-cat-noise/src/handshake.rs, message by message.
use libp2p_cat_rs.Prelude.{
  ℕ, ◌+◌, ◌≡◌, refl, ap, sym, ◌∙◌, false, List, [], ◌++◌, arith, length, length-append, ltb, slice,
  slice_from, some, slice-append, slice_from-append, try_array-of_length, append-nil, inl, inr,
  append_assoc,
}
use libp2p_cat_rs.Types.Error.{ok}
use libp2p_cat_rs.Noise.Aead.{key_len, aead_tag_len, Chacha20Poly1305, IsAead}
use libp2p_cat_rs.Noise.Primitives.{X25519, IsX25519, StaticKeypair, IsKeypair, dh_ee, dh_se}
use libp2p_cat_rs.Noise.Symmetric.{
  Blake3, SymmetricState, initialize, mix_hash, mix_key, encrypt_and_hash, decrypt_and_hash, split,
  decrypt_and_hash-encrypt_and_hash, encrypt_and_hash-cipher_key,
}
use libp2p_cat_rs.Noise.Transport
use libp2p_cat_rs.Noise.Transport.{TransportState}
use libp2p_cat_rs.Noise.Transport.Replay.{Result-cases}
use libp2p_cat_rs.Noise.Handshake.{
  InitiatorAfterE, InitiatorAfterResponse, ResponderAfterE, ResponderAfterResponse, new_initiator,
  new_responder, write_e, read_e, write_response, read_response, write_s, read_s,
  message_2_overhead_len, message_3_overhead_len,
}

-- A state that has a cipher key.
abbrev pub IsKeyed : SymmetricState → Type 0
IsKeyed s = (key : List ℕ) × (s.cipher_key ≡ some key)

slice_all : (xs : List ℕ) (n : ℕ) → length xs ≡ n → slice 0 n xs ≡ some xs
slice_all xs n h = rw append-nil at (slice-append [] xs [] 0 n refl (omega arith))

slice_from-append_two :
    (xs ys zs : List ℕ) (n : ℕ)
    → length xs + length ys ≡ n
    → slice_from n (xs ++ (ys ++ zs)) ≡ some zs
slice_from-append_two xs ys zs n h =
    rw append_assoc at (slice_from-append (xs ++ ys) zs n (omega (arith, length-append xs ys)))

module _ (cipher : Chacha20Poly1305) (curve : X25519) (blake3 : Blake3) (aead : IsAead cipher)
    (dh : IsX25519 curve) where
  -- What is sealed in a keyed state is opened in it, and the state behind it is keyed.
  opens :
      (s : SymmetricState) {s' : SymmetricState} (plaintext : List ℕ) {ciphertext : List ℕ}
      → IsKeyed s
      → encrypt_and_hash cipher blake3 plaintext s ≡ ok (s', ciphertext)
      → (decrypt_and_hash cipher blake3 ciphertext s ≡ ok (s', plaintext))
        × (length ciphertext ≡ length plaintext + aead_tag_len)
        × IsKeyed s'
  opens s {s'} plaintext (key, keyed) h =
      let (read, tagged) =
        decrypt_and_hash-encrypt_and_hash cipher blake3 aead s key plaintext keyed h in
      (read, tagged, (key, encrypt_and_hash-cipher_key cipher blake3 s plaintext keyed h))

  mix_key-IsKeyed : (input : List ℕ) (s : SymmetricState) → IsKeyed (mix_key blake3 input s)
  unfolding mix_key
  mix_key-IsKeyed input s = (_, refl)

  -- The first message carries the ephemeral key, and leaves both sides in one state.
  pub read_e-write_e :
      (i r : StaticKeypair) (seed : List ℕ)
      → (s : SymmetricState) × (write_e cipher curve blake3 seed (new_initiator i)
          ≡ ok (record { static_keypair = i; eph_private = seed; sym = s }, curve.public_key seed))
        × (read_e cipher curve blake3 (curve.public_key seed) (new_responder r)
            ≡ ok (record { static_keypair = r; remote_eph = curve.public_key seed; sym = s }))
  unfolding write_e read_e new_initiator new_responder initialize encrypt_and_hash decrypt_and_hash
      mix_hash
  read_e-write_e i r seed =
      let public = curve.public_key seed in
      let width = dh.width seed in
      (
        mix_hash blake3 [] (mix_hash blake3 public initialize),
        rw (append-nil public) refl,
        rw (width, slice_all public key_len width, try_array-of_length key_len public width) refl,
      )

  -- The second message, read where the first one was written.
  pub read_response-write_response :
      (i : InitiatorAfterE) (r : ResponderAfterE) (seed payload : List ℕ)
      {r' : ResponderAfterResponse} {msg : List ℕ}
      → IsKeypair curve r.static_keypair
      → i.sym ≡ r.sym
      → r.remote_eph ≡ curve.public_key i.eph_private
      → write_response cipher curve blake3 seed payload r ≡ ok (r', msg)
      → (read_response cipher curve blake3 msg i
          ≡ ok (
            record {
              static_keypair = i.static_keypair;
              remote_eph = curve.public_key seed;
              remote_static = r.static_keypair.public;
              sym = r'.sym;
            },
            payload,
          ))
        × (r'.eph_private ≡ seed)
        × IsKeyed r'.sym
  unfolding write_response read_response
  read_response-write_response i r seed payload {r'} {msg} pair same eph h =
      let public = curve.public_key seed in
      let keyed = mix_key blake3 (dh_ee curve seed r.remote_eph) (mix_hash blake3 public r.sym) in
      elim (Result-cases (encrypt_and_hash cipher blake3 r.static_keypair.public keyed)) [
        | inl (e, p) ↦ absurd (ground (arith, p))
        | inr ((s1, c1), p) ↦
            elim (Result-cases (
              encrypt_and_hash cipher blake3 payload
                (mix_key blake3 (dh_se curve r.static_keypair.private r.remote_eph) s1))) [
                  | inl (e, q) ↦ absurd (ground (arith, p, q))
                  | inr ((s2, c2), q) ↦
                      let (open1, tag1, keyed1) =
                        opens keyed r.static_keypair.public (mix_key-IsKeyed _ _) p in
                      let (open2, tag2, keyed2) = opens _ payload (mix_key-IsKeyed _ s1) q in
                      let static_width : length r.static_keypair.public ≡ key_len =
                        rw pair (dh.width _) in
                      let wire : msg ≡ public ++ (c1 ++ c2) = ground (arith, p, q) in
                      let next : r' ≡ record { eph_private = seed; sym = s2 } =
                        ground (arith, p, q) in
                      let ee : curve.diffie_hellman i.eph_private public
                          ≡ curve.diffie_hellman seed r.remote_eph =
                        dh.agrees i.eph_private seed ∙ ap (curve.diffie_hellman seed) (sym eph) in
                      let es : curve.diffie_hellman i.eph_private r.static_keypair.public
                          ≡ curve.diffie_hellman r.static_keypair.private r.remote_eph =
                        ap (curve.diffie_hellman i.eph_private) pair
                        ∙ dh.agrees i.eph_private r.static_keypair.private
                        ∙ ap (curve.diffie_hellman r.static_keypair.private) (sym eph) in
                      let width = dh.width seed in
                      let long_enough : ltb (length (public ++ (c1 ++ c2))) message_2_overhead_len
                          ≡ false =
                        ground (
                          arith,
                          length-append public (c1 ++ c2),
                          length-append c1 c2,
                          width,
                          tag1,
                          tag2,
                          static_width,
                        ) in
                      (
                        rw (wire, next)
                            (rw
                              (
                                read_response,
                                long_enough,
                                slice-append [] public (c1 ++ c2) 0 32 refl (omega (arith, width)),
                                slice-append public c1 c2 32 80 width
                                    (omega (arith, tag1, static_width)),
                                slice_from-append_two public c1 c2 80
                                    (omega (arith, width, tag1, static_width)),
                                try_array-of_length 32 public width,
                              )
                              (rw
                                (same, ee, open1, try_array-of_length 32 _ static_width, es, open2)
                                refl)),
                        ap (λ (t : ResponderAfterResponse). t.eph_private) next,
                        rw next keyed2,
                      )
                ]
      ]

  -- The third message, read where the second one was written, splits into matching sessions.
  pub read_s-write_s :
      (i : InitiatorAfterResponse) (r : ResponderAfterResponse) (payload : List ℕ)
      {transport : TransportState} {msg seen : List ℕ}
      → IsKeypair curve i.static_keypair
      → i.sym ≡ r.sym
      → IsKeyed r.sym
      → i.remote_eph ≡ curve.public_key r.eph_private
      → write_s cipher curve blake3 payload i ≡ ok (transport, msg, seen)
      → (a : List ℕ) × (b : List ℕ) × (transport ≡ Transport.new a b)
        × (read_s cipher curve blake3 msg r
            ≡ ok (Transport.new b a, i.static_keypair.public, payload))
        × (seen ≡ i.remote_static)
  unfolding write_s read_s
  read_s-write_s i r payload {transport} {msg} {seen} pair same keyed eph h =
      elim (Result-cases (encrypt_and_hash cipher blake3 i.static_keypair.public i.sym)) [
        | inl (e, p) ↦ absurd (ground (arith, p))
        | inr ((s1, c1), p) ↦
            elim (Result-cases (
              encrypt_and_hash cipher blake3 payload
                (mix_key blake3 (dh_se curve i.static_keypair.private i.remote_eph) s1))) [
                  | inl (e, q) ↦ absurd (ground (arith, p, q))
                  | inr ((s2, c2), q) ↦
                      let (open1, tag1, keyed1) =
                        opens r.sym i.static_keypair.public keyed (rw same at p) in
                      let (open2, tag2, keyed2) = opens _ payload (mix_key-IsKeyed _ s1) q in
                      let static_width : length i.static_keypair.public ≡ 32 =
                        rw pair (dh.width _) in
                      let wire : msg ≡ c1 ++ c2 = ground (arith, p, q) in
                      let se : curve.diffie_hellman r.eph_private i.static_keypair.public
                          ≡ curve.diffie_hellman i.static_keypair.private i.remote_eph =
                        ap (curve.diffie_hellman r.eph_private) pair
                        ∙ dh.agrees r.eph_private i.static_keypair.private
                        ∙ ap (curve.diffie_hellman i.static_keypair.private) (sym eph) in
                      let long_enough : ltb (length (c1 ++ c2)) message_3_overhead_len ≡ false =
                        ground (arith, length-append c1 c2, tag1, tag2, static_width) in
                      (
                        (split blake3 s2).0,
                        (split blake3 s2).1,
                        ground (arith, p, q),
                        rw wire (
                            rw
                              (
                                long_enough,
                                slice-append [] c1 c2 0 48 refl (omega (arith, tag1, static_width)),
                                slice_from-append c1 c2 48 (omega (arith, tag1, static_width)),
                              )
                              (rw (open1, try_array-of_length 32 _ static_width, se, open2) refl)),
                        ground (arith, p, q),
                      )
                ]
      ]
