-- ===== src/Noise/Handshake/Channel.antt =====
-- Two honest sides of crates/libp2p-cat-noise/src/handshake.rs, from the key pairs to the sessions.
use libp2p_cat_rs.Prelude.{
  ℕ, ◌^◌, ◌<◌, ◌≡◌, refl, ap, sym, List, map, arith, length, Option-cases, inl, inr,
}
use libp2p_cat_rs.Types.Error.{Result, ok, ◌>>=◌}
use libp2p_cat_rs.Noise.Aead.{Chacha20Poly1305, IsAead, IsSealing, aead_encrypt, chacha_nonce}
use libp2p_cat_rs.Noise.Primitives.{
  X25519, IsX25519, StaticKeypair, IsKeypair, StaticPublicKey, dh_ee, dh_se,
}
use libp2p_cat_rs.Noise.Symmetric.{Blake3, SymmetricState, mix_hash, mix_key, encrypt_and_hash}
use libp2p_cat_rs.Noise.Transport
use libp2p_cat_rs.Noise.Transport.{TransportState}
use libp2p_cat_rs.Noise.Transport.Replay.{Result-cases}
use libp2p_cat_rs.Noise.Transport.Session.{encrypt_all, read_all, session-delivers}
use libp2p_cat_rs.Noise.Handshake.{
  InitiatorAfterE, InitiatorAfterResponse, ResponderAfterE, ResponderAfterResponse, new_initiator,
  new_responder, write_e, read_e, write_response, read_response, write_s, read_s,
}
use libp2p_cat_rs.Noise.Handshake.Agreement.{
  read_e-write_e, read_response-write_response, read_s-write_s,
}

-- What the two sides hold at the end.
pub record Completed : Type 0 where
  pub initiator : TransportState
  pub responder : TransportState
  pub seen_by_initiator : StaticPublicKey
  pub seen_by_responder : StaticPublicKey
  pub payload_2 : List ℕ
  pub payload_3 : List ℕ

module _ (cipher : Chacha20Poly1305) (curve : X25519) (blake3 : Blake3) where
  -- The three messages, each read by the other side.
  unfoldable pub exchange :
      StaticKeypair → StaticKeypair → List ℕ → List ℕ → List ℕ → List ℕ → Result Completed
  exchange i r seed_i seed_r payload_2 payload_3 = do
    (i1, msg1) ← write_e cipher curve blake3 seed_i (new_initiator i)
    r1 ← read_e cipher curve blake3 msg1 (new_responder r)
    (r2, msg2) ← write_response cipher curve blake3 seed_r payload_2 r1
    (i2, read_2) ← read_response cipher curve blake3 msg2 i1
    (initiator, msg3, seen_by_initiator) ← write_s cipher curve blake3 payload_3 i2
    (responder, seen_by_responder, read_3) ← read_s cipher curve blake3 msg3 r2
    ok (record {
      initiator = initiator;
      responder = responder;
      seen_by_initiator = seen_by_initiator;
      seen_by_responder = seen_by_responder;
      payload_2 = read_2;
      payload_3 = read_3;
    })

module _ (cipher : Chacha20Poly1305) (curve : X25519) (blake3 : Blake3) (aead : IsAead cipher)
    (sealing : IsSealing cipher) (dh : IsX25519 curve) where
  encrypt_and_hash_total :
      (plaintext : List ℕ) (s : SymmetricState)
      → length plaintext < 2 ^ 32
      → (s' : SymmetricState) × (c : List ℕ) × (encrypt_and_hash cipher blake3 plaintext s
          ≡ ok (s', c))
  unfolding encrypt_and_hash aead_encrypt
  encrypt_and_hash_total plaintext s short =
      elim (Result-cases (encrypt_and_hash cipher blake3 plaintext s)) [
        | inr ((s', c), h) ↦ (s', c, h)
        | inl (e, h) ↦ absurd (elim (Option-cases s.cipher_key) [
          | inl unkeyed ↦ ground (arith, unkeyed)
          | inr (key, keyed) ↦
              let (c, sealed) = sealing key (chacha_nonce s.nonce) s.hash plaintext short in
              ground (arith, keyed, sealed)
        ])
      ]

  pub write_response_total :
      (seed payload : List ℕ) (r : ResponderAfterE)
      → IsKeypair curve r.static_keypair
      → length payload < 2 ^ 32
      → (r' : ResponderAfterResponse) × (msg : List ℕ) × (write_response cipher curve blake3 seed
            payload r
          ≡ ok (r', msg))
  unfolding write_response
  write_response_total seed payload r pair short =
      let width : length r.static_keypair.public ≡ 32 = rw pair (dh.width _) in
      let (s1, c1, p) =
        encrypt_and_hash_total r.static_keypair.public
          (mix_key blake3 (dh_ee curve seed r.remote_eph)
            (mix_hash blake3 (curve.public_key seed) r.sym))
          (omega (arith, width)) in
      let (s2, c2, q) =
        encrypt_and_hash_total payload
          (mix_key blake3 (dh_se curve r.static_keypair.private r.remote_eph) s1) short in
      elim (Result-cases (write_response cipher curve blake3 seed payload r)) [
        | inr ((r', msg), h) ↦ (r', msg, h)
        | inl (e, h) ↦ absurd (ground (arith, p, q))
      ]

  pub write_s_total :
      (payload : List ℕ) (i : InitiatorAfterResponse)
      → IsKeypair curve i.static_keypair
      → length payload < 2 ^ 32
      → (t : TransportState) × (msg : List ℕ) × (seen : List ℕ) × (write_s cipher curve blake3
            payload i
          ≡ ok (t, msg, seen))
  unfolding write_s
  write_s_total payload i pair short =
      let width : length i.static_keypair.public ≡ 32 = rw pair (dh.width _) in
      let (s1, c1, p) =
        encrypt_and_hash_total i.static_keypair.public i.sym (omega (arith, width)) in
      let (s2, c2, q) =
        encrypt_and_hash_total payload
          (mix_key blake3 (dh_se curve i.static_keypair.private i.remote_eph) s1) short in
      elim (Result-cases (write_s cipher curve blake3 payload i)) [
        | inr ((t, msg, seen), h) ↦ (t, msg, seen, h)
        | inl (e, h) ↦ absurd (ground (arith, p, q))
      ]

  -- Given a cipher that opens what it sealed and seals whatever is below 2 ^ 32 bytes, and a curve
  -- on which both sides compute one secret: two key pairs complete the handshake with any seeds and
  -- payloads below 2 ^ 32 bytes. Each side has the other's static key and payload, and the key that
  -- one side sends with is the key that the other receives with, both ways.
  pub exchange_lem :
      (i r : StaticKeypair) (seed_i seed_r payload_2 payload_3 : List ℕ)
      → IsKeypair curve i
      → IsKeypair curve r
      → length payload_2 < 2 ^ 32
      → length payload_3 < 2 ^ 32
      → (a : List ℕ) × (b : List ℕ) × (exchange cipher curve blake3 i r seed_i seed_r payload_2
            payload_3
          ≡ ok (record {
            initiator = Transport.new a b;
            responder = Transport.new b a;
            seen_by_initiator = r.public;
            seen_by_responder = i.public;
            payload_2 = payload_2;
            payload_3 = payload_3;
          }))
  unfolding exchange
  exchange_lem i r seed_i seed_r payload_2 payload_3 pair_i pair_r short_2 short_3 =
      let (s, wrote_1, read_1) = read_e-write_e cipher curve blake3 aead dh i r seed_i in
      let i1 : InitiatorAfterE = record { static_keypair = i; eph_private = seed_i; sym = s } in
      let r1 : ResponderAfterE = record {
        static_keypair = r;
        remote_eph = curve.public_key seed_i;
        sym = s;
      } in
      let (r2, msg2, wrote_2) = write_response_total seed_r payload_2 r1 pair_r short_2 in
      let (read_2, eph, keyed) =
        read_response-write_response cipher curve blake3 aead dh i1 r1 seed_r payload_2 pair_r refl
          refl wrote_2 in
      let i2 : InitiatorAfterResponse = record {
        static_keypair = i;
        remote_eph = curve.public_key seed_r;
        remote_static = r.public;
        sym = r2.sym;
      } in
      let (t, msg3, seen, wrote_3) = write_s_total payload_3 i2 pair_i short_3 in
      let (a, b, split_i, read_3, same) =
        read_s-write_s cipher curve blake3 aead dh i2 r2 payload_3 pair_i refl keyed
          (ap curve.public_key (sym eph)) wrote_3 in
      (
        a,
        b,
        rw wrote_1
            (rw read_1 (rw wrote_2 (rw read_2 (rw wrote_3 (rw (read_3, split_i, same) refl))))),
      )

  -- Under the same conditions the two sessions that a handshake leaves carry plaintexts both ways:
  -- what one side encrypts, the other reads, in the order sent.
  pub exchange-delivers :
      (i r : StaticKeypair) (seed_i seed_r payload_2 payload_3 : List ℕ) (ps qs : List (List ℕ))
      {done : Completed} {sent answered : List (List ℕ)}
      → IsKeypair curve i
      → IsKeypair curve r
      → length payload_2 < 2 ^ 32
      → length payload_3 < 2 ^ 32
      → exchange cipher curve blake3 i r seed_i seed_r payload_2 payload_3 ≡ ok done
      → encrypt_all cipher ps done.initiator ≡ ok sent
      → encrypt_all cipher qs done.responder ≡ ok answered
      → (read_all cipher sent done.responder ≡ map ok ps)
        × (read_all cipher answered done.initiator ≡ map ok qs)
  exchange-delivers i r seed_i seed_r payload_2 payload_3 ps qs {done} {sent} {answered} pair_i
        pair_r short_2 short_3 h out back =
      let (a, b, ran) =
        exchange_lem i r seed_i seed_r payload_2 payload_3 pair_i pair_r short_2 short_3 in
      let left : done.initiator ≡ Transport.new a b = ground (arith, h, ran) in
      let right : done.responder ≡ Transport.new b a = ground (arith, h, ran) in
      (
        rw right (session-delivers cipher aead a b b ps (rw left at out)),
        rw left (session-delivers cipher aead b a a qs (rw right at back)),
      )
