-- ===== src/Host/Dispatch/Peers.antt =====
-- Two hosts of crates/libp2p-cat-host/src/host.rs that shake hands: what each learns of the other.
use libp2p_cat_rs.Prelude.{ℕ, ◌^◌, ◌<◌, ◌≡◌, refl, ap, sym, List, [], append-nil, length, arith}
use libp2p_cat_rs.Types.Error.{ok}
use libp2p_cat_rs.Noise.Aead.{IsAead, IsSealing}
use libp2p_cat_rs.Noise.Primitives.{IsX25519, IsKeypair}
use libp2p_cat_rs.Noise.Transport
use libp2p_cat_rs.Noise.Transport.{TransportState}
use libp2p_cat_rs.Noise.Handshake.{
  InitiatorAfterE, InitiatorAfterResponse, ResponderAfterE, ResponderAfterResponse, new_initiator,
  write_e, message_1_len,
}
use libp2p_cat_rs.Noise.Handshake.Agreement.{
  read_e-write_e, read_response-write_response, read_s-write_s,
}
use libp2p_cat_rs.Noise.Handshake.Channel.{write_response_total, write_s_total}
use libp2p_cat_rs.Identity.Keypair
use libp2p_cat_rs.Identity.Keypair.{Ed25519Keypair, IsEd25519, IsIdentity}
use libp2p_cat_rs.Identity.SignedStaticKey
use libp2p_cat_rs.Identity.SignedStaticKey.{to_bytes}
use libp2p_cat_rs.Identity.SignedStaticKey.Laws.{length-to_bytes, verify-create}
use libp2p_cat_rs.Host.State.{HostIdentity}
use libp2p_cat_rs.Host.Dispatch.{
  Crypto, verify_binding, initiator_outcome, responder_outcome, response_to,
}

-- What is documented of the cryptography.
pub record IsCrypto (crypto : Crypto) : Type 0 where
  pub aead : IsAead crypto.cipher
  pub sealing : IsSealing crypto.cipher
  pub dh : IsX25519 crypto.curve
  pub signing : IsEd25519 crypto.scheme

-- An identity as `with_capacity` makes it, of the key pair `k`.
abbrev pub IsHostIdentity : Crypto → Ed25519Keypair → HostIdentity → Type 0
IsHostIdentity crypto k identity =
    IsIdentity crypto.scheme k
    × IsKeypair crypto.curve identity.static_keypair
    × (SignedStaticKey.create crypto.scheme k identity.static_keypair.public
        ≡ ok identity.signed_static_key)
    × (identity.peer_id ≡ Keypair.peer_id k)

module _ (crypto : Crypto) (law : IsCrypto crypto) where
  -- The trailer of a host verifies as the host's identity.
  verify_binding-to_bytes :
      (k : Ed25519Keypair) (identity : HostIdentity)
      → IsHostIdentity crypto k identity
      → verify_binding crypto (to_bytes identity.signed_static_key) identity.static_keypair.public
        ≡ ok identity.peer_id
  unfolding verify_binding
  verify_binding-to_bytes k identity (made, pair, signed, peer) =
      let (read, good) =
        verify-create crypto.scheme law.signing k identity.static_keypair.public [] made signed in
      rw (rw append-nil at read) (rw (good, peer) refl)

  short_trailer : (s : SignedStaticKey.SignedStaticKey) → length (to_bytes s) < 2 ^ 32
  short_trailer s = omega (arith, length-to_bytes s)

  -- With cryptography as documented: between two hosts with identities of their own, the responder
  -- answers the initiator's first message, the initiator accepts the answer and replies, and the
  -- responder accepts the reply. Each has then the other's static key and peer identifier, and
  -- their sessions have matching keys both ways.
  pub outcomes_agree :
      (k_i k_r : Ed25519Keypair) (i r : HostIdentity) (seed_i seed_r : List ℕ)
      → IsHostIdentity crypto k_i i
      → IsHostIdentity crypto k_r r
      → (after_e : InitiatorAfterE) × (msg1 : List ℕ) × (after_resp : ResponderAfterResponse)
        × (msg2 : List ℕ) × (msg3 : List ℕ) × (a : List ℕ) × (b : List ℕ) × (write_e crypto.cipher
              crypto.curve crypto.blake3 seed_i
              (new_initiator i.static_keypair)
            ≡ ok (after_e, msg1))
        × (length msg1 ≡ message_1_len)
        × (response_to crypto r msg1 seed_r ≡ ok (after_resp, msg2))
        × (initiator_outcome crypto i after_e msg2
            ≡ ok (Transport.new a b, msg3, r.static_keypair.public, r.peer_id))
        × (responder_outcome crypto after_resp msg3
            ≡ ok (Transport.new b a, i.static_keypair.public, i.peer_id))
  unfolding response_to initiator_outcome responder_outcome
  outcomes_agree k_i k_r i r seed_i seed_r id_i id_r =
      let trailer_i = to_bytes i.signed_static_key in
      let trailer_r = to_bytes r.signed_static_key in
      let (s, wrote_1, read_1) =
        read_e-write_e crypto.cipher crypto.curve crypto.blake3 law.aead law.dh i.static_keypair
          r.static_keypair seed_i in
      let i1 : InitiatorAfterE = record {
        static_keypair = i.static_keypair;
        eph_private = seed_i;
        sym = s;
      } in
      let r1 : ResponderAfterE = record {
        static_keypair = r.static_keypair;
        remote_eph = crypto.curve.public_key seed_i;
        sym = s;
      } in
      let (r2, msg2, wrote_2) =
        write_response_total crypto.cipher crypto.curve crypto.blake3 law.aead law.sealing law.dh
          seed_r trailer_r r1 id_r.1 (short_trailer r.signed_static_key) in
      let (read_2, eph, keyed) =
        read_response-write_response crypto.cipher crypto.curve crypto.blake3 law.aead law.dh i1 r1
          seed_r trailer_r id_r.1 refl refl wrote_2 in
      let i2 : InitiatorAfterResponse = record {
        static_keypair = i.static_keypair;
        remote_eph = crypto.curve.public_key seed_r;
        remote_static = r.static_keypair.public;
        sym = r2.sym;
      } in
      let (t, msg3, seen, wrote_3) =
        write_s_total crypto.cipher crypto.curve crypto.blake3 law.aead law.sealing law.dh trailer_i
          i2 id_i.1 (short_trailer i.signed_static_key) in
      let (a, b, split_i, read_3, same) =
        read_s-write_s crypto.cipher crypto.curve crypto.blake3 law.aead law.dh i2 r2 trailer_i
          id_i.1 refl keyed (ap crypto.curve.public_key (sym eph)) wrote_3 in
      (
        i1,
        crypto.curve.public_key seed_i,
        r2,
        msg2,
        msg3,
        a,
        b,
        wrote_1,
        law.dh.width seed_i,
        rw read_1 wrote_2,
        rw read_2 (rw (verify_binding-to_bytes k_r r id_r) (rw wrote_3 (rw (split_i, same) refl))),
        rw read_3 (rw (verify_binding-to_bytes k_i i id_i) refl),
      )
