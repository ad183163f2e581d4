-- ===== src/Noise/Handshake.antt =====
-- crates/libp2p-cat-noise/src/handshake.rs: the Noise XX handshake, one record for each of its phases.
pub mod Agreement
pub mod Channel
use libp2p_cat_rs.Prelude.{
  ℕ, ◌+◌, List, [], ◌++◌, ltb, ◌==◌, if◌then◌else◌, length, slice, slice_from, try_array,
}
use libp2p_cat_rs.Types.Error.{noise_protocol, Result, ok, err, ◌>>=◌, ok_or}
use libp2p_cat_rs.Noise.Aead.{key_len, aead_tag_len, Chacha20Poly1305}
use libp2p_cat_rs.Noise.Primitives.{
  X25519, StaticPublicKey, EphemeralPrivateKey, EphemeralPublicKey, StaticKeypair, ephemeral_public,
  dh_ee, dh_es, dh_se,
}
use libp2p_cat_rs.Noise.Symmetric.{
  Blake3, SymmetricState, initialize, mix_hash, mix_key, encrypt_and_hash, decrypt_and_hash, split,
}
use libp2p_cat_rs.Noise.Transport
use libp2p_cat_rs.Noise.Transport.{TransportState}

abbrev pub eph_public_len : ℕ
eph_public_len = key_len

abbrev pub enc_static_len : ℕ
enc_static_len = key_len + aead_tag_len

abbrev pub message_1_len : ℕ
message_1_len = eph_public_len

abbrev pub message_2_overhead_len : ℕ
message_2_overhead_len = eph_public_len + enc_static_len + aead_tag_len

abbrev pub message_3_overhead_len : ℕ
message_3_overhead_len = enc_static_len + aead_tag_len

pub record Initiator : Type 0 where
  pub static_keypair : StaticKeypair
  pub sym : SymmetricState

pub record InitiatorAfterE : Type 0 where
  pub static_keypair : StaticKeypair
  pub eph_private : EphemeralPrivateKey
  pub sym : SymmetricState

pub record InitiatorAfterResponse : Type 0 where
  pub static_keypair : StaticKeypair
  pub remote_eph : EphemeralPublicKey
  pub remote_static : StaticPublicKey
  pub sym : SymmetricState

pub record Responder : Type 0 where
  pub static_keypair : StaticKeypair
  pub sym : SymmetricState

pub record ResponderAfterE : Type 0 where
  pub static_keypair : StaticKeypair
  pub remote_eph : EphemeralPublicKey
  pub sym : SymmetricState

pub record ResponderAfterResponse : Type 0 where
  pub eph_private : EphemeralPrivateKey
  pub sym : SymmetricState

unfoldable pub new_initiator : StaticKeypair → Initiator
new_initiator static_keypair = record { static_keypair = static_keypair; sym = initialize }

unfoldable pub new_responder : StaticKeypair → Responder
new_responder static_keypair = record { static_keypair = static_keypair; sym = initialize }

abbrev pub parse_32 : List ℕ → Result (List ℕ)
parse_32 bytes = ok_or noise_protocol (try_array key_len bytes)

module _ (cipher : Chacha20Poly1305) (curve : X25519) (blake3 : Blake3) where
  unfoldable pub write_e : List ℕ → Initiator → Result (InitiatorAfterE × List ℕ)
  write_e ephemeral_seed i = do
    let eph_public = ephemeral_public curve ephemeral_seed
    (sym, trailing) ← encrypt_and_hash cipher blake3 [] (mix_hash blake3 eph_public i.sym)
    ok (
      record { static_keypair = i.static_keypair; eph_private = ephemeral_seed; sym = sym },
      eph_public ++ trailing,
    )

  unfoldable pub read_response : List ℕ → InitiatorAfterE → Result (InitiatorAfterResponse × List ℕ)
  read_response msg i = if ltb (length msg) message_2_overhead_len then err noise_protocol else (do
    e_slice ← ok_or noise_protocol (slice 0 eph_public_len msg)
    enc_static ← ok_or noise_protocol (slice eph_public_len (eph_public_len + enc_static_len) msg)
    enc_payload ← ok_or noise_protocol (slice_from (eph_public_len + enc_static_len) msg)
    remote_eph ← parse_32 e_slice
    let hashed = mix_hash blake3 remote_eph i.sym
    let keyed = mix_key blake3 (dh_ee curve i.eph_private remote_eph) hashed
    (opened, static_plain) ← decrypt_and_hash cipher blake3 enc_static keyed
    remote_static ← parse_32 static_plain
    let rekeyed = mix_key blake3 (dh_es curve i.eph_private remote_static) opened
    (sym, payload) ← decrypt_and_hash cipher blake3 enc_payload rekeyed
    ok (
      record {
        static_keypair = i.static_keypair;
        remote_eph = remote_eph;
        remote_static = remote_static;
        sym = sym;
      },
      payload,
    ))

  unfoldable pub write_s :
      List ℕ → InitiatorAfterResponse → Result (TransportState × List ℕ × StaticPublicKey)
  write_s payload i = do
    (sealed, enc_static) ← encrypt_and_hash cipher blake3 i.static_keypair.public i.sym
    let keyed = mix_key blake3 (dh_se curve i.static_keypair.private i.remote_eph) sealed
    (sym, enc_payload) ← encrypt_and_hash cipher blake3 payload keyed
    let (initiator_to_responder, responder_to_initiator) = split blake3 sym
    ok (
      Transport.new initiator_to_responder responder_to_initiator,
      enc_static ++ enc_payload,
      i.remote_static,
    )

  unfoldable pub read_e : List ℕ → Responder → Result ResponderAfterE
  read_e msg r =
      if length msg == message_1_len
      then (do
        e_slice ← ok_or noise_protocol (slice 0 eph_public_len msg)
        remote_eph ← parse_32 e_slice
        (sym, _empty) ← decrypt_and_hash cipher blake3 [] (mix_hash blake3 remote_eph r.sym)
        ok (record { static_keypair = r.static_keypair; remote_eph = remote_eph; sym = sym }))
      else err noise_protocol

  unfoldable pub write_response :
      List ℕ → List ℕ → ResponderAfterE → Result (ResponderAfterResponse × List ℕ)
  write_response ephemeral_seed payload r = do
    let eph_public = ephemeral_public curve ephemeral_seed
    let hashed = mix_hash blake3 eph_public r.sym
    let keyed = mix_key blake3 (dh_ee curve ephemeral_seed r.remote_eph) hashed
    (sealed, enc_static) ← encrypt_and_hash cipher blake3 r.static_keypair.public keyed
    let rekeyed = mix_key blake3 (dh_se curve r.static_keypair.private r.remote_eph) sealed
    (sym, enc_payload) ← encrypt_and_hash cipher blake3 payload rekeyed
    ok (
      record { eph_private = ephemeral_seed; sym = sym },
      eph_public ++ (enc_static ++ enc_payload),
    )

  unfoldable pub read_s :
      List ℕ → ResponderAfterResponse → Result (TransportState × StaticPublicKey × List ℕ)
  read_s msg r = if ltb (length msg) message_3_overhead_len then err noise_protocol else (do
    enc_static ← ok_or noise_protocol (slice 0 enc_static_len msg)
    enc_payload ← ok_or noise_protocol (slice_from enc_static_len msg)
    (opened, static_plain) ← decrypt_and_hash cipher blake3 enc_static r.sym
    remote_static ← parse_32 static_plain
    let keyed = mix_key blake3 (dh_es curve r.eph_private remote_static) opened
    (sym, payload) ← decrypt_and_hash cipher blake3 enc_payload keyed
    let (initiator_to_responder, responder_to_initiator) = split blake3 sym
    ok (Transport.new responder_to_initiator initiator_to_responder, remote_static, payload))
