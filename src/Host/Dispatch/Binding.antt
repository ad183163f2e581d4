-- ===== src/Host/Dispatch/Binding.antt =====
-- What a handshake of crates/libp2p-cat-host/src/host.rs learns of the peer from a datagram.
use libp2p_cat_rs.Prelude.{ℕ, ◌≡◌, sym, List, arith, inl, inr}
use libp2p_cat_rs.Types.Error.{ok, Ensures, Ensures-bind}
use libp2p_cat_rs.Types.Addr.{addr_lex}
use libp2p_cat_rs.Types.PeerId.{PeerId}
use libp2p_cat_rs.Noise.Primitives.{StaticPublicKey}
use libp2p_cat_rs.Noise.Symmetric.{encrypt_and_hash, mix_key}
use libp2p_cat_rs.Noise.Primitives.{dh_se}
use libp2p_cat_rs.Noise.Transport.{TransportState}
use libp2p_cat_rs.Noise.Transport.Replay.{Result-cases}
use libp2p_cat_rs.Noise.Handshake.{
  InitiatorAfterE, InitiatorAfterResponse, ResponderAfterResponse, read_response, read_s, write_s,
}
use libp2p_cat_rs.Identity.SignedStaticKey
use libp2p_cat_rs.Identity.SignedStaticKey.{from_bytes, to_bytes}
use libp2p_cat_rs.Identity.SignedStaticKey.Laws.{verify_parts}
use libp2p_cat_rs.Host.State.{
  HandshakeState, initiator_awaiting_response, responder_awaiting_finalize, HostIdentity,
}
use libp2p_cat_rs.Host.Dispatch.{Crypto, verify_binding, initiator_outcome, responder_outcome}

module _ (crypto : Crypto) where
  -- The payload of this datagram, read by a handshake in this state, and the static key of the peer
  -- that the reading establishes.
  abbrev pub IsPayloadOf : HandshakeState → List ℕ → StaticPublicKey → List ℕ → Type 0
  IsPayloadOf (initiator_awaiting_response after_e msg1) datagram remote_static payload =
      (after_resp : InitiatorAfterResponse) × (read_response crypto.cipher crypto.curve
          crypto.blake3 datagram after_e
        ≡ ok (after_resp, payload))
      × (after_resp.remote_static ≡ remote_static)
  IsPayloadOf (responder_awaiting_finalize after_resp) datagram remote_static payload =
      (transport : TransportState) × (read_s crypto.cipher crypto.curve crypto.blake3 datagram
          after_resp
        ≡ ok (transport, remote_static, payload))

  -- This payload binds this static key to this identifier.
  abbrev pub IsBinding : List ℕ → StaticPublicKey → PeerId → Type 0
  IsBinding payload remote_static peer_id =
      (signed : SignedStaticKey.SignedStaticKey) × (from_bytes payload ≡ ok signed)
      × (SignedStaticKey.verify crypto.scheme remote_static signed
          ≡ ok (signed.public_key, peer_id))

  -- The payload that a handshake in this state reads from this datagram does so.
  abbrev pub IsBound : HandshakeState → List ℕ → StaticPublicKey → PeerId → Type 0
  IsBound state datagram remote_static peer_id =
      (payload : List ℕ) × IsPayloadOf state datagram remote_static payload
      × IsBinding payload remote_static peer_id

  verify_binding-IsBinding :
      (payload : List ℕ) (remote_static : StaticPublicKey) {peer_id : PeerId}
      → verify_binding crypto payload remote_static ≡ ok peer_id
      → IsBinding payload remote_static peer_id
  unfolding verify_binding
  verify_binding-IsBinding payload remote_static {peer_id} h =
      elim (Result-cases (from_bytes payload)) [
        | inl (e, p) ↦ absurd (ground (arith, p))
        | inr (signed, p) ↦
            elim (Result-cases (SignedStaticKey.verify crypto.scheme remote_static signed)) [
              | inl (e, q) ↦ absurd (ground (arith, p, q))
              | inr ((key, id), q) ↦
                  let same_id : id ≡ peer_id = ground (arith, p, q) in
                  let same_key = ((verify_parts crypto.scheme remote_static signed key id).0 q).0 in
                  (signed, p, rw (same_key, same_id) at q)
            ]
      ]

  write_s-remote_static :
      (payload : List ℕ) (i : InitiatorAfterResponse) {t : TransportState} {msg seen : List ℕ}
      → write_s crypto.cipher crypto.curve crypto.blake3 payload i ≡ ok (t, msg, seen)
      → seen ≡ i.remote_static
  unfolding write_s
  write_s-remote_static payload i h =
      elim (Result-cases
        (encrypt_and_hash crypto.cipher crypto.blake3 i.static_keypair.public i.sym)) [
          | inl (e, p) ↦ absurd (ground (arith, p))
          | inr ((s1, c1), p) ↦
              elim (Result-cases (
                encrypt_and_hash crypto.cipher crypto.blake3 payload (
                  mix_key crypto.blake3 (dh_se crypto.curve i.static_keypair.private i.remote_eph)
                    s1))) [
                      | inl (e, q) ↦ absurd (ground (arith, p, q))
                      | inr ((s2, c2), q) ↦ ground (arith, p, q)
                    ]
        ]

  pub initiator_outcome-IsBound :
      (identity : HostIdentity) (after_e : InitiatorAfterE) (msg1 datagram : List ℕ)
      → Ensures
          (λ r. IsBound (initiator_awaiting_response after_e msg1) datagram r.2 r.3)
          (initiator_outcome crypto identity after_e datagram)
  unfolding initiator_outcome
  initiator_outcome-IsBound identity after_e msg1 datagram =
      let P : TransportState × List ℕ × StaticPublicKey × PeerId → Type 0 =
        λ r. IsBound (initiator_awaiting_response after_e msg1) datagram r.2 r.3 in
      Ensures-bind P (read_response crypto.cipher crypto.curve crypto.blake3 datagram after_e) _
        λ (after_resp, payload) p.
          Ensures-bind P (verify_binding crypto payload after_resp.remote_static) _ λ peer q.
            Ensures-bind P
              (write_s crypto.cipher crypto.curve crypto.blake3
                (to_bytes identity.signed_static_key) after_resp)
              _
              λ (transport, msg3, seen) r.
                let same = write_s-remote_static _ after_resp r in
                (
                  payload,
                  (after_resp, p, sym same),
                  rw same (verify_binding-IsBinding payload after_resp.remote_static q),
                )

  pub responder_outcome-IsBound :
      (after_resp : ResponderAfterResponse) (datagram : List ℕ)
      → Ensures
          (λ r. IsBound (responder_awaiting_finalize after_resp) datagram r.1 r.2)
          (responder_outcome crypto after_resp datagram)
  unfolding responder_outcome
  responder_outcome-IsBound after_resp datagram =
      let P : TransportState × StaticPublicKey × PeerId → Type 0 =
        λ r. IsBound (responder_awaiting_finalize after_resp) datagram r.1 r.2 in
      Ensures-bind P (read_s crypto.cipher crypto.curve crypto.blake3 datagram after_resp) _
        λ (transport, remote_static, payload) p.
          Ensures-bind P (verify_binding crypto payload remote_static) _
            λ peer q. (payload, (transport, p), verify_binding-IsBinding payload remote_static q)
