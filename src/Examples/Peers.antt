-- ===== src/Examples/Peers.antt =====
-- Two peers that shake hands, and hosts that read datagrams.
use libp2p_cat_rs.Prelude.{
  ℕ, ◌≡◌, ◌↔◌, ◌∙◌, refl, true, none, some, List, [], ◌∷◌, ◌++◌, length, replicate, inl, arith,
  slice, slice_to, slice_from, try_array,
}
use libp2p_cat_rs.Prelude.Bytes.{to_be_bytes}
use libp2p_cat_rs.Prelude.Words.{wrapping_suc, test_bit}
use libp2p_cat_rs.Prelude.Lex.{lex}
use libp2p_cat_rs.Prelude.BTreeMap
use libp2p_cat_rs.Prelude.BTreeMap.{BTreeMap}
use libp2p_cat_rs.Types.Error.{ok}
use libp2p_cat_rs.Types.Addr.{addr_lex}
use libp2p_cat_rs.Noise.Aead.{aead_encrypt, aead_decrypt}
use libp2p_cat_rs.Noise.Transport
use libp2p_cat_rs.Noise.Transport.Window.{is_covered}
use libp2p_cat_rs.Noise.Transport.Replay.{refuses}
use libp2p_cat_rs.Noise.Symmetric
use libp2p_cat_rs.Noise.Handshake.{
  InitiatorAfterE, ResponderAfterResponse, write_e, new_initiator, read_s, message_1_len,
}
use libp2p_cat_rs.Noise.Handshake.Channel.{exchange, exchange_lem}
use libp2p_cat_rs.Identity.Keypair
use libp2p_cat_rs.Identity.SignedStaticKey
use libp2p_cat_rs.Identity.Keypair.{domain_tag, peer_id, peer_id_of_key}
use libp2p_cat_rs.Identity.SignedStaticKey.{from_bytes, to_bytes, verify}
use libp2p_cat_rs.Identity.SignedStaticKey.Laws.{verify-eq-ok, verify-create}
use libp2p_cat_rs.Host.Table
use libp2p_cat_rs.Host.State.{
  Host, EstablishedConnection, responder_awaiting_finalize, handshake_complete, rejected,
  datagram_delivered,
}
use libp2p_cat_rs.Host.Dispatch.{
  response_to, initiator_outcome, responder_outcome, dispatch_inbound, prepare_send, with_capacity,
  try_responder_msg1, recv_one, advance_in_flight, advance_entry, responder_consume_msg3,
  verify_binding, store_established,
}
use libp2p_cat_rs.Host.Dispatch.Invariant.{IsHost}
use libp2p_cat_rs.Host.Dispatch.Reach.{here, next, received, with_capacity-Reach-IsHost}
use libp2p_cat_rs.Host.Dispatch.Unchanged.{
  SameTables, IsGuarded, dispatch_inbound_unknown, rejected-SameTables, dispatch_inbound-IsGuarded,
}
use libp2p_cat_rs.Host.Dispatch.Events.{
  HasRead, dispatch_inbound-prepare_send, handshake_complete-IsAuthentic,
}
use libp2p_cat_rs.Host.Dispatch.Complete.{IsAuthentic}
use libp2p_cat_rs.Host.Dispatch.Peers.{outcomes_agree}
use libp2p_cat_rs.Udp
use libp2p_cat_rs.Examples.Data.{home, away, key, other_key, tag, tagging, tagging-IsAead}
use libp2p_cat_rs.Examples.Crypto.{
  crypto, tagging-IsSealing, curve-IsX25519, scheme-IsEd25519, crypto-IsCrypto, keypair, signer,
  binding, binding_created, identity, identity-IsHostIdentity, os, connection, caps, idle, sender,
  receiver,
}

exchange_lem_example :
    (a : List ℕ) × (b : List ℕ) × (exchange tagging crypto.curve crypto.blake3 keypair keypair key
        other_key []
        (1 ∷ [])
      ≡ ok (record {
        initiator = Transport.new a b;
        responder = Transport.new b a;
        seen_by_initiator = keypair.public;
        seen_by_responder = keypair.public;
        payload_2 = [];
        payload_3 = 1 ∷ [];
      }))
exchange_lem_example =
    exchange_lem tagging crypto.curve crypto.blake3 tagging-IsAead tagging-IsSealing curve-IsX25519
      keypair keypair key other_key [] (1 ∷ []) refl refl (omega arith) (omega arith)

verify-eq-ok_example :
    (verify crypto.scheme keypair.public binding ≡ ok (binding.public_key, peer_id signer)) ↔ (
      (binding.public_key ≡ binding.public_key)
      × (peer_id signer ≡ peer_id_of_key binding.public_key)
      × (crypto.scheme.is_point binding.public_key ≡ true)
      × (crypto.scheme.verify_strict binding.public_key
            (domain_tag ++ keypair.public)
            binding.signature
          ≡ true))
verify-eq-ok_example =
    verify-eq-ok crypto.scheme keypair.public binding binding.public_key (peer_id signer) refl

verify-create_example :
    (from_bytes (to_bytes binding ++ (1 ∷ [])) ≡ ok binding)
    × (verify crypto.scheme keypair.public binding ≡ ok (signer.public_key, peer_id signer))
verify-create_example =
    verify-create crypto.scheme scheme-IsEd25519 signer keypair.public (1 ∷ []) refl binding_created

outcomes_agree_example :
    (after_e : InitiatorAfterE) × (msg1 : List ℕ) × (after_resp : ResponderAfterResponse)
    × (msg2 : List ℕ) × (msg3 : List ℕ) × (a : List ℕ) × (b : List ℕ) × (write_e tagging
          crypto.curve crypto.blake3 key
          (new_initiator keypair)
        ≡ ok (after_e, msg1))
    × (length msg1 ≡ message_1_len)
    × (response_to crypto identity msg1 other_key ≡ ok (after_resp, msg2))
    × (initiator_outcome crypto identity after_e msg2
        ≡ ok (Transport.new a b, msg3, keypair.public, peer_id signer))
    × (responder_outcome crypto after_resp msg3
        ≡ ok (Transport.new b a, keypair.public, peer_id signer))
outcomes_agree_example =
    outcomes_agree crypto crypto-IsCrypto signer signer identity identity key other_key
      identity-IsHostIdentity identity-IsHostIdentity

-- One byte from a stranger is rejected.
stray :
    (h : Host (Unit {0}))
    → BTreeMap.get away h.established ≡ none
    → BTreeMap.get away h.handshakes ≡ none
    → dispatch_inbound crypto os away (7 ∷ []) key h
      ≡ ok (record h { tick = wrapping_suc h.tick }, rejected away)
unfolding try_responder_msg1
stray h e f = dispatch_inbound_unknown crypto os away (7 ∷ []) key h f e ∙ refl

pub stray_received : recv_one crypto os key idle ≡ ok (record idle { tick = 1 }, rejected away)
unfolding recv_one Udp.recv slice_to BTreeMap.get
stray_received = stray idle refl refl

idle_built : with_capacity crypto os idle.socket keypair signer key caps ≡ ok idle
unfolding with_capacity
idle_built = rw binding_created refl

with_capacity-Reach-IsHost_example : IsHost (record idle { tick = 1 })
with_capacity-Reach-IsHost_example =
    with_capacity-Reach-IsHost crypto os idle.socket keypair signer key caps idle
      (record idle { tick = 1 }) (omega arith, omega arith) idle_built
      (next here (received key stray_received))

sender-IsHost : IsHost sender
unfolding BTreeMap.get
sender-IsHost = record {
  handshakes_sorted = tt;
  established_sorted = (tt, tt);
  handshakes_within = omega arith;
  established_within = omega arith;
  positive = (omega arith, omega arith);
  disjoint = λ j. inl refl;
}

rejected-SameTables_example :
    (away ≡ away) × (sender.socket ≡ sender.socket) × SameTables sender (record sender { tick = 1 })
unfolding BTreeMap.get lex
rejected-SameTables_example =
    rejected-SameTables crypto os away away (7 ∷ []) key sender (record sender { tick = 1 })
      sender-IsHost (stray sender refl refl)

dispatch_inbound-IsGuarded_example :
    IsGuarded crypto os sender away (7 ∷ []) (record sender { tick = 1 }, rejected away)
unfolding BTreeMap.get lex
dispatch_inbound-IsGuarded_example =
    dispatch_inbound-IsGuarded crypto os away (7 ∷ []) key sender (record sender { tick = 1 })
      (rejected away) refl refl (stray sender refl refl)

abbrev carried : List ℕ
carried = to_be_bytes 8 0 ++ (1 ∷ 2 ∷ tag)

abbrev sender_conn : EstablishedConnection
sender_conn = record (connection key other_key) {
  transport = record (Transport.new key other_key) { send_nonce = 1 };
}

prepared : prepare_send crypto os home (1 ∷ 2 ∷ []) sender ≡ ok ([], sender_conn, carried)
unfolding prepare_send Transport.encrypt Transport.new Transport.checked_suc aead_encrypt
    to_be_bytes BTreeMap.get lex BTreeMap.remove
prepared = refl

dispatch_inbound-prepare_send_example :
    (h' : Host (Unit {0})) × (dispatch_inbound crypto os home carried key receiver
      ≡ ok (h', datagram_delivered home (1 ∷ 2 ∷ [])))
    × HasRead crypto os home (connection other_key key) 0 receiver h'
unfolding BTreeMap.get lex Transport.new refuses Transport.nonce_acceptable is_covered test_bit
dispatch_inbound-prepare_send_example =
    dispatch_inbound-prepare_send crypto os tagging-IsAead home home sender receiver (1 ∷ 2 ∷ [])
      carried key (connection key other_key) (connection other_key key) sender_conn [] refl refl
      refl refl prepared

-- A responder's handshake that only wants the third message, and that message.
abbrev awaiting : Host (Unit {0})
awaiting = record idle {
  handshakes =
      (
        away,
        record {
          state = responder_awaiting_finalize (record {
            eph_private = key;
            sym = record {
              chaining_key = replicate 32 6;
              hash = replicate 32 5;
              cipher_key = some (replicate 32 6);
              nonce = 1;
            };
          });
          last_activity = 0;
        },
      )
      ∷ [];
}

abbrev third : List ℕ
third = keypair.public ++ tag ++ (binding.public_key ++ binding.signature ++ tag)

abbrev completed : Host (Unit {0})
completed = record idle {
  established =
      (away, record (connection (replicate 32 6) (replicate 32 6)) { last_activity = 1 }) ∷ [];
  tick = 1;
}

completes :
    dispatch_inbound crypto os away third key awaiting
    ≡ ok (completed, handshake_complete away keypair.public (peer_id signer))
unfolding dispatch_inbound advance_in_flight advance_entry responder_consume_msg3 responder_outcome
    read_s Symmetric.decrypt_and_hash Symmetric.mix_key Symmetric.mix_hash Symmetric.kdf_two
    Symmetric.split Symmetric.blake3_hash_two aead_decrypt verify_binding from_bytes verify
    Keypair.verifying_key SignedStaticKey.verified store_established
    Table.insert_established_with_lru Table.insert_with_lru peer_id peer_id_of_key BTreeMap.get
    BTreeMap.remove BTreeMap.insert lex slice slice_to slice_from try_array Transport.new
completes = refl

handshake_complete-IsAuthentic_example :
    IsAuthentic crypto os awaiting away third
      (completed, handshake_complete away keypair.public (peer_id signer))
handshake_complete-IsAuthentic_example =
    handshake_complete-IsAuthentic crypto os away away third key awaiting completed keypair.public
      (peer_id signer) completes
