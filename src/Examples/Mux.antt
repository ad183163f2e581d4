-- ===== src/Examples/Mux.antt =====
-- A mux with a relay and a decoder of one topic each, and coded pieces that are only bytes.
use libp2p_cat_rs.Prelude.{
  ℕ, ◌+◌, ◌≡◌, refl, true, false, Bool, none, some, List, [], ◌∷◌, slice, slice_from, try_array,
}
use libp2p_cat_rs.Prelude.Lex.{lex}
use libp2p_cat_rs.Prelude.Bytes.{from_be_bytes, to_be_bytes}
use libp2p_cat_rs.Prelude.BTreeMap
use libp2p_cat_rs.Types.Error.{ok}
use libp2p_cat_rs.Types.ProtocolId.{is_printable}
use libp2p_cat_rs.Pubsub.Topic
use libp2p_cat_rs.Pubsub.Topic.{Topic, topic_lex}
use libp2p_cat_rs.Pubsub.State.{is_decoder_registered}
use libp2p_cat_rs.Pubsub.Auth.{null_wire}
use libp2p_cat_rs.Pubsub.Codec
use libp2p_cat_rs.Pubsub.Codec.{WirePiece, PubsubFrame, decode_auth_block}
use libp2p_cat_rs.Pubsub.Mux.{
  Coding, PubsubMux, pubsub_relayed, rejected, kind_pubsub, Rng, prefix_kind, send_each,
  send_frame_excluding,
}
use libp2p_cat_rs.Pubsub.Mux.Paths.{relay_path, relay_piece, recode_and_send, store_relay}
use libp2p_cat_rs.Pubsub.Mux.Receive.{dispatch_plaintext, handle_pubsub_body}
use libp2p_cat_rs.Pubsub.Mux.Relay.{dispatch_plaintext-IsGated}
use libp2p_cat_rs.Pubsub.Mux.Sent.{IsGated}
use libp2p_cat_rs.Pubsub.Mux.Decoder.{dispatch_plaintext-unverified, dispatch_plaintext-malformed}
use libp2p_cat_rs.Noise.Aead.{aead_encrypt}
use libp2p_cat_rs.Noise.Transport
use libp2p_cat_rs.Udp
use libp2p_cat_rs.Host.State.{Host}
use libp2p_cat_rs.Host.Dispatch
use libp2p_cat_rs.Kad.RoutingTable
use libp2p_cat_rs.Kad.RoutingTable.Placement.{new-IsTable}
use libp2p_cat_rs.Kad.Codec as KadCodec
use libp2p_cat_rs.Kad.Node as KadNode
use libp2p_cat_rs.Mux.Event.{kad_ping_response_received}
use libp2p_cat_rs.Mux.Node
use libp2p_cat_rs.Mux.Node.{MultiProtocolNode, kind_kad}
use libp2p_cat_rs.Mux.Node.Isolation.{IsIsolated, dispatch_plaintext-IsIsolated}
use libp2p_cat_rs.Kad.Lookup.{default_config}
use libp2p_cat_rs.Kad.Lookup.Drive.{run_lookup}
use libp2p_cat_rs.Mux.Lookup.{lookup_node}
use libp2p_cat_rs.Mux.Lookup.Agreement.{lookup_interface, lookup_node-run_lookup}
use libp2p_cat_rs.Examples.Data.{id, home, away, key, other_key}
use libp2p_cat_rs.Examples.Crypto.{crypto, os, connection, idle}

-- A decoder counts its pieces and a recoder keeps them. `verifies` and `absorbs` say what becomes of
-- every piece.
abbrev counting : Bool → Bool → Coding ℕ (List ℕ) (Unit {0}) (Unit {0}) (List ℕ) (List ℕ)
counting verifies absorbs = record {
  pieces = record { to_bytes = λ piece. piece; from_bytes = λ bytes k. some bytes };
  new_decoder = λ k b. 0;
  new_recoder = λ k b. [];
  vector_len = λ piece. 1;
  data_len = λ piece. 1;
  verify = λ commitment piece tag. verifies;
  tag = λ commitment piece. tt;
  absorb = λ piece n. elim absorbs [ true ↦ some (n + 1) | false ↦ none ];
  is_complete = λ n. false;
  useful_count = λ n. n;
  decode = λ n. none;
  add_piece = λ piece kept. some piece;
  recode_one = λ rng kept. some kept;
  piece_count = λ bytes. 1;
  piece_byte_len = λ bytes. 1;
  source = λ bytes rng n. (tt, none);
}

abbrev topic : Topic
topic = record { name = 116 ∷ [] }

abbrev rng : Rng
rng n = none

-- The piece `1, 9` of a generation of one piece of one byte, of the topic `t`.
abbrev body : List ℕ
body = 1 ∷ 116 ∷ 0 ∷ 0 ∷ 0 ∷ 1 ∷ 0 ∷ 0 ∷ 0 ∷ 1 ∷ 1 ∷ 9 ∷ []

abbrev frame : PubsubFrame
frame = record { topic = topic; piece_count = 1; piece_byte_len = 1; piece_bytes = 1 ∷ 9 ∷ [] }

abbrev carried_piece : WirePiece (Unit {0}) (Unit {0}) (List ℕ)
carried_piece = record { commitment = tt; piece = 1 ∷ 9 ∷ []; tag = tt }

decoded :
    (verifies absorbs : Bool)
    → Codec.decode null_wire (counting verifies absorbs).pieces (λ bs. true) body
      ≡ ok (frame, carried_piece)
unfolding Codec.decode decode_auth_block slice slice_from try_array from_be_bytes Topic.new
    is_printable
decoded verifies absorbs = refl

abbrev decoding : PubsubMux (Unit {0}) ℕ (List ℕ) (Unit {0})
decoding = record {
  host = idle;
  state = record {
    decoders = (topic, record { state = 0; commitment = tt; last_activity = 0 }) ∷ [];
    recoders = [];
    tick = 5;
  };
}

dispatch_plaintext-unverified_example :
    (next : PubsubMux (Unit {0}) ℕ (List ℕ) (Unit {0})) × (dispatch_plaintext crypto os null_wire
        (counting false true)
        (λ bs. true)
        home
        (kind_pubsub ∷ body)
        rng
        decoding
      ≡ ok (next, rejected home))
    × (next.host ≡ decoding.host)
    × (next.state.recoders ≡ decoding.state.recoders)
    × (next.state.tick ≡ decoding.state.tick)
    × ((j : Topic) → BTreeMap.get j next.state.decoders ≡ BTreeMap.get j decoding.state.decoders)
unfolding BTreeMap.get lex
dispatch_plaintext-unverified_example =
    dispatch_plaintext-unverified crypto os null_wire (counting false true) (λ bs. true) home body
      rng decoding frame carried_piece (record { state = 0; commitment = tt; last_activity = 0 })
      (decoded false true) refl refl refl

dispatch_plaintext-malformed_example :
    (next : PubsubMux (Unit {0}) ℕ (List ℕ) (Unit {0})) × (dispatch_plaintext crypto os null_wire
        (counting true false)
        (λ bs. true)
        home
        (kind_pubsub ∷ body)
        rng
        decoding
      ≡ ok (next, rejected home))
    × (is_decoder_registered topic next.state ≡ false)
unfolding BTreeMap.get lex
dispatch_plaintext-malformed_example =
    dispatch_plaintext-malformed crypto os null_wire (counting true false) (λ bs. true) home body
      rng decoding frame carried_piece (record { state = 0; commitment = tt; last_activity = 0 })
      (decoded true false) refl refl refl refl

-- Connected with `home` and `away`, before and after one datagram to `away`.
abbrev joined : Host (Unit {0})
joined = record idle {
  established = (home, connection key other_key) ∷ (away, connection key other_key) ∷ [];
}

abbrev joined_after : Host (Unit {0})
joined_after = record idle {
  established =
      (home, connection key other_key)
      ∷ (
        away,
        record (connection key other_key) {
          transport = record (connection key other_key).transport { send_nonce = 1 };
          last_activity = 1;
        },
      )
      ∷ [];
  tick = 1;
}

abbrev relaying : Host (Unit {0}) → ℕ → ℕ → List ℕ → PubsubMux (Unit {0}) ℕ (List ℕ) (Unit {0})
relaying host tick rank kept = record {
  host = host;
  state = record {
    decoders = [];
    recoders =
        (
          topic,
          record { recoder = kept; rank_tracker = rank; commitment = tt; last_activity = tick },
        )
        ∷ [];
    tick = tick;
  };
}

relayed :
    dispatch_plaintext crypto os null_wire
      (counting true true)
      (λ bs. true)
      home
      (kind_pubsub ∷ body)
      rng
      (relaying joined 5 0 [])
    ≡ ok (relaying joined_after 6 1 (1 ∷ 9 ∷ []), pubsub_relayed home topic 1)
unfolding dispatch_plaintext handle_pubsub_body relay_path relay_piece recode_and_send store_relay
    send_frame_excluding send_each prefix_kind Codec.encode slice_from BTreeMap.get BTreeMap.remove
    BTreeMap.insert lex to_be_bytes Dispatch.established_addrs Codec.decode decode_auth_block slice
    try_array from_be_bytes Topic.new is_printable Dispatch.send Dispatch.prepare_send
    Transport.encrypt Transport.new aead_encrypt Transport.checked_suc Udp.send
relayed = refl

dispatch_plaintext-IsGated_example :
    IsGated crypto os null_wire
      (counting true true)
      rng
      home
      (relaying joined 5 0 [])
      (relaying joined_after 6 1 (1 ∷ 9 ∷ []), pubsub_relayed home topic 1)
dispatch_plaintext-IsGated_example =
    dispatch_plaintext-IsGated crypto os null_wire (counting true true) (λ bs. true) home
      (kind_pubsub ∷ body) rng (relaying joined 5 0 []) (relaying joined_after 6 1 (1 ∷ 9 ∷ []))
      (pubsub_relayed home topic 1) relayed

abbrev combined : MultiProtocolNode (Unit {0}) ℕ (List ℕ) (Unit {0})
combined = record {
  host = idle;
  pubsub_state = decoding.state;
  kad_table = RoutingTable.new (id 5) 20;
}

-- The answer to a ping, of Kademlia's kind.
answered :
    Node.dispatch_plaintext crypto os null_wire
      (counting true true)
      (λ bs. true)
      (λ addr. [])
      home
      (kind_kad ∷ (1 ∷ []))
      rng
      combined
    ≡ ok (combined, kad_ping_response_received home)
unfolding Node.dispatch_plaintext Node.dispatch_kad Node.lift_kad_event KadNode.handle_datagram
    KadNode.dispatch_frame KadNode.learn_sender Dispatch.remote_peer_id_of BTreeMap.get
    KadCodec.decode KadCodec.decode_body KadCodec.decode_no_body KadCodec.from_byte slice_from
answered = refl

dispatch_plaintext-IsIsolated_example : IsIsolated (some kind_kad) combined combined
dispatch_plaintext-IsIsolated_example =
    dispatch_plaintext-IsIsolated crypto os null_wire (counting true true) (λ bs. true) (λ addr. [])
      home (kind_kad ∷ (1 ∷ [])) rng combined combined (kad_ping_response_received home)
      (new-IsTable (id 5) 20) answered

lookup_node-run_lookup_example :
    lookup_node crypto os null_wire
      (counting true true)
      (λ bs. true)
      (λ addr. [])
      (λ n. [])
      (id 3)
      default_config
      combined
    ≡ run_lookup
        (lookup_interface crypto os null_wire
          (counting true true)
          (λ bs. true)
          (λ addr. [])
          (λ n. []))
        (λ n. [])
        combined
        (id 3)
        default_config
lookup_node-run_lookup_example =
    lookup_node-run_lookup crypto os null_wire (counting true true) (λ bs. true) (λ addr. [])
      (λ n. []) (id 3) default_config combined
