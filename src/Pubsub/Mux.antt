-- ===== src/Pubsub/Mux.antt =====
-- crates/libp2p-cat-pubsub/src/mux.rs: application bytes and coded pieces over one host; here the mux,
-- its registrations and what it sends. What it makes of received pieces is in the children.
pub mod Paths
pub mod Receive
pub mod Sent
pub mod Relay
pub mod Decoder
use libp2p_cat_rs.Prelude.{
  ℕ, ◌==◌, Bool, true, false, not, Option, none, some, List, [], ◌∷◌, filter, if◌then◌else◌, length,
  first, slice_from, or_empty,
}
use libp2p_cat_rs.Prelude.Lex.{key_eq}
use libp2p_cat_rs.Prelude.Words.{wrapping_suc}
use libp2p_cat_rs.Prelude.BTreeMap
use libp2p_cat_rs.Prelude.BTreeMap.{BTreeMap, contains_key}
use libp2p_cat_rs.Types.Error.{Result, ok, err, ◌>>=◌, ok_or, rlnc_layer}
use libp2p_cat_rs.Types.Addr.{UdpAddr, addr_lex}
use libp2p_cat_rs.Types.PeerId.{PeerId}
use libp2p_cat_rs.Noise.Primitives.{StaticPublicKey}
use libp2p_cat_rs.Udp.{UdpSocket}
use libp2p_cat_rs.Host.State
use libp2p_cat_rs.Host.State.{Host, HostEvent}
use libp2p_cat_rs.Host.Dispatch
use libp2p_cat_rs.Host.Dispatch.{Crypto, established_addrs}
use libp2p_cat_rs.Pubsub.Topic.{Topic, topic_lex}
use libp2p_cat_rs.Pubsub.State as Tables
use libp2p_cat_rs.Pubsub.State.{PubsubState, DecoderEntry, RecoderEntry}
use libp2p_cat_rs.Pubsub.Auth.{WireAuthenticator}
use libp2p_cat_rs.Pubsub.Codec
use libp2p_cat_rs.Pubsub.Codec.{PieceCodec, WirePiece, PubsubFrame}

abbrev pub kind_app : ℕ
kind_app = 0

abbrev pub kind_pubsub : ℕ
kind_pubsub = 1

pub data MuxEvent : Type 0 where
  app_data : UdpAddr → List ℕ → MuxEvent
  pubsub_absorbed : UdpAddr → Topic → MuxEvent
  pubsub_redundant : UdpAddr → Topic → MuxEvent
  pubsub_delivered : UdpAddr → Topic → List ℕ → MuxEvent
  pubsub_relayed : UdpAddr → Topic → ℕ → MuxEvent
  handshake_progress : UdpAddr → MuxEvent
  handshake_complete : UdpAddr → StaticPublicKey → PeerId → MuxEvent
  rejected : UdpAddr → MuxEvent

-- The source of randomness of a relay: so many bytes, or a failure.
abbrev pub Rng : Type 0
Rng = ℕ → Option (List ℕ)

-- The coding crate: decoders `D`, recoders `R`, commitments `C`, tags `T`, pieces `P` and original
-- data `O`. `verify` and `tag` are those of the authenticator; `source` gives the commitment and the
-- first so many pieces of its stream, with their tags.
pub record Coding (D R C T P O : Type 0) : Type 0 where
  pub pieces : PieceCodec P
  pub new_decoder : ℕ → ℕ → D
  pub new_recoder : ℕ → ℕ → R
  pub vector_len : P → ℕ
  pub data_len : P → ℕ
  pub verify : C → P → T → Bool
  pub tag : C → P → T
  pub absorb : P → D → Option D
  pub is_complete : D → Bool
  pub useful_count : D → ℕ
  pub decode : D → Option (List ℕ)
  pub add_piece : P → R → Option R
  pub recode_one : Rng → R → Option P
  pub piece_count : O → ℕ
  pub piece_byte_len : O → ℕ
  pub source : O → Rng → ℕ → C × Option (List (WirePiece C T P))

pub record PubsubMux (K D R C : Type 0) : Type 0 where
  pub host : Host K
  pub state : PubsubState D R C

unfoldable pub prefix_kind : ℕ → List ℕ → List ℕ
prefix_kind kind payload = kind ∷ payload

module _ {K D R C : Type 0} where
  unfoldable pub new : Host K → PubsubMux K D R C
  new host = record { host = host; state = Tables.new D R C }

module _ (crypto : Crypto) {K : Type 0} (os : UdpSocket K) where
  -- The fold of sends over some peers.
  unfoldable pub send_each : List UdpAddr → List ℕ → Host K → Result (Host K)
  send_each [] datagram h = ok h
  send_each (addr ∷ addrs) datagram h =
      Dispatch.send crypto os addr datagram h >>= λ next. send_each addrs datagram next

module _ {K D R C : Type 0} (crypto : Crypto) (os : UdpSocket K) where
  unfoldable pub dial : UdpAddr → List ℕ → PubsubMux K D R C → Result (PubsubMux K D R C)
  dial addr ephemeral_seed mux = do
    host ← Dispatch.dial crypto os addr ephemeral_seed mux.host
    ok (record mux { host = host })

  unfoldable pub send_app : UdpAddr → List ℕ → PubsubMux K D R C → Result (PubsubMux K D R C)
  send_app addr payload mux = do
    host ← Dispatch.send crypto os addr (prefix_kind kind_app payload) mux.host
    ok (record mux { host = host })

  unfoldable pub send_frame_to_all : List ℕ → PubsubMux K D R C → Result (PubsubMux K D R C)
  send_frame_to_all frame mux = do
    host ← send_each crypto os (established_addrs mux.host) (prefix_kind kind_pubsub frame) mux.host
    ok (record mux { host = host })

  unfoldable pub fan_out_all : List (List ℕ) → PubsubMux K D R C → Result (PubsubMux K D R C)
  fan_out_all [] mux = ok mux
  fan_out_all (frame ∷ frames) mux = send_frame_to_all frame mux >>= λ next. fan_out_all frames next

  unfoldable pub send_frame_excluding :
      List ℕ → UdpAddr → PubsubMux K D R C → Result (PubsubMux K D R C × ℕ)
  send_frame_excluding frame exclude mux = do
    let addrs = filter (λ a. not (key_eq a exclude)) (established_addrs mux.host)
    host ← send_each crypto os addrs (prefix_kind kind_pubsub frame) mux.host
    ok (record mux { host = host }, length addrs)

module _ {K D R C T P O : Type 0} (crypto : Crypto) (os : UdpSocket K)
    (wire : WireAuthenticator C T) (coding : Coding D R C T P O) where
  -- `collect` of the encoded frames: the first error is the result.
  unfoldable pub encode_frames : Topic → ℕ → ℕ → List (WirePiece C T P) → Result (List (List ℕ))
  encode_frames topic piece_count piece_byte_len [] = ok []
  encode_frames topic piece_count piece_byte_len (w ∷ ws) = do
    frame ← Codec.encode wire coding.pieces topic piece_count piece_byte_len w
    frames ← encode_frames topic piece_count piece_byte_len ws
    ok (frame ∷ frames)

  unfoldable pub broadcast :
      Topic → O → ℕ → Rng → PubsubMux K D R C → Result (PubsubMux K D R C × C)
  broadcast topic original num_pieces rng mux = do
    let (commitment, stream) = coding.source original rng num_pieces
    wire_pieces ← ok_or rlnc_layer stream
    frames ←
        encode_frames topic (coding.piece_count original) (coding.piece_byte_len original)
          wire_pieces
    next ← fan_out_all crypto os frames mux
    ok (next, commitment)

module _ {K D R C T P O : Type 0} (coding : Coding D R C T P O) where
  unfoldable pub register_topic : Topic → ℕ → ℕ → C → PubsubMux K D R C → PubsubMux K D R C
  register_topic topic piece_count piece_byte_len commitment mux = record mux {
    state =
        Tables.register_topic coding.new_decoder coding.new_recoder topic piece_count piece_byte_len
          commitment mux.state;
  }

  unfoldable pub register_relay : Topic → ℕ → ℕ → C → PubsubMux K D R C → PubsubMux K D R C
  register_relay topic piece_count piece_byte_len commitment mux = record mux {
    state =
        Tables.register_relay coding.new_decoder coding.new_recoder topic piece_count piece_byte_len
          commitment mux.state;
  }

module _ {K D R C : Type 0} where
  unfoldable pub unregister_topic : Topic → PubsubMux K D R C → PubsubMux K D R C
  unregister_topic topic mux = record mux { state = Tables.unregister_topic topic mux.state }

  unfoldable pub unregister_relay : Topic → PubsubMux K D R C → PubsubMux K D R C
  unregister_relay topic mux = record mux { state = Tables.unregister_relay topic mux.state }

  unfoldable pub evict_idle_topics : ℕ → PubsubMux K D R C → PubsubMux K D R C × List Topic
  evict_idle_topics max_idle_ticks mux =
      let r = Tables.evict_idle_topics max_idle_ticks mux.state in (record mux { state = r.0 }, r.1)

  unfoldable pub evict_idle_relays : ℕ → PubsubMux K D R C → PubsubMux K D R C × List Topic
  evict_idle_relays max_idle_ticks mux =
      let r = Tables.evict_idle_relays max_idle_ticks mux.state in (record mux { state = r.0 }, r.1)
