-- ===== src/Pubsub/Codec.antt =====
-- crates/libp2p-cat-pubsub/src/codec.rs: a frame is the topic, the dimensions of its generation, the
-- commitment, the tag, and the coded piece. Reason texts are not kept.
pub mod Laws
use libp2p_cat_rs.Prelude.{
  ℕ, ◌+◌, ◌^◌, Bool, List, ◌∷◌, ◌++◌, Option, ltb, if◌then◌else◌, length, first, slice, slice_from,
  try_array,
}
use libp2p_cat_rs.Prelude.Bytes.{to_be_bytes, from_be_bytes}
use libp2p_cat_rs.Types.Error.{Result, ok, err, ◌>>=◌, ok_or, pubsub_protocol, rlnc_layer}
use libp2p_cat_rs.Pubsub.Topic
use libp2p_cat_rs.Pubsub.Topic.{Topic}
use libp2p_cat_rs.Pubsub.Auth.{WireAuthenticator}

abbrev pub kb_len : ℕ
kb_len = 8

-- `CodedPiece::to_bytes` and `CodedPiece::from_bytes` of the coding crate, over its pieces `P`.
pub record PieceCodec (P : Type 0) : Type 0 where
  pub to_bytes : P → List ℕ
  pub from_bytes : List ℕ → ℕ → Option P

-- The coding crate's `WirePiece`: a piece under its commitment and its tag.
pub record WirePiece (C T P : Type 0) : Type 0 where
  pub commitment : C
  pub piece : P
  pub tag : T

pub record PubsubFrame : Type 0 where
  pub topic : Topic
  pub piece_count : ℕ
  pub piece_byte_len : ℕ
  pub piece_bytes : List ℕ

-- `try_from` into an unsigned integer of so many bytes.
abbrev pub fits : ℕ → ℕ → Result ℕ
fits width n = if ltb n (256 ^ width) then ok n else err pubsub_protocol

abbrev pub parse_4 : List ℕ → Result (List ℕ)
parse_4 slice = ok_or pubsub_protocol (try_array 4 slice)

module _ {C T P : Type 0} (wire : WireAuthenticator C T) (pieces : PieceCodec P) where
  unfoldable pub encode : Topic → ℕ → ℕ → WirePiece C T P → Result (List ℕ)
  encode topic piece_count piece_byte_len wire_piece = do
    topic_len_byte ← fits 1 (length topic.name)
    k ← fits 4 piece_count
    b ← fits 4 piece_byte_len
    ok (
        topic_len_byte
        ∷ (topic.name
            ++ (to_be_bytes 4 k
                ++ (to_be_bytes 4 b
                    ++ (wire.commitment_to_vec wire_piece.commitment
                        ++ (wire.tag_to_vec wire_piece.tag ++ pieces.to_bytes wire_piece.piece))))))

  -- What follows the fixed header.
  unfoldable pub decode_auth_block : Topic → ℕ → ℕ → List ℕ → Result (PubsubFrame × WirePiece C T P)
  decode_auth_block topic piece_count piece_byte_len auth_buffer = do
    (commitment, commitment_consumed) ← wire.commitment_from_bytes auth_buffer
    after_commitment ← ok_or pubsub_protocol (slice_from commitment_consumed auth_buffer)
    (tag, tag_consumed) ← wire.tag_from_bytes after_commitment
    piece_bytes ← ok_or pubsub_protocol (slice_from tag_consumed after_commitment)
    coded ← ok_or rlnc_layer (pieces.from_bytes piece_bytes piece_count)
    ok (
      record {
        topic = topic;
        piece_count = piece_count;
        piece_byte_len = piece_byte_len;
        piece_bytes = piece_bytes;
      },
      record { commitment = commitment; piece = coded; tag = tag },
    )

  -- `is_utf8` is the check of `from_utf8`.
  unfoldable pub decode : (List ℕ → Bool) → List ℕ → Result (PubsubFrame × WirePiece C T P)
  decode is_utf8 bytes = do
    topic_len ← ok_or pubsub_protocol (first bytes)
    let fixed_header_end = 1 + topic_len + kb_len
    if ltb (length bytes) fixed_header_end then err pubsub_protocol else (do
      topic_slice ← ok_or pubsub_protocol (slice 1 (1 + topic_len) bytes)
      topic_string ← if is_utf8 topic_slice then ok topic_slice else err pubsub_protocol
      topic ← Topic.new topic_string
      k_slice ← ok_or pubsub_protocol (slice (1 + topic_len) (1 + topic_len + 4) bytes)
      b_slice ← ok_or pubsub_protocol (slice (1 + topic_len + 4) (1 + topic_len + 8) bytes)
      k_arr ← parse_4 k_slice
      b_arr ← parse_4 b_slice
      auth_buffer ← ok_or pubsub_protocol (slice_from fixed_header_end bytes)
      decode_auth_block topic (from_be_bytes k_arr) (from_be_bytes b_arr) auth_buffer)
