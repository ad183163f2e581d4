-- ===== src/Kad/NodeId.antt =====
-- crates/libp2p-cat-kad/src/node_id.rs
pub mod Metric
use libp2p_cat_rs.Prelude.{ℕ, ◌≡◌, List, length, get_or, from_fn, All, bit_xor}
use libp2p_cat_rs.Prelude.Bytes.{IsByte}
use libp2p_cat_rs.Prelude.Lex.{LexKey}
use libp2p_cat_rs.Types.PeerId.{PeerId}
use libp2p_cat_rs.Kad.Distance.{Distance, node_id_len}

pub record NodeId : Type 0 where
  pub bytes : List ℕ

instance abbrev pub node_id_lex : LexKey NodeId
node_id_lex = record {
  to_key = λ n. n.bytes;
  to_key_injective = λ a b h. λ i. record { bytes = h i };
}

-- The fixed width of the source's array.
abbrev pub IsNodeId : NodeId → Type 0
IsNodeId n = (length n.bytes ≡ node_id_len) × All IsByte n.bytes

-- BLAKE3 is a parameter.
unfoldable pub from_peer_id : (List ℕ → List ℕ) → PeerId → NodeId
from_peer_id blake3_hash p = record { bytes = blake3_hash p.bytes }

unfoldable pub distance : NodeId → NodeId → Distance
distance a b = record {
  bytes = from_fn node_id_len (λ i. bit_xor (get_or a.bytes i 0) (get_or b.bytes i 0));
}
