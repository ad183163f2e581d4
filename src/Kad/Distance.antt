-- ===== src/Kad/Distance.antt =====
-- crates/libp2p-cat-kad/src/distance.rs: a distance is 32 bytes, big-endian.
pub mod Value
use libp2p_cat_rs.Prelude.{
  ℕ, suc, ◌+◌, ◌-◌, ◌*◌, ◌≡◌, Bool, true, false, not, Option, none, some, List, [], ◌∷◌, leb, ◌==◌,
  if◌then◌else◌, all, replicate,
}
use libp2p_cat_rs.Prelude.Lex.{LexKey}

-- The two constants of node_id.rs.
abbrev pub node_id_len : ℕ
node_id_len = 32

abbrev pub node_id_bits : ℕ
node_id_bits = node_id_len * 8

pub record Distance : Type 0 where
  pub bytes : List ℕ

-- The derived `Ord`: byte by byte.
instance abbrev pub distance_lex : LexKey Distance
distance_lex = record {
  to_key = λ d. d.bytes;
  to_key_injective = λ a b h. λ i. record { bytes = h i };
}

abbrev pub zero_distance : Distance
zero_distance = record { bytes = replicate node_id_len 0 }

unfoldable pub is_zero : Distance → Bool
is_zero d = all (λ b. b == 0) d.bytes

-- `u8::leading_zeros`.
unfoldable pub u8_leading_zeros : ℕ → ℕ
u8_leading_zeros b =
    if leb 128 b
    then 0
    else if leb 64 b
    then 1
    else if leb 32 b
    then 2
    else if leb 16 b
    then 3
    else if leb 8 b
    then 4
    else if leb 4 b
    then 5
    else if leb 2 b
    then 6
    else if leb 1 b
    then 7
    else 8

-- `.enumerate().find(|(_, b)| b != 0)`, from index `i` on.
unfoldable pub find_nonzero : ℕ → List ℕ → Option (ℕ × ℕ)
find_nonzero i [] = none
find_nonzero i (b ∷ bs) = if b == 0 then find_nonzero (suc i) bs else some (i, b)

unfoldable pub leading_zeros : Distance → ℕ
unfolding find_nonzero
leading_zeros d = elim (find_nonzero 0 d.bytes) [
  | none ↦ node_id_bits
  | some (byte_idx, byte) ↦ byte_idx * 8 + u8_leading_zeros byte
]

unfoldable pub bucket_index : Distance → Option ℕ
unfolding is_zero leading_zeros
bucket_index d = if not (is_zero d) then some (node_id_bits - 1 - leading_zeros d) else none
