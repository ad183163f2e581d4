-- ===== src/Pubsub/Auth.antt =====
-- crates/libp2p-cat-pubsub/src/auth.rs: how authenticators put commitments and tags on the wire. The
-- authenticators themselves are the coding crate's.
pub mod Laws
use libp2p_cat_rs.Prelude.{
  ℕ, zero, suc, ◌+◌, ◌-◌, ◌*◌, ◌^◌, Option, none, some, List, [], ◌∷◌, ◌++◌, length, take, drop,
  ltb, leb, if◌then◌else◌, slice_to, slice, try_array,
}
use libp2p_cat_rs.Prelude.Bytes.{to_be_bytes, from_be_bytes}
use libp2p_cat_rs.Noise.Aead.{to_le_bytes}
use libp2p_cat_rs.Types.Error.{Result, ok, err, ◌>>=◌, ok_or, pubsub_protocol}

abbrev pub blake3_fingerprint_len : ℕ
blake3_fingerprint_len = 32

abbrev pub keyed_hash_tag_len : ℕ
keyed_hash_tag_len = 32

abbrev pub lhs_tag_len_prefix : ℕ
lhs_tag_len_prefix = 4

abbrev pub lhs_tag_entry_len : ℕ
lhs_tag_entry_len = 8

-- `C` is the type of commitments and `T` that of tags.
pub record WireAuthenticator (C T : Type 0) : Type 0 where
  pub commitment_to_vec : C → List ℕ
  pub commitment_from_bytes : List ℕ → Result (C × ℕ)
  pub tag_to_vec : T → List ℕ
  pub tag_from_bytes : List ℕ → Result (T × ℕ)

abbrev pub null_wire : WireAuthenticator (Unit {0}) (Unit {0})
null_wire = record {
  commitment_to_vec = λ c. [];
  commitment_from_bytes = λ bytes. ok (tt, 0);
  tag_to_vec = λ t. [];
  tag_from_bytes = λ bytes. ok (tt, 0);
}

-- A commitment or a tag of keyed hashes is its 32 bytes.
unfoldable pub commitment_from_bytes : List ℕ → Result (List ℕ × ℕ)
commitment_from_bytes bytes = do
  head ← ok_or pubsub_protocol (slice_to blake3_fingerprint_len bytes)
  arr ← ok_or pubsub_protocol (try_array blake3_fingerprint_len head)
  ok (arr, blake3_fingerprint_len)

unfoldable pub keyed_hash_tag_from_bytes : List ℕ → Result (List ℕ × ℕ)
keyed_hash_tag_from_bytes bytes = do
  head ← ok_or pubsub_protocol (slice_to keyed_hash_tag_len bytes)
  arr ← ok_or pubsub_protocol (try_array keyed_hash_tag_len head)
  ok (arr, keyed_hash_tag_len)

abbrev pub keyed_hash_wire : WireAuthenticator (List ℕ) (List ℕ)
keyed_hash_wire = record {
  commitment_to_vec = λ c. c;
  commitment_from_bytes = commitment_from_bytes;
  tag_to_vec = λ t. t;
  tag_from_bytes = keyed_hash_tag_from_bytes;
}

-- An `i64` of a lattice signature is its bit pattern, below 2 ^ 64.
unfoldable pub entries_to_vec : List ℕ → List ℕ
entries_to_vec [] = []
entries_to_vec (e ∷ es) = to_le_bytes 8 e ++ entries_to_vec es

unfoldable pub from_le_bytes : List ℕ → ℕ
from_le_bytes [] = 0
from_le_bytes (b ∷ bs) = b + 256 * from_le_bytes bs

-- `chunks_exact` of a body of `n` chunks, each read as an entry.
unfoldable pub entries_from : ℕ → List ℕ → List ℕ
entries_from zero body = []
entries_from (suc n) body =
    from_le_bytes (take lhs_tag_entry_len body) ∷ entries_from n (drop lhs_tag_entry_len body)

unfoldable pub lhs_tag_to_vec : List ℕ → List ℕ
lhs_tag_to_vec entries =
    let len_prefix = if ltb (length entries) (2 ^ 32) then length entries else 2 ^ 32 - 1 in
    to_be_bytes 4 len_prefix ++ entries_to_vec entries

-- `checked_mul` and `checked_add` of a `usize` of 64 bits.
abbrev pub checked : ℕ → Option ℕ
checked n = if ltb n (2 ^ 64) then some n else none

unfoldable pub lhs_tag_from_bytes : List ℕ → Result (List ℕ × ℕ)
lhs_tag_from_bytes bytes = do
  len_slice ← ok_or pubsub_protocol (slice_to lhs_tag_len_prefix bytes)
  len_arr ← ok_or pubsub_protocol (try_array lhs_tag_len_prefix len_slice)
  let entry_count = from_be_bytes len_arr
  body_len ← ok_or pubsub_protocol (checked (entry_count * lhs_tag_entry_len))
  body_end ← ok_or pubsub_protocol (checked (lhs_tag_len_prefix + body_len))
  body ← ok_or pubsub_protocol (slice lhs_tag_len_prefix body_end bytes)
  ok (entries_from entry_count body, body_end)

abbrev pub lhs_wire : WireAuthenticator (List ℕ) (List ℕ)
lhs_wire = record {
  commitment_to_vec = λ c. c;
  commitment_from_bytes = commitment_from_bytes;
  tag_to_vec = lhs_tag_to_vec;
  tag_from_bytes = lhs_tag_from_bytes;
}
