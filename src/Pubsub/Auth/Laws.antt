-- ===== src/Pubsub/Auth/Laws.antt =====
-- The wire forms of crates/libp2p-cat-pubsub/src/auth.rs, written and read.
use libp2p_cat_rs.Prelude.{
  ℕ, zero, suc, ◌+◌, ◌*◌, ◌/◌, ◌^◌, ◌<◌, ◌≡◌, refl, ap, List, [], ◌∷◌, ◌++◌, length, length-append,
  take-append, drop-append, All, arith, append_assoc, slice_to-append, slice-append,
  try_array-of_length, lt→ltb,
}
use native.Mathlib.Nat.{pow-suc}
use libp2p_cat_rs.Prelude.Bytes.{to_be_bytes, length-to_be_bytes, from_be_bytes-to_be_bytes}
use libp2p_cat_rs.Noise.Aead.{to_le_bytes}
use libp2p_cat_rs.Types.Error.{ok}
use libp2p_cat_rs.Pubsub.Auth.{
  WireAuthenticator, null_wire, keyed_hash_wire, lhs_wire, commitment_from_bytes,
  keyed_hash_tag_from_bytes, entries_to_vec, entries_from, from_le_bytes, lhs_tag_to_vec,
  lhs_tag_from_bytes,
}

-- Whatever follows them on the wire, commitments and tags in range are read back, with the number
-- of bytes that they take.
pub record ReadsBack {C T : Type 0} (w : WireAuthenticator C T) (ValidC : C → Type 0)
    (ValidT : T → Type 0) : Type 0 where
  pub commitment :
      (c : C) (rest : List ℕ)
      → ValidC c
      → w.commitment_from_bytes (w.commitment_to_vec c ++ rest)
        ≡ ok (c, length (w.commitment_to_vec c))
  pub tag :
      (t : T) (rest : List ℕ)
      → ValidT t
      → w.tag_from_bytes (w.tag_to_vec t ++ rest) ≡ ok (t, length (w.tag_to_vec t))

pub null_wire-ReadsBack : ReadsBack null_wire (λ c. Unit) (λ t. Unit)
null_wire-ReadsBack = record { commitment = λ c rest h. refl; tag = λ t rest h. refl }

commitment_from_bytes-append :
    (c rest : List ℕ) → length c ≡ 32 → commitment_from_bytes (c ++ rest) ≡ ok (c, length c)
unfolding commitment_from_bytes
commitment_from_bytes-append c rest h =
    rw (slice_to-append c rest 32 h, try_array-of_length 32 c h, h) refl

keyed_hash_tag_from_bytes-append :
    (t rest : List ℕ) → length t ≡ 32 → keyed_hash_tag_from_bytes (t ++ rest) ≡ ok (t, length t)
unfolding keyed_hash_tag_from_bytes
keyed_hash_tag_from_bytes-append t rest h =
    rw (slice_to-append t rest 32 h, try_array-of_length 32 t h, h) refl

abbrev pub HasWidth : ℕ → List ℕ → Type 0
HasWidth n bytes = length bytes ≡ n

pub keyed_hash_wire-ReadsBack : ReadsBack keyed_hash_wire (HasWidth 32) (HasWidth 32)
keyed_hash_wire-ReadsBack = record {
  commitment = commitment_from_bytes-append;
  tag = keyed_hash_tag_from_bytes-append;
}

length-to_le_bytes : (n x : ℕ) → length (to_le_bytes n x) ≡ n
unfolding to_le_bytes
length-to_le_bytes zero x = refl
length-to_le_bytes (suc n) x = ap suc (length-to_le_bytes n (x / 256))

from_le_bytes-to_le_bytes : (n x : ℕ) → x < 256 ^ n → from_le_bytes (to_le_bytes n x) ≡ x
unfolding from_le_bytes to_le_bytes
from_le_bytes-to_le_bytes zero x h = omega arith
from_le_bytes-to_le_bytes (suc n) x h =
    omega (arith, from_le_bytes-to_le_bytes n (x / 256) (omega (arith, pow-suc 256 n)))

length-entries_to_vec : (es : List ℕ) → length (entries_to_vec es) ≡ length es * 8
unfolding entries_to_vec
length-entries_to_vec [] = refl
length-entries_to_vec (e ∷ es) = omega (
  arith,
  length-append (to_le_bytes 8 e) (entries_to_vec es),
  length-to_le_bytes 8 e,
  length-entries_to_vec es,
)

abbrev pub IsI64 : ℕ → Type 0
IsI64 e = e < 256 ^ 8

entries_from-entries_to_vec :
    (es : List ℕ) → All IsI64 es → entries_from (length es) (entries_to_vec es) ≡ es
unfolding entries_from entries_to_vec
entries_from-entries_to_vec [] h = refl
entries_from-entries_to_vec (e ∷ es) (h, hs) =
    let width = length-to_le_bytes 8 e in
    rw
      (
        take-append (to_le_bytes 8 e) (entries_to_vec es) 8 width,
        drop-append (to_le_bytes 8 e) (entries_to_vec es) 8 width,
        from_le_bytes-to_le_bytes 8 e h,
      )
      (ap (λ t. e ∷ t) (entries_from-entries_to_vec es hs))

abbrev pub IsLhsTag : List ℕ → Type 0
IsLhsTag es = (length es < 2 ^ 32) × All IsI64 es

lhs_tag_from_bytes-append :
    (es rest : List ℕ)
    → IsLhsTag es
    → lhs_tag_from_bytes (lhs_tag_to_vec es ++ rest) ≡ ok (es, length (lhs_tag_to_vec es))
unfolding lhs_tag_from_bytes lhs_tag_to_vec
lhs_tag_from_bytes-append es rest (short, h) =
    let prefix = to_be_bytes 4 (length es) in
    let body = entries_to_vec es in
    let width = length-to_be_bytes 4 (length es) in
    let len = length-entries_to_vec es in
    rw (lt→ltb (length es) (2 ^ 32) short, append_assoc prefix body rest)
      (rw
        (
          slice_to-append prefix (body ++ rest) 4 width,
          try_array-of_length 4 prefix width,
          from_be_bytes-to_be_bytes 4 (length es) (omega arith),
        )
        (rw
          (
            lt→ltb (length es * 8) (2 ^ 64) (omega arith),
            lt→ltb (4 + length es * 8) (2 ^ 64) (omega arith),
          )
          (rw
            (
              slice-append prefix body rest 4 (4 + length es * 8) width (omega (arith, len)),
              entries_from-entries_to_vec es h,
            )
            (ap (λ (n : ℕ). ok (es, n)) (omega (arith, length-append prefix body, width, len))))))

-- With lattice signatures: a fingerprint of 32 bytes, and a signature of fewer than 2 ^ 32 entries
-- of 64 bits, are read back.
pub lhs_wire-ReadsBack : ReadsBack lhs_wire (HasWidth 32) IsLhsTag
lhs_wire-ReadsBack = record {
  commitment = commitment_from_bytes-append;
  tag = lhs_tag_from_bytes-append;
}
