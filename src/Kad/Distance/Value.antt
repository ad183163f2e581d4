-- ===== src/Kad/Distance/Value.antt =====
-- The distance of crates/libp2p-cat-kad/src/distance.rs as a 256-bit number.
use native.Mathlib.Nat.{pow-le-pow_right, one-le-pow, pow-zero, pow-suc, zero-add, suc-add}
use libp2p_cat_rs.Prelude.{
  ℕ, zero, suc, ◌+◌, ◌-◌, ◌*◌, ◌^◌, ◌≤◌, ◌<◌, ◌≡◌, refl, ◌↔◌, ◌⊎◌, inl, inr, true, none, some, List,
  [], ◌∷◌, arith, length, All, ◌==◌, Bool-cases, Option-cases, all, leb, sym, ap, ◌∙◌,
}
use libp2p_cat_rs.Prelude.Bytes.{
  IsByte, from_be_bytes, from_be_bytes-cons, from_be_bytes-lt, lex-from_be_bytes,
}
use libp2p_cat_rs.Prelude.Lex.{cmp}
use Prim.Native.Nat.{compare}
use libp2p_cat_rs.Kad.Distance.{
  Distance, distance_lex, node_id_len, node_id_bits, u8_leading_zeros, find_nonzero, bucket_index,
}

abbrev pub IsDistance : Distance → Type 0
IsDistance d = (length d.bytes ≡ node_id_len) × All IsByte d.bytes

unfoldable pub value : Distance → ℕ
value d = from_be_bytes d.bytes

pow_add : (a m n : ℕ) → a ^ (m + n) ≡ a ^ m * a ^ n
pow_add a zero n = rw zero-add (omega (arith, ap (λ (t : ℕ). t * a ^ n) (pow-zero a)))
pow_add a (suc m) n = rw suc-add (
    omega (
      arith,
      pow-suc a (m + n),
      pow-suc a m,
      ap (λ (t : ℕ). t * a) (pow_add a m n),
      ap (λ (t : ℕ). t * a ^ n) (pow-suc a m),
    ))

-- 256 is the eighth power of two.
pow_256 : (m : ℕ) → 256 ^ m ≡ 2 ^ (m * 8)
pow_256 zero = refl
pow_256 (suc m) =
    let e : suc m * 8 ≡ 8 + m * 8 = omega arith in
    rw e (omega (arith, pow_add 2 8 (m * 8), pow-suc 256 m, pow_256 m))

-- The highest bit of a byte that is not zero.
u8_top_bit :
    (b : ℕ)
    → 0 < b
    → b < 256
    → (z : ℕ) × (u8_leading_zeros b + z ≡ 7) × (2 ^ z ≤ b) × (b < 2 ^ suc z)
unfolding u8_leading_zeros
u8_top_bit b lo hi = elim (Bool-cases (leb 16 b)) [
  | inl e ↦ elim (Bool-cases (leb 64 b)) [
    | inl f ↦ elim (Bool-cases (leb 128 b)) [
      | inl g ↦ (7, ground arith, ground arith, ground arith)
      | inr g ↦ (6, ground arith, ground arith, ground arith)
    ]
    | inr f ↦ elim (Bool-cases (leb 32 b)) [
      | inl g ↦ (5, ground arith, ground arith, ground arith)
      | inr g ↦ (4, ground arith, ground arith, ground arith)
    ]
  ]
  | inr e ↦ elim (Bool-cases (leb 4 b)) [
    | inl f ↦ elim (Bool-cases (leb 8 b)) [
      | inl g ↦ (3, ground arith, ground arith, ground arith)
      | inr g ↦ (2, ground arith, ground arith, ground arith)
    ]
    | inr f ↦ elim (Bool-cases (leb 2 b)) [
      | inl g ↦ (1, ground arith, ground arith, ground arith)
      | inr g ↦ (0, ground arith, ground arith, ground arith)
    ]
  ]
]

-- The first byte that is not zero, with `m` bytes behind it, bounds the number on both sides.
record TopByte (i : ℕ) (bs : List ℕ) (idx b : ℕ) : Type 0 where
  m : ℕ
  place : idx + m + 1 ≡ i + length bs
  positive : 0 < b
  byte : b < 256
  above : b * 256 ^ m ≤ from_be_bytes bs
  below : from_be_bytes bs < (b + 1) * 256 ^ m

find_nonzero-TopByte :
    (i : ℕ) (bs : List ℕ) {idx b : ℕ}
    → All IsByte bs
    → find_nonzero i bs ≡ some (idx, b)
    → TopByte i bs idx b
unfolding find_nonzero
find_nonzero-TopByte i [] h e = cc
find_nonzero-TopByte i (x ∷ bs) {idx} {b} (hx, h) e = elim (Bool-cases (x == 0)) [
  | inl z ↦
      let t : TopByte (suc i) bs idx b = find_nonzero-TopByte (suc i) bs h (rw z at e) in
      let zero_x : x ≡ 0 = ground arith in
      let cons : from_be_bytes (x ∷ bs) ≡ from_be_bytes bs =
        from_be_bytes-cons x bs ∙ rw zero_x (omega arith) in
      record {
        m = t.m;
        place = omega (arith, t.place);
        positive = t.positive;
        byte = t.byte;
        above = rw cons t.above;
        below = rw cons t.below;
      }
  | inr z ↦
      let found : (idx ≡ i) × (b ≡ x) = ground arith in
      let lt = from_be_bytes-lt bs h in
      record {
        m = length bs;
        place = omega (arith, found);
        positive = ground (arith, found);
        byte = omega (arith, found);
        above = rw found.1 (omega (arith, from_be_bytes-cons x bs));
        below = rw found.1 (omega (arith, from_be_bytes-cons x bs, lt));
      }
]

find_nonzero-none :
    (i : ℕ) (bs : List ℕ) → (find_nonzero i bs ≡ none) ↔ (all (λ b. b == 0) bs ≡ true)
unfolding find_nonzero
find_nonzero-none i [] = (λ h. refl, λ h. refl)
find_nonzero-none i (b ∷ bs) =
    let ih = find_nonzero-none (suc i) bs in (λ h. ground (arith, ih.0), λ h. ground (arith, ih.1))

-- The powers of two around a number whose top byte is known.
TopByte-bounds :
    (bs : List ℕ) {idx b : ℕ}
    → length bs ≡ node_id_len
    → TopByte 0 bs idx b
    → (i : ℕ) × (node_id_bits - 1 - (idx * 8 + u8_leading_zeros b) ≡ i)
      × (i < node_id_bits)
      × (2 ^ i ≤ from_be_bytes bs)
      × (from_be_bytes bs < 2 ^ suc i)
TopByte-bounds bs {idx} {b} len t =
    let (z, zeros, low, high) = u8_top_bit b t.positive t.byte in
    let split : 2 ^ (z + t.m * 8) ≡ 2 ^ z * 256 ^ t.m =
      pow_add 2 z (t.m * 8) ∙ ap (λ (p : ℕ). 2 ^ z * p) (sym (pow_256 t.m)) in
    let lower : 2 ^ z * 256 ^ t.m ≤ b * 256 ^ t.m = grind (arith, low) in
    let upper : (b + 1) * 256 ^ t.m ≤ 2 ^ suc z * 256 ^ t.m = grind (arith, high) in
    (
      z + t.m * 8,
      omega (arith, t.place, zeros, len),
      omega (arith, t.place, zeros, len),
      omega (arith, t.above, split, lower),
      omega (
        arith,
        t.below,
        split,
        upper,
        pow-suc 2 (z + t.m * 8),
        ap (λ (p : ℕ). p * 256 ^ t.m) (pow-suc 2 z),
      ),
    )

-- Where a distance of 32 bytes has bucket `i`, `i` is below 256 and is the position of the highest
-- bit of the number that the distance stands for.
pub bucket_index_bounds :
    (d : Distance) (i : ℕ)
    → IsDistance d
    → bucket_index d ≡ some i
    → (i < node_id_bits) × (2 ^ i ≤ value d) × (value d < 2 ^ suc i)
unfolding bucket_index value
bucket_index_bounds d i (len, bytes) e = in_bucket (Option-cases (find_nonzero 0 d.bytes))
  where
    open d use {bytes as bs}

    in_bucket :
        (find_nonzero 0 d.bytes ≡ none) ⊎ ((p : ℕ × ℕ) × (find_nonzero 0 d.bytes ≡ some p))
        → (i < node_id_bits) × (2 ^ i ≤ from_be_bytes bs) × (from_be_bytes bs < 2 ^ suc i)
    in_bucket (inl n) = ground (arith, (find_nonzero-none 0 bs).0 n)
    in_bucket (inr ((idx, b), f)) =
        let (j, place, below, low, high) =
          TopByte-bounds bs len (find_nonzero-TopByte 0 bs bytes f) in
        let same : j ≡ i = ground (arith, place, f) in rw (← same) (below, low, high)

all_zero : (bs : List ℕ) → all (λ b. b == 0) bs ≡ true → from_be_bytes bs ≡ 0
all_zero [] h = unfold from_be_bytes in refl
all_zero (b ∷ bs) h =
    let zero_b : b ≡ 0 = ground arith in
    let ih = all_zero bs (ground arith) in rw zero_b (omega (arith, from_be_bytes-cons 0 bs, ih))

-- Only the zero distance has no bucket.
pub bucket_index-none : (d : Distance) → IsDistance d → (bucket_index d ≡ none) ↔ (value d ≡ 0)
unfolding value bucket_index
bucket_index-none d h = (
  λ e. all_zero d.bytes (ground arith),
  λ v. elim (Option-cases (bucket_index d)) [
    | inl e ↦ e
    | inr (i, e) ↦
        let (below, low, high) = bucket_index_bounds d i h e in
        absurd (omega (arith, low, one-le-pow i 2 (omega arith), v))
  ],
)

-- Two distances of 32 bytes are ordered as the numbers that they stand for.
pub cmp-compare :
    (a b : Distance) → IsDistance a → IsDistance b → cmp a b ≡ compare (value a) (value b)
unfolding value
cmp-compare a b (la, ha) (lb, hb) = lex-from_be_bytes a.bytes b.bytes (omega arith) ha hb

-- The position of the highest bit is unique.
top_bit_unique : (i j v : ℕ) → 2 ^ i ≤ v → v < 2 ^ suc j → i ≤ j
top_bit_unique i j v low high = elim (Bool-cases (leb i j)) [
  | inl e ↦ ground arith
  | inr e ↦
      let above : suc j ≤ i = ground arith in
      absurd (omega (arith, pow-le-pow_right {n = 2} (omega arith) above))
]

-- A distance of 32 bytes has bucket `i` exactly when `i` is the position of the highest bit of the
-- number that the distance stands for.
pub bucket_index_iff :
    (d : Distance) (i : ℕ)
    → IsDistance d
    → (bucket_index d ≡ some i) ↔ ((2 ^ i ≤ value d) × (value d < 2 ^ suc i))
bucket_index_iff d i h = (
  λ e. let (below, low, high) = bucket_index_bounds d i h e in (low, high),
  λ (low, high). elim (Option-cases (bucket_index d)) [
    | inl e ↦ absurd (omega (arith, low, one-le-pow i 2 (omega arith), (bucket_index-none d h).0 e))
    | inr (j, e) ↦
        let (below, low_j, high_j) = bucket_index_bounds d j h e in
        let up = top_bit_unique i j (value d) low high_j in
        let down = top_bit_unique j i (value d) low_j high in
        e ∙ ap (λ (n : ℕ). some n) (omega (arith, up, down))
  ],
)
