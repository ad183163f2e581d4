-- ===== src/Prelude/Bits.antt =====
-- Exclusive or on bytes: its laws are checked by evaluation over all pairs of bytes.
use Prim.Native.Nat.{ℕ, zero, suc, ◌+◌, ◌<◌, bit_xor, bit_or}
use mathlib.Core.Path.{◌≡◌, refl}
use mathlib.Core.Logic.{◌↔◌}
use mathlib.Core.Bool.{Bool, true, ◌&&◌, ◌||◌}
use native.Mathlib.Omega.{arith}
use libp2p_cat_rs.Prelude.Tests.{ltb, ◌==◌}

-- `check` passes on every number under the limit.
passes : (ℕ → Bool) → ℕ → Bool
passes check zero = true
passes check (suc limit) = passes check limit && check limit

passes-at :
    (check : ℕ → Bool) (limit value : ℕ)
    → value < limit
    → passes check limit ≡ true
    → check value ≡ true
unfolding passes
passes-at check zero value under all = absurd (omega arith)
passes-at check (suc limit) value under all =
    ground (arith, λ (lower : value < limit). passes-at check limit value lower)

-- What is checked of a pair: the order does not matter, a second xor undoes the first, and the
-- result is a byte.
pair_laws : ℕ → ℕ → Bool
pair_laws x y =
    bit_xor x y == bit_xor y x && (bit_xor (bit_xor x y) y == x && ltb (bit_xor x y) 256)

pair_table : passes (λ z. passes (pair_laws z) 256) 256 ≡ true
unfolding passes pair_laws
pair_table = refl

pair_laws_at : (x y : ℕ) → x < 256 → y < 256 → pair_laws x y ≡ true
pair_laws_at x y hx hy =
    passes-at (pair_laws x) 256 y hy (passes-at (λ z. passes (pair_laws z) 256) 256 x hx pair_table)

pub bit_xor_comm : (x y : ℕ) → x < 256 → y < 256 → bit_xor x y ≡ bit_xor y x
unfolding pair_laws
bit_xor_comm x y hx hy = ground (arith, pair_laws_at x y hx hy)

pub bit_xor_cancel : (x y : ℕ) → x < 256 → y < 256 → bit_xor (bit_xor x y) y ≡ x
unfolding pair_laws
bit_xor_cancel x y hx hy = ground (arith, pair_laws_at x y hx hy)

pub bit_xor-lt : (x y : ℕ) → x < 256 → y < 256 → bit_xor x y < 256
unfolding pair_laws
bit_xor-lt x y hx hy = ground (arith, pair_laws_at x y hx hy)

zero_laws : ℕ → Bool
zero_laws x = bit_xor 0 x == x && bit_xor x x == 0

zero_table : passes zero_laws 256 ≡ true
unfolding passes zero_laws
zero_table = refl

pub zero-bit_xor : (x : ℕ) → x < 256 → bit_xor 0 x ≡ x
unfolding zero_laws
zero-bit_xor x hx = ground (arith, passes-at zero_laws 256 x hx zero_table)

pub bit_xor_self : (x : ℕ) → x < 256 → bit_xor x x ≡ 0
unfolding zero_laws
bit_xor_self x hx = ground (arith, passes-at zero_laws 256 x hx zero_table)

pub eq_of_bit_xor-zero : (x y : ℕ) → x < 256 → y < 256 → bit_xor x y ≡ 0 → x ≡ y
eq_of_bit_xor-zero x y hx hy h = ground (arith, bit_xor_cancel x y hx hy, zero-bit_xor y hy)

-- Or of two bytes: a byte, and zero only for two zeros.
or_laws : ℕ → ℕ → Bool
or_laws x y =
    ltb (bit_or x y) 256
    && ((bit_or x y == 0) && (x == 0 && y == 0) || ltb 0 (bit_or x y) && ltb 0 (x + y))

or_table : passes (λ z. passes (or_laws z) 256) 256 ≡ true
unfolding passes or_laws
or_table = refl

or_laws_at : (x y : ℕ) → x < 256 → y < 256 → or_laws x y ≡ true
or_laws_at x y hx hy =
    passes-at (or_laws x) 256 y hy (passes-at (λ z. passes (or_laws z) 256) 256 x hx or_table)

pub bit_or-lt : (x y : ℕ) → x < 256 → y < 256 → bit_or x y < 256
unfolding or_laws
bit_or-lt x y hx hy = ground (arith, or_laws_at x y hx hy)

pub bit_or-zero : (x y : ℕ) → x < 256 → y < 256 → (bit_or x y ≡ 0) ↔ ((x ≡ 0) × (y ≡ 0))
unfolding or_laws
bit_or-zero x y hx hy = (
  λ h. (ground (arith, or_laws_at x y hx hy), ground (arith, or_laws_at x y hx hy)),
  λ h. ground (arith, or_laws_at x y hx hy),
)
