-- ===== src/Prelude/Words.antt =====
-- The wrapping successor of a machine word, and its single bits: `w & (1 << d) != 0`, `w | (1 << d)` and a truncating left shift.
use Prim.Native.Nat.{ℕ, zero, suc, ◌+◌, ◌-◌, ◌*◌, ◌/◌, ◌%◌, ◌^◌, ◌<◌}
use mathlib.Core.Path.{◌≡◌, refl, sym, ap, ◌∙◌}
use mathlib.Core.Bool.{Bool, true, false}
use native.Mathlib.Nat.{
  pow-suc, one-le-pow, mod-add-div', mod-lt, mod-eq_of_lt, mul-add-mod_self_right,
}
use native.Mathlib.Omega.{arith}
use libp2p_cat_rs.Prelude.Tests.{ltb, ◌==◌, if◌then◌else◌}

-- `wrapping_add(1)` of a `u64`.
abbrev pub wrapping_suc : ℕ → ℕ
wrapping_suc n = (n + 1) % 2 ^ 64

-- `w & (1 << d) != 0`
unfoldable pub test_bit : ℕ → ℕ → Bool
test_bit w zero = w % 2 == 1
test_bit w (suc d) = test_bit (w / 2) d

-- `w | (1 << d)`
unfoldable pub set_bit : ℕ → ℕ → ℕ
set_bit w zero = if w % 2 == 1 then w else w + 1
set_bit w (suc d) = w % 2 + 2 * set_bit (w / 2) d

-- `w << s` on words of `n` bits.
unfoldable pub shift_left : ℕ → ℕ → ℕ → ℕ
shift_left n w s = w * 2 ^ s % 2 ^ n

pub test_bit-set_bit :
    (w d e : ℕ) → test_bit (set_bit w d) e ≡ (if d == e then true else test_bit w e)
unfolding test_bit set_bit
test_bit-set_bit w zero zero = ground arith
test_bit-set_bit w zero (suc e) =
    let half : (if w % 2 == 1 then w else w + 1) / 2 ≡ w / 2 = ground arith in
    rw half (ground arith)
test_bit-set_bit w (suc d) zero = ground arith
test_bit-set_bit w (suc d) (suc e) =
    let half : (w % 2 + 2 * set_bit (w / 2) d) / 2 ≡ set_bit (w / 2) d = omega arith in
    rw half (ground (arith, test_bit-set_bit (w / 2) d e))

-- Halving a remainder by a power of two.
half-mod : (x m : ℕ) → (x % 2 ^ suc m) / 2 ≡ (x / 2) % 2 ^ m
half-mod x m =
    let p = 2 ^ m in
    let r = x % 2 ^ suc m in
    let q = x / 2 ^ suc m in
    let split : r + q * 2 ^ suc m ≡ x = mod-add-div' x (2 ^ suc m) in
    let twice : q * 2 ^ suc m ≡ 2 * (q * p) = omega (arith, ap (λ (t : ℕ). q * t) (pow-suc 2 m)) in
    let halved : x / 2 ≡ q * p + r / 2 = omega (arith, split, twice) in
    let small : r < 2 ^ suc m = mod-lt x (one-le-pow (suc m) 2 (omega arith)) in
    rw halved
      (sym (mul-add-mod_self_right q p (r / 2) ∙ mod-eq_of_lt (omega (arith, small, pow-suc 2 m))))

pub test_bit-mod : (x n e : ℕ) → e < n → test_bit (x % 2 ^ n) e ≡ test_bit x e
unfolding test_bit
test_bit-mod x zero e h = absurd (omega arith)
test_bit-mod x (suc n) zero h =
    let split = mod-add-div' x (2 ^ suc n) in
    let even : x / 2 ^ suc n * 2 ^ suc n ≡ 2 * (x / 2 ^ suc n * 2 ^ n) =
      omega (arith, ap (λ (t : ℕ). x / 2 ^ suc n * t) (pow-suc 2 n)) in
    let same : x % 2 ^ suc n % 2 ≡ x % 2 = omega (arith, split, even) in rw same refl
test_bit-mod x (suc n) (suc e) h = rw (half-mod x n) (test_bit-mod (x / 2) n e (omega arith))

test_bit-mul :
    (w s e : ℕ) → test_bit (w * 2 ^ s) e ≡ (if ltb e s then false else test_bit w (e - s))
unfolding test_bit
test_bit-mul w zero e =
    let same : w * 2 ^ 0 ≡ w = omega arith in
    let none_off : e - 0 ≡ e = omega arith in rw (same, none_off) (ground arith)
test_bit-mul w (suc s) zero =
    let even : w * 2 ^ suc s ≡ 2 * (w * 2 ^ s) =
      omega (arith, ap (λ (t : ℕ). w * t) (pow-suc 2 s)) in
    ground (arith, even)
test_bit-mul w (suc s) (suc e) =
    let even : w * 2 ^ suc s ≡ 2 * (w * 2 ^ s) =
      omega (arith, ap (λ (t : ℕ). w * t) (pow-suc 2 s)) in
    let half : w * 2 ^ suc s / 2 ≡ w * 2 ^ s = omega (arith, even) in
    let less : suc e - suc s ≡ e - s = omega arith in
    rw (half, less) (ground (arith, test_bit-mul w s e))

-- The bits of a shifted word: the low ones are clear, the others have moved up.
pub test_bit-shift_left :
    (n w s e : ℕ)
    → e < n
    → test_bit (shift_left n w s) e ≡ (if ltb e s then false else test_bit w (e - s))
unfolding shift_left
test_bit-shift_left n w s e h = test_bit-mod (w * 2 ^ s) n e h ∙ test_bit-mul w s e
