-- ===== src/Prelude/Bytes.antt =====
-- Bytes, and the big-endian conversions of Rust's unsigned integers.
use Prim.Native.Nat.{ℕ, zero, suc, ◌+◌, ◌*◌, ◌/◌, ◌%◌, ◌^◌, ◌≤◌, ◌<◌, compare}
use mathlib.Core.Path.{◌≡◌, refl, ap}
use mathlib.Core.List.{List, [], ◌∷◌, ◌++◌, foldl, foldl-append}
use native.Mathlib.Nat.{pow-suc, mul-le-mul_right}
use native.Mathlib.Omega.{arith}
use libp2p_cat_rs.Prelude.Lex.{lex}
use libp2p_cat_rs.Prelude.Lists.{length, length-append, All, All-append}

abbrev pub IsByte : ℕ → Type 0
IsByte b = b < 256

-- `to_be_bytes` of an integer of `n` bytes.
unfoldable pub to_be_bytes : ℕ → ℕ → List ℕ
to_be_bytes zero x = []
to_be_bytes (suc n) x = to_be_bytes n (x / 256) ++ (x % 256 ∷ [])

abbrev push_byte : ℕ → ℕ → ℕ
push_byte acc b = acc * 256 + b

-- `from_be_bytes`, for any number of bytes.
unfoldable pub from_be_bytes : List ℕ → ℕ
from_be_bytes = foldl push_byte 0

pub length-to_be_bytes : (n x : ℕ) → length (to_be_bytes n x) ≡ n
unfolding to_be_bytes
length-to_be_bytes zero x = refl
length-to_be_bytes (suc n) x =
    omega (
      arith,
      length-append (to_be_bytes n (x / 256)) (x % 256 ∷ []),
      length-to_be_bytes n (x / 256),
    )

pub to_be_bytes-IsByte : (n x : ℕ) → All IsByte (to_be_bytes n x)
unfolding to_be_bytes
to_be_bytes-IsByte zero x = tt
to_be_bytes-IsByte (suc n) x =
    All-append IsByte _ _ (to_be_bytes-IsByte n (x / 256)) (omega arith, tt)

from_be_bytes-snoc :
    (bs : List ℕ) (b : ℕ) → from_be_bytes (bs ++ (b ∷ [])) ≡ from_be_bytes bs * 256 + b
unfolding from_be_bytes
from_be_bytes-snoc bs b = rw foldl-append

pub from_be_bytes-to_be_bytes : (n x : ℕ) → x < 256 ^ n → from_be_bytes (to_be_bytes n x) ≡ x
unfolding to_be_bytes
from_be_bytes-to_be_bytes zero x h = unfold from_be_bytes in omega arith
from_be_bytes-to_be_bytes (suc n) x h = omega (
  arith,
  from_be_bytes-snoc (to_be_bytes n (x / 256)) (x % 256),
  from_be_bytes-to_be_bytes n (x / 256) (omega (arith, pow-suc 256 n)),
)

-- The first byte is the highest.
foldl-push_byte :
    (acc : ℕ) (bs : List ℕ) → foldl push_byte acc bs ≡ acc * 256 ^ length bs + foldl push_byte 0 bs
foldl-push_byte acc [] = omega arith
foldl-push_byte acc (b ∷ bs) = omega (
  arith,
  foldl-push_byte (acc * 256 + b) bs,
  foldl-push_byte (0 * 256 + b) bs,
  ap (λ (t : ℕ). acc * t) (pow-suc 256 (length bs)),
)

pub from_be_bytes-cons :
    (b : ℕ) (bs : List ℕ) → from_be_bytes (b ∷ bs) ≡ b * 256 ^ length bs + from_be_bytes bs
unfolding from_be_bytes
from_be_bytes-cons b bs = omega (arith, foldl-push_byte (0 * 256 + b) bs)

pub from_be_bytes-lt : (bs : List ℕ) → All IsByte bs → from_be_bytes bs < 256 ^ length bs
from_be_bytes-lt [] h = unfold from_be_bytes in omega arith
from_be_bytes-lt (b ∷ bs) (hb, h) =
    let below : suc b * 256 ^ length bs ≤ 256 * 256 ^ length bs =
      mul-le-mul_right (256 ^ length bs) hb in
    omega (arith, from_be_bytes-cons b bs, from_be_bytes-lt bs h, pow-suc 256 (length bs), below)

-- Lists of one length, read as numbers, are ordered as `lex` orders them.
pub lex-from_be_bytes :
    (xs ys : List ℕ)
    → length xs ≡ length ys
    → All IsByte xs
    → All IsByte ys
    → lex xs ys ≡ compare (from_be_bytes xs) (from_be_bytes ys)
unfolding lex
lex-from_be_bytes [] [] e hx hy = unfold from_be_bytes in refl
lex-from_be_bytes [] (y ∷ ys) e hx hy = absurd (omega arith)
lex-from_be_bytes (x ∷ xs) [] e hx hy = absurd (omega arith)
lex-from_be_bytes (x ∷ xs) (y ∷ ys) e (hx, hxs) (hy, hys) =
    let n : length xs ≡ length ys = omega arith in
    let p : 256 ^ length xs ≡ 256 ^ length ys = ap (λ (t : ℕ). 256 ^ t) n in
    ground (
      arith,
      p,
      ap (λ (t : ℕ). x * t) p,
      from_be_bytes-cons x xs,
      from_be_bytes-cons y ys,
      from_be_bytes-lt xs hxs,
      from_be_bytes-lt ys hys,
      λ (h : suc x ≤ y). mul-le-mul_right (256 ^ length ys) h,
      λ (h : suc y ≤ x). mul-le-mul_right (256 ^ length ys) h,
      lex-from_be_bytes xs ys n hxs hys,
    )
