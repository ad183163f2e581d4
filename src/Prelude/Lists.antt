-- ===== src/Prelude/Lists.antt =====
-- Lists measured, indexed and sliced by native numbers, under the library's names. The slices are
-- those of Rust: `get` returns `None` where the range leaves the slice.
use Prim.Native.Nat.{ℕ, zero, suc, ◌+◌, ◌-◌, ◌≤◌, ◌<◌, min}
use mathlib.Core.Path.{◌≡◌, refl, ap, ◌∙◌}
use mathlib.Core.Bool.{Bool, true, false, ◌&&◌}
use mathlib.Core.List.{List, [], ◌∷◌, ◌++◌}
use mathlib.Core.Option.{Option, none, some}
use native.Mathlib.Omega.{arith}
use mathlib.Core.Logic.{inl, inr}
use libp2p_cat_rs.Prelude.Tests.{leb, le→leb, ◌==◌, if◌then◌else◌, Bool-cases}

module _ {ℓ} {A : Type ℓ} where
  abbrev pub length : List A → ℕ
  length [] = 0
  length (x ∷ xs) = suc (length xs)

  abbrev pub is_empty : List A → Bool
  is_empty [] = true
  is_empty (x ∷ xs) = false

  abbrev pub first : List A → Option A
  first [] = none
  first (x ∷ xs) = some x

  abbrev pub get_elem? : List A → ℕ → Option A
  get_elem? [] i = none
  get_elem? (x ∷ xs) zero = some x
  get_elem? (x ∷ xs) (suc i) = get_elem? xs i

  abbrev pub get_or : List A → ℕ → A → A
  get_or [] i d = d
  get_or (x ∷ xs) zero d = x
  get_or (x ∷ xs) (suc i) d = get_or xs i d

  abbrev pub take : ℕ → List A → List A
  take zero xs = []
  take (suc n) [] = []
  take (suc n) (x ∷ xs) = x ∷ take n xs

  abbrev pub drop : ℕ → List A → List A
  drop zero xs = xs
  drop (suc n) [] = []
  drop (suc n) (x ∷ xs) = drop n xs

  abbrev pub replicate : ℕ → A → List A
  replicate zero a = []
  replicate (suc n) a = a ∷ replicate n a

  -- `core::array::from_fn`: the element at each index, from `i` on.
  abbrev pub from_fn_at : ℕ → ℕ → (ℕ → A) → List A
  from_fn_at zero i f = []
  from_fn_at (suc n) i f = f i ∷ from_fn_at n (suc i) f

  abbrev pub from_fn : ℕ → (ℕ → A) → List A
  from_fn n f = from_fn_at n 0 f

  abbrev pub all : (A → Bool) → List A → Bool
  all p [] = true
  all p (x ∷ xs) = p x && all p xs

  abbrev pub filter : (A → Bool) → List A → List A
  filter p [] = []
  filter p (x ∷ xs) = if p x then x ∷ filter p xs else filter p xs

  abbrev pub All {κ} : (A → Type κ) → List A → Type κ
  All P [] = Unit {κ}
  All P (x ∷ xs) = P x × All P xs

  -- `s.get(..n)`, `s.get(n..)` and `s.get(a..b)`.
  unfoldable pub slice_to : ℕ → List A → Option (List A)
  slice_to n xs = if leb n (length xs) then some (take n xs) else none

  unfoldable pub slice_from : ℕ → List A → Option (List A)
  slice_from n xs = if leb n (length xs) then some (drop n xs) else none

  unfoldable pub slice : ℕ → ℕ → List A → Option (List A)
  slice a b xs = if leb a b && leb b (length xs) then some (take (b - a) (drop a xs)) else none

  -- `.unwrap_or(&[])`
  abbrev pub or_empty : Option (List A) → List A
  or_empty none = []
  or_empty (some xs) = xs

  -- `<[A; n]>::try_from`
  unfoldable pub try_array : ℕ → List A → Option (List A)
  try_array n xs = if length xs == n then some xs else none

  pub length-append : (xs ys : List A) → length (xs ++ ys) ≡ length xs + length ys
  length-append [] ys = omega arith
  length-append (x ∷ xs) ys = omega (arith, length-append xs ys)

  pub take-append : (xs ys : List A) (n : ℕ) → length xs ≡ n → take n (xs ++ ys) ≡ xs
  take-append [] ys zero h = refl
  take-append [] ys (suc n) h = absurd (omega arith)
  take-append (x ∷ xs) ys zero h = absurd (omega arith)
  take-append (x ∷ xs) ys (suc n) h = ap (λ t. x ∷ t) (take-append xs ys n (omega arith))

  pub drop-append : (xs ys : List A) (n : ℕ) → length xs ≡ n → drop n (xs ++ ys) ≡ ys
  drop-append [] ys zero h = refl
  drop-append [] ys (suc n) h = absurd (omega arith)
  drop-append (x ∷ xs) ys zero h = absurd (omega arith)
  drop-append (x ∷ xs) ys (suc n) h = drop-append xs ys n (omega arith)

  pub take-append-drop : (n : ℕ) (xs : List A) → take n xs ++ drop n xs ≡ xs
  take-append-drop zero xs = refl
  take-append-drop (suc n) [] = refl
  take-append-drop (suc n) (x ∷ xs) = ap (λ t. x ∷ t) (take-append-drop n xs)

  pub length-take : (n : ℕ) (xs : List A) → length (take n xs) ≡ min n (length xs)
  length-take zero xs = omega arith
  length-take (suc n) [] = omega arith
  length-take (suc n) (x ∷ xs) = omega (arith, length-take n xs)

  pub length-drop : (n : ℕ) (xs : List A) → length (drop n xs) ≡ length xs - n
  length-drop zero xs = omega arith
  length-drop (suc n) [] = omega arith
  length-drop (suc n) (x ∷ xs) = omega (arith, length-drop n xs)

  pub length-from_fn_at : (n i : ℕ) (f : ℕ → A) → length (from_fn_at n i f) ≡ n
  length-from_fn_at zero i f = refl
  length-from_fn_at (suc n) i f = ap suc (length-from_fn_at n (suc i) f)

  pub length-filter-le : (p : A → Bool) (xs : List A) → length (filter p xs) ≤ length xs
  length-filter-le p [] = omega arith
  length-filter-le p (x ∷ xs) = ground (arith, length-filter-le p xs)

  pub All-append {κ} : (P : A → Type κ) (xs ys : List A) → All P xs → All P ys → All P (xs ++ ys)
  All-append P [] ys hx hy = hy
  All-append P (x ∷ xs) ys (h, hx) hy = (h, All-append P xs ys hx hy)

  pub All-take {κ} : (P : A → Type κ) (n : ℕ) (xs : List A) → All P xs → All P (take n xs)
  All-take P zero xs h = tt
  All-take P (suc n) [] h = tt
  All-take P (suc n) (x ∷ xs) (h, hx) = (h, All-take P n xs hx)

  pub All-drop {κ} : (P : A → Type κ) (n : ℕ) (xs : List A) → All P xs → All P (drop n xs)
  All-drop P zero xs h = h
  All-drop P (suc n) [] h = tt
  All-drop P (suc n) (x ∷ xs) (h, hx) = All-drop P n xs hx

  pub All-filter {κ} :
      (P : A → Type κ) (p : A → Bool) (xs : List A) → All P xs → All P (filter p xs)
  All-filter P p [] h = tt
  All-filter P p (x ∷ xs) (h, hx) = elim (Bool-cases (p x)) [
    | inl e ↦ rw e (h, All-filter P p xs hx)
    | inr e ↦ rw e (All-filter P p xs hx)
  ]

module _ {ℓ} {A : Type ℓ} where
  -- What the slices give on a list that is known in parts.
  pub slice_to-append : (xs ys : List A) (n : ℕ) → length xs ≡ n → slice_to n (xs ++ ys) ≡ some xs
  unfolding slice_to
  slice_to-append xs ys n h = ground (arith, take-append xs ys n h, length-append xs ys)

  pub slice_from-append :
      (xs ys : List A) (n : ℕ) → length xs ≡ n → slice_from n (xs ++ ys) ≡ some ys
  unfolding slice_from
  slice_from-append xs ys n h = ground (arith, drop-append xs ys n h, length-append xs ys)

  pub slice-append :
      (xs ys zs : List A) (a b : ℕ)
      → length xs ≡ a
      → a + length ys ≡ b
      → slice a b (xs ++ (ys ++ zs)) ≡ some ys
  unfolding slice
  slice-append xs ys zs a b ha hb =
      rw
        (
          le→leb a b (omega arith),
          le→leb b (length (xs ++ (ys ++ zs)))
              (omega (arith, length-append xs (ys ++ zs), length-append ys zs)),
          drop-append xs (ys ++ zs) a ha,
          take-append ys zs (b - a) (omega arith),
        )
        refl

  pub slice_from-cons : (x : A) (xs : List A) → slice_from 1 (x ∷ xs) ≡ some xs
  unfolding slice_from
  slice_from-cons x xs = ground arith

  pub try_array-of_length : (n : ℕ) (xs : List A) → length xs ≡ n → try_array n xs ≡ some xs
  unfolding try_array
  try_array-of_length n xs h = ground arith

  -- Inversions.
  pub slice_to-eq-some :
      (n : ℕ) (xs : List A) {ys : List A}
      → slice_to n xs ≡ some ys
      → (n ≤ length xs) × (ys ≡ take n xs)
  unfolding slice_to
  slice_to-eq-some n xs h = ground arith

  pub slice-eq-some :
      (a b : ℕ) (xs : List A) {ys : List A}
      → slice a b xs ≡ some ys
      → (a ≤ b) × (b ≤ length xs) × (ys ≡ take (b - a) (drop a xs))
  unfolding slice
  slice-eq-some a b xs h = ground arith

  pub slice_from-eq-some :
      (n : ℕ) (xs : List A) {ys : List A}
      → slice_from n xs ≡ some ys
      → (n ≤ length xs) × (ys ≡ drop n xs)
  unfolding slice_from
  slice_from-eq-some n xs h = ground arith

  pub try_array-eq-some :
      (n : ℕ) (xs : List A) {ys : List A} → try_array n xs ≡ some ys → (length xs ≡ n) × (ys ≡ xs)
  unfolding try_array
  try_array-eq-some n xs h = ground arith

  -- Two appends with ends of one length are equal only part by part.
  pub append_injective :
      (xs ys us vs : List A) → length us ≡ length vs → xs ++ us ≡ ys ++ vs → (xs ≡ ys) × (us ≡ vs)
  append_injective [] [] us vs h e = (refl, e)
  append_injective [] (y ∷ ys) us vs h e =
      absurd (omega (arith, ap (λ (t : List A). length t) e, length-append ys vs))
  append_injective (x ∷ xs) [] us vs h e =
      absurd (omega (arith, ap (λ (t : List A). length t) e, length-append xs us))
  append_injective (x ∷ xs) (y ∷ ys) us vs h e =
      let (p, q) = append_injective xs ys us vs h (cc) in (cc, q)

  pub from_fn_at-eq :
      (xs : List A) (i : ℕ) (f : ℕ → A) (d : A)
      → ((j : ℕ) → j < length xs → f (i + j) ≡ get_or xs j d)
      → from_fn_at (length xs) i f ≡ xs
  from_fn_at-eq [] i f d h = refl
  from_fn_at-eq (x ∷ xs) i f d h =
      let head : f i ≡ x = ap f (omega arith) ∙ h 0 (omega arith) in
      let rest : from_fn_at (length xs) (suc i) f ≡ xs =
        from_fn_at-eq xs (suc i) f d (λ j hj. ap f (omega arith) ∙ h (suc j) (omega arith)) in
      cc
