-- ===== src/Prelude/Lex.antt =====
-- The lexicographic order on lists of numbers, and keys that are ordered through such a list: the
-- derived `Ord` of byte arrays, strings and address types.
use Prim.Native.Nat.{ℕ, compare, Ordering}
use mathlib.Core.Path.{◌≡◌, refl}
use mathlib.Core.Logic.{◌↔◌}
use mathlib.Core.Bool.{Bool, true, false}
use mathlib.Core.List.{List, [], ◌∷◌}
use native.Mathlib.Omega.{arith}

unfoldable pub lex : List ℕ → List ℕ → Ordering
lex [] [] = Ordering.eq
lex [] (y ∷ ys) = Ordering.lt
lex (x ∷ xs) [] = Ordering.gt
lex (x ∷ xs) (y ∷ ys) = elim (compare x y) [
  | Ordering.lt ↦ Ordering.lt
  | Ordering.gt ↦ Ordering.gt
  | Ordering.eq ↦ lex xs ys
]

pub lex_refl : (xs : List ℕ) → lex xs xs ≡ Ordering.eq
unfolding lex
lex_refl [] = refl
lex_refl (x ∷ xs) = ground (arith, lex_refl xs)

pub eq_of_lex : (xs ys : List ℕ) → lex xs ys ≡ Ordering.eq → xs ≡ ys
unfolding lex
eq_of_lex [] [] h = refl
eq_of_lex [] (y ∷ ys) h = cc
eq_of_lex (x ∷ xs) [] h = cc
eq_of_lex (x ∷ xs) (y ∷ ys) h = ground (arith, eq_of_lex xs ys)

pub lex_swap : (xs ys : List ℕ) → lex xs ys ≡ Ordering.gt → lex ys xs ≡ Ordering.lt
unfolding lex
lex_swap [] [] h = cc
lex_swap [] (y ∷ ys) h = cc
lex_swap (x ∷ xs) [] h = refl
lex_swap (x ∷ xs) (y ∷ ys) h = ground (arith, lex_swap xs ys)

pub lex_trans :
    (xs ys zs : List ℕ)
    → lex xs ys ≡ Ordering.lt
    → lex ys zs ≡ Ordering.lt
    → lex xs zs ≡ Ordering.lt
unfolding lex
lex_trans [] ys [] h k = ground (arith, lex_swap ys [])
lex_trans [] ys (z ∷ zs) h k = refl
lex_trans (x ∷ xs) [] zs h k = cc
lex_trans (x ∷ xs) (y ∷ ys) [] h k = cc
lex_trans (x ∷ xs) (y ∷ ys) (z ∷ zs) h k = ground (arith, lex_trans xs ys zs)

-- A key type whose order is that of an injective list of numbers.
pub record LexKey {ℓ} (K : Type ℓ) : Type ℓ where
  pub to_key : K → List ℕ
  pub to_key_injective : (a b : K) → to_key a ≡ to_key b → a ≡ b

module _ {ℓ} {K : Type ℓ} ⦃o : LexKey K⦄ where
  -- `Ord::cmp` and `==` of the key type.
  abbrev pub cmp : K → K → Ordering
  cmp a b = lex (o.to_key a) (o.to_key b)

  abbrev pub key_eq : K → K → Bool
  key_eq a b = elim (cmp a b) [ Ordering.eq ↦ true | _ ↦ false ]

  pub cmp_iff : (a b : K) → (cmp a b ≡ Ordering.eq) ↔ (a ≡ b)
  cmp_iff a b = (λ h. o.to_key_injective a b (eq_of_lex _ _ h), λ e. rw e (lex_refl (o.to_key b)))

  pub key_eq_refl : (a : K) → key_eq a a ≡ true
  key_eq_refl a = ground (arith, cmp_iff a a)

  pub eq_of_key_eq : (a b : K) → key_eq a b ≡ true → a ≡ b
  eq_of_key_eq a b h = ground (arith, cmp_iff a b)

  pub cmp_trans :
      (a b c : K) → cmp a b ≡ Ordering.lt → cmp b c ≡ Ordering.lt → cmp a c ≡ Ordering.lt
  cmp_trans a b c h k = lex_trans (o.to_key a) (o.to_key b) (o.to_key c) h k

  pub cmp_swap : (a b : K) → cmp a b ≡ Ordering.gt → cmp b a ≡ Ordering.lt
  cmp_swap a b h = lex_swap (o.to_key a) (o.to_key b) h
