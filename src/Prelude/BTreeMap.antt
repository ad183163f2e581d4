-- ===== src/Prelude/BTreeMap.antt =====
-- `std::collections::BTreeMap` as an association list in ascending order of its keys.
use Prim.Native.Nat.{suc, ◌+◌, ◌≤◌, Ordering}
use mathlib.Core.Path.{◌≡◌, refl, ap}
use mathlib.Core.Bool.{Bool, true, false}
use mathlib.Core.Option
use mathlib.Core.Option.{Option, none, some}
use mathlib.Core.List.{List, [], ◌∷◌, map}
use mathlib.Core.Logic.{inl, inr}
use native.Mathlib.Omega.{arith}
use libp2p_cat_rs.Prelude.Tests.{if◌then◌else◌, Bool-cases}
use libp2p_cat_rs.Prelude.Lists.{length, All, filter, All-filter}
use libp2p_cat_rs.Prelude.Lex.{LexKey, cmp, key_eq, cmp_iff, cmp_trans, cmp_swap}

abbrev pub BTreeMap {ℓ} : Type ℓ → Type ℓ → Type ℓ
BTreeMap K V = List (K × V)

module _ {ℓ} {K V : Type ℓ} where
  abbrev pub keys : BTreeMap K V → List K
  keys m = map (λ e. e.0) m

  abbrev pub values : BTreeMap K V → List V
  values m = map (λ e. e.1) m

module _ {ℓ} {K V : Type ℓ} ⦃o : LexKey K⦄ where
  unfoldable pub get : K → BTreeMap K V → Option V
  get k [] = none
  get k ((j, v) ∷ m) = if key_eq k j then some v else get k m

  abbrev pub contains_key : K → BTreeMap K V → Bool
  contains_key k m = elim (get k m) [ none ↦ false | some _ ↦ true ]

  unfoldable pub insert : K → V → BTreeMap K V → BTreeMap K V
  insert k v [] = (k, v) ∷ []
  insert k v ((j, w) ∷ m) = elim (cmp k j) [
    | Ordering.lt ↦ (k, v) ∷ (j, w) ∷ m
    | Ordering.eq ↦ (k, v) ∷ m
    | Ordering.gt ↦ (j, w) ∷ insert k v m
  ]

  unfoldable pub remove : K → BTreeMap K V → BTreeMap K V
  remove k [] = []
  remove k ((j, v) ∷ m) = if key_eq k j then remove k m else (j, v) ∷ remove k m

  -- A write through `get_mut`.
  unfoldable pub adjust : K → (V → V) → BTreeMap K V → BTreeMap K V
  adjust k f [] = []
  adjust k f ((j, v) ∷ m) = (j, if key_eq k j then f v else v) ∷ adjust k f m

  pub get-insert :
      (j k : K) (v : V) (m : BTreeMap K V)
      → get j (insert k v m) ≡ (if key_eq j k then some v else get j m)
  unfolding get insert
  get-insert j k v [] = refl
  get-insert j k v ((i, w) ∷ m) =
      ground (arith, get-insert j k v m, cmp_iff k i, cmp_iff j i, cmp_iff j k)

  pub get-remove :
      (j k : K) (m : BTreeMap K V) → get j (remove k m) ≡ (if key_eq j k then none else get j m)
  unfolding get remove
  get-remove j k [] = ground arith
  get-remove j k ((i, w) ∷ m) =
      ground (arith, get-remove j k m, cmp_iff k i, cmp_iff j i, cmp_iff j k)

  pub get-adjust :
      (j k : K) (f : V → V) (m : BTreeMap K V)
      → get j (adjust k f m) ≡ (if key_eq j k then Option.map f (get j m) else get j m)
  unfolding get adjust
  get-adjust j k f [] = ground arith
  get-adjust j k f ((i, w) ∷ m) =
      ground (arith, get-adjust j k f m, cmp_iff k i, cmp_iff j i, cmp_iff j k)

  -- Every key of `m` is above `k`.
  abbrev pub Above : K → BTreeMap K V → Type 0
  Above k m = All (λ e. cmp k e.0 ≡ Ordering.lt) m

  abbrev pub IsSorted : BTreeMap K V → Type 0
  IsSorted [] = Unit
  IsSorted ((k, v) ∷ m) = Above k m × IsSorted m

  Above-trans : (j k : K) (m : BTreeMap K V) → cmp j k ≡ Ordering.lt → Above k m → Above j m
  Above-trans j k [] h a = tt
  Above-trans j k ((i, w) ∷ m) h (a, as') = (cmp_trans j k i h a, Above-trans j k m h as')

  Above-insert :
      (j k : K) (v : V) (m : BTreeMap K V)
      → cmp j k ≡ Ordering.lt
      → Above j m
      → Above j (insert k v m)
  unfolding insert
  Above-insert j k v [] h a = (h, tt)
  Above-insert j k v ((i, w) ∷ m) h (a, b) = step (cmp k i) (Above-insert j k v m h b)
    where
      step :
          (c : Ordering)
          → Above j (insert k v m)
          → Above j (elim c [
            | Ordering.lt ↦ (k, v) ∷ (i, w) ∷ m
            | Ordering.eq ↦ (k, v) ∷ m
            | Ordering.gt ↦ (i, w) ∷ insert k v m
          ])
      step Ordering.lt r = (h, (a, b))
      step Ordering.eq r = (h, b)
      step Ordering.gt r = (a, r)

  pub insert-IsSorted : (k : K) (v : V) (m : BTreeMap K V) → IsSorted m → IsSorted (insert k v m)
  unfolding insert
  insert-IsSorted k v [] s = (tt, tt)
  insert-IsSorted k v ((i, w) ∷ m) (a, s) = step (cmp k i) refl (insert-IsSorted k v m s)
    where
      step :
          (c : Ordering)
          → cmp k i ≡ c
          → IsSorted (insert k v m)
          → IsSorted (elim c [
            | Ordering.lt ↦ (k, v) ∷ (i, w) ∷ m
            | Ordering.eq ↦ (k, v) ∷ m
            | Ordering.gt ↦ (i, w) ∷ insert k v m
          ])
      step Ordering.lt e r = ((e, Above-trans k i m e a), (a, s))
      step Ordering.eq e r = (rw ((cmp_iff k i).0 e) a, s)
      step Ordering.gt e r = (Above-insert i k v m (cmp_swap k i e) a, r)

  Above-remove : (j k : K) (m : BTreeMap K V) → Above j m → Above j (remove k m)
  unfolding remove
  Above-remove j k [] a = tt
  Above-remove j k ((i, w) ∷ m) (a, b) = elim (Bool-cases (key_eq k i)) [
    | inl e ↦ rw e (Above-remove j k m b)
    | inr e ↦ rw e (a, Above-remove j k m b)
  ]

  pub remove-IsSorted : (k : K) (m : BTreeMap K V) → IsSorted m → IsSorted (remove k m)
  unfolding remove
  remove-IsSorted k [] s = tt
  remove-IsSorted k ((i, w) ∷ m) (a, s) = elim (Bool-cases (key_eq k i)) [
    | inl e ↦ rw e (remove-IsSorted k m s)
    | inr e ↦ rw e (Above-remove i k m a, remove-IsSorted k m s)
  ]

  Above-adjust : (j k : K) (f : V → V) (m : BTreeMap K V) → Above j m → Above j (adjust k f m)
  unfolding adjust
  Above-adjust j k f [] a = tt
  Above-adjust j k f ((i, w) ∷ m) (a, b) = (a, Above-adjust j k f m b)

  pub adjust-IsSorted :
      (k : K) (f : V → V) (m : BTreeMap K V) → IsSorted m → IsSorted (adjust k f m)
  unfolding adjust
  adjust-IsSorted k f [] s = tt
  adjust-IsSorted k f ((i, w) ∷ m) (a, s) = (Above-adjust i k f m a, adjust-IsSorted k f m s)

  pub filter-IsSorted : (p : K × V → Bool) (m : BTreeMap K V) → IsSorted m → IsSorted (filter p m)
  filter-IsSorted p [] s = tt
  filter-IsSorted p ((i, w) ∷ m) (a, s) = elim (Bool-cases (p (i, w))) [
    | inl e ↦ rw e (All-filter (λ x. cmp i x.0 ≡ Ordering.lt) p m a, filter-IsSorted p m s)
    | inr e ↦ rw e (filter-IsSorted p m s)
  ]

  pub get_of_Above : (k : K) (m : BTreeMap K V) → Above k m → get k m ≡ none
  unfolding get
  get_of_Above k [] a = refl
  get_of_Above k ((i, w) ∷ m) (a, b) = ground (arith, get_of_Above k m b)

  pub length-insert :
      (k : K) (v : V) (m : BTreeMap K V)
      → IsSorted m
      → length (insert k v m) ≡ (if contains_key k m then length m else suc (length m))
  unfolding get insert
  length-insert k v [] s = refl
  length-insert k v ((i, w) ∷ m) (a, s) = ground (
    arith,
    length-insert k v m s,
    λ (e : cmp k i ≡ Ordering.lt). get_of_Above k m (Above-trans k i m e a),
  )

  pub length-remove-le : (k : K) (m : BTreeMap K V) → length (remove k m) ≤ length m
  unfolding remove
  length-remove-le k [] = omega arith
  length-remove-le k ((i, w) ∷ m) = ground (arith, length-remove-le k m)

  pub length-remove :
      (k : K) (m : BTreeMap K V) → contains_key k m ≡ true → length (remove k m) + 1 ≤ length m
  unfolding get remove
  length-remove k [] h = cc
  length-remove k ((i, w) ∷ m) h = ground (arith, length-remove-le k m, length-remove k m)

  pub length-adjust : (k : K) (f : V → V) (m : BTreeMap K V) → length (adjust k f m) ≡ length m
  unfolding adjust
  length-adjust k f [] = refl
  length-adjust k f ((i, w) ∷ m) = ap suc (length-adjust k f m)

  -- Filtering by the value keeps exactly the entries that pass.
  pub get-filter :
      (k : K) (p : V → Bool) (m : BTreeMap K V)
      → IsSorted m
      → get k (filter (λ e. p e.1) m)
        ≡ elim (get k m) [ none ↦ none | some v ↦ if p v then some v else none ]
  unfolding get
  get-filter k p [] s = refl
  get-filter k p ((i, w) ∷ m) (a, s) =
      ground (arith, get-filter k p m s, cmp_iff k i, λ (e : k ≡ i). get_of_Above k m (rw e a))

  -- A property of all entries, after an insert and after a write that keeps it.
  pub insert-All {κ} :
      (P : K × V → Type κ) (k : K) (v : V) (m : BTreeMap K V)
      → P (k, v)
      → All P m
      → All P (insert k v m)
  unfolding insert
  insert-All P k v [] h a = (h, tt)
  insert-All P k v ((i, w) ∷ m) h (a, as') = step (cmp k i) (insert-All P k v m h as')
    where
      step :
          (c : Ordering)
          → All P (insert k v m)
          → All P (elim c [
            | Ordering.lt ↦ (k, v) ∷ (i, w) ∷ m
            | Ordering.eq ↦ (k, v) ∷ m
            | Ordering.gt ↦ (i, w) ∷ insert k v m
          ])
      step Ordering.lt r = (h, (a, as'))
      step Ordering.eq r = (h, as')
      step Ordering.gt r = (a, r)

  pub adjust-All {κ} :
      (P : K × V → Type κ) (k : K) (f : V → V) (m : BTreeMap K V)
      → ((j : K) (v : V) → P (j, v) → P (j, f v))
      → All P m
      → All P (adjust k f m)
  unfolding adjust
  adjust-All P k f [] h a = tt
  adjust-All P k f ((i, w) ∷ m) h (a, as') = elim (Bool-cases (key_eq k i)) [
    | inl e ↦ rw e (h i w a, adjust-All P k f m h as')
    | inr e ↦ rw e (a, adjust-All P k f m h as')
  ]

  pub remove-All {κ} :
      (P : K × V → Type κ) (k : K) (m : BTreeMap K V) → All P m → All P (remove k m)
  unfolding remove
  remove-All P k [] a = tt
  remove-All P k ((i, w) ∷ m) (a, as') = elim (Bool-cases (key_eq k i)) [
    | inl e ↦ rw e (remove-All P k m as')
    | inr e ↦ rw e (a, remove-All P k m as')
  ]
