-- ===== src/Kad/RoutingTable/Sorting.antt =====
-- The sorting of `closest_to` of crates/libp2p-cat-kad/src/routing_table.rs.
use Prim.Native.Nat.{Ordering}
use mathlib.Core.List.{Perm}
use mathlib.Core.List.Perm
use libp2p_cat_rs.Prelude.{◌≡◌, ◌≢◌, refl, ap, List, [], ◌∷◌, map, arith, All}
use libp2p_cat_rs.Prelude.Lex.{cmp, cmp_trans, cmp_swap, cmp_iff}
use libp2p_cat_rs.Kad.Distance.{Distance, distance_lex}
use libp2p_cat_rs.Kad.NodeId.{NodeId, distance}
use libp2p_cat_rs.Kad.Bucket.{Entry}
use libp2p_cat_rs.Kad.RoutingTable.{insert_by_key, sort_by_key, with_distance}

abbrev pub Keyed : Type 0
Keyed = Distance × Entry

-- `a` is not farther than `b`.
abbrev pub NotFarther : Distance → Distance → Type 0
NotFarther a b = cmp a b ≢ Ordering.gt

NotFarther-trans : (a b c : Distance) → NotFarther a b → NotFarther b c → NotFarther a c
NotFarther-trans a b c h k = λ g. ground (
  arith,
  h,
  k,
  cmp_iff a b,
  cmp_iff b c,
  cmp_trans a b c,
  cmp_swap a c g,
  cmp_trans c a b,
  cmp_trans b c a,
  cmp_iff a c,
  cmp_trans a c a,
  cmp_iff a a,
)

-- Every entry of `es` is at least as far from `target` as `d`.
abbrev pub Beyond : NodeId → Distance → List Entry → Type 0
Beyond target d es = All (λ e. NotFarther d (distance e.0 target)) es

abbrev pub IsAscending : NodeId → List Entry → Type 0
IsAscending target [] = Unit
IsAscending target (e ∷ es) = Beyond target (distance e.0 target) es × IsAscending target es

-- The same of entries that carry their distance.
abbrev KeysBeyond : Distance → List Keyed → Type 0
KeysBeyond d xs = All (λ x. NotFarther d x.0) xs

abbrev IsSortedByKey : List Keyed → Type 0
IsSortedByKey [] = Unit
IsSortedByKey (x ∷ xs) = KeysBeyond x.0 xs × IsSortedByKey xs

KeysBeyond-trans :
    (d e : Distance) (xs : List Keyed) → NotFarther d e → KeysBeyond e xs → KeysBeyond d xs
KeysBeyond-trans d e [] h b = tt
KeysBeyond-trans d e (x ∷ xs) h (b, bs) =
    (NotFarther-trans d e x.0 h b, KeysBeyond-trans d e xs h bs)

-- What `insert_by_key` does with the comparison already made.
abbrev insert_step : Ordering → Keyed → Keyed → List Keyed → List Keyed → List Keyed
insert_step c x y ys rest = elim c [ Ordering.gt ↦ y ∷ rest | _ ↦ x ∷ y ∷ ys ]

insert_by_key-Beyond :
    (d : Distance) (x : Keyed) (xs : List Keyed)
    → NotFarther d x.0
    → KeysBeyond d xs
    → KeysBeyond d (insert_by_key x xs)
unfolding insert_by_key
insert_by_key-Beyond d x [] h b = (h, tt)
insert_by_key-Beyond d x (y ∷ ys) h (b, bs) = step (cmp x.0 y.0) (insert_by_key-Beyond d x ys h bs)
  where
    step :
        (c : Ordering)
        → KeysBeyond d (insert_by_key x ys)
        → KeysBeyond d (insert_step c x y ys (insert_by_key x ys))
    step Ordering.lt r = (h, (b, bs))
    step Ordering.eq r = (h, (b, bs))
    step Ordering.gt r = (b, r)

insert_by_key-IsSortedByKey :
    (x : Keyed) (xs : List Keyed) → IsSortedByKey xs → IsSortedByKey (insert_by_key x xs)
unfolding insert_by_key
insert_by_key-IsSortedByKey x [] s = (tt, tt)
insert_by_key-IsSortedByKey x (y ∷ ys) (b, s) =
    step (cmp x.0 y.0) refl (insert_by_key-IsSortedByKey x ys s)
  where
    near : cmp x.0 y.0 ≢ Ordering.gt → IsSortedByKey (x ∷ y ∷ ys)
    near h = ((h, KeysBeyond-trans x.0 y.0 ys h b), (b, s))

    step :
        (c : Ordering)
        → cmp x.0 y.0 ≡ c
        → IsSortedByKey (insert_by_key x ys)
        → IsSortedByKey (insert_step c x y ys (insert_by_key x ys))
    step Ordering.lt e r = near (λ g. cc)
    step Ordering.eq e r = near (λ g. cc)
    step Ordering.gt e r = (insert_by_key-Beyond y.0 x ys (λ g. cc (g, cmp_swap x.0 y.0 e)) b, r)

pub sort_by_key-IsSortedByKey : (xs : List Keyed) → IsSortedByKey (sort_by_key xs)
unfolding sort_by_key
sort_by_key-IsSortedByKey [] = tt
sort_by_key-IsSortedByKey (x ∷ xs) =
    insert_by_key-IsSortedByKey x (sort_by_key xs) (sort_by_key-IsSortedByKey xs)

insert_by_key-Perm : (x : Keyed) (xs : List Keyed) → Perm (insert_by_key x xs) (x ∷ xs)
unfolding insert_by_key
insert_by_key-Perm x [] = Perm.rfl
insert_by_key-Perm x (y ∷ ys) = step (cmp x.0 y.0) (insert_by_key-Perm x ys)
  where
    step :
        (c : Ordering)
        → Perm (insert_by_key x ys) (x ∷ ys)
        → Perm (insert_step c x y ys (insert_by_key x ys)) (x ∷ y ∷ ys)
    step Ordering.lt r = Perm.rfl
    step Ordering.eq r = Perm.rfl
    step Ordering.gt r = Perm.trans (Perm.cons y r) (Perm.swap x y ys)

pub sort_by_key-Perm : (xs : List Keyed) → Perm (sort_by_key xs) xs
unfolding sort_by_key
sort_by_key-Perm [] = Perm.rfl
sort_by_key-Perm (x ∷ xs) =
    Perm.trans (insert_by_key-Perm x (sort_by_key xs)) (Perm.cons x (sort_by_key-Perm xs))

abbrev pub entry_of : Keyed → Entry
entry_of x = x.1

pub map-with_distance :
    (target : NodeId) (es : List Entry) → map entry_of (with_distance target es) ≡ es
unfolding with_distance
map-with_distance target [] = refl
map-with_distance target (e ∷ es) = ap (λ t. e ∷ t) (map-with_distance target es)

-- The keys are the distances of the entries.
abbrev IsKeyed : NodeId → List Keyed → Type 0
IsKeyed target xs = All (λ x. x.0 ≡ distance x.1.0 target) xs

pub with_distance-IsKeyed :
    (target : NodeId) (es : List Entry) → IsKeyed target (with_distance target es)
unfolding with_distance
with_distance-IsKeyed target [] = tt
with_distance-IsKeyed target (e ∷ es) = (refl, with_distance-IsKeyed target es)

insert_by_key-All :
    (P : Keyed → Type 0) (x : Keyed) (xs : List Keyed) → P x → All P xs → All P (insert_by_key x xs)
unfolding insert_by_key
insert_by_key-All P x [] h b = (h, tt)
insert_by_key-All P x (y ∷ ys) h (b, bs) = step (cmp x.0 y.0) (insert_by_key-All P x ys h bs)
  where
    step :
        (c : Ordering)
        → All P (insert_by_key x ys)
        → All P (insert_step c x y ys (insert_by_key x ys))
    step Ordering.lt r = (h, (b, bs))
    step Ordering.eq r = (h, (b, bs))
    step Ordering.gt r = (b, r)

pub sort_by_key-All : (P : Keyed → Type 0) (xs : List Keyed) → All P xs → All P (sort_by_key xs)
unfolding sort_by_key
sort_by_key-All P [] h = tt
sort_by_key-All P (x ∷ xs) (h, hs) =
    insert_by_key-All P x (sort_by_key xs) h (sort_by_key-All P xs hs)

map-Beyond :
    (target : NodeId) (d : Distance) (xs : List Keyed)
    → IsKeyed target xs
    → KeysBeyond d xs
    → Beyond target d (map entry_of xs)
map-Beyond target d [] k b = tt
map-Beyond target d (x ∷ xs) (k, ks) (b, bs) = (rw (← k) b, map-Beyond target d xs ks bs)

pub map-IsAscending :
    (target : NodeId) (xs : List Keyed)
    → IsKeyed target xs
    → IsSortedByKey xs
    → IsAscending target (map entry_of xs)
map-IsAscending target [] k s = tt
map-IsAscending target (x ∷ xs) (k, ks) (b, s) =
    (rw (← k) (map-Beyond target x.0 xs ks b), map-IsAscending target xs ks s)
