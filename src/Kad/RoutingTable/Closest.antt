-- ===== src/Kad/RoutingTable/Closest.antt =====
-- `closest_to` of crates/libp2p-cat-kad/src/routing_table.rs: order and choice.
use mathlib.Core.List.{Perm}
use mathlib.Core.List.Perm
use libp2p_cat_rs.Prelude.{
  ℕ, zero, suc, ◌≡◌, refl, ap, List, [], ◌∷◌, ◌++◌, map, arith, length, length-append, length-take,
  take, drop, min, All, All-take, All-drop, take-append-drop,
}
use libp2p_cat_rs.Kad.Distance.{distance_lex}
use libp2p_cat_rs.Kad.NodeId.{NodeId, distance}
use libp2p_cat_rs.Kad.Bucket
use libp2p_cat_rs.Kad.Bucket.{Bucket, Entry}
use libp2p_cat_rs.Kad.RoutingTable.{
  RoutingTable, len, sum_len, insert_by_key, sort_by_key, all_entries, with_distance, closest_to,
}
use libp2p_cat_rs.Kad.RoutingTable.Sorting.{
  Keyed, Beyond, IsAscending, sort_by_key-IsSortedByKey, sort_by_key-Perm, entry_of,
  map-with_distance, with_distance-IsKeyed, sort_by_key-All, map-IsAscending,
}

-- Cutting an ascending list: the front ascends, and nothing behind the cut is nearer than it.
take-IsAscending :
    (target : NodeId) (n : ℕ) (es : List Entry)
    → IsAscending target es
    → IsAscending target (take n es)
take-IsAscending target zero es s = tt
take-IsAscending target (suc n) [] s = tt
take-IsAscending target (suc n) (e ∷ es) (b, s) =
    (All-take _ n es b, take-IsAscending target n es s)

take-drop-Beyond :
    (target : NodeId) (n : ℕ) (es : List Entry)
    → IsAscending target es
    → All (λ e. Beyond target (distance e.0 target) (drop n es)) (take n es)
take-drop-Beyond target zero es s = tt
take-drop-Beyond target (suc n) [] s = tt
take-drop-Beyond target (suc n) (e ∷ es) (b, s) =
    (All-drop _ n es b, take-drop-Beyond target n es s)

map-take : (n : ℕ) (xs : List Keyed) → map entry_of (take n xs) ≡ take n (map entry_of xs)
map-take zero xs = refl
map-take (suc n) [] = refl
map-take (suc n) (x ∷ xs) = ap (λ t. x.1 ∷ t) (map-take n xs)

length-insert_by_key : (x : Keyed) (xs : List Keyed) → length (insert_by_key x xs) ≡ suc (length xs)
unfolding insert_by_key
length-insert_by_key x [] = refl
length-insert_by_key x (y ∷ ys) = ground (arith, length-insert_by_key x ys)

length-sort_by_key : (xs : List Keyed) → length (sort_by_key xs) ≡ length xs
unfolding sort_by_key
length-sort_by_key [] = refl
length-sort_by_key (x ∷ xs) =
    omega (arith, length-insert_by_key x (sort_by_key xs), length-sort_by_key xs)

length-map : (xs : List Keyed) → length (map entry_of xs) ≡ length xs
length-map [] = refl
length-map (x ∷ xs) = ap suc (length-map xs)

length-all_entries : (bs : List Bucket) → length (all_entries bs) ≡ sum_len bs
unfolding all_entries sum_len Bucket.len
length-all_entries [] = refl
length-all_entries (b ∷ bs) =
    omega (arith, length-append b.entries (all_entries bs), length-all_entries bs)

sorted : NodeId → RoutingTable → List Entry
sorted target t = map entry_of (sort_by_key (with_distance target (all_entries t.buckets)))

sorted-IsAscending : (target : NodeId) (t : RoutingTable) → IsAscending target (sorted target t)
unfolding sorted
sorted-IsAscending target t =
    map-IsAscending target _
      (sort_by_key-All _ _ (with_distance-IsKeyed target (all_entries t.buckets)))
      (sort_by_key-IsSortedByKey _)

sorted-Perm : (target : NodeId) (t : RoutingTable) → Perm (sorted target t) (all_entries t.buckets)
unfolding sorted
sorted-Perm target t =
    let p = Perm.map entry_of (sort_by_key-Perm (with_distance target (all_entries t.buckets))) in
    rw map-with_distance at p

closest_to-sorted :
    (target : NodeId) (n : ℕ) (t : RoutingTable) → closest_to target n t ≡ take n (sorted target t)
unfolding closest_to sorted
closest_to-sorted target n t = map-take n _

closest_to-IsAscending :
    (target : NodeId) (n : ℕ) (t : RoutingTable) → IsAscending target (closest_to target n t)
closest_to-IsAscending target n t =
    rw (closest_to-sorted target n t) (take-IsAscending target n _ (sorted-IsAscending target t))

length-closest_to :
    (target : NodeId) (n : ℕ) (t : RoutingTable) → length (closest_to target n t) ≡ min n (len t)
unfolding len sorted with_distance
length-closest_to target n t = rw (closest_to-sorted target n t) (
    omega (
      arith,
      length-take n (sorted target t),
      length-map (sort_by_key (with_distance target (all_entries t.buckets))),
      length-sort_by_key (with_distance target (all_entries t.buckets)),
      length-map (with_distance target (all_entries t.buckets)),
      ap (λ (es : List Entry). length es) (map-with_distance target (all_entries t.buckets)),
      length-all_entries t.buckets,
    ))

-- The peers returned are as many as the table has, but at most `n`; they come nearest first; with
-- a rest they make up the table's entries, each as often as it stands there; and no peer of the
-- rest is nearer to the target than one that is returned.
pub closest_to-nearest :
    (target : NodeId) (n : ℕ) (t : RoutingTable)
    → (length (closest_to target n t) ≡ min n (len t))
      × IsAscending target (closest_to target n t)
      × (rest : List Entry) × Perm (closest_to target n t ++ rest) (all_entries t.buckets)
      × All (λ e. Beyond target (distance e.0 target) rest) (closest_to target n t)
closest_to-nearest target n t = (
  length-closest_to target n t,
  closest_to-IsAscending target n t,
  drop n (sorted target t),
  rw (closest_to-sorted target n t, take-append-drop n (sorted target t)) (sorted-Perm target t),
  rw (closest_to-sorted target n t) (take-drop-Beyond target n _ (sorted-IsAscending target t)),
)
