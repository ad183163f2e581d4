-- ===== src/Kad/RoutingTable.antt =====
-- crates/libp2p-cat-kad/src/routing_table.rs: 256 buckets, by the highest bit of the distance.
pub mod Placement
pub mod Addresses
pub mod Sorting
pub mod Closest
use libp2p_cat_rs.Prelude.{
  ℕ, zero, suc, ◌+◌, Bool, true, false, ◌||◌, ◌&&◌, Option, none, some, List, [], ◌∷◌, ◌++◌, map,
  ◌==◌, if◌then◌else◌, replicate, take,
}
use Prim.Native.Nat.{Ordering}
use libp2p_cat_rs.Prelude.Lex.{cmp}
use libp2p_cat_rs.Types.Addr.{UdpAddr}
use libp2p_cat_rs.Kad.Distance.{Distance, distance_lex, node_id_bits, bucket_index}
use libp2p_cat_rs.Kad.NodeId.{NodeId, distance}
use libp2p_cat_rs.Kad.Bucket
use libp2p_cat_rs.Kad.Bucket.{Bucket, Entry, InsertOutcome, updated}

pub record RoutingTable : Type 0 where
  pub self_id : NodeId
  pub k : ℕ
  pub buckets : List Bucket

unfoldable pub new : NodeId → ℕ → RoutingTable
new self_id k = record { self_id = self_id; k = k; buckets = replicate node_id_bits (Bucket.new k) }

unfoldable pub sum_len : List Bucket → ℕ
sum_len [] = 0
sum_len (b ∷ bs) = Bucket.len b + sum_len bs

unfoldable pub len : RoutingTable → ℕ
unfolding sum_len
len t = sum_len t.buckets

all_empty : List Bucket → Bool
all_empty [] = true
all_empty (b ∷ bs) = Bucket.is_empty_bucket b && all_empty bs

unfoldable pub is_empty : RoutingTable → Bool
unfolding all_empty
is_empty t = all_empty t.buckets

unfoldable pub any_contains : NodeId → List Bucket → Bool
any_contains peer [] = false
any_contains peer (b ∷ bs) = Bucket.contains peer b || any_contains peer bs

unfoldable pub contains : NodeId → RoutingTable → Bool
unfolding any_contains
contains peer t = any_contains peer t.buckets

-- The fold of `insert_into_bucket`: `i` is the counter of `enumerate`, and the accumulator holds
-- the buckets so far and the outcome, if the bucket `idx` was met.
unfoldable pub insert_fold :
    ℕ
    → NodeId
    → UdpAddr
    → ℕ
    → List Bucket
    → List Bucket
    → Option InsertOutcome
    → List Bucket × Option InsertOutcome
insert_fold idx peer addr i [] acc maybe_outcome = (acc, maybe_outcome)
insert_fold idx peer addr i (bucket ∷ rest) acc maybe_outcome =
    let (updated_bucket, outcome) = Bucket.insert peer addr bucket in
    insert_fold idx peer addr (suc i) rest
      (acc ++ ((if i == idx then updated_bucket else bucket) ∷ []))
      (if i == idx then some outcome else maybe_outcome)

-- `.unwrap_or(InsertOutcome::Updated)`
abbrev outcome_or : Option InsertOutcome → InsertOutcome
outcome_or none = updated
outcome_or (some o) = o

unfoldable pub insert_into_bucket :
    NodeId → ℕ → List Bucket → ℕ → NodeId → UdpAddr → RoutingTable × InsertOutcome
unfolding insert_fold
insert_into_bucket self_id k buckets idx peer addr =
    let (next_buckets, outcome) = insert_fold idx peer addr 0 buckets [] none in
    (record { self_id = self_id; k = k; buckets = next_buckets }, outcome_or outcome)

unfoldable pub insert : NodeId → UdpAddr → RoutingTable → RoutingTable × InsertOutcome
unfolding insert_into_bucket
insert peer addr t = elim (bucket_index (distance t.self_id peer)) [
  | none ↦ (t, updated)
  | some idx ↦ insert_into_bucket t.self_id t.k t.buckets idx peer addr
]

-- The `enumerate` and `map` of `remove`, from index `i` on.
unfoldable pub remove_at : ℕ → NodeId → ℕ → List Bucket → List Bucket
remove_at idx peer i [] = []
remove_at idx peer i (bucket ∷ rest) =
    (if i == idx then Bucket.remove peer bucket else bucket) ∷ remove_at idx peer (suc i) rest

unfoldable pub remove : NodeId → RoutingTable → RoutingTable
unfolding remove_at
remove peer t = elim (bucket_index (distance t.self_id peer)) [
  | none ↦ t
  | some idx ↦ record t { buckets = remove_at idx peer 0 t.buckets }
]

-- `sort_by_key` is stable: an entry stays before the later ones of the same key.
unfoldable pub insert_by_key : Distance × Entry → List (Distance × Entry) → List (Distance × Entry)
insert_by_key x [] = x ∷ []
insert_by_key x (y ∷ ys) = elim (cmp x.0 y.0) [
  | Ordering.gt ↦ y ∷ insert_by_key x ys
  | _ ↦ x ∷ y ∷ ys
]

unfoldable pub sort_by_key : List (Distance × Entry) → List (Distance × Entry)
sort_by_key [] = []
sort_by_key (x ∷ xs) = insert_by_key x (sort_by_key xs)

-- `flat_map(Bucket::iter)`
unfoldable pub all_entries : List Bucket → List Entry
all_entries [] = []
all_entries (b ∷ bs) = b.entries ++ all_entries bs

unfoldable pub with_distance : NodeId → List Entry → List (Distance × Entry)
with_distance target es = map (λ e. (distance e.0 target, e)) es

unfoldable pub closest_to : NodeId → ℕ → RoutingTable → List Entry
closest_to target max_count t =
    map (λ e. e.1) (take max_count (sort_by_key (with_distance target (all_entries t.buckets))))
