-- ===== src/Kad/RoutingTable/Placement.antt =====
-- The invariant of crates/libp2p-cat-kad/src/routing_table.rs: buckets and their peers.
use libp2p_cat_rs.Prelude.{
  ℕ, zero, suc, ◌≡◌, refl, ap, ◌∙◌, Option, none, some, List, [], ◌∷◌, ◌++◌, arith, length, All,
  replicate, append-nil, append_assoc, if◌then◌else◌, ◌==◌, inl, inr, Bool-cases, Option-cases,
}
use libp2p_cat_rs.Types.Addr.{UdpAddr}
use libp2p_cat_rs.Kad.Distance.{node_id_bits, bucket_index}
use libp2p_cat_rs.Kad.NodeId.{NodeId, node_id_lex, distance}
use libp2p_cat_rs.Kad.Bucket
use libp2p_cat_rs.Kad.Bucket.{Bucket, Entry, InsertOutcome, updated}
use libp2p_cat_rs.Kad.Bucket.Invariant
use libp2p_cat_rs.Kad.Bucket.Invariant.{IsValid, addr_of, is_bucket_full}
use libp2p_cat_rs.Kad.RoutingTable.{
  RoutingTable, new, insert_fold, insert_into_bucket, insert, remove_at, remove, outcome_or,
}

-- What `insert` and `remove` do to the buckets, without the accumulator.
unfoldable pub insert_at : ℕ → NodeId → UdpAddr → ℕ → List Bucket → List Bucket
insert_at idx peer addr i [] = []
insert_at idx peer addr i (b ∷ bs) =
    (if i == idx then (Bucket.insert peer addr b).0 else b) ∷ insert_at idx peer addr (suc i) bs

unfoldable pub outcome_at :
    ℕ → NodeId → UdpAddr → ℕ → List Bucket → Option InsertOutcome → Option InsertOutcome
outcome_at idx peer addr i [] o = o
outcome_at idx peer addr i (b ∷ bs) o =
    outcome_at idx peer addr (suc i) bs (if i == idx then some (Bucket.insert peer addr b).1 else o)

insert_fold-insert_at :
    (idx : ℕ) (peer : NodeId) (addr : UdpAddr) (i : ℕ) (bs acc : List Bucket)
    (o : Option InsertOutcome)
    → insert_fold idx peer addr i bs acc o
      ≡ (acc ++ insert_at idx peer addr i bs, outcome_at idx peer addr i bs o)
unfolding insert_fold insert_at outcome_at
insert_fold-insert_at idx peer addr i [] acc o = rw append-nil
insert_fold-insert_at idx peer addr i (b ∷ bs) acc o =
    rw (insert_fold-insert_at idx peer addr (suc i) bs) (rw append_assoc)

-- Bucket `i` of the table of `self_id`.
pub record Placed (self_id : NodeId) (k i : ℕ) (b : Bucket) : Type 0 where
  pub valid : IsValid b
  pub bound : b.capacity ≡ k
  pub placed : All (λ e. bucket_index (distance self_id e.0) ≡ some i) b.entries

abbrev pub PlacedFrom : NodeId → ℕ → ℕ → List Bucket → Type 0
PlacedFrom self_id k i [] = Unit
PlacedFrom self_id k i (b ∷ bs) = Placed self_id k i b × PlacedFrom self_id k (suc i) bs

pub record IsTable (t : RoutingTable) : Type 0 where
  pub count : length t.buckets ≡ node_id_bits
  pub all_placed : PlacedFrom t.self_id t.k 0 t.buckets

new-PlacedFrom :
    (self_id : NodeId) (k i n : ℕ) → PlacedFrom self_id k i (replicate n (Bucket.new k))
new-PlacedFrom self_id k i zero = tt
new-PlacedFrom self_id k i (suc n) = (
  record {
    valid = Invariant.new-IsValid k;
    bound = unfold Bucket.new in refl;
    placed = unfold Bucket.new in tt;
  },
  new-PlacedFrom self_id k (suc i) n,
)

length-replicate : (n : ℕ) (b : Bucket) → length (replicate n b) ≡ n
length-replicate zero b = refl
length-replicate (suc n) b = ap suc (length-replicate n b)

pub new-IsTable : (self_id : NodeId) (k : ℕ) → IsTable (new self_id k)
unfolding new
new-IsTable self_id k = record {
  count = length-replicate node_id_bits (Bucket.new k);
  all_placed = new-PlacedFrom self_id k 0 node_id_bits;
}

-- A bucket stays in its place when a peer of that place is inserted, or any peer is removed.
insert-Placed :
    (self_id : NodeId) (k i : ℕ) (peer : NodeId) (addr : UdpAddr) (b : Bucket)
    → bucket_index (distance self_id peer) ≡ some i
    → Placed self_id k i b
    → Placed self_id k i (Bucket.insert peer addr b).0
insert-Placed self_id k i peer addr b h p = record {
  valid = Invariant.insert-IsValid peer addr b p.valid;
  bound = Invariant.capacity-insert peer addr b ∙ p.bound;
  placed =
      Invariant.insert-All (λ id. bucket_index (distance self_id id) ≡ some i) peer addr b h
        p.placed;
}

remove-Placed :
    (self_id : NodeId) (k i : ℕ) (peer : NodeId) (b : Bucket)
    → Placed self_id k i b
    → Placed self_id k i (Bucket.remove peer b)
remove-Placed self_id k i peer b p = record {
  valid = Invariant.remove-IsValid peer b p.valid;
  bound = unfold Bucket.remove in p.bound;
  placed = Invariant.remove-All (λ id. bucket_index (distance self_id id) ≡ some i) peer b p.placed;
}

module _ (self_id : NodeId) (k idx : ℕ) (peer : NodeId)
    (h : bucket_index (distance self_id peer) ≡ some idx) where
  insert_at-PlacedFrom :
      (addr : UdpAddr) (i : ℕ) (bs : List Bucket)
      → PlacedFrom self_id k i bs
      → PlacedFrom self_id k i (insert_at idx peer addr i bs)
  unfolding insert_at
  insert_at-PlacedFrom addr i [] p = tt
  insert_at-PlacedFrom addr i (b ∷ bs) (p, ps) = elim (Bool-cases (i == idx)) [
    | inl e ↦
        let here : bucket_index (distance self_id peer) ≡ some i = ground (arith, h) in
        rw e (insert-Placed self_id k i peer addr b here p, insert_at-PlacedFrom addr (suc i) bs ps)
    | inr e ↦ rw e (p, insert_at-PlacedFrom addr (suc i) bs ps)
  ]

  remove_at-PlacedFrom :
      (i : ℕ) (bs : List Bucket)
      → PlacedFrom self_id k i bs
      → PlacedFrom self_id k i (remove_at idx peer i bs)
  unfolding remove_at
  remove_at-PlacedFrom i [] p = tt
  remove_at-PlacedFrom i (b ∷ bs) (p, ps) = elim (Bool-cases (i == idx)) [
    | inl e ↦ rw e (remove-Placed self_id k i peer b p, remove_at-PlacedFrom (suc i) bs ps)
    | inr e ↦ rw e (p, remove_at-PlacedFrom (suc i) bs ps)
  ]

length-insert_at :
    (idx : ℕ) (peer : NodeId) (addr : UdpAddr) (i : ℕ) (bs : List Bucket)
    → length (insert_at idx peer addr i bs) ≡ length bs
unfolding insert_at
length-insert_at idx peer addr i [] = refl
length-insert_at idx peer addr i (b ∷ bs) = ap suc (length-insert_at idx peer addr (suc i) bs)

length-remove_at :
    (idx : ℕ) (peer : NodeId) (i : ℕ) (bs : List Bucket)
    → length (remove_at idx peer i bs) ≡ length bs
unfolding remove_at
length-remove_at idx peer i [] = refl
length-remove_at idx peer i (b ∷ bs) = ap suc (length-remove_at idx peer (suc i) bs)

-- The two branches of `insert`, and of `remove`.
module _ (peer : NodeId) (t : RoutingTable) where
  pub insert_self :
      (addr : UdpAddr)
      → bucket_index (distance t.self_id peer) ≡ none
      → insert peer addr t ≡ (t, updated)
  unfolding insert
  insert_self addr e = rw (e, insert)

  pub insert_other :
      (addr : UdpAddr) {idx : ℕ}
      → bucket_index (distance t.self_id peer) ≡ some idx
      → insert peer addr t ≡ (
        record t { buckets = insert_at idx peer addr 0 t.buckets },
        outcome_or (outcome_at idx peer addr 0 t.buckets none),
      )
  unfolding insert insert_into_bucket
  insert_other addr {idx} e =
      rw (e, insert) (rw (insert_fold-insert_at idx peer addr 0 t.buckets [] none) refl)

  pub remove_self : bucket_index (distance t.self_id peer) ≡ none → remove peer t ≡ t
  unfolding remove
  remove_self e = rw (e, remove)

  pub remove_other :
      {idx : ℕ}
      → bucket_index (distance t.self_id peer) ≡ some idx
      → remove peer t ≡ record t { buckets = remove_at idx peer 0 t.buckets }
  unfolding remove
  remove_other e = rw (e, remove)

-- Inserting any peer keeps 256 buckets of capacity `k`, each within it and without a peer twice,
-- and every peer in the bucket of its distance.
pub insert-IsTable :
    (peer : NodeId) (addr : UdpAddr) (t : RoutingTable) → IsTable t → IsTable (insert peer addr t).0
insert-IsTable peer addr t v = elim (Option-cases (bucket_index (distance t.self_id peer))) [
  | inl e ↦ rw (insert_self peer t addr e) v
  | inr (idx, e) ↦ rw (insert_other peer t addr e) (record {
    count = length-insert_at idx peer addr 0 t.buckets ∙ v.count;
    all_placed = insert_at-PlacedFrom t.self_id t.k idx peer e addr 0 t.buckets v.all_placed;
  })
]

-- Removing a peer keeps the table's invariant.
pub remove-IsTable : (peer : NodeId) (t : RoutingTable) → IsTable t → IsTable (remove peer t)
remove-IsTable peer t v = elim (Option-cases (bucket_index (distance t.self_id peer))) [
  | inl e ↦ rw (remove_self peer t e) v
  | inr (idx, e) ↦ rw (remove_other peer t e) (record {
    count = length-remove_at idx peer 0 t.buckets ∙ v.count;
    all_placed = remove_at-PlacedFrom t.self_id t.k idx peer e 0 t.buckets v.all_placed;
  })
]
