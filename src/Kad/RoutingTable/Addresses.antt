-- ===== src/Kad/RoutingTable/Addresses.antt =====
-- The table of crates/libp2p-cat-kad/src/routing_table.rs as a map from peers to addresses.
use libp2p_cat_rs.Prelude.{
  ℕ, suc, ◌≡◌, ◌≢◌, refl, ◌∙◌, Bool, true, Option, none, some, List, [], ◌∷◌, ◌++◌, arith, All, ◌≤◌,
  ◌<◌, if◌then◌else◌, ◌==◌, inl, inr, Bool-cases, Option-cases,
}
use libp2p_cat_rs.Prelude.Lex.{key_eq, eq_of_key_eq}
use libp2p_cat_rs.Types.Addr.{UdpAddr}
use libp2p_cat_rs.Kad.Distance.{Distance, bucket_index}
use libp2p_cat_rs.Kad.NodeId.{NodeId, node_id_lex, distance}
use libp2p_cat_rs.Kad.Bucket
use libp2p_cat_rs.Kad.Bucket.{Bucket, Entry, updated}
use libp2p_cat_rs.Kad.Bucket.Invariant.{addr_of, addr_of-remove}
use libp2p_cat_rs.Kad.RoutingTable.{RoutingTable, remove_at, remove, all_entries}
use libp2p_cat_rs.Kad.RoutingTable.Placement.{PlacedFrom, IsTable, remove_other}

-- The address under which the table knows a peer.
unfoldable pub addr_in : NodeId → RoutingTable → Option UdpAddr
addr_in peer t = addr_of peer (all_entries t.buckets)

abbrev or_else : Option UdpAddr → Option UdpAddr → Option UdpAddr
or_else none b = b
or_else (some a) b = some a

addr_of-append :
    (j : NodeId) (xs ys : List Entry) → addr_of j (xs ++ ys) ≡ or_else (addr_of j xs) (addr_of j ys)
unfolding addr_of
addr_of-append j [] ys = refl
addr_of-append j ((id, a) ∷ xs) ys = ground (arith, addr_of-append j xs ys)

addr_of-all_entries :
    (j : NodeId) (b : Bucket) (bs : List Bucket)
    → addr_of j (all_entries (b ∷ bs)) ≡ or_else (addr_of j b.entries) (addr_of j (all_entries bs))
unfolding all_entries
addr_of-all_entries j b bs = addr_of-append j b.entries (all_entries bs)

-- A peer is not found outside its place.
module _ (self_id j : NodeId) (i : ℕ) where
  addr_of-misplaced :
      (es : List Entry)
      → All (λ e. bucket_index (distance self_id e.0) ≡ some i) es
      → bucket_index (distance self_id j) ≢ some i
      → addr_of j es ≡ none
  unfolding addr_of
  addr_of-misplaced [] a h = refl
  addr_of-misplaced ((id, x) ∷ es) (a, as') h = elim (Bool-cases (key_eq id j)) [
    | inl e ↦ absurd (h (rw (← eq_of_key_eq id j e) a))
    | inr e ↦ rw e (addr_of-misplaced es as' h)
  ]

addr_of-behind :
    (self_id j : NodeId) (k i idx : ℕ) (bs : List Bucket)
    → PlacedFrom self_id k i bs
    → bucket_index (distance self_id j) ≡ some idx
    → idx < i
    → addr_of j (all_entries bs) ≡ none
unfolding all_entries addr_of
addr_of-behind self_id j k i idx [] p h lt = refl
addr_of-behind self_id j k i idx (b ∷ bs) (p, ps) h lt =
    addr_of-all_entries j b bs
    ∙ cc (
      addr_of-misplaced self_id j i b.entries p.placed (λ e. ground (arith, h, e)),
      addr_of-behind self_id j k (suc i) idx bs ps h (omega arith),
    )

-- Behind the index nothing changes.
module _ (idx : ℕ) (peer : NodeId) where
  remove_at-behind : (i : ℕ) (bs : List Bucket) → idx < i → remove_at idx peer i bs ≡ bs
  unfolding remove_at
  remove_at-behind i [] h = refl
  remove_at-behind i (b ∷ bs) h = ground (arith, remove_at-behind (suc i) bs)

module _ (self_id : NodeId) (k idx : ℕ) (peer : NodeId)
    (here : bucket_index (distance self_id peer) ≡ some idx) where
  abbrev after_insert : NodeId → UdpAddr → Bool → Option UdpAddr → Option UdpAddr
  after_insert j addr full known =
      if key_eq peer j then (if full then none else some addr) else known

  remove_at-addr_of :
      (j : NodeId) (i : ℕ) (bs : List Bucket)
      → i ≤ idx
      → PlacedFrom self_id k i bs
      → addr_of j (all_entries (remove_at idx peer i bs))
        ≡ (if key_eq peer j then none else addr_of j (all_entries bs))
  unfolding remove_at addr_of all_entries
  remove_at-addr_of j i [] lo p = ground arith
  remove_at-addr_of j i (b ∷ bs) lo (p, ps) = elim (Bool-cases (i == idx)) [
    | inl e ↦
        rw (e, remove_at-behind idx peer (suc i) bs (ground arith))
          (ground (
            arith,
            addr_of-all_entries j (Bucket.remove peer b) bs,
            addr_of-all_entries j b bs,
            addr_of-remove peer j b,
            λ (q : key_eq peer j ≡ true).
                addr_of-behind self_id j k (suc i) idx bs ps (rw (← eq_of_key_eq peer j q) here)
                  (ground arith),
          ))
    | inr e ↦ rw e (
        ground (
          arith,
          addr_of-all_entries j b (remove_at idx peer (suc i) bs),
          addr_of-all_entries j b bs,
          remove_at-addr_of j (suc i) bs (ground arith) ps,
          λ (q : key_eq peer j ≡ true).
              addr_of-misplaced self_id j i b.entries p.placed
                (λ c. ground (arith, eq_of_key_eq peer j q, here, c)),
        ))
  ]

-- In a table with its invariant, removing a peer that has a bucket makes it unknown, and keeps the
-- address of every other peer.
pub addr_in-remove :
    (peer j : NodeId) (t : RoutingTable)
    → IsTable t
    → bucket_index (distance t.self_id peer) ≢ none
    → addr_in j (remove peer t) ≡ (if key_eq peer j then none else addr_in j t)
unfolding addr_in
addr_in-remove peer j t v h = elim (Option-cases (bucket_index (distance t.self_id peer))) [
  | inl e ↦ absurd (h e)
  | inr (idx, e) ↦
      rw (remove_other peer t e)
        (remove_at-addr_of t.self_id t.k idx peer e j 0 t.buckets (omega arith) v.all_placed)
]
