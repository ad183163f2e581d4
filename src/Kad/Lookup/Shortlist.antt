-- ===== src/Kad/Lookup/Shortlist.antt =====
-- The shortlist of crates/libp2p-cat-kad/src/lookup.rs: its peers and what is handed out.
use libp2p_cat_rs.Prelude.{
  ℕ, zero, suc, ◌≤◌, ◌<◌, ◌≡◌, refl, ap, ◌∙◌, false, not, Option, none, some, List, [], ◌∷◌, map,
  All, all, All-take, All-filter, filter, take, length, length-take, is_empty, arith, inl, inr,
  Bool-cases,
}
use Prim.Native.Nat.{Ordering}
use libp2p_cat_rs.Prelude.Lex.{cmp, key_eq, eq_of_key_eq}
use libp2p_cat_rs.Prelude.BTreeMap
use libp2p_cat_rs.Prelude.BTreeMap.{BTreeMap, contains_key, values, get-insert, get-adjust}
use libp2p_cat_rs.Types.Addr.{addr_lex}
use libp2p_cat_rs.Kad.Distance.{Distance, distance_lex}
use libp2p_cat_rs.Kad.NodeId.{NodeId, node_id_lex, distance}
use libp2p_cat_rs.Kad.Bucket.{Entry}
use libp2p_cat_rs.Kad.Lookup.{
  Lookup, LookupEntry, LookupStatus, set_status, set_removed, merge_peers, skip_all, others,
  mark_in_flight, mark_dialing, complete_dial, record_response, skip_pending_queries,
  skip_pending_dials, is_unqueried, top_k, peer_of, top_k_results, pick_next_alpha, is_done,
  has_pending,
}
use libp2p_cat_rs.Kad.Lookup.Invariant.{
  Step, marks_in_flight, marks_dialing, completes_dial, records, skips_queries, skips_dials, Steps,
  stay, then_step, IsLookup, IsPeer,
}

-- The peer `e` is known at distance `d`, under its address, with some status.
abbrev pub IsKnown : Distance → LookupEntry → BTreeMap Distance LookupEntry → Type 0
IsKnown d e m = (s : LookupStatus) × (BTreeMap.get d m ≡ some (set_status s e))

module _ (d : Distance) (e : LookupEntry) where
  adjust-IsKnown :
      (k : Distance) (s : LookupStatus) (m : BTreeMap Distance LookupEntry)
      → IsKnown d e m
      → IsKnown d e (BTreeMap.adjust k (set_status s) m)
  adjust-IsKnown k s m (old, h) = elim (Bool-cases (key_eq d k)) [
    | inl here ↦ (s, get-adjust d k (set_status s) m ∙ rw (here, h) refl)
    | inr there ↦ (old, get-adjust d k (set_status s) m ∙ rw (there, h) refl)
  ]

  insert-IsKnown :
      (k : Distance) (v : LookupEntry) (m : BTreeMap Distance LookupEntry)
      → contains_key k m ≡ false
      → IsKnown d e m
      → IsKnown d e (BTreeMap.insert k v m)
  insert-IsKnown k v m absent (old, h) = elim (Bool-cases (key_eq d k)) [
    | inl here ↦
        let same : BTreeMap.get k m ≡ some (set_status old e) = rw (← eq_of_key_eq d k here) h in
        absurd (ground arith)
    | inr there ↦ (old, get-insert d k v m ∙ rw there h)
  ]

  merge_peers-IsKnown :
      (target : NodeId) (ps : List Entry) (m : BTreeMap Distance LookupEntry)
      → IsKnown d e m
      → IsKnown d e (merge_peers target ps m)
  unfolding merge_peers
  merge_peers-IsKnown target [] m h = h
  merge_peers-IsKnown target (p ∷ ps) m h =
      elim (Bool-cases (contains_key (distance p.0 target) m)) [
        | inl c ↦ rw c (merge_peers-IsKnown target ps m h)
        | inr c ↦ rw c (merge_peers-IsKnown target ps _ (insert-IsKnown _ _ m c h))
      ]

  set_removed-IsKnown :
      (target : NodeId) (s : LookupStatus) (o : Option NodeId) (m : BTreeMap Distance LookupEntry)
      → IsKnown d e m
      → IsKnown d e (set_removed target s o m)
  set_removed-IsKnown target s none m h = h
  set_removed-IsKnown target s (some id) m h = adjust-IsKnown (distance id target) s m h

  skip_all-IsKnown :
      (target : NodeId) (ids : List NodeId) (m : BTreeMap Distance LookupEntry)
      → IsKnown d e m
      → IsKnown d e (skip_all target ids m)
  unfolding skip_all
  skip_all-IsKnown target [] m h = h
  skip_all-IsKnown target (id ∷ ids) m h =
      skip_all-IsKnown target ids _ (adjust-IsKnown (distance id target) _ m h)

  Step-IsKnown : {a b : Lookup} → Step a b → IsKnown d e a.entries → IsKnown d e b.entries
  unfolding mark_in_flight mark_dialing complete_dial record_response skip_pending_queries
      skip_pending_dials
  Step-IsKnown (marks_in_flight peer addr l) h = adjust-IsKnown _ _ l.entries h
  Step-IsKnown (marks_dialing peer addr l) h = adjust-IsKnown _ _ l.entries h
  Step-IsKnown (completes_dial addr l) h =
      set_removed-IsKnown l.target _ (BTreeMap.get addr l.pending_dials) l.entries h
  Step-IsKnown (records source peers l) h =
      set_removed-IsKnown l.target _ (BTreeMap.get source l.pending_queries) _
        (merge_peers-IsKnown l.target (others l.self_id peers) l.entries h)
  Step-IsKnown (skips_queries l) h =
      skip_all-IsKnown l.target (values l.pending_queries) l.entries h
  Step-IsKnown (skips_dials l) h = skip_all-IsKnown l.target (values l.pending_dials) l.entries h

  -- Over any steps of a lookup a known peer stays known at its distance, with its identifier and
  -- its address: only its status changes.
  pub Steps-IsKnown : {a b : Lookup} → Steps a b → IsKnown d e a.entries → IsKnown d e b.entries
  Steps-IsKnown (stay l) h = h
  Steps-IsKnown (then_step ss s) h = Step-IsKnown s (Steps-IsKnown ss h)

length-map : (es : List LookupEntry) → length (map peer_of es) ≡ length es
length-map [] = refl
length-map (e ∷ es) = ap suc (length-map es)

pub length-top_k_results : (l : Lookup) → length (top_k_results l) ≤ l.config.k
unfolding top_k_results
length-top_k_results l =
    omega (arith, length-map (top_k l), length-take l.config.k (values l.entries))

pub length-pick_next_alpha : (l : Lookup) → length (pick_next_alpha l) ≤ l.config.alpha
unfolding pick_next_alpha
length-pick_next_alpha l = omega (
  arith,
  length-map (take l.config.alpha (filter is_unqueried (top_k l))),
  length-take l.config.alpha (filter is_unqueried (top_k l)),
)

no_unqueried :
    (es : List LookupEntry) (n : ℕ)
    → 0 < n
    → all (λ e. not (is_unqueried e)) es ≡ is_empty (map peer_of (take n (filter is_unqueried es)))
no_unqueried es zero h = absurd (omega arith)
no_unqueried [] (suc n) h = refl
no_unqueried (e ∷ es) (suc n) h = elim (Bool-cases (is_unqueried e)) [
  | inl u ↦ rw u refl
  | inr u ↦ rw u (no_unqueried es (suc n) h)
]

-- With nothing pending and `alpha` positive, a lookup is done exactly when `pick_next_alpha` picks
-- no peer.
pub is_done-pick_next_alpha :
    (l : Lookup)
    → 0 < l.config.alpha
    → has_pending l ≡ false
    → is_done l ≡ is_empty (pick_next_alpha l)
unfolding is_done pick_next_alpha has_pending
is_done-pick_next_alpha l h p = ground (arith, no_unqueried (top_k l) l.config.alpha h)

-- Every peer handed out satisfies what every peer of the shortlist satisfies.
values-All :
    (P : LookupEntry → Type 0) (m : BTreeMap Distance LookupEntry)
    → All (λ x. P x.1) m
    → All P (values m)
values-All P [] h = tt
values-All P ((d, e) ∷ m) (h, hs) = (h, values-All P m hs)

map-All :
    (P : Entry → Type 0) (es : List LookupEntry)
    → All (λ e. P (peer_of e)) es
    → All P (map peer_of es)
map-All P [] h = tt
map-All P (e ∷ es) (h, hs) = (h, map-All P es hs)

not_self :
    (self_id target : NodeId) (m : BTreeMap Distance LookupEntry)
    → All (IsPeer self_id target) m
    → All (λ x. key_eq x.1.node_id self_id ≡ false) m
not_self self_id target [] h = tt
not_self self_id target (x ∷ m) ((p, q), hs) = (q, not_self self_id target m hs)

top_k-not_self : (l : Lookup) → IsLookup l → All (λ e. key_eq e.node_id l.self_id ≡ false) (top_k l)
top_k-not_self l (s, a) = All-take _ l.config.k (values l.entries) (
    values-All (λ e. key_eq e.node_id l.self_id ≡ false) l.entries
      (not_self l.self_id l.target l.entries a))

-- Neither the peers picked for contact nor the results hold the node itself.
pub pick_next_alpha-not_self :
    (l : Lookup) → IsLookup l → All (λ p. key_eq p.0 l.self_id ≡ false) (pick_next_alpha l)
unfolding pick_next_alpha
pick_next_alpha-not_self l v =
    map-All (λ p. key_eq p.0 l.self_id ≡ false) _
      (All-take _ l.config.alpha _ (All-filter _ is_unqueried (top_k l) (top_k-not_self l v)))

pub top_k_results-not_self :
    (l : Lookup) → IsLookup l → All (λ p. key_eq p.0 l.self_id ≡ false) (top_k_results l)
unfolding top_k_results
top_k_results-not_self l v =
    map-All (λ p. key_eq p.0 l.self_id ≡ false) (top_k l) (top_k-not_self l v)

-- Ascending distances, no two of them equal.
abbrev pub IsStrictlyAscending : NodeId → List Entry → Type 0
IsStrictlyAscending target [] = Unit
IsStrictlyAscending target (p ∷ ps) =
    All (λ q. cmp (distance p.0 target) (distance q.0 target) ≡ Ordering.lt) ps
    × IsStrictlyAscending target ps

module _ (self_id target : NodeId) where
  abbrev peers_of : BTreeMap Distance LookupEntry → List Entry
  peers_of m = map peer_of (values m)

  Above-peers :
      (d : Distance) (m : BTreeMap Distance LookupEntry)
      → BTreeMap.Above d m
      → All (IsPeer self_id target) m
      → All (λ q. cmp d (distance q.0 target) ≡ Ordering.lt) (peers_of m)
  Above-peers d [] a p = tt
  Above-peers d ((k, e) ∷ m) (a, as') ((here, other), ps) = (rw (← here) a, Above-peers d m as' ps)

  IsSorted-IsStrictlyAscending :
      (m : BTreeMap Distance LookupEntry)
      → BTreeMap.IsSorted m
      → All (IsPeer self_id target) m
      → IsStrictlyAscending target (peers_of m)
  IsSorted-IsStrictlyAscending [] s p = tt
  IsSorted-IsStrictlyAscending ((k, e) ∷ m) (a, s) ((here, other), ps) =
      (rw (← here) (Above-peers k m a ps), IsSorted-IsStrictlyAscending m s ps)

take-IsStrictlyAscending :
    (target : NodeId) (n : ℕ) (ps : List Entry)
    → IsStrictlyAscending target ps
    → IsStrictlyAscending target (take n ps)
take-IsStrictlyAscending target zero ps h = tt
take-IsStrictlyAscending target (suc n) [] h = tt
take-IsStrictlyAscending target (suc n) (p ∷ ps) (h, hs) =
    (All-take _ n ps h, take-IsStrictlyAscending target n ps hs)

map-take : (n : ℕ) (es : List LookupEntry) → map peer_of (take n es) ≡ take n (map peer_of es)
map-take zero es = refl
map-take (suc n) [] = refl
map-take (suc n) (e ∷ es) = ap (λ t. peer_of e ∷ t) (map-take n es)

pub top_k_results-IsStrictlyAscending :
    (l : Lookup) → IsLookup l → IsStrictlyAscending l.target (top_k_results l)
unfolding top_k_results
top_k_results-IsStrictlyAscending l (s, a) = rw (map-take l.config.k (values l.entries)) (
    take-IsStrictlyAscending l.target l.config.k _
      (IsSorted-IsStrictlyAscending l.self_id l.target l.entries s a))
