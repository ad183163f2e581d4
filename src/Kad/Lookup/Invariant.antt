-- ===== src/Kad/Lookup/Invariant.antt =====
-- The invariant of the lookup of crates/libp2p-cat-kad/src/lookup.rs, over its steps.
use libp2p_cat_rs.Prelude.{
  ◌≡◌, refl, false, Option, none, some, List, [], ◌∷◌, All, inl, inr, Bool-cases,
}
use libp2p_cat_rs.Prelude.Lex.{key_eq}
use libp2p_cat_rs.Prelude.BTreeMap
use libp2p_cat_rs.Prelude.BTreeMap.{BTreeMap, IsSorted, contains_key, values}
use libp2p_cat_rs.Types.Addr.{UdpAddr, addr_lex}
use libp2p_cat_rs.Kad.Distance.{Distance, distance_lex}
use libp2p_cat_rs.Kad.NodeId.{NodeId, node_id_lex, distance}
use libp2p_cat_rs.Kad.Bucket.{Entry}
use libp2p_cat_rs.Kad.Lookup.{
  Lookup, LookupConfig, LookupEntry, LookupStatus, others, unqueried_entry, set_status, set_removed,
  collect_entries, merge_peers, skip_all, new, mark_in_flight, mark_dialing, complete_dial,
  record_response, skip_pending_queries, skip_pending_dials,
}

-- A peer of the shortlist: it stands at its distance to the target, and is not the node itself.
abbrev pub IsPeer : NodeId → NodeId → Distance × LookupEntry → Type 0
IsPeer self_id target p = (p.0 ≡ distance p.1.node_id target) × (key_eq p.1.node_id self_id ≡ false)

abbrev pub IsShortlist : NodeId → NodeId → BTreeMap Distance LookupEntry → Type 0
IsShortlist self_id target m = IsSorted m × All (IsPeer self_id target) m

abbrev pub IsLookup : Lookup → Type 0
IsLookup l = IsShortlist l.self_id l.target l.entries

module _ (self_id target : NodeId) where
  abbrev NotSelf : List Entry → Type 0
  NotSelf ps = All (λ p. key_eq p.0 self_id ≡ false) ps

  others-NotSelf : (ps : List Entry) → NotSelf (others self_id ps)
  others-NotSelf [] = tt
  others-NotSelf (p ∷ ps) = elim (Bool-cases (key_eq p.0 self_id)) [
    | inl e ↦ rw e (others-NotSelf ps)
    | inr e ↦ rw e (e, others-NotSelf ps)
  ]

  insert-IsShortlist :
      (p : Entry) (m : BTreeMap Distance LookupEntry)
      → key_eq p.0 self_id ≡ false
      → IsShortlist self_id target m
      → IsShortlist self_id target (BTreeMap.insert (distance p.0 target) (unqueried_entry p) m)
  insert-IsShortlist p m h (s, a) = (
    BTreeMap.insert-IsSorted (distance p.0 target) (unqueried_entry p) m s,
    BTreeMap.insert-All (IsPeer self_id target) (distance p.0 target) (unqueried_entry p) m
        (refl, h) a,
  )

  adjust-IsShortlist :
      (d : Distance) (s : LookupStatus) (m : BTreeMap Distance LookupEntry)
      → IsShortlist self_id target m
      → IsShortlist self_id target (BTreeMap.adjust d (set_status s) m)
  adjust-IsShortlist d s m (sorted, a) = (
    BTreeMap.adjust-IsSorted d (set_status s) m sorted,
    BTreeMap.adjust-All (IsPeer self_id target) d (set_status s) m (λ j v h. h) a,
  )

  collect_entries-IsShortlist :
      (ps : List Entry) (acc : BTreeMap Distance LookupEntry)
      → NotSelf ps
      → IsShortlist self_id target acc
      → IsShortlist self_id target (collect_entries target ps acc)
  unfolding collect_entries
  collect_entries-IsShortlist [] acc h v = v
  collect_entries-IsShortlist (p ∷ ps) acc (h, hs) v =
      collect_entries-IsShortlist ps _ hs (insert-IsShortlist p acc h v)

  merge_peers-IsShortlist :
      (ps : List Entry) (acc : BTreeMap Distance LookupEntry)
      → NotSelf ps
      → IsShortlist self_id target acc
      → IsShortlist self_id target (merge_peers target ps acc)
  unfolding merge_peers
  merge_peers-IsShortlist [] acc h v = v
  merge_peers-IsShortlist (p ∷ ps) acc (h, hs) v =
      elim (Bool-cases (contains_key (distance p.0 target) acc)) [
        | inl e ↦ rw e (merge_peers-IsShortlist ps acc hs v)
        | inr e ↦ rw e (merge_peers-IsShortlist ps _ hs (insert-IsShortlist p acc h v))
      ]

  set_removed-IsShortlist :
      (s : LookupStatus) (o : Option NodeId) (m : BTreeMap Distance LookupEntry)
      → IsShortlist self_id target m
      → IsShortlist self_id target (set_removed target s o m)
  set_removed-IsShortlist s none m v = v
  set_removed-IsShortlist s (some id) m v = adjust-IsShortlist (distance id target) s m v

  skip_all-IsShortlist :
      (ids : List NodeId) (m : BTreeMap Distance LookupEntry)
      → IsShortlist self_id target m
      → IsShortlist self_id target (skip_all target ids m)
  unfolding skip_all
  skip_all-IsShortlist [] m v = v
  skip_all-IsShortlist (id ∷ ids) m v =
      skip_all-IsShortlist ids _ (adjust-IsShortlist (distance id target) _ m v)

pub new-IsLookup :
    (self_id target : NodeId) (config : LookupConfig) (peers : List Entry)
    → IsLookup (new self_id target config peers)
unfolding new
new-IsLookup self_id target config peers =
    collect_entries-IsShortlist self_id target (others self_id peers) []
      (others-NotSelf self_id target peers) (tt, tt)

-- The steps of a lookup.
pub data Step : Lookup → Lookup → Type 0 where
  marks_in_flight :
      (peer : NodeId) (addr : UdpAddr) (l : Lookup) → Step l (mark_in_flight peer addr l)
  marks_dialing : (peer : NodeId) (addr : UdpAddr) (l : Lookup) → Step l (mark_dialing peer addr l)
  completes_dial : (addr : UdpAddr) (l : Lookup) → Step l (complete_dial addr l)
  records :
      (source : UdpAddr) (peers : List Entry) (l : Lookup)
      → Step l (record_response source peers l).0
  skips_queries : (l : Lookup) → Step l (skip_pending_queries l)
  skips_dials : (l : Lookup) → Step l (skip_pending_dials l)

pub data Steps : Lookup → Lookup → Type 0 where
  stay : (l : Lookup) → Steps l l
  then_step : {a b c : Lookup} → Steps a b → Step b c → Steps a c

-- No step of a lookup breaks the shortlist: not a response with any peers, nor the node's own
-- identifier in it.
pub Step-IsLookup : {a b : Lookup} → Step a b → IsLookup a → IsLookup b
unfolding mark_in_flight mark_dialing complete_dial record_response skip_pending_queries
    skip_pending_dials
Step-IsLookup (marks_in_flight peer addr l) v =
    adjust-IsShortlist l.self_id l.target _ _ l.entries v
Step-IsLookup (marks_dialing peer addr l) v = adjust-IsShortlist l.self_id l.target _ _ l.entries v
Step-IsLookup (completes_dial addr l) v =
    set_removed-IsShortlist l.self_id l.target _ (BTreeMap.get addr l.pending_dials) l.entries v
Step-IsLookup (records source peers l) v =
    set_removed-IsShortlist l.self_id l.target _ (BTreeMap.get source l.pending_queries) _ (
      merge_peers-IsShortlist l.self_id l.target (others l.self_id peers) l.entries
        (others-NotSelf l.self_id l.target peers) v)
Step-IsLookup (skips_queries l) v =
    skip_all-IsShortlist l.self_id l.target (values l.pending_queries) l.entries v
Step-IsLookup (skips_dials l) v =
    skip_all-IsShortlist l.self_id l.target (values l.pending_dials) l.entries v

-- Over any steps of a lookup the shortlist stays sorted, each peer stands at its distance to the
-- target, and the node itself is not in it.
pub Steps-IsLookup : {a b : Lookup} → Steps a b → IsLookup a → IsLookup b
Steps-IsLookup (stay l) v = v
Steps-IsLookup (then_step ss s) v = Step-IsLookup s (Steps-IsLookup ss v)

-- The node, the target and the configuration stay the same.
pub Steps-fixed :
    {a b : Lookup}
    → Steps a b
    → (b.self_id ≡ a.self_id) × (b.target ≡ a.target) × (b.config ≡ a.config)
unfolding mark_in_flight mark_dialing complete_dial record_response skip_pending_queries
    skip_pending_dials
Steps-fixed (stay l) = (refl, refl, refl)
Steps-fixed (then_step ss (marks_in_flight peer addr l)) = Steps-fixed ss
Steps-fixed (then_step ss (marks_dialing peer addr l)) = Steps-fixed ss
Steps-fixed (then_step ss (completes_dial addr l)) = Steps-fixed ss
Steps-fixed (then_step ss (records source peers l)) = Steps-fixed ss
Steps-fixed (then_step ss (skips_queries l)) = Steps-fixed ss
Steps-fixed (then_step ss (skips_dials l)) = Steps-fixed ss
