-- ===== src/Kad/Lookup.antt =====
-- crates/libp2p-cat-kad/src/lookup.rs: the state of an iterative lookup.
pub mod Invariant
pub mod Shortlist
pub mod Drive
pub mod Run
use libp2p_cat_rs.Prelude.{
  ℕ, ◌≡◌, Bool, true, false, not, ◌&&◌, ◌||◌, Option, none, some, List, [], ◌∷◌, map, all, filter,
  length, is_empty, take, if◌then◌else◌,
}
use libp2p_cat_rs.Prelude.Lex.{key_eq}
use libp2p_cat_rs.Prelude.BTreeMap
use libp2p_cat_rs.Prelude.BTreeMap.{BTreeMap, contains_key, values}
use libp2p_cat_rs.Types.Addr.{UdpAddr, addr_lex}
use libp2p_cat_rs.Kad.Distance.{Distance, distance_lex}
use libp2p_cat_rs.Kad.NodeId.{NodeId, node_id_lex, distance}
use libp2p_cat_rs.Kad.Bucket.{Entry, default_k}

pub record LookupConfig : Type 0 where
  pub alpha : ℕ
  pub k : ℕ
  pub max_rounds : ℕ
  pub max_recv_per_round : ℕ

abbrev pub default_config : LookupConfig
default_config = record { alpha = 3; k = default_k; max_rounds = 32; max_recv_per_round = 24 }

pub data LookupStatus : Type 0 where
  unqueried : LookupStatus
  dialing : LookupStatus
  in_flight : LookupStatus
  done : LookupStatus
  skipped : LookupStatus

pub record LookupEntry : Type 0 where
  pub node_id : NodeId
  pub addr : UdpAddr
  pub status : LookupStatus

pub record Lookup : Type 0 where
  pub self_id : NodeId
  pub target : NodeId
  pub config : LookupConfig
  pub entries : BTreeMap Distance LookupEntry
  pub pending_queries : BTreeMap UdpAddr NodeId
  pub pending_dials : BTreeMap UdpAddr NodeId

abbrev pub is_unqueried : LookupEntry → Bool
is_unqueried e = elim e.status [ unqueried ↦ true | _ ↦ false ]

abbrev pub set_status : LookupStatus → LookupEntry → LookupEntry
set_status s e = record e { status = s }

-- The peers other than the node itself: `.filter(|(id, _)| *id != self_id)`.
abbrev pub others : NodeId → List Entry → List Entry
others self_id peers = filter (λ p. not (key_eq p.0 self_id)) peers

abbrev pub unqueried_entry : Entry → LookupEntry
unqueried_entry p = record { node_id = p.0; addr = p.1; status = unqueried }

-- `.map(…).collect()`: a later peer at the same distance replaces an earlier one.
unfoldable pub collect_entries :
    NodeId → List Entry → BTreeMap Distance LookupEntry → BTreeMap Distance LookupEntry
collect_entries target [] acc = acc
collect_entries target (p ∷ ps) acc =
    collect_entries target ps (BTreeMap.insert (distance p.0 target) (unqueried_entry p) acc)

unfoldable pub new : NodeId → NodeId → LookupConfig → List Entry → Lookup
new self_id target config initial_peers = record {
  self_id = self_id;
  target = target;
  config = config;
  entries = collect_entries target (others self_id initial_peers) [];
  pending_queries = [];
  pending_dials = [];
}

unfoldable pub has_pending : Lookup → Bool
has_pending l = not (is_empty l.pending_queries) || not (is_empty l.pending_dials)

unfoldable pub len : Lookup → ℕ
len l = length l.entries

-- `entries.values().take(k)`
abbrev pub top_k : Lookup → List LookupEntry
top_k l = take l.config.k (values l.entries)

abbrev pub peer_of : LookupEntry → Entry
peer_of e = (e.node_id, e.addr)

unfoldable pub top_k_results : Lookup → List Entry
top_k_results l = map peer_of (top_k l)

unfoldable pub is_done : Lookup → Bool
is_done l =
    let no_pending = is_empty l.pending_queries && is_empty l.pending_dials in
    let no_unqueried_in_top_k = all (λ e. not (is_unqueried e)) (top_k l) in
    no_pending && no_unqueried_in_top_k

unfoldable pub pick_next_alpha : Lookup → List Entry
pick_next_alpha l = map peer_of (take l.config.alpha (filter is_unqueried (top_k l)))

unfoldable pub mark_in_flight : NodeId → UdpAddr → Lookup → Lookup
mark_in_flight peer addr l = record l {
  entries = BTreeMap.adjust (distance peer l.target) (set_status in_flight) l.entries;
  pending_queries = BTreeMap.insert addr peer l.pending_queries;
}

unfoldable pub mark_dialing : NodeId → UdpAddr → Lookup → Lookup
mark_dialing peer addr l = record l {
  entries = BTreeMap.adjust (distance peer l.target) (set_status dialing) l.entries;
  pending_dials = BTreeMap.insert addr peer l.pending_dials;
}

unfoldable pub is_pending_dial : UdpAddr → Lookup → Bool
is_pending_dial addr l = contains_key addr l.pending_dials

-- The entry of a peer that was pending, if one was, gets a status.
abbrev pub set_removed :
    NodeId
    → LookupStatus
    → Option NodeId
    → BTreeMap Distance LookupEntry
    → BTreeMap Distance LookupEntry
set_removed target s none entries = entries
set_removed target s (some node_id) entries =
    BTreeMap.adjust (distance node_id target) (set_status s) entries

unfoldable pub complete_dial : UdpAddr → Lookup → Lookup
complete_dial addr l =
    let removed = BTreeMap.get addr l.pending_dials in
    record l {
      entries = set_removed l.target unqueried removed l.entries;
      pending_dials = BTreeMap.remove addr l.pending_dials;
    }

-- `entry(dist).or_insert(…)` for each advertised peer: a known one stays as it is.
unfoldable pub merge_peers :
    NodeId → List Entry → BTreeMap Distance LookupEntry → BTreeMap Distance LookupEntry
merge_peers target [] acc = acc
merge_peers target (p ∷ ps) acc = merge_peers target ps (
    if contains_key (distance p.0 target) acc
    then acc
    else BTreeMap.insert (distance p.0 target) (unqueried_entry p) acc)

abbrev pub is_some {ℓ} : {A : Type ℓ} → Option A → Bool
is_some none = false
is_some (some a) = true

unfoldable pub record_response : UdpAddr → List Entry → Lookup → Lookup × Bool
record_response source peers l =
    let matched = BTreeMap.get source l.pending_queries in
    let merged = merge_peers l.target (others l.self_id peers) l.entries in
    (
      record l {
        entries = set_removed l.target done matched merged;
        pending_queries = BTreeMap.remove source l.pending_queries;
      },
      is_some matched,
    )

-- The fold over the pending nodes.
unfoldable pub skip_all :
    NodeId → List NodeId → BTreeMap Distance LookupEntry → BTreeMap Distance LookupEntry
skip_all target [] acc = acc
skip_all target (id ∷ ids) acc =
    skip_all target ids (BTreeMap.adjust (distance id target) (set_status skipped) acc)

unfoldable pub skip_pending_queries : Lookup → Lookup
skip_pending_queries l = record l {
  entries = skip_all l.target (values l.pending_queries) l.entries;
  pending_queries = [];
}

unfoldable pub skip_pending_dials : Lookup → Lookup
skip_pending_dials l = record l {
  entries = skip_all l.target (values l.pending_dials) l.entries;
  pending_dials = [];
}
