-- ===== src/Kad/Bucket.antt =====
-- crates/libp2p-cat-kad/src/bucket.rs: a capped list of peers, the most recently seen first.
pub mod Invariant
use libp2p_cat_rs.Prelude.{
  ℕ, ◌+◌, Bool, false, ◌||◌, not, Option, none, some, List, [], ◌∷◌, ltb, ◌==◌, if◌then◌else◌,
  length, is_empty, filter, replicate,
}
use libp2p_cat_rs.Prelude.Lex.{key_eq}
use libp2p_cat_rs.Types.Addr.{UdpAddr}
use libp2p_cat_rs.Kad.Distance.{node_id_len}
use libp2p_cat_rs.Kad.NodeId.{NodeId, node_id_lex}

abbrev pub default_k : ℕ
default_k = 20

abbrev pub Entry : Type 0
Entry = NodeId × UdpAddr

pub data InsertOutcome : Type 0 where
  added : InsertOutcome
  updated : InsertOutcome
  bucket_full : NodeId → InsertOutcome

pub record Bucket : Type 0 where
  pub capacity : ℕ
  pub entries : List Entry

unfoldable pub new : ℕ → Bucket
new capacity = record { capacity = capacity; entries = [] }

unfoldable pub len : Bucket → ℕ
len b = length b.entries

unfoldable pub is_empty_bucket : Bucket → Bool
is_empty_bucket b = is_empty b.entries

unfoldable pub is_full : Bucket → Bool
is_full b = length b.entries == b.capacity

-- `.iter().any(|(id, _)| id == node)`
unfoldable pub any_id : NodeId → List Entry → Bool
any_id node [] = false
any_id node ((id, addr) ∷ rest) = key_eq id node || any_id node rest

unfoldable pub contains : NodeId → Bucket → Bool
contains node b = any_id node b.entries

-- `position` of the identifier, then `Vec::remove` there: the entry and the list without it.
unfoldable pub remove_first : NodeId → List Entry → Option (Entry × List Entry)
remove_first node [] = none
remove_first node ((id, addr) ∷ rest) =
    if key_eq id node then some ((id, addr), rest) else elim (remove_first node rest) [
      | none ↦ none
      | some (found, others) ↦ some (found, (id, addr) ∷ others)
    ]

-- `.last()`
unfoldable pub last_id : List Entry → Option NodeId
last_id [] = none
last_id ((id, addr) ∷ []) = some id
last_id ((id, addr) ∷ e ∷ rest) = last_id (e ∷ rest)

abbrev pub lru_of : Option NodeId → NodeId
lru_of none = record { bytes = replicate node_id_len 0 }
lru_of (some id) = id

unfoldable pub insert : NodeId → UdpAddr → Bucket → Bucket × InsertOutcome
insert node addr b = elim (remove_first node b.entries) [
  | some (removed, rest) ↦ (record b { entries = (removed.0, addr) ∷ rest }, updated)
  | none ↦
      if ltb (length b.entries) b.capacity
      then (record b { entries = (node, addr) ∷ b.entries }, added)
      else (b, bucket_full (lru_of (last_id b.entries)))
]

unfoldable pub remove : NodeId → Bucket → Bucket
remove node b = record b { entries = filter (λ e. not (key_eq e.0 node)) b.entries }
