-- ===== src/Kad/Bucket/Invariant.antt =====
-- The invariant of crates/libp2p-cat-kad/src/bucket.rs, and the bucket as a map.
use libp2p_cat_rs.Prelude.{
  ℕ, suc, ◌≤◌, ◌<◌, ◌≡◌, ◌⊎◌, refl, Bool, true, false, not, Option, none, some, List, [], ◌∷◌,
  arith, length, All, All-filter, filter, length-filter-le, if◌then◌else◌, ltb, inl, inr,
  Bool-cases, Option-cases,
}
use libp2p_cat_rs.Prelude.Lex.{key_eq, cmp_iff, eq_of_key_eq}
use libp2p_cat_rs.Types.Addr.{UdpAddr}
use libp2p_cat_rs.Kad.NodeId.{NodeId, node_id_lex}
use libp2p_cat_rs.Kad.Bucket.{
  Bucket, Entry, InsertOutcome, added, updated, bucket_full, any_id, contains, remove_first,
  last_id, lru_of, insert, remove, new,
}

-- No identifier stands twice.
abbrev pub IsDistinct : List Entry → Type 0
IsDistinct [] = Unit
IsDistinct ((id, addr) ∷ rest) = (any_id id rest ≡ false) × IsDistinct rest

pub record IsValid (b : Bucket) : Type 0 where
  pub within : length b.entries ≤ b.capacity
  pub distinct : IsDistinct b.entries

-- The address under which a peer is known.
unfoldable pub addr_of : NodeId → List Entry → Option UdpAddr
addr_of node [] = none
addr_of node ((id, addr) ∷ rest) = if key_eq id node then some addr else addr_of node rest

pub new-IsValid : (k : ℕ) → IsValid (new k)
unfolding new
new-IsValid k = record { within = omega arith; distinct = tt }

remove_first-none :
    (node : NodeId) (es : List Entry) → remove_first node es ≡ none → any_id node es ≡ false
unfolding remove_first any_id
remove_first-none node [] h = refl
remove_first-none node ((id, addr) ∷ es) h = ground (arith, remove_first-none node es)

-- `remove_first` finds the node, and leaves the other entries as they are.
remove_first-some :
    (node : NodeId) (es : List Entry) {found : Entry} {rest : List Entry}
    → remove_first node es ≡ some (found, rest)
    → (found.0 ≡ node) × (suc (length rest) ≡ length es) × (any_id node es ≡ true)
unfolding remove_first any_id
remove_first-some node [] h = cc
remove_first-some node ((id, addr) ∷ es) {found} {rest} h = elim (Bool-cases (key_eq id node)) [
  | inl e ↦ ground (arith, eq_of_key_eq id node)
  | inr e ↦ elim (Option-cases (remove_first node es)) [
    | inl n ↦ absurd (ground arith)
    | inr ((f, r), p) ↦ ground (arith, remove_first-some node es p)
  ]
]

remove_first_others :
    (node j : NodeId) (es : List Entry) {found : Entry} {rest : List Entry}
    → remove_first node es ≡ some (found, rest)
    → key_eq node j ≡ false
    → (addr_of j rest ≡ addr_of j es) × (any_id j rest ≡ any_id j es)
unfolding remove_first any_id addr_of
remove_first_others node j [] h d = cc
remove_first_others node j ((id, addr) ∷ es) h d = elim (Bool-cases (key_eq id node)) [
  | inl e ↦ ground (arith, cmp_iff id node, cmp_iff id j, cmp_iff node j)
  | inr e ↦ elim (Option-cases (remove_first node es)) [
    | inl n ↦ absurd (ground arith)
    | inr ((f, r), p) ↦ ground (arith, remove_first_others node j es p d)
  ]
]

remove_first-IsDistinct :
    (node : NodeId) (es : List Entry) {found : Entry} {rest : List Entry}
    → remove_first node es ≡ some (found, rest)
    → IsDistinct es
    → (any_id node rest ≡ false) × IsDistinct rest
unfolding remove_first any_id
remove_first-IsDistinct node [] h d = cc
remove_first-IsDistinct node ((id, addr) ∷ es) {found} {rest} h (fresh, d) =
    elim (Bool-cases (key_eq id node)) [
      | inl e ↦
          let same : id ≡ node = eq_of_key_eq id node e in
          let tail : es ≡ rest = ground arith in (rw (← tail) (rw (← same) fresh), rw (← tail) d)
      | inr e ↦ elim (Option-cases (remove_first node es)) [
        | inl n ↦ absurd (ground arith)
        | inr ((f, r), p) ↦
            let (gone, still) = remove_first-IsDistinct node es p d in
            let tail : (id, addr) ∷ r ≡ rest = ground arith in
            let kept =
              remove_first_others node id es p (ground (arith, cmp_iff id node, cmp_iff node id)) in
            rw (← tail) (ground arith, (ground arith, still))
      ]
    ]

-- The three branches of `insert`.
module _ (node : NodeId) (addr : UdpAddr) (b : Bucket) where
  pub insert_known :
      {found : Entry} {rest : List Entry}
      → remove_first node b.entries ≡ some (found, rest)
      → insert node addr b ≡ (record b { entries = (found.0, addr) ∷ rest }, updated)
  unfolding insert
  insert_known p = rw (p, insert)

  pub insert_room :
      remove_first node b.entries ≡ none
      → ltb (length b.entries) b.capacity ≡ true
      → insert node addr b ≡ (record b { entries = (node, addr) ∷ b.entries }, added)
  unfolding insert
  insert_room p q = rw (p, q, insert)

  pub insert_no_room :
      remove_first node b.entries ≡ none
      → ltb (length b.entries) b.capacity ≡ false
      → insert node addr b ≡ (b, bucket_full (lru_of (last_id b.entries)))
  unfolding insert
  insert_no_room p q = rw (p, q, insert)

-- Inserting into a bucket within its capacity, with each peer once, keeps it so.
pub insert-IsValid :
    (node : NodeId) (addr : UdpAddr) (b : Bucket) → IsValid b → IsValid (insert node addr b).0
insert-IsValid node addr b v = elim (Option-cases (remove_first node b.entries)) [
  | inl n ↦ elim (Bool-cases (ltb (length b.entries) b.capacity)) [
    | inl room ↦ rw (insert_room node addr b n room) (record {
      within = ground arith;
      distinct = (remove_first-none node b.entries n, v.distinct);
    })
    | inr full ↦ rw (insert_no_room node addr b n full) v
  ]
  | inr ((found, rest), p) ↦
      let (same, shorter, here) = remove_first-some node b.entries p in
      let (gone, still) = remove_first-IsDistinct node b.entries p v.distinct in
      rw (insert_known node addr b p)
        (record { within = omega (arith, v.within); distinct = (rw same gone, still) })
]

abbrev pub is_bucket_full : InsertOutcome → Bool
is_bucket_full (bucket_full n) = true
is_bucket_full _ = false

addr_of-none : (node : NodeId) (es : List Entry) → any_id node es ≡ false → addr_of node es ≡ none
unfolding any_id addr_of
addr_of-none node [] h = refl
addr_of-none node ((id, addr) ∷ es) h = ground (arith, addr_of-none node es)

-- After an insert that is not refused the peer is known under the new address; after a refused one
-- it is unknown. No other peer's address changes.
pub addr_of-insert :
    (node j : NodeId) (addr : UdpAddr) (b : Bucket)
    → addr_of j (insert node addr b).0.entries ≡ (
        if key_eq node j
        then (if is_bucket_full (insert node addr b).1 then none else some addr)
        else addr_of j b.entries)
addr_of-insert node j addr b = elim (Option-cases (remove_first node b.entries)) [
  | inl n ↦ elim (Bool-cases (ltb (length b.entries) b.capacity)) [
    | inl room ↦ rw (insert_room node addr b n room) (unfold addr_of in refl)
    | inr full ↦ rw (insert_no_room node addr b n full) (
        ground
          (arith, addr_of-none node b.entries (remove_first-none node b.entries n), cmp_iff node j))
  ]
  | inr ((found, rest), p) ↦ rw (insert_known node addr b p) (
      unfold addr_of in
      ground (arith, remove_first-some node b.entries p, remove_first_others node j b.entries p))
]

any_id-filter :
    (node j : NodeId) (es : List Entry)
    → (any_id j (filter (λ e. not (key_eq e.0 node)) es)
        ≡ (if key_eq node j then false else any_id j es))
      × (addr_of j (filter (λ e. not (key_eq e.0 node)) es)
          ≡ (if key_eq node j then none else addr_of j es))
unfolding any_id addr_of
any_id-filter node j [] = (ground arith, ground arith)
any_id-filter node j ((id, addr) ∷ es) =
    let (p, q) = any_id-filter node j es in
    (
      ground (arith, p, cmp_iff id node, cmp_iff id j, cmp_iff node j),
      ground (arith, q, cmp_iff id node, cmp_iff id j, cmp_iff node j),
    )

filter-IsDistinct :
    (node : NodeId) (es : List Entry)
    → IsDistinct es
    → IsDistinct (filter (λ e. not (key_eq e.0 node)) es)
filter-IsDistinct node [] d = tt
filter-IsDistinct node ((id, addr) ∷ es) (fresh, d) = elim (Bool-cases (key_eq id node)) [
  | inl e ↦ rw e (filter-IsDistinct node es d)
  | inr e ↦ rw e (ground (arith, (any_id-filter node id es).0, fresh), filter-IsDistinct node es d)
]

-- Removing keeps the bucket valid, makes the peer unknown, and changes no other peer.
pub remove-IsValid : (node : NodeId) (b : Bucket) → IsValid b → IsValid (remove node b)
unfolding remove
remove-IsValid node b v = record {
  within = omega (arith, length-filter-le {0} (λ e. not (key_eq e.0 node)) b.entries, v.within);
  distinct = filter-IsDistinct node b.entries v.distinct;
}

pub addr_of-remove :
    (node j : NodeId) (b : Bucket)
    → addr_of j (remove node b).entries ≡ (if key_eq node j then none else addr_of j b.entries)
unfolding remove
addr_of-remove node j b = (any_id-filter node j b.entries).1

pub contains-remove :
    (node j : NodeId) (b : Bucket)
    → contains j (remove node b) ≡ (if key_eq node j then false else contains j b)
unfolding remove contains
contains-remove node j b = (any_id-filter node j b.entries).0

-- `insert` by cases: a known peer moves to the front under its new address; a new one goes to the
-- front where there is room; in a full bucket nothing changes, and the last entry is reported.
pub insert_cases :
    (node : NodeId) (addr : UdpAddr) (b : Bucket)
    → ((contains node b ≡ true)
        × ((rest : List Entry) × (insert node addr b
              ≡ (record b { entries = (node, addr) ∷ rest }, updated))
            × (suc (length rest) ≡ length b.entries)))
      ⊎ ((contains node b ≡ false)
          × (length b.entries < b.capacity)
          × (insert node addr b ≡ (record b { entries = (node, addr) ∷ b.entries }, added)))
      ⊎ ((contains node b ≡ false)
          × (b.capacity ≤ length b.entries)
          × (insert node addr b ≡ (b, bucket_full (lru_of (last_id b.entries)))))
unfolding contains
insert_cases node addr b = elim (Option-cases (remove_first node b.entries)) [
  | inl n ↦
      let absent = remove_first-none node b.entries n in
      elim (Bool-cases (ltb (length b.entries) b.capacity)) [
        | inl room ↦ inr (inl (absent, ground arith, insert_room node addr b n room))
        | inr full ↦ inr (inr (absent, ground arith, insert_no_room node addr b n full))
      ]
  | inr ((found, rest), p) ↦
      let (same, shorter, here) = remove_first-some node b.entries p in
      inl (here, (rest, rw (insert_known node addr b p, same) refl, shorter))
]

remove_first-All :
    (P : NodeId → Type 0) (node : NodeId) (es : List Entry) {found : Entry} {rest : List Entry}
    → remove_first node es ≡ some (found, rest)
    → All (λ e. P e.0) es
    → All (λ e. P e.0) rest
unfolding remove_first
remove_first-All P node [] h a = cc
remove_first-All P node ((id, addr) ∷ es) {found} {rest} h (a, as') =
    elim (Bool-cases (key_eq id node)) [
      | inl e ↦ let tail : es ≡ rest = ground arith in rw (← tail) as'
      | inr e ↦ elim (Option-cases (remove_first node es)) [
        | inl n ↦ absurd (ground arith)
        | inr ((f, r), p) ↦
            let tail : (id, addr) ∷ r ≡ rest = ground arith in
            rw (← tail) (a, remove_first-All P node es p as')
      ]
    ]

-- A property of identifiers that holds in the bucket holds after an insert, and after a removal.
pub insert-All :
    (P : NodeId → Type 0) (node : NodeId) (addr : UdpAddr) (b : Bucket)
    → P node
    → All (λ e. P e.0) b.entries
    → All (λ e. P e.0) (insert node addr b).0.entries
insert-All P node addr b h a = elim (Option-cases (remove_first node b.entries)) [
  | inl n ↦ elim (Bool-cases (ltb (length b.entries) b.capacity)) [
    | inl room ↦ rw (insert_room node addr b n room) (h, a)
    | inr full ↦ rw (insert_no_room node addr b n full) a
  ]
  | inr ((found, rest), p) ↦
      let (same, shorter, here) = remove_first-some node b.entries p in
      rw (insert_known node addr b p, same) (h, remove_first-All P node b.entries p a)
]

pub remove-All :
    (P : NodeId → Type 0) (node : NodeId) (b : Bucket)
    → All (λ e. P e.0) b.entries
    → All (λ e. P e.0) (remove node b).entries
unfolding remove
remove-All P node b a = All-filter (λ e. P e.0) _ b.entries a

pub capacity-insert :
    (node : NodeId) (addr : UdpAddr) (b : Bucket) → (insert node addr b).0.capacity ≡ b.capacity
unfolding insert
capacity-insert node addr b = ground arith
