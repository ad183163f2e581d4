-- ===== src/Host/Table/Laws.antt =====
-- The tables of crates/libp2p-cat-host/src/host.rs: caps, victims and sweeps.
use libp2p_cat_rs.Prelude.{
  ℕ, ◌+◌, ◌-◌, ◌≤◌, ◌<◌, ◌≡◌, refl, sym, ap, ◌∙◌, ◌⊎◌, true, false, not, ◌&&◌, none, some, [], ◌∷◌,
  ltb, leb, if◌then◌else◌, length, length-append, arith, inl, inr, Bool-cases, All,
}
use libp2p_cat_rs.Prelude.Lex.{key_eq, key_eq_refl, eq_of_key_eq}
use libp2p_cat_rs.Prelude.BTreeMap
use libp2p_cat_rs.Prelude.BTreeMap.{
  BTreeMap, contains_key, keys, IsSorted, get-insert, get-remove, get-filter, insert-IsSorted,
  remove-IsSorted, filter-IsSorted, length-insert, length-remove,
}
use libp2p_cat_rs.Types.Addr.{UdpAddr, addr_lex}
use libp2p_cat_rs.Host.State.{Host}
use libp2p_cat_rs.Host.Table.{
  min_by_key, lru_addr, remove_victim, insert_with_lru, sweep_idle, handshake_activity,
  established_activity, sweep_idle_established, evict, evict_idle,
}

get_behind :
    {V : Type 0} (k a : UdpAddr) (x : V) (m : BTreeMap UdpAddr V) {w : V}
    → BTreeMap.Above a m
    → BTreeMap.get k m ≡ some w
    → BTreeMap.get k ((a, x) ∷ m) ≡ some w
unfolding BTreeMap.get
get_behind k a x m {w} above h = elim (Bool-cases (key_eq k a)) [
  | inl e ↦
      let same : BTreeMap.get a m ≡ some w = rw (← eq_of_key_eq k a e) h in
      absurd (ground (arith, same, BTreeMap.get_of_Above a m above))
  | inr e ↦ rw e h
]

get_front :
    {V : Type 0} (a : UdpAddr) (x : V) (m : BTreeMap UdpAddr V)
    → BTreeMap.get a ((a, x) ∷ m) ≡ some x
unfolding BTreeMap.get
get_front a x m = rw (key_eq_refl a) refl

module _ {V : Type 0} (last_activity : V → ℕ) where
  -- The least value, and where it stands: at the start, or in the rest.
  abbrev Least : UdpAddr → ℕ → BTreeMap UdpAddr V → UdpAddr → Type 0
  Least best least m victim =
      (v : ℕ) × (v ≤ least)
      × All (λ e. v ≤ last_activity e.1) m
      × (((victim ≡ best) × (v ≡ least))
          ⊎ ((w : V) × (BTreeMap.get victim m ≡ some w) × (last_activity w ≡ v)))

  min_by_key-Least :
      (best : UdpAddr) (least : ℕ) (m : BTreeMap UdpAddr V)
      → IsSorted m
      → Least best least m (min_by_key last_activity best least m)
  unfolding min_by_key
  min_by_key-Least best least [] s = (least, omega arith, tt, inl (refl, refl))
  min_by_key-Least best least ((a, x) ∷ m) (above, s) =
      elim (Bool-cases (ltb (last_activity x) least)) [
        | inl e ↦ rw e (
            let (v, le, all, place) = min_by_key-Least a (last_activity x) m s in
            elim place [
              | inl pq ↦ (v, ground arith, (le, all), inr (x, rw pq.0 (get_front a x m), sym pq.1))
              | inr wgq ↦
                  (v, ground arith, (le, all), inr (wgq.0, get_behind _ a x m above wgq.1, wgq.2))
            ])
        | inr e ↦ rw e (
            let (v, le, all, place) = min_by_key-Least best least m s in
            elim place [
              | inl pq ↦ (v, le, (ground arith, all), inl pq)
              | inr wgq ↦
                  (v, le, (ground arith, all), inr (wgq.0, get_behind _ a x m above wgq.1, wgq.2))
            ])
      ]

  -- The victim of a table is one of its peers, and none was active less recently.
  pub lru_addr-least :
      (m : BTreeMap UdpAddr V) {victim : UdpAddr}
      → IsSorted m
      → lru_addr last_activity m ≡ some victim
      → (w : V) × (BTreeMap.get victim m ≡ some w)
        × All (λ e. last_activity w ≤ last_activity e.1) m
  unfolding lru_addr
  lru_addr-least [] s h = cc
  lru_addr-least ((a, x) ∷ m) {victim} (above, s) h =
      let same : min_by_key last_activity a (last_activity x) m ≡ victim = ground arith in
      let (v, le, all, place) = min_by_key-Least a (last_activity x) m s in
      elim place [
        | inl pq ↦ (x, rw (← same, pq.0) (get_front a x m), (omega arith, rw pq.1 at all))
        | inr wgq ↦ (
          wgq.0,
          rw (← same) (get_behind _ a x m above wgq.1),
          (omega (arith, le, wgq.2), rw (← wgq.2) at all),
        )
      ]

  lru_addr-some :
      (m : BTreeMap UdpAddr V) → 0 < length m → (a : UdpAddr) × (lru_addr last_activity m ≡ some a)
  unfolding lru_addr
  lru_addr-some [] h = absurd (omega arith)
  lru_addr-some ((a, x) ∷ m) h = (_, refl)

  -- The two branches of the insert.
  module _ (addr : UdpAddr) (entry : V) (limit : ℕ) (m : BTreeMap UdpAddr V) where
    pub insert_in_place :
        (not (contains_key addr m) && leb limit (length m)) ≡ false
        → insert_with_lru last_activity addr entry limit m ≡ BTreeMap.insert addr entry m
    unfolding insert_with_lru
    insert_in_place e = rw (e, insert_with_lru) refl

    insert_evicting :
        {victim : UdpAddr}
        → (not (contains_key addr m) && leb limit (length m)) ≡ true
        → lru_addr last_activity m ≡ some victim
        → insert_with_lru last_activity addr entry limit m
          ≡ BTreeMap.insert addr entry (BTreeMap.remove victim m)
    unfolding insert_with_lru remove_victim
    insert_evicting e p = rw (e, p, insert_with_lru) refl

  -- A sorted table within a positive limit stays sorted and within the limit, whoever is inserted.
  pub insert_with_lru-within :
      (addr : UdpAddr) (entry : V) (limit : ℕ) (m : BTreeMap UdpAddr V)
      → IsSorted m
      → 0 < limit
      → length m ≤ limit
      → IsSorted (insert_with_lru last_activity addr entry limit m)
        × (length (insert_with_lru last_activity addr entry limit m) ≤ limit)
  insert_with_lru-within addr entry limit m s pos within =
      elim (Bool-cases (not (contains_key addr m) && leb limit (length m))) [
        | inr e ↦
            rw (insert_in_place addr entry limit m e)
              (insert-IsSorted addr entry m s, ground (arith, length-insert addr entry m s))
        | inl e ↦
            let (victim, p) = lru_addr-some m (ground arith) in
            let (w, g, least) = lru_addr-least m s p in
            let shorter = length-remove victim m (ground (arith, g)) in
            let s' = remove-IsSorted victim m s in
            rw (insert_evicting addr entry limit m e p) (
              insert-IsSorted addr entry _ s',
              ground (arith, shorter, length-insert addr entry _ s'),
            )
      ]

  -- How the table `next` differs from `m`: only in the new entry, or also in one victim.
  abbrev pub OnlyInserted : UdpAddr → V → BTreeMap UdpAddr V → BTreeMap UdpAddr V → Type 0
  OnlyInserted addr entry m next =
      (j : UdpAddr) → BTreeMap.get j next ≡ (if key_eq j addr then some entry else BTreeMap.get j m)

  abbrev pub InsertedFor : UdpAddr → V → ℕ → BTreeMap UdpAddr V → BTreeMap UdpAddr V → Type 0
  InsertedFor addr entry limit m next =
      (victim : UdpAddr) × (w : V) × (limit ≤ length m)
      × (BTreeMap.get addr m ≡ none)
      × (BTreeMap.get victim m ≡ some w)
      × All (λ e. last_activity w ≤ last_activity e.1) m
      × ((j : UdpAddr)
          → BTreeMap.get j next ≡ (
              if key_eq j addr
              then some entry
              else if key_eq j victim
              then none
              else BTreeMap.get j m))

  -- Inserting into a sorted table with a positive limit: where the peer was known or the table not
  -- full, only the new entry changes; otherwise the peer was unknown and the table full, exactly
  -- one other peer is dropped, and no peer of the table was active less recently than that one.
  pub insert_with_lru_cases :
      (addr : UdpAddr) (entry : V) (limit : ℕ) (m : BTreeMap UdpAddr V)
      → IsSorted m
      → 0 < limit
      → (((contains_key addr m ≡ true) ⊎ (length m < limit))
          × OnlyInserted addr entry m (insert_with_lru last_activity addr entry limit m))
        ⊎ InsertedFor addr entry limit m (insert_with_lru last_activity addr entry limit m)
  insert_with_lru_cases addr entry limit m s pos =
      elim (Bool-cases (not (contains_key addr m) && leb limit (length m))) [
        | inr e ↦ inl (
          elim (Bool-cases (contains_key addr m)) [
            | inl known ↦ inl known
            | inr fresh ↦ inr (ground arith)
          ],
          λ j. rw (insert_in_place addr entry limit m e) (get-insert j addr entry m),
        )
        | inl e ↦
            let (victim, p) = lru_addr-some m (ground arith) in
            let (w, g, least) = lru_addr-least m s p in
            inr (
              victim,
              w,
              ground arith,
              ground arith,
              g,
              least,
              λ j. rw (insert_evicting addr entry limit m e p) (
                  get-insert j addr entry (BTreeMap.remove victim m)
                  ∙ ap (λ t. if key_eq j addr then some entry else t) (get-remove j victim m)),
            )
      ]

  -- A sweep keeps an entry exactly when it was active at the cutoff or after it.
  pub get-sweep_idle :
      (cutoff : ℕ) (j : UdpAddr) (m : BTreeMap UdpAddr V)
      → IsSorted m
      → BTreeMap.get j (sweep_idle last_activity cutoff m).0 ≡ elim (BTreeMap.get j m) [
        | none ↦ none
        | some v ↦ if leb cutoff (last_activity v) then some v else none
      ]
  unfolding sweep_idle
  get-sweep_idle cutoff j m s = get-filter j (λ v. leb cutoff (last_activity v)) m s

  -- Every entry is either kept or reported.
  pub length-sweep_idle :
      (cutoff : ℕ) (m : BTreeMap UdpAddr V)
      → length (sweep_idle last_activity cutoff m).0 + length (sweep_idle last_activity cutoff m).1
        ≡ length m
  unfolding sweep_idle
  length-sweep_idle cutoff [] = omega arith
  length-sweep_idle cutoff ((a, v) ∷ m) = ground (arith, length-sweep_idle cutoff m)

module _ {K : Type 0} where
  -- With sorted tables, `evict_idle` keeps a connection, and a handshake, exactly when its last
  -- activity is not before the tick less `max_idle_ticks`, cut off at 0; entries kept and
  -- addresses reported add up to the entries there were.
  pub get-evict_idle :
      (max_idle_ticks : ℕ) (j : UdpAddr) (h : Host K)
      → IsSorted h.handshakes
      → IsSorted h.established
      → (BTreeMap.get j (evict_idle max_idle_ticks h).0.established
          ≡ elim (BTreeMap.get j h.established) [
            | none ↦ none
            | some c ↦ if leb (h.tick - max_idle_ticks) c.last_activity then some c else none
          ])
        × (BTreeMap.get j (evict_idle max_idle_ticks h).0.handshakes
            ≡ elim (BTreeMap.get j h.handshakes) [
              | none ↦ none
              | some c ↦ if leb (h.tick - max_idle_ticks) c.last_activity then some c else none
            ])
        × (length (evict_idle max_idle_ticks h).0.established
              + length (evict_idle max_idle_ticks h).0.handshakes
              + length (evict_idle max_idle_ticks h).1
            ≡ length h.established + length h.handshakes)
  unfolding evict_idle sweep_idle_established
  get-evict_idle n j h sh se =
      let cutoff = h.tick - n in
      (
        get-sweep_idle established_activity cutoff j h.established se,
        get-sweep_idle handshake_activity cutoff j h.handshakes sh,
        omega (
          arith,
          length-sweep_idle established_activity cutoff h.established,
          length-sweep_idle handshake_activity cutoff h.handshakes,
          length-append (sweep_idle handshake_activity cutoff h.handshakes).1
              (sweep_idle established_activity cutoff h.established).1,
        ),
      )

  -- `evict` forgets the peer in both tables, and no other peer.
  pub get-evict :
      (addr j : UdpAddr) (h : Host K)
      → (BTreeMap.get j (evict addr h).established
          ≡ (if key_eq j addr then none else BTreeMap.get j h.established))
        × (BTreeMap.get j (evict addr h).handshakes
            ≡ (if key_eq j addr then none else BTreeMap.get j h.handshakes))
  unfolding evict
  get-evict addr j h = (get-remove j addr h.established, get-remove j addr h.handshakes)
