-- ===== src/Host/Dispatch/Invariant.antt =====
-- The tables of a host of crates/libp2p-cat-host/src/host.rs under all its operations.
use libp2p_cat_rs.Prelude.{
  ℕ, ◌≤◌, ◌<◌, ◌≡◌, ◌∙◌, ◌⊎◌, false, none, some, length, arith, inl, inr, Bool-cases,
}
use libp2p_cat_rs.Prelude.Lex.{key_eq, eq_of_key_eq}
use libp2p_cat_rs.Prelude.BTreeMap
use libp2p_cat_rs.Prelude.BTreeMap.{
  BTreeMap, IsSorted, contains_key, get-insert, get-remove, insert-IsSorted, remove-IsSorted,
  length-insert, length-remove, length-remove-le,
}
use libp2p_cat_rs.Types.Addr.{UdpAddr, addr_lex}
use libp2p_cat_rs.Host.Capacity.{Capacity, IsPositive}
use libp2p_cat_rs.Host.State.{InFlightHandshake, EstablishedConnection, Host}
use libp2p_cat_rs.Host.Table.{insert_with_lru, handshake_activity, established_activity}
use libp2p_cat_rs.Host.Table.Laws.{insert_with_lru-within, insert_with_lru_cases}

-- The two tables are sorted and within their caps, and no peer stands in both.
pub record IsTables (capacity : Capacity) (handshakes : BTreeMap UdpAddr InFlightHandshake)
    (established : BTreeMap UdpAddr EstablishedConnection) : Type 0 where
  pub handshakes_sorted : IsSorted handshakes
  pub established_sorted : IsSorted established
  pub handshakes_within : length handshakes ≤ capacity.max_handshakes_in_flight
  pub established_within : length established ≤ capacity.max_established
  pub positive : IsPositive capacity
  pub disjoint :
      (j : UdpAddr) → (BTreeMap.get j handshakes ≡ none) ⊎ (BTreeMap.get j established ≡ none)

abbrev pub IsHost : {K : Type 0} → Host K → Type 0
IsHost h = IsTables h.capacity h.handshakes h.established

-- A peer that is not in a table is in it after an insert only if it is the one inserted.
insert_with_lru_others :
    {V : Type 0} (activity : V → ℕ) (addr j : UdpAddr) (entry : V) (limit : ℕ)
    (m : BTreeMap UdpAddr V)
    → IsSorted m
    → 0 < limit
    → key_eq j addr ≡ false
    → BTreeMap.get j m ≡ none
    → BTreeMap.get j (insert_with_lru activity addr entry limit m) ≡ none
insert_with_lru_others activity addr j entry limit m s pos other h =
    elim (insert_with_lru_cases activity addr entry limit m s pos) [
      | inl (room, only) ↦ only j ∙ rw other h
      | inr (victim, w, full, fresh, there, least, get_j) ↦ get_j j ∙ ground (arith, other, h)
    ]

module _ (capacity : Capacity) (hs : BTreeMap UdpAddr InFlightHandshake)
    (es : BTreeMap UdpAddr EstablishedConnection) (addr : UdpAddr)
    (t : IsTables capacity hs es) where
  pub insert_handshake-IsTables :
      (entry : InFlightHandshake)
      → BTreeMap.get addr es ≡ none
      → IsTables capacity
          (insert_with_lru handshake_activity addr entry capacity.max_handshakes_in_flight hs)
          es
  insert_handshake-IsTables entry fresh =
      let (sorted, within) =
        insert_with_lru-within handshake_activity addr entry capacity.max_handshakes_in_flight hs
          t.handshakes_sorted t.positive.0 t.handshakes_within in
      record {
        handshakes_sorted = sorted;
        established_sorted = t.established_sorted;
        handshakes_within = within;
        established_within = t.established_within;
        positive = t.positive;
        disjoint = λ j. elim (Bool-cases (key_eq j addr)) [
          | inl same ↦ inr (rw (eq_of_key_eq j addr same) fresh)
          | inr other ↦ elim (t.disjoint j) [
            | inr gone ↦ inr gone
            | inl gone ↦ inl (
                insert_with_lru_others handshake_activity addr j entry _ hs t.handshakes_sorted
                  t.positive.0 other gone)
          ]
        ];
      }

  pub insert_established-IsTables :
      (conn : EstablishedConnection)
      → BTreeMap.get addr hs ≡ none
      → IsTables capacity hs
          (insert_with_lru established_activity addr conn capacity.max_established es)
  insert_established-IsTables conn fresh =
      let (sorted, within) =
        insert_with_lru-within established_activity addr conn capacity.max_established es
          t.established_sorted t.positive.1 t.established_within in
      record {
        handshakes_sorted = t.handshakes_sorted;
        established_sorted = sorted;
        handshakes_within = t.handshakes_within;
        established_within = within;
        positive = t.positive;
        disjoint = λ j. elim (Bool-cases (key_eq j addr)) [
          | inl same ↦ inl (rw (eq_of_key_eq j addr same) fresh)
          | inr other ↦ elim (t.disjoint j) [
            | inl gone ↦ inl gone
            | inr gone ↦ inr (
                insert_with_lru_others established_activity addr j conn _ es t.established_sorted
                  t.positive.1 other gone)
          ]
        ];
      }

  -- Writing a connection that is there.
  pub update_established-IsTables :
      (conn : EstablishedConnection) {old : EstablishedConnection}
      → BTreeMap.get addr es ≡ some old
      → IsTables capacity hs (BTreeMap.insert addr conn (BTreeMap.remove addr es))
  update_established-IsTables conn there =
      let s' = remove-IsSorted addr es t.established_sorted in
      record {
        handshakes_sorted = t.handshakes_sorted;
        established_sorted = insert-IsSorted addr conn _ s';
        handshakes_within = t.handshakes_within;
        established_within = ground (
          arith,
          t.established_within,
          length-remove addr es (ground (arith, there)),
          length-insert addr conn (BTreeMap.remove addr es) s',
        );
        positive = t.positive;
        disjoint = λ j. elim (Bool-cases (key_eq j addr)) [
          | inl same ↦ elim (t.disjoint j) [
            | inl gone ↦ inl gone
            | inr gone ↦ absurd (ground (arith, gone, there, eq_of_key_eq j addr same))
          ]
          | inr other ↦ elim (t.disjoint j) [
            | inl gone ↦ inl gone
            | inr gone ↦ inr (
                get-insert j addr conn (BTreeMap.remove addr es)
                ∙ rw other (get-remove j addr es ∙ rw other gone))
          ]
        ];
      }

  pub remove_handshake-IsTables : IsTables capacity (BTreeMap.remove addr hs) es
  remove_handshake-IsTables = record {
    handshakes_sorted = remove-IsSorted addr hs t.handshakes_sorted;
    established_sorted = t.established_sorted;
    handshakes_within = omega (arith, t.handshakes_within, length-remove-le addr hs);
    established_within = t.established_within;
    positive = t.positive;
    disjoint = λ j. elim (t.disjoint j) [
      | inr gone ↦ inr gone
      | inl gone ↦ inl (get-remove j addr hs ∙ ground (arith, gone))
    ];
  }

  pub remove_established-IsTables : IsTables capacity hs (BTreeMap.remove addr es)
  remove_established-IsTables = record {
    handshakes_sorted = t.handshakes_sorted;
    established_sorted = remove-IsSorted addr es t.established_sorted;
    handshakes_within = t.handshakes_within;
    established_within = omega (arith, t.established_within, length-remove-le addr es);
    positive = t.positive;
    disjoint = λ j. elim (t.disjoint j) [
      | inl gone ↦ inl gone
      | inr gone ↦ inr (get-remove j addr es ∙ ground (arith, gone))
    ];
  }
