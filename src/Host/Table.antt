-- ===== src/Host/Table.antt =====
-- crates/libp2p-cat-host/src/host.rs: the two tables of a host, bounded by eviction of the least
-- recently used peer, and swept of idle ones. The tables hold values with a time of last activity.
pub mod Laws
use libp2p_cat_rs.Prelude.{
  ℕ, zero, ◌-◌, ◌≡◌, Bool, not, ◌&&◌, Option, none, some, List, [], ◌∷◌, ◌++◌, ltb, leb,
  if◌then◌else◌, length, filter,
}
use libp2p_cat_rs.Prelude.BTreeMap
use libp2p_cat_rs.Prelude.BTreeMap.{BTreeMap, contains_key, keys}
use libp2p_cat_rs.Types.Addr.{UdpAddr, addr_lex}
use libp2p_cat_rs.Host.State.{InFlightHandshake, EstablishedConnection, Host}

module _ {V : Type 0} (last_activity : V → ℕ) where
  -- `min_by_key(last_activity)`: the first of the least values.
  unfoldable pub min_by_key : UdpAddr → ℕ → BTreeMap UdpAddr V → UdpAddr
  min_by_key best least [] = best
  min_by_key best least ((addr, v) ∷ m) =
      if ltb (last_activity v) least
      then min_by_key addr (last_activity v) m
      else min_by_key best least m

  unfoldable pub lru_addr : BTreeMap UdpAddr V → Option UdpAddr
  lru_addr [] = none
  lru_addr ((addr, v) ∷ m) = some (min_by_key addr (last_activity v) m)

  unfoldable pub remove_victim : Option UdpAddr → BTreeMap UdpAddr V → BTreeMap UdpAddr V
  remove_victim none m = m
  remove_victim (some victim) m = BTreeMap.remove victim m

  unfoldable pub insert_with_lru : UdpAddr → V → ℕ → BTreeMap UdpAddr V → BTreeMap UdpAddr V
  insert_with_lru addr entry cap m =
      let room =
        if not (contains_key addr m) && leb cap (length m)
        then remove_victim (lru_addr m) m
        else m in
      BTreeMap.insert addr entry room

  unfoldable pub sweep_idle : ℕ → BTreeMap UdpAddr V → BTreeMap UdpAddr V × List UdpAddr
  sweep_idle cutoff m =
      let evicted = keys (filter (λ e. ltb (last_activity e.1) cutoff) m) in
      let kept = filter (λ e. leb cutoff (last_activity e.1)) m in (kept, evicted)

abbrev pub established_activity : EstablishedConnection → ℕ
established_activity c = c.last_activity

unfoldable pub insert_established_with_lru :
    UdpAddr
    → EstablishedConnection
    → ℕ
    → BTreeMap UdpAddr EstablishedConnection
    → BTreeMap UdpAddr EstablishedConnection
insert_established_with_lru = insert_with_lru established_activity

unfoldable pub sweep_idle_established :
    ℕ
    → BTreeMap UdpAddr EstablishedConnection
    → BTreeMap UdpAddr EstablishedConnection × List UdpAddr
sweep_idle_established = sweep_idle established_activity

abbrev pub handshake_activity : InFlightHandshake → ℕ
handshake_activity h = h.last_activity

module _ {K : Type 0} where
  unfoldable pub evict : UdpAddr → Host K → Host K
  evict addr h = record h {
    handshakes = BTreeMap.remove addr h.handshakes;
    established = BTreeMap.remove addr h.established;
  }

  unfoldable pub evict_idle : ℕ → Host K → Host K × List UdpAddr
  evict_idle max_idle_ticks h =
      let cutoff = h.tick - max_idle_ticks in
      let (handshakes, evicted_h) = sweep_idle handshake_activity cutoff h.handshakes in
      let (established, evicted_e) = sweep_idle_established cutoff h.established in
      (record h { handshakes = handshakes; established = established }, evicted_h ++ evicted_e)
