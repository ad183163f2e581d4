-- ===== src/Host/Capacity.antt =====
-- crates/libp2p-cat-host/src/capacity.rs: the caps of the two tables.
use libp2p_cat_rs.Prelude.{ℕ, zero, suc, ◌<◌, ◌≡◌, Option, none, some, arith}

pub record Capacity : Type 0 where
  pub max_handshakes_in_flight : ℕ
  pub max_established : ℕ

unfoldable pub new : ℕ → ℕ → Option Capacity
new zero e = none
new (suc h) zero = none
new (suc h) (suc e) = some (record { max_handshakes_in_flight = suc h; max_established = suc e })

abbrev pub default_capacity : Capacity
default_capacity = record { max_handshakes_in_flight = 256; max_established = 1024 }

-- A capacity that was built has both caps positive.
abbrev pub IsPositive : Capacity → Type 0
IsPositive c = (0 < c.max_handshakes_in_flight) × (0 < c.max_established)

pub new-IsPositive : (h e : ℕ) {c : Capacity} → new h e ≡ some c → IsPositive c
unfolding new
new-IsPositive zero e p = cc
new-IsPositive (suc h) zero p = cc
new-IsPositive (suc h) (suc e) p = (ground arith, ground arith)
