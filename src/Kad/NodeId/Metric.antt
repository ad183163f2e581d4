-- ===== src/Kad/NodeId/Metric.antt =====
-- The XOR metric of crates/libp2p-cat-kad/src/node_id.rs.
use libp2p_cat_rs.Prelude.{
  ℕ, suc, ◌+◌, ◌≡◌, refl, ap, ◌∙◌, List, [], ◌∷◌, arith, length, All, get_or, from_fn, from_fn_at,
  length-from_fn_at, bit_xor,
}
use libp2p_cat_rs.Prelude.Bytes.{IsByte}
use libp2p_cat_rs.Prelude.Bits.{bit_xor_comm, bit_xor_cancel, bit_xor-lt}
use libp2p_cat_rs.Kad.Distance.{node_id_len}
use libp2p_cat_rs.Kad.Distance.Value.{IsDistance}
use libp2p_cat_rs.Kad.NodeId.{NodeId, IsNodeId, distance}

-- `distance` as a walk over both lists of bytes.
xor_bytes : List ℕ → List ℕ → List ℕ
xor_bytes [] ys = []
xor_bytes (x ∷ xs) [] = []
xor_bytes (x ∷ xs) (y ∷ ys) = bit_xor x y ∷ xor_bytes xs ys

from_fn_at-xor :
    (xs ys : List ℕ) (i : ℕ) (f : ℕ → ℕ)
    → length xs ≡ length ys
    → ((j : ℕ) → f (i + j) ≡ bit_xor (get_or xs j 0) (get_or ys j 0))
    → from_fn_at (length xs) i f ≡ xor_bytes xs ys
unfolding xor_bytes
from_fn_at-xor [] ys i f e h = refl
from_fn_at-xor (x ∷ xs) [] i f e h = absurd (omega arith)
from_fn_at-xor (x ∷ xs) (y ∷ ys) i f e h =
    let head : f i ≡ bit_xor x y = ap f (omega arith) ∙ h 0 in
    let rest : from_fn_at (length xs) (suc i) f ≡ xor_bytes xs ys =
      from_fn_at-xor xs ys (suc i) f (omega arith) (λ j. ap f (omega arith) ∙ h (suc j)) in
    cc

abbrev xor_at : List ℕ → List ℕ → ℕ → ℕ
xor_at xs ys i = bit_xor (get_or xs i 0) (get_or ys i 0)

from_fn-xor :
    (n : ℕ) (xs ys : List ℕ)
    → length xs ≡ n
    → length ys ≡ n
    → from_fn n (xor_at xs ys) ≡ xor_bytes xs ys
from_fn-xor n xs ys hx hy =
    rw (← hx)
      (from_fn_at-xor xs ys 0 (xor_at xs ys) (omega arith) (λ j. ap (xor_at xs ys) (omega arith)))

distance-xor_bytes :
    (a b : NodeId) → IsNodeId a → IsNodeId b → (distance a b).bytes ≡ xor_bytes a.bytes b.bytes
unfolding distance
distance-xor_bytes a b (la, ha) (lb, hb) = from_fn-xor node_id_len a.bytes b.bytes la lb

xor_bytes_comm :
    (xs ys : List ℕ)
    → All IsByte xs
    → All IsByte ys
    → length xs ≡ length ys
    → xor_bytes xs ys ≡ xor_bytes ys xs
unfolding xor_bytes
xor_bytes_comm [] [] hx hy e = refl
xor_bytes_comm [] (y ∷ ys) hx hy e = absurd (omega arith)
xor_bytes_comm (x ∷ xs) [] hx hy e = absurd (omega arith)
xor_bytes_comm (x ∷ xs) (y ∷ ys) (hx, hxs) (hy, hys) e =
    cc (bit_xor_comm x y hx hy, xor_bytes_comm xs ys hxs hys (omega arith))

-- The first of the two numbers is known from the other and the distance.
xor_bytes_cancel :
    (xs ys : List ℕ)
    → All IsByte xs
    → All IsByte ys
    → length xs ≡ length ys
    → xor_bytes (xor_bytes xs ys) ys ≡ xs
unfolding xor_bytes
xor_bytes_cancel [] [] hx hy e = refl
xor_bytes_cancel [] (y ∷ ys) hx hy e = absurd (omega arith)
xor_bytes_cancel (x ∷ xs) [] hx hy e = absurd (omega arith)
xor_bytes_cancel (x ∷ xs) (y ∷ ys) (hx, hxs) (hy, hys) e =
    cc (bit_xor_cancel x y hx hy, xor_bytes_cancel xs ys hxs hys (omega arith))

xor_bytes-IsByte : (xs ys : List ℕ) → All IsByte xs → All IsByte ys → All IsByte (xor_bytes xs ys)
unfolding xor_bytes
xor_bytes-IsByte [] ys hx hy = tt
xor_bytes-IsByte (x ∷ xs) [] hx hy = tt
xor_bytes-IsByte (x ∷ xs) (y ∷ ys) (hx, hxs) (hy, hys) =
    (bit_xor-lt x y hx hy, xor_bytes-IsByte xs ys hxs hys)

length-distance : (a b : NodeId) → length (distance a b).bytes ≡ node_id_len
unfolding distance
length-distance a b = length-from_fn_at node_id_len 0 (xor_at a.bytes b.bytes)

pub distance-IsDistance : (a b : NodeId) → IsNodeId a → IsNodeId b → IsDistance (distance a b)
distance-IsDistance a b ha hb = (
  length-distance a b,
  rw (distance-xor_bytes a b ha hb) (xor_bytes-IsByte a.bytes b.bytes ha.1 hb.1),
)

-- The distance does not depend on the order of the two identifiers.
pub distance_comm : (a b : NodeId) → IsNodeId a → IsNodeId b → distance a b ≡ distance b a
distance_comm a b ha hb = cc (
  distance-xor_bytes a b ha hb,
  distance-xor_bytes b a hb ha,
  xor_bytes_comm a.bytes b.bytes ha.1 hb.1 (omega arith),
)

-- Two identifiers of 32 bytes at the same distance to a third are equal.
pub distance_injective :
    (a b target : NodeId)
    → IsNodeId a
    → IsNodeId b
    → IsNodeId target
    → distance a target ≡ distance b target
    → a ≡ b
distance_injective a b target ha hb ht e = cc (
  e,
  distance-xor_bytes a target ha ht,
  distance-xor_bytes b target hb ht,
  xor_bytes_cancel a.bytes target.bytes ha.1 ht.1 (omega arith),
  xor_bytes_cancel b.bytes target.bytes hb.1 ht.1 (omega arith),
)
