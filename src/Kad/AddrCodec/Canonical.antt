-- ===== src/Kad/AddrCodec/Canonical.antt =====
-- The address codec of crates/libp2p-cat-kad/src/codec.rs: what a decoded address says of the bytes.
use native.Mathlib.Nat.{zero-add, suc-add}
use libp2p_cat_rs.Prelude.{
  ℕ, zero, suc, ◌+◌, ◌-◌, ◌*◌, ◌/◌, ◌%◌, ◌^◌, ◌≤◌, ◌<◌, ◌≡◌, refl, sym, ap, ◌∙◌, List, [], ◌∷◌,
  ◌++◌, arith, length, length-take, length-drop, take, drop, All, All-take, All-drop, slice,
  slice_to, slice-eq-some, slice_to-eq-some, slice_from-cons, try_array-of_length, some,
  Option-cases, Bool-cases, inl, inr, true, false, ◌==◌,
}
use libp2p_cat_rs.Prelude.Bytes.{IsByte, to_be_bytes, from_be_bytes, from_be_bytes-lt}
use libp2p_cat_rs.Types.Error.{Result, ok, err, pubsub_protocol, map_ok}
use libp2p_cat_rs.Types.Addr.{UdpAddr, v4, v6, IsAddr}
use libp2p_cat_rs.Kad.AddrCodec.{encode_addr, decode_addr_v4, decode_addr_v6, decode_addr}

-- Two bytes, read as a port and written again.
to_be_bytes-from_be_bytes :
    (bs : List ℕ) → length bs ≡ 2 → All IsByte bs → to_be_bytes 2 (from_be_bytes bs) ≡ bs
unfolding to_be_bytes from_be_bytes
to_be_bytes-from_be_bytes [] e h = absurd (omega arith)
to_be_bytes-from_be_bytes (a ∷ []) e h = absurd (omega arith)
to_be_bytes-from_be_bytes (a ∷ b ∷ []) e (ha, (hb, h)) =
    let high : ((0 * 256 + a) * 256 + b) / 256 % 256 ≡ a = omega (arith, ha, hb) in
    let low : ((0 * 256 + a) * 256 + b) % 256 ≡ b = omega (arith, ha, hb) in rw (high, low) refl
to_be_bytes-from_be_bytes (a ∷ b ∷ c ∷ bs) e h = absurd (omega arith)

-- What a decoded body consists of.
record IsBody (n : ℕ) (body ip : List ℕ) (port : ℕ) : Type 0 where
  front : ip ++ to_be_bytes 2 port ≡ take (n + 2) body
  ip_length : length ip ≡ n
  ip_bytes : All IsByte ip
  port_small : port < 2 ^ 16
  enough : n + 2 ≤ length body

take-add : (n m : ℕ) (xs : List ℕ) → take n xs ++ take m (drop n xs) ≡ take (n + m) xs
take-add zero m xs = rw zero-add refl
take-add (suc n) m [] = rw suc-add (take-nil m)
  where
    take-nil : (k : ℕ) → take {A = ℕ} k [] ≡ []
    take-nil zero = refl
    take-nil (suc k) = refl
take-add (suc n) m (x ∷ xs) = rw suc-add (ap (λ t. x ∷ t) (take-add n m xs))

length-slice :
    (n : ℕ) (body : List ℕ) {part : List ℕ} → slice n (n + 2) body ≡ some part → length part ≡ 2
length-slice n body q =
    let (order, fits, part_is) = slice-eq-some n (n + 2) body q in
    ap (λ t. length t) part_is
    ∙ omega (arith, length-take (n + 2 - n) (drop n body), length-drop n body)

slices-IsBody :
    (n : ℕ) (body ip_slice port_slice : List ℕ)
    → All IsByte body
    → slice_to n body ≡ some ip_slice
    → slice n (n + 2) body ≡ some port_slice
    → IsBody n body ip_slice (from_be_bytes port_slice)
slices-IsBody n body ip_slice port_slice h p q =
    let (n_fits, ip_is) = slice_to-eq-some n body p in
    let (order, fits, port_is) = slice-eq-some n (n + 2) body q in
    let two : n + 2 - n ≡ 2 = omega arith in
    let port_take : port_slice ≡ take 2 (drop n body) = port_is ∙ rw two refl in
    let port_len = length-slice n body q in
    let port_bytes : All IsByte port_slice =
      rw port_take (All-take IsByte 2 _ (All-drop IsByte n body h)) in
    let written = to_be_bytes-from_be_bytes port_slice port_len port_bytes in
    record {
      front = rw (written, ip_is, port_take) (take-add n 2 body);
      ip_length = ap (λ t. length t) ip_is ∙ omega (arith, length-take n body);
      ip_bytes = rw ip_is (All-take IsByte n body h);
      port_small = rw port_len at (from_be_bytes-lt port_slice port_bytes);
      enough = fits;
    }

-- The decoded bodies.
decode_addr_v4-eq-ok :
    (body : List ℕ) {a : UdpAddr}
    → All IsByte body
    → decode_addr_v4 body ≡ ok a
    → (ip : List ℕ) × (port : ℕ) × (a ≡ v4 (record { ip = ip; port = port }))
      × IsBody 4 body ip port
unfolding decode_addr_v4
decode_addr_v4-eq-ok body h e = elim (Option-cases (slice_to 4 body)) [
  | inl n ↦ absurd (ground arith)
  | inr (ip, p) ↦ elim (Option-cases (slice 4 6 body)) [
    | inl n ↦ absurd (ground arith)
    | inr (port, q) ↦
        let b = slices-IsBody 4 body ip port h p q in
        let two = try_array-of_length 2 port (length-slice 4 body q) in
        (ip, from_be_bytes port, ground (arith, p, q, two, try_array-of_length 4 ip b.ip_length), b)
  ]
]

decode_addr_v6-eq-ok :
    (body : List ℕ) {a : UdpAddr}
    → All IsByte body
    → decode_addr_v6 body ≡ ok a
    → (ip : List ℕ) × (port : ℕ) × (a
        ≡ v6 (record { ip = ip; port = port; flowinfo = 0; scope_id = 0 }))
      × IsBody 16 body ip port
unfolding decode_addr_v6
decode_addr_v6-eq-ok body h e = elim (Option-cases (slice_to 16 body)) [
  | inl n ↦ absurd (ground arith)
  | inr (ip, p) ↦ elim (Option-cases (slice 16 18 body)) [
    | inl n ↦ absurd (ground arith)
    | inr (port, q) ↦
        let b = slices-IsBody 16 body ip port h p q in
        let two = try_array-of_length 2 port (length-slice 16 body q) in
        (
          ip,
          from_be_bytes port,
          ground (arith, p, q, two, try_array-of_length 16 ip b.ip_length),
          b,
        )
  ]
]

-- The first byte decides between the two.
kind_v4 :
    (kind : ℕ) (body : List ℕ)
    → (kind == 4) ≡ true
    → decode_addr (kind ∷ body) ≡ map_ok (λ a. (a, 7)) (decode_addr_v4 body)
unfolding decode_addr
kind_v4 kind body e = rw (slice_from-cons kind body) (rw e refl)

kind_v6 :
    (kind : ℕ) (body : List ℕ)
    → (kind == 4) ≡ false
    → (kind == 6) ≡ true
    → decode_addr (kind ∷ body) ≡ map_ok (λ a. (a, 19)) (decode_addr_v6 body)
unfolding decode_addr
kind_v6 kind body d e = rw (slice_from-cons kind body) (rw (d, e) refl)

kind_unknown :
    (kind : ℕ) (body : List ℕ)
    → (kind == 4) ≡ false
    → (kind == 6) ≡ false
    → decode_addr (kind ∷ body) ≡ err pubsub_protocol
unfolding decode_addr
kind_unknown kind body d e = rw (slice_from-cons kind body) (rw (d, e) refl)

map_ok-eq-ok :
    (m : ℕ) (r : Result UdpAddr) (a : UdpAddr) (n : ℕ)
    → map_ok {B = UdpAddr × ℕ} (λ x. (x, m)) r ≡ ok (a, n)
    → (r ≡ ok a) × (n ≡ m)
map_ok-eq-ok m (ok x) a n h = ground arith
map_ok-eq-ok m (err e) a n h = cc

-- Bytes that decode to an address begin with exactly the encoding of that address, in the length
-- that is reported, and the address is well formed.
pub decode_addr-eq-ok :
    (buf : List ℕ) (a : UdpAddr) (n : ℕ)
    → All IsByte buf
    → decode_addr buf ≡ ok (a, n)
    → (take n buf ≡ encode_addr a) × (n ≤ length buf) × IsAddr a
decode_addr-eq-ok [] a n h e = unfold decode_addr in cc
decode_addr-eq-ok (kind ∷ body) a n (hk, h) e = elim (Bool-cases (kind == 4)) [
  | inl k ↦
      let (r, len) = map_ok-eq-ok 7 (decode_addr_v4 body) a n (sym (kind_v4 kind body k) ∙ e) in
      let (ip, port, is_v4, b) = decode_addr_v4-eq-ok body h r in
      let four : kind ≡ 4 = ground arith in
      rw (len, is_v4, four)
        (
          unfold encode_addr in ap (λ t. 4 ∷ t) (sym b.front),
          omega (arith, b.enough),
          (b.ip_length, b.ip_bytes, b.port_small),
        )
  | inr k ↦ elim (Bool-cases (kind == 6)) [
    | inl l ↦
        let (r, len) =
          map_ok-eq-ok 19 (decode_addr_v6 body) a n (sym (kind_v6 kind body k l) ∙ e) in
        let (ip, port, is_v6, b) = decode_addr_v6-eq-ok body h r in
        let six : kind ≡ 6 = ground arith in
        rw (len, is_v6, six)
          (
            unfold encode_addr in ap (λ t. 6 ∷ t) (sym b.front),
            omega (arith, b.enough),
            (b.ip_length, b.ip_bytes, b.port_small),
          )
    | inr l ↦ absurd (ground (arith, kind_unknown kind body k l))
  ]
]
