-- ===== src/Host/Cookie/Laws.antt =====
-- The cookies of crates/libp2p-cat-host/src/cookie.rs: minting against verifying.
use libp2p_cat_rs.Prelude.{
  ℕ, zero, suc, ◌<◌, ◌≡◌, refl, sym, ap, ◌∙◌, ◌↔◌, true, List, [], ◌∷◌, ◌++◌, length, All, get_or,
  from_fn_at, length-from_fn_at, try_array, try_array-of_length, try_array-eq-some, Option-cases,
  inl, inr, arith, bit_xor, drop,
}
use Prim.Native.Nat.{bit_or}
use libp2p_cat_rs.Prelude.Bits.{
  bit_xor-lt, bit_xor_self, eq_of_bit_xor-zero, bit_or-lt, bit_or-zero,
}
use libp2p_cat_rs.Prelude.Bytes.{IsByte}
use libp2p_cat_rs.Types.Addr.{UdpAddr, SocketAddrV4, v4, v6}
use libp2p_cat_rs.Noise.Handshake.{message_1_len}
use libp2p_cat_rs.Host.Cookie.{
  cookie_domain, cookie_mac_len, is_v4_mapped, addr_bytes, diff_bytes, is_challenge, mint,
  challenge, verify,
}

-- The accumulated difference is zero exactly when the two lists are equal.
diff_bytes_iff :
    (acc : ℕ) (xs ys : List ℕ)
    → acc < 256
    → length xs ≡ length ys
    → All IsByte xs
    → All IsByte ys
    → (diff_bytes acc xs ys ≡ 0) ↔ ((acc ≡ 0) × (xs ≡ ys))
unfolding diff_bytes
diff_bytes_iff acc [] [] ha e hx hy = (λ h. (h, refl), λ h. h.0)
diff_bytes_iff acc [] (y ∷ ys) ha e hx hy = absurd (omega arith)
diff_bytes_iff acc (x ∷ xs) [] ha e hx hy = absurd (omega arith)
diff_bytes_iff acc (x ∷ xs) (y ∷ ys) ha e (hx, hxs) (hy, hys) =
    let d = bit_xor-lt x y hx hy in
    let (sound, complete) =
      diff_bytes_iff (bit_or acc (bit_xor x y)) xs ys (bit_or-lt acc (bit_xor x y) ha d)
        (omega arith) hxs hys in
    let (or_sound, or_complete) = bit_or-zero acc (bit_xor x y) ha d in
    (
      λ h.
          let (none_yet, tail) = sound h in
          let (before, same) = or_sound none_yet in
          (before, cc (eq_of_bit_xor-zero x y hx hy same, tail)),
      λ (before, same).
          let head : x ≡ y = ap (λ t. get_or t 0 0) same in
          complete (or_complete (before, rw head (bit_xor_self y hy)), ap (λ t. drop 1 t) same),
    )

from_fn_at-IsByte :
    (n i : ℕ) (bytes : List ℕ)
    → All IsByte bytes
    → All IsByte (from_fn_at n i (λ j. get_or bytes j 0))
from_fn_at-IsByte zero i bytes h = tt
from_fn_at-IsByte (suc n) i bytes h = (get_or-IsByte bytes i h, from_fn_at-IsByte n (suc i) bytes h)
  where
    get_or-IsByte : (bs : List ℕ) (j : ℕ) → All IsByte bs → get_or bs j 0 < 256
    get_or-IsByte [] j h = omega arith
    get_or-IsByte (b ∷ bs) zero (h, hs) = h
    get_or-IsByte (b ∷ bs) (suc j) (h, hs) = get_or-IsByte bs j hs

module _ (keyed_hash : List ℕ → List ℕ → List ℕ)
    (hash_bytes : (key input : List ℕ) → All IsByte (keyed_hash key input)) where
  length-mint :
      (secret : List ℕ) (source : UdpAddr) (e : List ℕ)
      → length (mint keyed_hash secret source e) ≡ cookie_mac_len
  unfolding mint
  length-mint secret source e =
      length-from_fn_at cookie_mac_len 0
        (λ j. get_or (keyed_hash secret (cookie_domain ++ (addr_bytes source ++ e))) j 0)

  -- With a hash of bytes, an echoed list of bytes is accepted exactly when it is the cookie minted
  -- for that address and key.
  pub verify_iff :
      (secret : List ℕ) (source : UdpAddr) (e mac : List ℕ)
      → All IsByte mac
      → (verify keyed_hash secret source e mac ≡ true) ↔ (mac ≡ mint keyed_hash secret source e)
  unfolding verify
  verify_iff secret source e mac hm = (
    λ h. elim (Option-cases (try_array cookie_mac_len mac)) [
      | inl n ↦ absurd (ground arith)
      | inr (echoed, p) ↦
          let (len, same) = try_array-eq-some cookie_mac_len mac p in
          let zero_diff : diff_bytes 0 minted mac ≡ 0 = ground (arith, p, same) in
          sym ((iff len).0 zero_diff)
    ],
    λ same.
        let len : length mac ≡ cookie_mac_len =
          ap (λ t. length t) same ∙ length-mint secret source e in
        ground (arith, try_array-of_length cookie_mac_len mac len, (iff len).1 (sym same)),
  )
    where
      minted : List ℕ
      minted = mint keyed_hash secret source e

      iff : length mac ≡ cookie_mac_len → (diff_bytes 0 minted mac ≡ 0) ↔ (minted ≡ mac)
      iff len =
          let (sound, complete) =
            diff_bytes_iff 0 minted mac (omega arith) (length-mint secret source e ∙ sym len)
              (unfold mint in from_fn_at-IsByte cookie_mac_len 0 _ (hash_bytes secret _)) hm in
          (λ h. (sound h).1, λ s. complete (refl, s))

  -- With a hash of bytes, the challenge has the shape that the initiator looks for, is shorter
  -- than the message that it answers, and carries a cookie that the host accepts.
  pub challenge_lem :
      (secret : List ℕ) (source : UdpAddr) (e : List ℕ)
      → (is_challenge (challenge keyed_hash secret source e) ≡ true)
        × (length (challenge keyed_hash secret source e) < message_1_len)
        × (verify keyed_hash secret source e (drop 1 (challenge keyed_hash secret source e)) ≡ true)
  unfolding challenge is_challenge
  challenge_lem secret source e =
      let len = length-mint secret source e in
      let bytes : All IsByte (mint keyed_hash secret source e) =
        unfold mint in from_fn_at-IsByte cookie_mac_len 0 _ (hash_bytes secret _) in
      (
        ground (arith, len),
        omega (arith, len),
        (verify_iff secret source e (mint keyed_hash secret source e) bytes).1 refl,
      )

-- An IPv4 address and the same address mapped into IPv6 have one identity.
pub addr_bytes-mapped :
    (s : SocketAddrV4) (flowinfo scope_id : ℕ)
    → addr_bytes (
        v6 (record {
          ip = 0 ∷ 0 ∷ 0 ∷ 0 ∷ 0 ∷ 0 ∷ 0 ∷ 0 ∷ 0 ∷ 0 ∷ 255 ∷ 255 ∷ s.ip;
          port = s.port;
          flowinfo = flowinfo;
          scope_id = scope_id;
        }))
      ≡ addr_bytes (v4 s)
unfolding addr_bytes is_v4_mapped
addr_bytes-mapped s flowinfo scope_id = refl
