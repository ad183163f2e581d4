-- ===== src/Noise/Transport/Window.antt =====
-- The replay window of crates/libp2p-cat-noise/src/transport.rs: the nonces that it covers.
use libp2p_cat_rs.Prelude.{
  ℕ, zero, suc, ap, ◌+◌, ◌-◌, ◌≤◌, ◌<◌, ◌≡◌, refl, Bool, false, ◌||◌, ◌&&◌, ltb, leb, ◌==◌,
  if◌then◌else◌, arith, Bool-cases, inl, inr,
}
use libp2p_cat_rs.Prelude.Words.{test_bit, test_bit-set_bit, test_bit-shift_left, shift_left}
use libp2p_cat_rs.Types.Error.{noise_replay, ok, err}
use libp2p_cat_rs.Noise.Transport.{nonce_acceptable, advance_window, replay_window_bits}

-- The window refuses a nonce: it has left the window, or its bit is set.
unfoldable pub is_covered : ℕ → ℕ → ℕ → Bool
is_covered window max_nonce n =
    leb n max_nonce && (leb replay_window_bits (max_nonce - n) || test_bit window (max_nonce - n))

-- A nonce is accepted exactly when the window does not cover it, and refused as a replay otherwise.
pub nonce_acceptable-is_covered :
    (window max_nonce n : ℕ)
    → nonce_acceptable window max_nonce n
      ≡ (if is_covered window max_nonce n then err (noise_replay n) else ok tt)
unfolding nonce_acceptable is_covered
nonce_acceptable-is_covered window max_nonce n = ground arith

pub zero_bit : (d : ℕ) → test_bit 0 d ≡ false
unfolding test_bit
zero_bit zero = refl
zero_bit (suc d) = zero_bit d

one_bit : (d : ℕ) → test_bit 1 d ≡ (d == 0)
unfolding test_bit
one_bit zero = refl
one_bit (suc d) = ground (arith, zero_bit d)

-- Advancing by a nonce that is not covered covers that nonce, every nonce covered before, the
-- nonces that have left the window, and no other.
pub advance_window-is_covered :
    (window max_nonce n j : ℕ)
    → is_covered window max_nonce n ≡ false
    → is_covered (advance_window window max_nonce n).0 (advance_window window max_nonce n).1 j ≡ (
        j == n
        || (is_covered window max_nonce j
            || leb (j + replay_window_bits) (advance_window window max_nonce n).1))
unfolding advance_window is_covered
advance_window-is_covered window max_nonce n j h = elim (Bool-cases (ltb max_nonce n)) [
  | inl ahead ↦ rw ahead (elim (Bool-cases (leb 64 (n - max_nonce))) [
    | inl far ↦ rw far (ground (arith, test_bit-set_bit 0 0 (n - j), one_bit (n - j)))
    | inr near ↦ rw near (
        ground (
          arith,
          test_bit-set_bit (shift_left 64 window (n - max_nonce)) 0 (n - j),
          λ (lt : n - j < 64). test_bit-shift_left 64 window (n - max_nonce) (n - j) lt,
          λ (le : j ≤ max_nonce). moved le (ground arith),
        ))
  ])
  | inr behind ↦ rw behind (ground (arith, test_bit-set_bit window (max_nonce - n) (max_nonce - j)))
]
  where
    moved :
        j ≤ max_nonce
        → max_nonce < n
        → test_bit window (n - j - (n - max_nonce)) ≡ test_bit window (max_nonce - j)
    moved le lt = ap (test_bit window) (omega arith)
