-- ===== src/Noise/Transport.antt =====
-- crates/libp2p-cat-noise/src/transport.rs: datagrams of an established session, with explicit nonces
-- and a replay window of 64 bits.
pub mod Window
pub mod Replay
pub mod Session
use libp2p_cat_rs.Prelude.{
  ℕ, ◌+◌, ◌-◌, ◌^◌, ◌≡◌, Bool, Option, none, some, List, [], ◌∷◌, ◌++◌, ltb, leb, if◌then◌else◌,
  length, slice, slice_from, try_array,
}
use libp2p_cat_rs.Prelude.Bytes.{to_be_bytes, from_be_bytes}
use libp2p_cat_rs.Prelude.Words.{test_bit, set_bit, shift_left}
use libp2p_cat_rs.Types.Error.{Error, noise_protocol, noise_replay, Result, ok, err, ◌>>=◌, ok_or}
use libp2p_cat_rs.Noise.Aead.{aead_tag_len, Chacha20Poly1305, aead_encrypt, aead_decrypt}

abbrev pub transport_nonce_prefix_len : ℕ
transport_nonce_prefix_len = 8

abbrev pub transport_overhead : ℕ
transport_overhead = transport_nonce_prefix_len + aead_tag_len

abbrev pub replay_window_bits : ℕ
replay_window_bits = 64

pub record TransportState : Type 0 where
  pub send_key : List ℕ
  pub send_nonce : ℕ
  pub recv_key : List ℕ
  pub recv_max_nonce : ℕ
  pub recv_replay_window : ℕ

unfoldable pub new : List ℕ → List ℕ → TransportState
new send_key recv_key = record {
  send_key = send_key;
  send_nonce = 0;
  recv_key = recv_key;
  recv_max_nonce = 0;
  recv_replay_window = 0;
}

-- `checked_add(1)` of a `u64`.
unfoldable pub checked_suc : ℕ → Option ℕ
checked_suc n = if ltb (n + 1) (2 ^ 64) then some (n + 1) else none

unfoldable pub nonce_acceptable : ℕ → ℕ → ℕ → Result (Unit {0})
nonce_acceptable window max_nonce incoming =
    if ltb max_nonce incoming
    then ok tt
    else (let distance = max_nonce - incoming in
        if leb replay_window_bits distance
        then err (noise_replay incoming)
        else if test_bit window distance
        then err (noise_replay incoming)
        else ok tt)

-- As in the source, only called with a nonce that `nonce_acceptable` accepts.
unfoldable pub advance_window : ℕ → ℕ → ℕ → ℕ × ℕ
advance_window window max_nonce incoming =
    if ltb max_nonce incoming
    then (let shift = incoming - max_nonce in
        (
          if leb replay_window_bits shift then 1 else set_bit (shift_left 64 window shift) 0,
          incoming,
        ))
    else (set_bit window (max_nonce - incoming), max_nonce)

module _ (cipher : Chacha20Poly1305) where
  unfoldable pub encrypt : List ℕ → TransportState → Result (TransportState × List ℕ)
  encrypt plaintext s = do
    let nonce = s.send_nonce
    ciphertext ← aead_encrypt cipher s.send_key nonce [] plaintext
    let datagram = to_be_bytes 8 nonce ++ ciphertext
    next_nonce ← ok_or noise_protocol (checked_suc nonce)
    ok (record s { send_nonce = next_nonce }, datagram)

  unfoldable pub decrypt_checked : List ℕ → ℕ → ℕ → List ℕ → Result (ℕ × List ℕ)
  decrypt_checked recv_key window max_nonce datagram =
      if ltb (length datagram) transport_overhead then err noise_protocol else (do
        nonce_slice ← ok_or noise_protocol (slice 0 transport_nonce_prefix_len datagram)
        ciphertext ← ok_or noise_protocol (slice_from transport_nonce_prefix_len datagram)
        nonce_arr ← ok_or noise_protocol (try_array transport_nonce_prefix_len nonce_slice)
        let nonce = from_be_bytes nonce_arr
        _ ← nonce_acceptable window max_nonce nonce
        plaintext ← aead_decrypt cipher recv_key nonce [] ciphertext
        ok (nonce, plaintext))

  unfoldable pub decrypt : List ℕ → TransportState → TransportState × Result (List ℕ)
  decrypt datagram s =
      let result : ℕ × ℕ × Result (List ℕ) =
        elim (decrypt_checked s.recv_key s.recv_replay_window s.recv_max_nonce datagram) [
          | err e ↦ (s.recv_replay_window, s.recv_max_nonce, err e)
          | ok (nonce, plaintext) ↦
              let (new_window, new_max) =
                advance_window s.recv_replay_window s.recv_max_nonce nonce in
              (new_window, new_max, ok plaintext)
        ] in
      let (next_window, next_max, outcome) = result in
      (record s { recv_max_nonce = next_max; recv_replay_window = next_window }, outcome)
