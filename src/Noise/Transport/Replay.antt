-- ===== src/Noise/Transport/Replay.antt =====
-- `decrypt` of crates/libp2p-cat-noise/src/transport.rs over runs of datagrams.
use libp2p_cat_rs.Prelude.{
  ℕ, ◌≡◌, ◌≢◌, ◌⊎◌, refl, Bool, false, List, [], ◌∷◌, arith, Option-cases, slice, try_array, All,
  inl, inr,
}
use libp2p_cat_rs.Prelude.Bytes.{from_be_bytes}
use libp2p_cat_rs.Types.Error.{Error, Result, ok, err}
use libp2p_cat_rs.Noise.Aead.{Chacha20Poly1305}
use libp2p_cat_rs.Noise.Transport.{TransportState, advance_window, decrypt_checked, decrypt}
use libp2p_cat_rs.Noise.Transport.Window.{
  is_covered, nonce_acceptable-is_covered, advance_window-is_covered,
}

-- The nonces that a session refuses as replays.
unfoldable pub refuses : TransportState → ℕ → Bool
refuses s n = is_covered s.recv_replay_window s.recv_max_nonce n

-- The session after a datagram with nonce `n` was accepted.
unfoldable pub accepted : TransportState → ℕ → TransportState
accepted s n = record s {
  recv_max_nonce = (advance_window s.recv_replay_window s.recv_max_nonce n).1;
  recv_replay_window = (advance_window s.recv_replay_window s.recv_max_nonce n).0;
}

-- No nonce twice.
abbrev pub IsDistinct : List ℕ → Type 0
IsDistinct [] = Unit
IsDistinct (n ∷ ns) = All (λ m. n ≢ m) ns × IsDistinct ns

abbrev pub NotRefused : TransportState → List ℕ → Type 0
NotRefused s ns = All (λ n. refuses s n ≡ false) ns

pub Result-cases :
    {A : Type 0} (r : Result A) → ((e : Error) × (r ≡ err e)) ⊎ ((a : A) × (r ≡ ok a))
Result-cases (ok a) = inr (a, refl)
Result-cases (err e) = inl (e, refl)

module _ (cipher : Chacha20Poly1305) where
  decrypt_checked-fresh :
      (key : List ℕ) (window max_nonce : ℕ) (datagram : List ℕ) {n : ℕ} {plaintext : List ℕ}
      → decrypt_checked cipher key window max_nonce datagram ≡ ok (n, plaintext)
      → is_covered window max_nonce n ≡ false
  unfolding decrypt_checked
  decrypt_checked-fresh key window max_nonce datagram h = elim (Option-cases (slice 0 8 datagram)) [
    | inl e ↦ absurd (ground arith)
    | inr (nonce_slice, p) ↦ elim (Option-cases (try_array 8 nonce_slice)) [
      | inl e ↦ absurd (ground arith)
      | inr (nonce_arr, q) ↦
          ground (arith, nonce_acceptable-is_covered window max_nonce (from_be_bytes nonce_arr))
    ]
  ]

  -- The two ways in which decrypting can end: nothing of the session changes, or a plaintext is
  -- accepted under a nonce that was not refused, and only the replay window moves.
  abbrev pub Outcome : List ℕ → TransportState → Type 0
  Outcome datagram s =
      ((e : Error) × (decrypt_checked cipher s.recv_key s.recv_replay_window s.recv_max_nonce
            datagram
          ≡ err e)
        × (decrypt cipher datagram s ≡ (s, err e)))
      ⊎ ((n : ℕ) × (plaintext : List ℕ) × (refuses s n ≡ false)
          × (decrypt_checked cipher s.recv_key s.recv_replay_window s.recv_max_nonce datagram
              ≡ ok (n, plaintext))
          × (decrypt cipher datagram s ≡ (accepted s n, ok plaintext)))

  -- Decrypting either fails, and then nothing of the session changes, or it yields a plaintext for
  -- a nonce that the session did not refuse, and then only the replay window moves, by that nonce.
  pub decrypt_cases : (datagram : List ℕ) (s : TransportState) → Outcome datagram s
  unfolding decrypt accepted refuses
  decrypt_cases datagram s =
      elim (Result-cases
        (decrypt_checked cipher s.recv_key s.recv_replay_window s.recv_max_nonce datagram)) [
          | inl (e, p) ↦ inl (e, p, rw (p, decrypt) refl)
          | inr ((n, plaintext), p) ↦
              inr (n, plaintext, decrypt_checked-fresh _ _ _ datagram p, p, rw (p, decrypt) refl)
        ]

  -- The state after a run of datagrams, and the nonces of those that were accepted, in order.
  unfoldable pub decrypt_all : List (List ℕ) → TransportState → TransportState × List ℕ
  decrypt_all [] s = (s, [])
  decrypt_all (d ∷ ds) s =
      let (last, rest) = decrypt_all ds (decrypt cipher d s).0 in
      elim (decrypt_checked cipher s.recv_key s.recv_replay_window s.recv_max_nonce d) [
        | err e ↦ (last, rest)
        | ok (n, plaintext) ↦ (last, n ∷ rest)
      ]

  decrypt_all_refused :
      (d : List ℕ) (ds : List (List ℕ)) (s : TransportState) {e : Error}
      → decrypt_checked cipher s.recv_key s.recv_replay_window s.recv_max_nonce d ≡ err e
      → decrypt cipher d s ≡ (s, err e)
      → decrypt_all (d ∷ ds) s ≡ decrypt_all ds s
  unfolding decrypt_all
  decrypt_all_refused d ds s p q = rw (p, decrypt_all) (rw q refl)

  decrypt_all-accepted :
      (d : List ℕ) (ds : List (List ℕ)) (s : TransportState) {n : ℕ} {plaintext : List ℕ}
      → decrypt_checked cipher s.recv_key s.recv_replay_window s.recv_max_nonce d
        ≡ ok (n, plaintext)
      → decrypt cipher d s ≡ (accepted s n, ok plaintext)
      → decrypt_all (d ∷ ds) s
        ≡ ((decrypt_all ds (accepted s n)).0, n ∷ (decrypt_all ds (accepted s n)).1)
  unfolding decrypt_all
  decrypt_all-accepted d ds s p q = rw (p, decrypt_all) (rw q refl)

  accepted-refuses :
      (s : TransportState) (n j : ℕ)
      → refuses s n ≡ false
      → refuses (accepted s n) j ≡ false
      → (refuses s j ≡ false) × (n ≢ j)
  unfolding refuses accepted
  accepted-refuses s n j h k =
      let e = advance_window-is_covered s.recv_replay_window s.recv_max_nonce n j h in
      (ground (arith, e, k), λ same. ground (arith, e, k, same))

  NotRefused-accepted :
      (s : TransportState) (n : ℕ) (ns : List ℕ)
      → refuses s n ≡ false
      → NotRefused (accepted s n) ns
      → NotRefused s ns × All (λ m. n ≢ m) ns
  NotRefused-accepted s n [] h r = (tt, tt)
  NotRefused-accepted s n (m ∷ ns) h (r, rs) =
      let (kept, other) = accepted-refuses s n m h r in
      let (more, others) = NotRefused-accepted s n ns h rs in ((kept, more), (other, others))

  -- Whatever datagrams a session receives, in whatever order and however often, it accepts no
  -- nonce that it refused at the start, and none twice.
  pub decrypt_all-IsDistinct :
      (ds : List (List ℕ)) (s : TransportState)
      → NotRefused s (decrypt_all ds s).1 × IsDistinct (decrypt_all ds s).1
  unfolding decrypt_all
  decrypt_all-IsDistinct [] s = (tt, tt)
  decrypt_all-IsDistinct (d ∷ ds) s = elim (decrypt_cases d s) [
    | inl (e, q, p) ↦ rw (decrypt_all_refused d ds s q p) (decrypt_all-IsDistinct ds s)
    | inr (n, plaintext, fresh, q, p) ↦
        let (later, distinct) = decrypt_all-IsDistinct ds (accepted s n) in
        let (kept, others) = NotRefused-accepted s n _ fresh later in
        rw (decrypt_all-accepted d ds s q p) ((fresh, kept), (others, distinct))
  ]
