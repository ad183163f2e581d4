-- ===== src/Noise/Transport/Session.antt =====
-- Sender and receiver of one direction of a session of crates/libp2p-cat-noise/src/transport.rs.
use libp2p_cat_rs.Prelude.{
  ℕ, ◌+◌, ◌^◌, ◌≤◌, ◌<◌, ◌≡◌, refl, ap, ◌∙◌, false, List, [], ◌∷◌, map, ◌++◌, arith, length,
  length-append, ltb, slice-append, slice_from-append, try_array-of_length, inl, inr,
}
use libp2p_cat_rs.Prelude.Bytes.{to_be_bytes, length-to_be_bytes, from_be_bytes-to_be_bytes}
use libp2p_cat_rs.Types.Error.{Result, ok, ◌>>=◌}
use libp2p_cat_rs.Noise.Aead.{Chacha20Poly1305, IsAead, aead_encrypt, aead_decrypt-aead_encrypt}
use libp2p_cat_rs.Noise.Transport.{
  TransportState, new, checked_suc, advance_window, decrypt_checked, decrypt, encrypt,
  transport_overhead,
}
use libp2p_cat_rs.Noise.Transport.Window.{
  zero_bit, is_covered, nonce_acceptable-is_covered, advance_window-is_covered,
}
use libp2p_cat_rs.Noise.Transport.Replay.{refuses, accepted, Result-cases}

module _ (cipher : Chacha20Poly1305) where
  -- `encrypt` on each plaintext in turn, and `decrypt` on each datagram in turn.
  unfoldable pub encrypt_all : List (List ℕ) → TransportState → Result (List (List ℕ))
  encrypt_all [] s = ok []
  encrypt_all (p ∷ ps) s = do (s', d) ← encrypt cipher p s; ds ← encrypt_all ps s'; ok (d ∷ ds)

  unfoldable pub read_all : List (List ℕ) → TransportState → List (Result (List ℕ))
  read_all [] s = []
  read_all (d ∷ ds) s = (decrypt cipher d s).1 ∷ read_all ds (decrypt cipher d s).0

module _ (cipher : Chacha20Poly1305) (law : IsAead cipher) where
  -- A datagram is checked and opened where its nonce is fresh.
  decrypt_checked-datagram :
      (key : List ℕ) (window max_nonce nonce : ℕ) (plaintext ciphertext : List ℕ)
      → nonce < 2 ^ 64
      → is_covered window max_nonce nonce ≡ false
      → aead_encrypt cipher key nonce [] plaintext ≡ ok ciphertext
      → decrypt_checked cipher key window max_nonce (to_be_bytes 8 nonce ++ ciphertext)
        ≡ ok (nonce, plaintext)
  unfolding decrypt_checked
  decrypt_checked-datagram key window max_nonce nonce plaintext ciphertext small fresh sealed =
      let (opened, tagged) = aead_decrypt-aead_encrypt cipher law key nonce [] plaintext sealed in
      let eight = length-to_be_bytes 8 nonce in
      let long_enough : ltb (length (to_be_bytes 8 nonce ++ ciphertext)) transport_overhead
          ≡ false =
        ground (arith, length-append (to_be_bytes 8 nonce) ciphertext, eight, tagged) in
      rw
        (
          long_enough,
          slice-append [] (to_be_bytes 8 nonce) ciphertext 0 8 refl (omega (arith, eight)),
          slice_from-append (to_be_bytes 8 nonce) ciphertext 8 eight,
        )
        (rw
          (
            try_array-of_length 8 (to_be_bytes 8 nonce) eight,
            from_be_bytes-to_be_bytes 8 nonce small,
          )
          (rw (nonce_acceptable-is_covered window max_nonce nonce, fresh) (rw opened refl)))

  -- The parts of a datagram that was encrypted.
  pub encrypt-eq-ok :
      (plaintext : List ℕ) (s : TransportState) {s' : TransportState} {datagram : List ℕ}
      → encrypt cipher plaintext s ≡ ok (s', datagram)
      → (ciphertext : List ℕ) × (aead_encrypt cipher s.send_key s.send_nonce [] plaintext
          ≡ ok ciphertext)
        × (s.send_nonce + 1 < 2 ^ 64)
        × (datagram ≡ to_be_bytes 8 s.send_nonce ++ ciphertext)
        × (s' ≡ record s { send_nonce = s.send_nonce + 1 })
  unfolding encrypt checked_suc
  encrypt-eq-ok plaintext s h =
      elim (Result-cases (aead_encrypt cipher s.send_key s.send_nonce [] plaintext)) [
        | inl (e, p) ↦ absurd (ground arith)
        | inr (ciphertext, p) ↦ (ciphertext, p, ground arith, ground arith, ground arith)
      ]

  -- Given a cipher that opens what it sealed: what `encrypt` sends, the peer with the same key
  -- reads, as long as its window does not refuse the sender's nonce; and the sender's counter
  -- moves by one.
  pub decrypt-encrypt :
      (sender sender' receiver : TransportState) (plaintext datagram : List ℕ)
      → sender.send_key ≡ receiver.recv_key
      → refuses receiver sender.send_nonce ≡ false
      → encrypt cipher plaintext sender ≡ ok (sender', datagram)
      → (decrypt cipher datagram receiver ≡ (accepted receiver sender.send_nonce, ok plaintext))
        × (sender' ≡ record sender { send_nonce = sender.send_nonce + 1 })
  unfolding decrypt refuses accepted
  decrypt-encrypt sender sender' receiver plaintext datagram same fresh h =
      let (ciphertext, sealed, small, wire, next) = encrypt-eq-ok plaintext sender h in
      let sealed_here = rw same at sealed in
      let read =
        decrypt_checked-datagram receiver.recv_key receiver.recv_replay_window
          receiver.recv_max_nonce sender.send_nonce plaintext ciphertext (omega (arith, small))
          fresh sealed_here in
      (rw (wire, read, decrypt) refl, next)

  -- Nothing from `n` on is refused.
  abbrev IsOpenFrom : TransportState → ℕ → Type 0
  IsOpenFrom s n = (j : ℕ) → n ≤ j → refuses s j ≡ false

  accepted-IsOpenFrom :
      (s : TransportState) (n : ℕ) → IsOpenFrom s n → IsOpenFrom (accepted s n) (n + 1)
  unfolding refuses accepted advance_window is_covered
  accepted-IsOpenFrom s n h j le =
      let fresh = h n (omega arith) in
      let moved = advance_window-is_covered s.recv_replay_window s.recv_max_nonce n j fresh in
      let later = h j (omega arith) in ground (arith, moved, later)

  -- Datagrams that arrive in the order in which they were sent are all read, each as its plaintext.
  pub read_all-encrypt_all :
      (ps : List (List ℕ)) (sender receiver : TransportState) {ds : List (List ℕ)}
      → sender.send_key ≡ receiver.recv_key
      → IsOpenFrom receiver sender.send_nonce
      → encrypt_all cipher ps sender ≡ ok ds
      → read_all cipher ds receiver ≡ map ok ps
  unfolding encrypt_all read_all accepted
  read_all-encrypt_all [] sender receiver {ds} same open_from h =
      let none_sent : ds ≡ [] = ground arith in rw none_sent refl
  read_all-encrypt_all (p ∷ ps) sender receiver {ds} same open_from h =
      elim (Result-cases (encrypt cipher p sender)) [
        | inl (e, q) ↦ absurd (ground arith)
        | inr ((sender', d), q) ↦ elim (Result-cases (encrypt_all cipher ps sender')) [
          | inl (e, r) ↦ absurd (ground arith)
          | inr (rest, r) ↦
              let (read, next) =
                decrypt-encrypt sender sender' receiver p d same (open_from _ (omega arith)) q in
              let sent : ds ≡ d ∷ rest = ground arith in
              let key : sender'.send_key ≡ receiver.recv_key =
                ap (λ (s : TransportState). s.send_key) next ∙ same in
              let count : sender'.send_nonce ≡ sender.send_nonce + 1 =
                ap (λ (s : TransportState). s.send_nonce) next in
              let ih =
                read_all-encrypt_all ps sender' (accepted receiver sender.send_nonce) key
                  (λ j le.
                    accepted-IsOpenFrom receiver sender.send_nonce open_from j
                      (omega (arith, count, le)))
                  r in
              rw sent (rw read (ap (λ t. ok p ∷ t) ih))
        ]
      ]

  refuses-new : (a b : List ℕ) (j : ℕ) → refuses (new a b) j ≡ false
  unfolding refuses new is_covered
  refuses-new a b j = ground (arith, zero_bit j)

  -- Given a cipher that opens what it sealed, two fresh sessions with matching keys carry any
  -- plaintexts that the sender encrypts: the receiver reads the datagrams, in order, as these
  -- plaintexts.
  pub session-delivers :
      (key sender_recv receiver_send : List ℕ) (ps : List (List ℕ)) {ds : List (List ℕ)}
      → encrypt_all cipher ps (new key sender_recv) ≡ ok ds
      → read_all cipher ds (new receiver_send key) ≡ map ok ps
  session-delivers key sender_recv receiver_send ps h =
      read_all-encrypt_all ps (new key sender_recv) (new receiver_send key) (unfold new in refl)
        (λ j le. refuses-new receiver_send key j) h
