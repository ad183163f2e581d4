-- ===== src/Examples/Noise.antt =====
-- A session of a few datagrams.
use libp2p_cat_rs.Prelude.{ℕ, ◌≡◌, refl, List, [], ◌∷◌, ◌++◌, map, slice, slice_from, try_array}
use libp2p_cat_rs.Prelude.Bytes.{to_be_bytes, from_be_bytes}
use libp2p_cat_rs.Prelude.Words.{test_bit, set_bit, shift_left}
use libp2p_cat_rs.Types.Error.{ok}
use libp2p_cat_rs.Noise.Aead.{aead_encrypt, aead_decrypt}
use libp2p_cat_rs.Noise.Transport.{
  TransportState, new, checked_suc, nonce_acceptable, advance_window, encrypt, decrypt_checked,
  decrypt,
}
use libp2p_cat_rs.Noise.Transport.Replay.{
  decrypt_all, IsDistinct, NotRefused, decrypt_all-IsDistinct,
}
use libp2p_cat_rs.Noise.Transport.Session.{encrypt_all, read_all, session-delivers}
use libp2p_cat_rs.Examples.Data.{key, other_key, tag, tagging, tagging-IsAead}

abbrev datagram : ℕ → List ℕ
datagram nonce = to_be_bytes 8 nonce ++ (104 ∷ 105 ∷ tag)

abbrev receiver : TransportState
receiver = new other_key key

abbrev run : List (List ℕ)
run = datagram 5 ∷ datagram 5 ∷ datagram 3 ∷ datagram 70 ∷ datagram 5 ∷ []

-- A repeated datagram is dropped, one out of order is accepted, one that left the window is dropped.
run_nonces : (decrypt_all tagging run receiver).1 ≡ 5 ∷ 3 ∷ 70 ∷ []
unfolding decrypt_all decrypt decrypt_checked nonce_acceptable advance_window aead_decrypt new
    test_bit set_bit shift_left to_be_bytes from_be_bytes slice slice_from try_array
run_nonces = refl

decrypt_all-IsDistinct_example :
    NotRefused receiver (decrypt_all tagging run receiver).1
    × IsDistinct (decrypt_all tagging run receiver).1
decrypt_all-IsDistinct_example = decrypt_all-IsDistinct tagging run receiver

abbrev plaintexts : List (List ℕ)
plaintexts = (1 ∷ 2 ∷ []) ∷ [] ∷ (3 ∷ []) ∷ []

abbrev wire : List (List ℕ)
wire =
    (to_be_bytes 8 0 ++ (1 ∷ 2 ∷ tag))
    ∷ (to_be_bytes 8 1 ++ tag)
    ∷ (to_be_bytes 8 2 ++ (3 ∷ tag))
    ∷ []

sent : encrypt_all tagging plaintexts (new key other_key) ≡ ok wire
unfolding encrypt_all encrypt new aead_encrypt checked_suc to_be_bytes
sent = refl

session-delivers_example : read_all tagging wire (new other_key key) ≡ map ok plaintexts
session-delivers_example =
    session-delivers tagging tagging-IsAead key other_key other_key plaintexts sent

one_sent :
    encrypt tagging (1 ∷ 2 ∷ []) (new key other_key)
    ≡ ok (record (new key other_key) { send_nonce = 1 }, to_be_bytes 8 0 ++ (1 ∷ 2 ∷ tag))
unfolding encrypt new aead_encrypt checked_suc to_be_bytes
one_sent = refl
