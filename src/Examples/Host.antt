-- ===== src/Examples/Host.antt =====
-- A full table of two peers, and a cookie.
use libp2p_cat_rs.Prelude.{
  ℕ, ◌<◌, ◌≡◌, ◌↔◌, ◌⊎◌, refl, true, List, [], ◌∷◌, ◌++◌, drop, All, length, replicate, arith,
}
use libp2p_cat_rs.Prelude.Bytes.{IsByte}
use libp2p_cat_rs.Prelude.BTreeMap.{BTreeMap, contains_key, IsSorted}
use libp2p_cat_rs.Types.Addr.{UdpAddr, addr_lex}
use libp2p_cat_rs.Noise.Transport
use libp2p_cat_rs.Host.Capacity.{default_capacity}
use libp2p_cat_rs.Host.State.{EstablishedConnection, Host}
use libp2p_cat_rs.Host.Table.{established_activity, insert_with_lru}
use libp2p_cat_rs.Host.Table.Laws.{OnlyInserted, InsertedFor, insert_with_lru_cases}
use libp2p_cat_rs.Host.Cookie.{mint, challenge, verify, is_challenge}
use libp2p_cat_rs.Noise.Handshake.{message_1_len}
use libp2p_cat_rs.Host.Cookie.Laws.{verify_iff, challenge_lem}
use libp2p_cat_rs.Examples.Data.{home, away, key, other_key, bytes_checked}

abbrev peer : ℕ → EstablishedConnection
peer at_tick = record {
  transport = Transport.new key other_key;
  remote_static = key;
  remote_peer_id = record { bytes = [] };
  last_activity = at_tick;
}

abbrev full : BTreeMap UdpAddr EstablishedConnection
full = (home, peer 4) ∷ []

full-IsSorted : IsSorted full
full-IsSorted = (tt, tt)

insert_with_lru_cases_example :
    (((contains_key away full ≡ true) ⊎ (length full < 1))
      × OnlyInserted established_activity away
          (peer 9)
          full
          (insert_with_lru established_activity away (peer 9) 1 full))
    ⊎ InsertedFor established_activity away
        (peer 9)
        1
        full
        (insert_with_lru established_activity away (peer 9) 1 full)
insert_with_lru_cases_example =
    insert_with_lru_cases established_activity away (peer 9) 1 full full-IsSorted (omega arith)

abbrev host : Host (Unit {0})
host = record {
  socket = record { socket = tt; max_send_payload = 1200; recv_buf_size = 65507 };
  identity = record {
    static_keypair = record { private = key; public = key };
    signed_static_key = record { public_key = key; signature = key ++ key };
    peer_id = record { bytes = [] };
    cookie_secret = other_key;
  };
  handshakes = [];
  established = full;
  capacity = default_capacity;
  tick = 30;
}

-- A hash that does not look at its input.
abbrev constant_hash : List ℕ → List ℕ → List ℕ
constant_hash secret input = replicate 32 5

constant_hash-IsByte : (secret input : List ℕ) → All IsByte (constant_hash secret input)
constant_hash-IsByte secret input = bytes_checked (replicate 32 5) refl

verify_iff_example :
    (verify constant_hash key home other_key (replicate 16 5) ≡ true)
    ↔ (replicate 16 5 ≡ mint constant_hash key home other_key)
verify_iff_example =
    verify_iff constant_hash constant_hash-IsByte key home other_key (replicate 16 5)
      (bytes_checked (replicate 16 5) refl)

challenge_lem_example :
    (is_challenge (challenge constant_hash key home other_key) ≡ true)
    × (length (challenge constant_hash key home other_key) < message_1_len)
    × (verify constant_hash key home other_key (drop 1 (challenge constant_hash key home other_key))
        ≡ true)
challenge_lem_example = challenge_lem constant_hash constant_hash-IsByte key home other_key
