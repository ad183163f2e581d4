-- ===== src/Examples/Crypto.antt =====
-- Cryptography that does little more than keep to its laws, a socket without a network, and hosts.
use libp2p_cat_rs.Prelude.{ℕ, ◌≡◌, refl, true, some, List, [], ◌∷◌, replicate, arith}
use libp2p_cat_rs.Types.Error.{ok}
use libp2p_cat_rs.Noise.Primitives.{IsX25519, StaticKeypair}
use libp2p_cat_rs.Noise.Aead.{IsSealing}
use libp2p_cat_rs.Noise.Transport
use libp2p_cat_rs.Identity.Keypair.{Ed25519, IsEd25519, Ed25519Keypair, peer_id}
use libp2p_cat_rs.Identity.Keypair
use libp2p_cat_rs.Identity.SignedStaticKey.{SignedStaticKey, create}
use libp2p_cat_rs.Udp.{UdpSocket}
use libp2p_cat_rs.Host.Capacity.{Capacity}
use libp2p_cat_rs.Host.State.{HostIdentity, EstablishedConnection, Host}
use libp2p_cat_rs.Host.Dispatch.{Crypto}
use libp2p_cat_rs.Host.Dispatch.Peers.{IsCrypto, IsHostIdentity}
use libp2p_cat_rs.Examples.Data.{home, away, key, other_key, tagging, tagging-IsAead}

abbrev pub crypto : Crypto
crypto = record {
  cipher = tagging;
  curve = record {
    public_key = λ private. replicate 32 1;
    diffie_hellman = λ private public. replicate 32 3;
  };
  blake3 = record { hash = λ message. replicate 32 5; keyed_xof = λ key message n. replicate n 6 };
  keyed_hash = λ secret message. replicate 32 5;
  scheme = record {
    public_key = λ seed. replicate 32 2;
    try_sign = λ seed message. some (replicate 64 4);
    is_point = λ public. true;
    verify_strict = λ public message signature. true;
  };
}

pub tagging-IsSealing : IsSealing tagging
tagging-IsSealing k nonce aad plaintext h = (_, refl)

pub curve-IsX25519 : IsX25519 crypto.curve
curve-IsX25519 = record { width = λ private. refl; agrees = λ a b. refl }

pub scheme-IsEd25519 : IsEd25519 crypto.scheme
scheme-IsEd25519 = record {
  key_width = λ seed. refl;
  signature_width = λ seed message {signature} h.
      let same : signature ≡ replicate 64 4 = ground arith in rw same refl;
  point = λ seed. refl;
  verifies = λ seed message h. refl;
}

pub crypto-IsCrypto : IsCrypto crypto
crypto-IsCrypto = record {
  aead = tagging-IsAead;
  sealing = tagging-IsSealing;
  dh = curve-IsX25519;
  signing = scheme-IsEd25519;
}

abbrev pub keypair : StaticKeypair
keypair = record { private = key; public = replicate 32 1 }

abbrev pub signer : Ed25519Keypair
signer = record { signing_key = other_key; public_key = replicate 32 2 }

abbrev pub binding : SignedStaticKey
binding = record { public_key = replicate 32 2; signature = replicate 64 4 }

pub binding_created : create crypto.scheme signer keypair.public ≡ ok binding
unfolding create Keypair.try_sign
binding_created = refl

abbrev pub identity : HostIdentity
identity = record {
  static_keypair = keypair;
  signed_static_key = binding;
  peer_id = peer_id signer;
  cookie_secret = key;
}

pub identity-IsHostIdentity : IsHostIdentity crypto signer identity
identity-IsHostIdentity = (refl, refl, binding_created, refl)

-- A socket that takes every datagram and receives one byte from `away`.
abbrev pub os : UdpSocket (Unit {0})
os = record {
  bind = λ addr. ok tt;
  send_to = λ bytes addr socket. ok socket;
  recv_from = λ width socket. ok ((7 ∷ [], 1, away), socket);
}

abbrev pub connection : List ℕ → List ℕ → EstablishedConnection
connection send_key recv_key = record {
  transport = Transport.new send_key recv_key;
  remote_static = replicate 32 1;
  remote_peer_id = peer_id signer;
  last_activity = 0;
}

abbrev pub caps : Capacity
caps = record { max_handshakes_in_flight = 2; max_established = 2 }

abbrev pub idle : Host (Unit {0})
idle = record {
  socket = record { socket = tt; max_send_payload = 1200; recv_buf_size = 65507 };
  identity = identity;
  handshakes = [];
  established = [];
  capacity = caps;
  tick = 0;
}

-- Connected with `home`.
abbrev pub sender : Host (Unit {0})
sender = record idle { established = (home, connection key other_key) ∷ [] }

abbrev pub receiver : Host (Unit {0})
receiver = record idle { established = (home, connection other_key key) ∷ [] }
