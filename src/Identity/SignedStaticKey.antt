-- ===== src/Identity/SignedStaticKey.antt =====
-- crates/libp2p-cat-identity/src/signed_static_key.rs: the payload that binds a static key to an
-- identity.
pub mod Laws
use libp2p_cat_rs.Prelude.{
  ℕ, ◌+◌, ◌-◌, List, Bool, ltb, if◌then◌else◌, length, get_or, from_fn, slice_to, slice, try_array,
}
use libp2p_cat_rs.Types.Error.{Result, ok, err, ◌>>=◌, ok_or, identity_verify}
use libp2p_cat_rs.Types.PeerId.{PeerId}
use libp2p_cat_rs.Identity.Keypair.{
  domain_tag, ed25519_public_key_len, ed25519_signature_len, Ed25519PublicKey, Ed25519Signature,
  Ed25519, Ed25519Keypair, peer_id_of_key, verifying_key, try_sign,
}

abbrev pub x25519_key_len : ℕ
x25519_key_len = 32

abbrev pub domain_tag_len : ℕ
domain_tag_len = length domain_tag

abbrev pub signed_static_key_len : ℕ
signed_static_key_len = ed25519_public_key_len + ed25519_signature_len

abbrev pub signed_input_len : ℕ
signed_input_len = domain_tag_len + x25519_key_len

unfoldable pub signed_input : List ℕ → List ℕ
signed_input static_bytes = from_fn signed_input_len (λ j.
    if ltb j domain_tag_len
    then get_or domain_tag j 0
    else get_or static_bytes (j - domain_tag_len) 0)

pub record SignedStaticKey : Type 0 where
  pub public_key : Ed25519PublicKey
  pub signature : Ed25519Signature

-- The outcome of `verify_strict`, its error mapped.
unfoldable pub verified : Bool → Result (Unit {0})
verified accepted = if accepted then ok tt else err identity_verify

module _ (scheme : Ed25519) where
  unfoldable pub create : Ed25519Keypair → List ℕ → Result SignedStaticKey
  create keypair static_pub = do
    signature ← try_sign scheme (signed_input static_pub) keypair
    ok (record { public_key = keypair.public_key; signature = signature })

  unfoldable pub verify : List ℕ → SignedStaticKey → Result (Ed25519PublicKey × PeerId)
  verify static_pub s = do
    key ← verifying_key scheme s.public_key
    _ ← verified (scheme.verify_strict key (signed_input static_pub) s.signature)
    ok (s.public_key, peer_id_of_key s.public_key)

unfoldable pub to_bytes : SignedStaticKey → List ℕ
to_bytes s = from_fn signed_static_key_len (λ j.
    if ltb j ed25519_public_key_len
    then get_or s.public_key j 0
    else get_or s.signature (j - ed25519_public_key_len) 0)

unfoldable pub from_bytes : List ℕ → Result SignedStaticKey
from_bytes bytes = do
  pk_slice ← ok_or identity_verify (slice_to ed25519_public_key_len bytes)
  sig_slice ← ok_or identity_verify (slice ed25519_public_key_len signed_static_key_len bytes)
  pk_arr ← ok_or identity_verify (try_array ed25519_public_key_len pk_slice)
  sig_arr ← ok_or identity_verify (try_array ed25519_signature_len sig_slice)
  ok (record { public_key = pk_arr; signature = sig_arr })
