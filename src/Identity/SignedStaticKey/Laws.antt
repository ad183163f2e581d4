-- ===== src/Identity/SignedStaticKey/Laws.antt =====
-- The binding of crates/libp2p-cat-identity/src/signed_static_key.rs: on the wire, and verified.
use libp2p_cat_rs.Prelude.{
  ℕ, ◌+◌, ◌≡◌, ◌↔◌, refl, ap, sym, ◌∙◌, List, [], ◌++◌, true, arith, length, length-append, get_or,
  from_fn_at-eq, append_assoc, slice_to-append, slice-append, try_array-of_length, inl, inr,
  Option-cases, ltb, if◌then◌else◌, from_fn, zero, suc, ◌∷◌, ◌-◌,
}
use native.Mathlib.Nat.{zero-add}
use libp2p_cat_rs.Types.Error.{ok}
use libp2p_cat_rs.Types.PeerId.{PeerId}
use libp2p_cat_rs.Identity.Keypair.{
  domain_tag, Ed25519, IsEd25519, IsIdentity, Ed25519Keypair, peer_id, peer_id_of_key,
  verifying_key, try_sign,
}
use libp2p_cat_rs.Identity.SignedStaticKey.{
  SignedStaticKey, verified, signed_input, create, verify, to_bytes, from_bytes,
}

get_or-append :
    (xs ys : List ℕ) (j : ℕ)
    → get_or (xs ++ ys) j 0
      ≡ (if ltb j (length xs) then get_or xs j 0 else get_or ys (j - length xs) 0)
get_or-append [] ys j = ap (λ t. get_or ys t 0) {x = j} {y = j - 0} (omega arith) ∙ ground arith
get_or-append (x ∷ xs) ys zero = ground arith
get_or-append (x ∷ xs) ys (suc j) = ground (arith, get_or-append xs ys j)

-- The copying of two arrays into one is their concatenation.
from_fn-append :
    (xs ys : List ℕ) (m n : ℕ)
    → length xs ≡ m
    → length xs + length ys ≡ n
    → from_fn n (λ j. if ltb j m then get_or xs j 0 else get_or ys (j - m) 0) ≡ xs ++ ys
from_fn-append xs ys m n hm hn =
    rw (← hm, ← hn, ← length-append xs ys)
      (from_fn_at-eq (xs ++ ys) 0 _ 0 (λ j h. rw zero-add (sym (get_or-append xs ys j))))

-- What is signed, for a key of 32 bytes.
pub signed_input-append :
    (static_pub : List ℕ)
    → length static_pub ≡ 32
    → signed_input static_pub ≡ domain_tag ++ static_pub
unfolding signed_input
signed_input-append static_pub h = from_fn-append domain_tag static_pub 31 63 refl (omega arith)

-- The widths of the two arrays.
abbrev pub IsSigned : SignedStaticKey → Type 0
IsSigned s = (length s.public_key ≡ 32) × (length s.signature ≡ 64)

to_bytes-append : (s : SignedStaticKey) → IsSigned s → to_bytes s ≡ s.public_key ++ s.signature
unfolding to_bytes
to_bytes-append s (hp, hs) = from_fn-append s.public_key s.signature 32 96 hp (omega arith)

pub length-to_bytes : (s : SignedStaticKey) → length (to_bytes s) ≡ 96
unfolding to_bytes
length-to_bytes s = refl

-- A binding is read back from its bytes, whatever follows them.
pub from_bytes-to_bytes :
    (s : SignedStaticKey) (rest : List ℕ) → IsSigned s → from_bytes (to_bytes s ++ rest) ≡ ok s
unfolding from_bytes
from_bytes-to_bytes s rest (hp, hs) =
    rw (to_bytes-append s (hp, hs), append_assoc)
      (rw
        (
          slice_to-append s.public_key (s.signature ++ rest) 32 hp,
          slice-append s.public_key s.signature rest 32 96 hp (omega arith),
          try_array-of_length 32 s.public_key hp,
          try_array-of_length 64 s.signature hs,
        )
        refl)

module _ (scheme : Ed25519) where
  pub verify_parts :
      (static_pub : List ℕ) (s : SignedStaticKey) (key : List ℕ) (id : PeerId)
      → (verify scheme static_pub s ≡ ok (key, id)) ↔ (
          (key ≡ s.public_key)
          × (id ≡ peer_id_of_key s.public_key)
          × (scheme.is_point s.public_key ≡ true)
          × (scheme.verify_strict s.public_key (signed_input static_pub) s.signature ≡ true))
  unfolding verify verifying_key verified
  verify_parts static_pub s key id = (
    λ e. (ground arith, ground arith, ground arith, ground arith),
    λ (p, q, r, t). rw (verifying_key, r) (rw t (cc)),
  )

  -- For a static key of 32 bytes: verifying yields a key and a peer identifier exactly when these
  -- are the payload's own key and the identifier derived from it, the key is a curve point, and the
  -- signature is valid for the domain tag followed by the static key.
  pub verify-eq-ok :
      (static_pub : List ℕ) (s : SignedStaticKey) (key : List ℕ) (id : PeerId)
      → length static_pub ≡ 32
      → (verify scheme static_pub s ≡ ok (key, id)) ↔ (
          (key ≡ s.public_key)
          × (id ≡ peer_id_of_key s.public_key)
          × (scheme.is_point s.public_key ≡ true)
          × (scheme.verify_strict s.public_key (domain_tag ++ static_pub) s.signature ≡ true))
  verify-eq-ok static_pub s key id h =
      rw (← signed_input-append static_pub h) (verify_parts static_pub s key id)

module _ (scheme : Ed25519) (law : IsEd25519 scheme) where
  -- With a scheme whose signatures verify: the binding that an identity made for a static key
  -- arrives whole and verifies for that key as this identity. `from_bytes` does not look at what
  -- follows the binding's bytes: they may be followed by any others.
  pub verify-create :
      (k : Ed25519Keypair) (static_pub rest : List ℕ) {s : SignedStaticKey}
      → IsIdentity scheme k
      → create scheme k static_pub ≡ ok s
      → (from_bytes (to_bytes s ++ rest) ≡ ok s)
        × (verify scheme static_pub s ≡ ok (k.public_key, peer_id k))
  unfolding create verify verifying_key verified try_sign peer_id
  verify-create k static_pub rest {s} same h =
      elim (Option-cases (scheme.try_sign k.signing_key (signed_input static_pub))) [
        | inl p ↦ absurd (ground (arith, p))
        | inr (signature, p) ↦
            let made : s ≡ record { public_key = k.public_key; signature = signature } =
              ground (arith, p) in
            let key_width : length k.public_key ≡ 32 = rw same (law.key_width _) in
            let width = law.signature_width k.signing_key (signed_input static_pub) p in
            let point : scheme.is_point k.public_key ≡ true = rw same (law.point _) in
            let good : scheme.verify_strict k.public_key (signed_input static_pub) signature
                ≡ true =
              rw same (law.verifies k.signing_key (signed_input static_pub) p) in
            (
              from_bytes-to_bytes s rest (rw made (key_width, width)),
              rw made (rw (verifying_key, point) (rw good refl)),
            )
      ]
