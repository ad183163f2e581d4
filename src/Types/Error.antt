-- ===== src/Types/Error.antt =====
-- crates/libp2p-cat-types/src/error.rs: the workspace's error type, and `Result<_, Error>`.
-- The text of a `reason` and the detail of an operating-system error are not kept.
use libp2p_cat_rs.Prelude.{ℕ, ◌≡◌, refl, List, Option, none, some, arith}

pub data Error : Type 0 where
  io : Error
  invalid_protocol_id : List ℕ → Error
  invalid_peer_id : Error
  datagram_too_large : ℕ → ℕ → Error
  noise_decrypt : Error
  noise_protocol : Error
  noise_replay : ℕ → Error
  rlnc_layer : Error
  pubsub_protocol : Error
  host_state : Error
  identity_verify : Error

pub data Result {ℓ} (A : Type ℓ) : Type ℓ where
  ok : A → Result A
  err : Error → Result A

infixl 5 ◌>>=◌
abbrev pub ◌>>=◌ {ℓ κ} : {A : Type ℓ} {B : Type κ} → Result A → (A → Result B) → Result B
ok a >>= f = f a
err e >>= f = err e

-- `ok_or`, and `map`.
abbrev pub ok_or {ℓ} : {A : Type ℓ} → Error → Option A → Result A
ok_or e none = err e
ok_or e (some a) = ok a

abbrev pub map_ok {ℓ κ} : {A : Type ℓ} {B : Type κ} → (A → B) → Result A → Result B
map_ok f (ok a) = ok (f a)
map_ok f (err e) = err e

-- A property of the value of a result, where there is one.
module _ {A : Type 0} (P : A → Type 0) where
  abbrev pub Ensures : Result A → Type 0
  Ensures (ok a) = P a
  Ensures (err e) = Unit

  pub Ensures-elim : (r : Result A) {a : A} → Ensures r → r ≡ ok a → P a
  Ensures-elim (ok b) {a} p h = let same : b ≡ a = ground arith in rw (← same) p
  Ensures-elim (err e) p h = cc

  pub Ensures-bind :
      {B : Type 0} (m : Result B) (f : B → Result A)
      → ((b : B) → m ≡ ok b → Ensures (f b))
      → Ensures (m >>= f)
  Ensures-bind (ok b) f k = k b refl
  Ensures-bind (err e) f k = tt

pub Ensures-map :
    {A : Type 0} (P Q : A → Type 0) (r : Result A)
    → ((a : A) → P a → Q a)
    → Ensures P r
    → Ensures Q r
Ensures-map P Q (ok a) f p = f a p
Ensures-map P Q (err e) f p = tt
