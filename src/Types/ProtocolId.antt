-- ===== src/Types/ProtocolId.antt =====
-- crates/libp2p-cat-types/src/protocol_id.rs: protocol names, as their bytes.
use libp2p_cat_rs.Prelude.{
  ℕ, ◌≤◌, ◌≡◌, ◌↔◌, ◌&&◌, true, false, Bool, List, [], ◌∷◌, leb, ◌==◌, if◌then◌else◌, all, All,
  arith, refl, inl, inr, Bool-cases,
}
use libp2p_cat_rs.Types.Error.{Result, ok, err, invalid_protocol_id}

pub record ProtocolId : Type 0 where
  pub name : List ℕ

starts_with_slash : List ℕ → Bool
starts_with_slash [] = false
starts_with_slash (c ∷ cs) = c == b'/'

unfoldable pub is_printable : ℕ → Bool
is_printable b = leb 0x21 b && leb b 0x7E

unfoldable pub new : List ℕ → Result ProtocolId
unfolding starts_with_slash
new name =
    if starts_with_slash name && all is_printable name
    then ok (record { name = name })
    else err (invalid_protocol_id name)

-- A byte from `!` to `~`.
abbrev pub IsPrintable : ℕ → Type 0
IsPrintable b = (0x21 ≤ b) × (b ≤ 0x7E)

pub all-is_printable : (bs : List ℕ) → (all is_printable bs ≡ true) ↔ All IsPrintable bs
unfolding is_printable
all-is_printable [] = (λ h. tt, λ h. refl)
all-is_printable (b ∷ bs) =
    let ih = all-is_printable bs in
    (λ h. ((ground arith, ground arith), ih.0 (ground arith)), λ h. ground (arith, ih.1 h.1))

-- The abstract form of a valid name: a slash, then printable bytes only.
abbrev pub IsProtocolName : List ℕ → Type 0
IsProtocolName [] = ⊥
IsProtocolName (c ∷ cs) = (c ≡ b'/') × All IsPrintable cs

-- A name is accepted, unchanged, when it is a slash followed by printable bytes; any other is
-- refused with the input that was given.
pub new_cases :
    (name : List ℕ)
    → (IsProtocolName name → new name ≡ ok (record { name = name }))
      × (¬ IsProtocolName name → new name ≡ err (invalid_protocol_id name))
unfolding new
new_cases [] = (λ h. absurd h, λ h. refl)
new_cases (c ∷ cs) =
    let (sound, complete) = all-is_printable (c ∷ cs) in
    (λ h. accepted h (complete ((omega arith, omega arith), h.1)), λ h. refused h sound)
  where
    accepted :
        (c ≡ b'/') × All IsPrintable cs
        → all is_printable (c ∷ cs) ≡ true
        → new (c ∷ cs) ≡ ok (record { name = c ∷ cs })
    accepted h e = ground arith

    refused :
        ¬ ((c ≡ b'/') × All IsPrintable cs)
        → (all is_printable (c ∷ cs) ≡ true → All IsPrintable (c ∷ cs))
        → new (c ∷ cs) ≡ err (invalid_protocol_id (c ∷ cs))
    refused h sound = elim (Bool-cases (all is_printable (c ∷ cs))) [
      | inl e ↦ elim (Bool-cases (c == b'/')) [
        | inl f ↦ absurd (h (ground arith, (sound e).1))
        | inr f ↦ rw (e, f)
      ]
      | inr e ↦ elim (Bool-cases (c == b'/')) [ inl f ↦ rw (e, f) | inr f ↦ rw f ]
    ]
