-- ===== src/Pubsub/Topic.antt =====
-- crates/libp2p-cat-pubsub/src/topic.rs: a validated topic name, as its bytes.
use libp2p_cat_rs.Prelude.{
  ℕ, ◌≤◌, ◌<◌, ◌≡◌, ◌↔◌, ◌||◌, not, List, ltb, ◌==◌, if◌then◌else◌, length, all, All, arith,
}
use libp2p_cat_rs.Prelude.Lex.{LexKey}
use libp2p_cat_rs.Types.Error.{Result, ok, err, pubsub_protocol}
use libp2p_cat_rs.Types.ProtocolId.{is_printable, IsPrintable, all-is_printable}

abbrev pub max_topic_len : ℕ
max_topic_len = 255

pub record Topic : Type 0 where
  pub name : List ℕ

instance abbrev pub topic_lex : LexKey Topic
topic_lex = record { to_key = λ t. t.name; to_key_injective = λ a b h. λ i. record { name = h i } }

unfoldable pub new : List ℕ → Result Topic
new name =
    let len = length name in
    let printable = all is_printable name in
    if (len == 0 || ltb max_topic_len len) || not printable
    then err pubsub_protocol
    else ok (record { name = name })

-- A topic name is accepted, unchanged, exactly when it has 1 to 255 bytes, all from `!` to `~`.
pub new_iff :
    (name : List ℕ)
    → (new name ≡ ok (record { name = name }))
      ↔ ((0 < length name) × (length name ≤ max_topic_len) × All IsPrintable name)
unfolding new
new_iff name =
    let (sound, complete) = all-is_printable name in
    (
      λ h. (ground arith, ground arith, sound (ground arith)),
      λ (some_bytes, short, printable). ground (arith, complete printable),
    )
