-- ===== src/Examples/Pubsub.antt =====
-- One topic, registered and swept.
use libp2p_cat_rs.Prelude.{ℕ, ◌+◌, ◌≡◌, List, [], ◌∷◌, arith}
use libp2p_cat_rs.Pubsub.Topic.{Topic, topic_lex}
use libp2p_cat_rs.Pubsub.State.{PubsubState}
use libp2p_cat_rs.Pubsub.State.Laws.{IsState, registers_topic, apply, apply-IsState}

abbrev news : List ℕ
news = b'n' ∷ b'e' ∷ b'w' ∷ []

abbrev topic : Topic
topic = record { name = news }

-- A decoder and a recoder that only remember their sizes.
abbrev sizes : ℕ → ℕ → ℕ × ℕ
sizes n l = (n, l)

abbrev empty : PubsubState (ℕ × ℕ) (ℕ × ℕ) ℕ
empty = record { decoders = []; recoders = []; tick = 6 }

empty-IsState : IsState empty
empty-IsState = record {
  decoders_sorted = tt;
  recoders_sorted = tt;
  decoders_past = tt;
  recoders_past = tt;
}

apply-IsState_example :
    IsState (apply sizes sizes (registers_topic topic 4 32 9) empty)
    × ((apply sizes sizes (registers_topic topic 4 32 9) empty).tick ≡ empty.tick + 1)
apply-IsState_example =
    apply-IsState sizes sizes (registers_topic topic 4 32 9) empty empty-IsState (omega arith)
