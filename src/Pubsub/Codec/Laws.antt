-- ===== src/Pubsub/Codec/Laws.antt =====
-- A pubsub frame on the wire is read back.
use libp2p_cat_rs.Prelude.{◌<◌, ◌≤◌, length, All}
use libp2p_cat_rs.Types.ProtocolId.{IsPrintable}
use libp2p_cat_rs.Pubsub.Topic.{Topic, max_topic_len}

-- A topic that `Topic::new` accepts.
abbrev pub IsTopic : Topic → Type 0
IsTopic topic =
    (0 < length topic.name) × (length topic.name ≤ max_topic_len) × All IsPrintable topic.name
