-- ===== src/Pubsub/State.antt =====
-- crates/libp2p-cat-pubsub/src/state.rs: the decoders and relays by topic. The authenticator, its
-- commitments and the coding states of the RLNC crate are parameters.
pub mod Laws
use libp2p_cat_rs.Prelude.{ℕ, ◌-◌, Bool, List, [], ltb, leb, length, filter}
use libp2p_cat_rs.Prelude.BTreeMap
use libp2p_cat_rs.Prelude.BTreeMap.{BTreeMap, contains_key, keys}
use libp2p_cat_rs.Prelude.Words.{wrapping_suc}
use libp2p_cat_rs.Pubsub.Topic.{Topic, topic_lex}

-- `D` is the state of a decoder of the coding crate, `R` a recoder, and `C` a commitment.
pub record DecoderEntry (D C : Type 0) : Type 0 where
  pub state : D
  pub commitment : C
  pub last_activity : ℕ

pub record RecoderEntry (D R C : Type 0) : Type 0 where
  pub recoder : R
  pub rank_tracker : D
  pub commitment : C
  pub last_activity : ℕ

-- The authenticator is passed on as it is, and left out.
pub record PubsubState (D R C : Type 0) : Type 0 where
  pub decoders : BTreeMap Topic (DecoderEntry D C)
  pub recoders : BTreeMap Topic (RecoderEntry D R C)
  pub tick : ℕ

unfoldable pub new : (D R C : Type 0) → PubsubState D R C
new D R C = record { decoders = []; recoders = []; tick = 0 }

-- A fresh decoder and a fresh recoder of a generation are the coding crate's.
module _ {D R C : Type 0} (new_decoder : ℕ → ℕ → D) (new_recoder : ℕ → ℕ → R) where
  unfoldable pub register_topic : Topic → ℕ → ℕ → C → PubsubState D R C → PubsubState D R C
  register_topic topic piece_count piece_byte_len commitment s =
      let next_tick = wrapping_suc s.tick in
      record s {
        decoders =
            BTreeMap.insert topic
              (record {
                state = new_decoder piece_count piece_byte_len;
                commitment = commitment;
                last_activity = next_tick;
              })
              s.decoders;
        tick = next_tick;
      }

  unfoldable pub register_relay : Topic → ℕ → ℕ → C → PubsubState D R C → PubsubState D R C
  register_relay topic piece_count piece_byte_len commitment s =
      let next_tick = wrapping_suc s.tick in
      record s {
        recoders =
            BTreeMap.insert topic
              (record {
                recoder = new_recoder piece_count piece_byte_len;
                rank_tracker = new_decoder piece_count piece_byte_len;
                commitment = commitment;
                last_activity = next_tick;
              })
              s.recoders;
        tick = next_tick;
      }

module _ {D R C : Type 0} where
  unfoldable pub unregister_topic : Topic → PubsubState D R C → PubsubState D R C
  unregister_topic topic s = record s {
    decoders = BTreeMap.remove topic s.decoders;
    tick = wrapping_suc s.tick;
  }

  unfoldable pub unregister_relay : Topic → PubsubState D R C → PubsubState D R C
  unregister_relay topic s = record s {
    recoders = BTreeMap.remove topic s.recoders;
    tick = wrapping_suc s.tick;
  }

  unfoldable pub evict_idle_topics : ℕ → PubsubState D R C → PubsubState D R C × List Topic
  evict_idle_topics max_idle_ticks s =
      let cutoff = s.tick - max_idle_ticks in
      let evicted = keys (filter (λ e. ltb e.1.last_activity cutoff) s.decoders) in
      let kept = filter (λ e. leb cutoff e.1.last_activity) s.decoders in
      (record s { decoders = kept; tick = wrapping_suc s.tick }, evicted)

  unfoldable pub evict_idle_relays : ℕ → PubsubState D R C → PubsubState D R C × List Topic
  evict_idle_relays max_idle_ticks s =
      let cutoff = s.tick - max_idle_ticks in
      let evicted = keys (filter (λ e. ltb e.1.last_activity cutoff) s.recoders) in
      let kept = filter (λ e. leb cutoff e.1.last_activity) s.recoders in
      (record s { recoders = kept; tick = wrapping_suc s.tick }, evicted)

  unfoldable pub decoder_count : PubsubState D R C → ℕ
  decoder_count s = length s.decoders

  unfoldable pub relay_count : PubsubState D R C → ℕ
  relay_count s = length s.recoders

  unfoldable pub is_decoder_registered : Topic → PubsubState D R C → Bool
  is_decoder_registered topic s = contains_key topic s.decoders

  unfoldable pub is_relay_registered : Topic → PubsubState D R C → Bool
  is_relay_registered topic s = contains_key topic s.recoders
