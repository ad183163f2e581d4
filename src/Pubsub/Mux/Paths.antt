-- ===== src/Pubsub/Mux/Paths.antt =====
-- crates/libp2p-cat-pubsub/src/mux.rs: a decoder absorbs verified pieces until their generation is
-- complete; a relay sends on what raises its rank.
use libp2p_cat_rs.Prelude.{ℕ, ◌==◌, none, some, if◌then◌else◌}
use libp2p_cat_rs.Prelude.Words.{wrapping_suc}
use libp2p_cat_rs.Prelude.BTreeMap
use libp2p_cat_rs.Types.Error.{Result, ok, ◌>>=◌, ok_or, rlnc_layer}
use libp2p_cat_rs.Types.Addr.{UdpAddr}
use libp2p_cat_rs.Udp.{UdpSocket}
use libp2p_cat_rs.Host.Dispatch.{Crypto}
use libp2p_cat_rs.Pubsub.Topic.{Topic, topic_lex}
use libp2p_cat_rs.Pubsub.State.{PubsubState, DecoderEntry, RecoderEntry}
use libp2p_cat_rs.Pubsub.Auth.{WireAuthenticator}
use libp2p_cat_rs.Pubsub.Codec
use libp2p_cat_rs.Pubsub.Codec.{WirePiece}
use libp2p_cat_rs.Pubsub.Mux.{
  Rng, Coding, PubsubMux, MuxEvent, pubsub_absorbed, pubsub_redundant, pubsub_delivered,
  pubsub_relayed, rejected, send_frame_excluding,
}

module _ {D R C T P O : Type 0} (coding : Coding D R C T P O) where
  -- A verified piece at a decoder, whose entry is out of the table `decoders`.
  unfoldable pub absorb_piece :
      UdpAddr → Topic → P → DecoderEntry D C → PubsubState D R C → PubsubState D R C × MuxEvent
  absorb_piece addr topic piece entry s = elim (coding.absorb piece entry.state) [
    | none ↦ (s, rejected addr)
    | some next ↦
        let next_tick = wrapping_suc s.tick in
        if coding.is_complete next
        then elim (coding.decode next) [
          | some bytes ↦ (record s { tick = next_tick }, pubsub_delivered addr topic bytes)
          | none ↦ (record s { tick = next_tick }, rejected addr)
        ]
        else (
          record s {
            decoders =
                BTreeMap.insert topic
                  (record {
                    state = next;
                    commitment = entry.commitment;
                    last_activity = next_tick;
                  })
                  s.decoders;
            tick = next_tick;
          },
          pubsub_absorbed addr topic,
        )
  ]

module _ {K D R C T P O : Type 0} (coding : Coding D R C T P O) where
  unfoldable pub decoder_path :
      UdpAddr → Topic → WirePiece C T P → PubsubMux K D R C → PubsubMux K D R C × MuxEvent
  decoder_path addr topic w mux = elim (BTreeMap.get topic mux.state.decoders) [
    | none ↦ (
      record mux {
        state = record mux.state { decoders = BTreeMap.remove topic mux.state.decoders };
      },
      rejected addr,
    )
    | some entry ↦
        let decoders = BTreeMap.remove topic mux.state.decoders in
        if coding.verify entry.commitment w.piece w.tag
        then (let r =
              absorb_piece coding addr topic w.piece entry
                (record mux.state { decoders = decoders }) in
            (record mux { state = r.0 }, r.1))
        else (
          record mux {
            state = record mux.state { decoders = BTreeMap.insert topic entry decoders };
          },
          rejected addr,
        )
  ]

module _ {D R C : Type 0} where
  -- The relay's table with an entry put back, at a tick.
  unfoldable pub store_relay :
      Topic → RecoderEntry D R C → ℕ → PubsubState D R C → PubsubState D R C
  store_relay topic entry tick s = record s {
    recoders = BTreeMap.insert topic entry s.recoders;
    tick = tick;
  }

module _ {K D R C T P O : Type 0} (crypto : Crypto) (os : UdpSocket K)
    (wire : WireAuthenticator C T) (coding : Coding D R C T P O) where
  -- A piece that raised the rank and that the recoder took: recoded, tagged, and sent on.
  unfoldable pub recode_and_send :
      UdpAddr
      → Topic
      → P
      → Rng
      → RecoderEntry D R C
      → PubsubMux K D R C
      → Result (PubsubMux K D R C × MuxEvent)
  recode_and_send addr topic piece relay_rng entry mux = do
    recoded ← ok_or rlnc_layer (coding.recode_one relay_rng entry.recoder)
    frame ←
        Codec.encode wire coding.pieces topic (coding.vector_len piece) (coding.data_len piece)
          (record {
            commitment = entry.commitment;
            piece = recoded;
            tag = coding.tag entry.commitment recoded;
          })
    (next, fanout_count) ← send_frame_excluding crypto os frame addr mux
    ok (next, pubsub_relayed addr topic fanout_count)

  -- A verified piece at a relay, whose entry is out of the table.
  unfoldable pub relay_piece :
      UdpAddr
      → Topic
      → P
      → Rng
      → RecoderEntry D R C
      → PubsubMux K D R C
      → Result (PubsubMux K D R C × MuxEvent)
  relay_piece addr topic piece relay_rng entry mux =
      let s = mux.state in
      let next_tick = wrapping_suc s.tick in
      let kept = record mux { state = store_relay topic entry s.tick s } in
      let touched = record mux {
        state = store_relay topic (record entry { last_activity = next_tick }) next_tick s;
      } in
      if coding.is_complete entry.rank_tracker
      then ok (touched, pubsub_redundant addr topic)
      else elim (coding.absorb piece entry.rank_tracker) [
        | none ↦ ok (kept, rejected addr)
        | some tracker ↦
            if coding.useful_count tracker == coding.useful_count entry.rank_tracker
            then ok (touched, pubsub_redundant addr topic)
            else elim (coding.add_piece piece entry.recoder) [
              | none ↦ ok (kept, rejected addr)
              | some next_recoder ↦
                  let next_entry = record entry {
                    recoder = next_recoder;
                    rank_tracker = tracker;
                    last_activity = next_tick;
                  } in
                  recode_and_send addr topic piece relay_rng next_entry
                    (record mux { state = store_relay topic next_entry next_tick s })
            ]
      ]

  unfoldable pub relay_path :
      UdpAddr
      → Topic
      → WirePiece C T P
      → Rng
      → PubsubMux K D R C
      → Result (PubsubMux K D R C × MuxEvent)
  relay_path addr topic w relay_rng mux =
      let without = record mux {
        state = record mux.state { recoders = BTreeMap.remove topic mux.state.recoders };
      } in
      elim (BTreeMap.get topic mux.state.recoders) [
        | none ↦ ok (without, rejected addr)
        | some entry ↦
            if coding.verify entry.commitment w.piece w.tag
            then relay_piece addr topic w.piece relay_rng entry without
            else ok (
              record without { state = store_relay topic entry mux.state.tick without.state },
              rejected addr,
            )
      ]
