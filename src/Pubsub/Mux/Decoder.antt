-- ===== src/Pubsub/Mux/Decoder.antt =====
-- What a rejected piece leaves of the decoders of crates/libp2p-cat-pubsub/src/mux.rs.
use libp2p_cat_rs.Prelude.{
  ℕ, ◌≡◌, refl, sym, ◌∙◌, ap, Bool, true, false, none, some, List, slice_from-cons, ◌∷◌, Bool-cases,
  inl, inr, arith,
}
use libp2p_cat_rs.Prelude.Lex.{key_eq, key_eq_refl, eq_of_key_eq}
use libp2p_cat_rs.Prelude.BTreeMap
use libp2p_cat_rs.Prelude.BTreeMap.{contains_key, get-insert, get-remove}
use libp2p_cat_rs.Types.Error.{ok}
use libp2p_cat_rs.Types.Addr.{UdpAddr, addr_lex}
use libp2p_cat_rs.Udp.{UdpSocket}
use libp2p_cat_rs.Host.Dispatch.{Crypto}
use libp2p_cat_rs.Pubsub.Topic.{Topic, topic_lex}
use libp2p_cat_rs.Pubsub.State.{DecoderEntry, is_decoder_registered}
use libp2p_cat_rs.Pubsub.Auth.{WireAuthenticator}
use libp2p_cat_rs.Pubsub.Codec
use libp2p_cat_rs.Pubsub.Codec.{WirePiece, PubsubFrame}
use libp2p_cat_rs.Pubsub.Mux.{Rng, Coding, PubsubMux, rejected, kind_pubsub}
use libp2p_cat_rs.Pubsub.Mux.Paths.{absorb_piece, decoder_path}
use libp2p_cat_rs.Pubsub.Mux.Receive.{handle_pubsub_body, dispatch_plaintext}

module _ {K D R C T P O : Type 0} (coding : Coding D R C T P O) (addr : UdpAddr) (topic : Topic)
    (w : WirePiece C T P) (mux : PubsubMux K D R C) (entry : DecoderEntry D C)
    (there : BTreeMap.get topic mux.state.decoders ≡ some entry) where
  -- The mux without the decoder's entry.
  abbrev taken : PubsubMux K D R C
  taken = record mux {
    state = record mux.state { decoders = BTreeMap.remove topic mux.state.decoders };
  }

  -- The mux with the entry put back.
  abbrev restored : PubsubMux K D R C
  restored = record taken {
    state = record taken.state {
      decoders = BTreeMap.insert topic entry (BTreeMap.remove topic mux.state.decoders);
    };
  }

  decoder_path_unverified :
      coding.verify entry.commitment w.piece w.tag ≡ false
      → decoder_path coding addr topic w mux ≡ (restored, rejected addr)
  unfolding decoder_path
  decoder_path_unverified v = rw (decoder_path, there) (rw v refl)

  decoder_path_malformed :
      coding.verify entry.commitment w.piece w.tag ≡ true
      → coding.absorb w.piece entry.state ≡ none
      → decoder_path coding addr topic w mux ≡ (taken, rejected addr)
  unfolding decoder_path absorb_piece
  decoder_path_malformed v a = rw (decoder_path, there) (rw (v, absorb_piece, a) refl)

  get-restored :
      (j : Topic) → BTreeMap.get j restored.state.decoders ≡ BTreeMap.get j mux.state.decoders
  get-restored j =
      get-insert j topic entry (BTreeMap.remove topic mux.state.decoders)
      ∙ elim (Bool-cases (key_eq j topic)) [
        | inl same ↦ rw same (rw (eq_of_key_eq j topic same) (sym there))
        | inr other ↦ rw other (get-remove j topic mux.state.decoders ∙ rw other refl)
      ]

  taken_unregistered : is_decoder_registered topic taken.state ≡ false
  unfolding is_decoder_registered
  taken_unregistered =
      let gone : BTreeMap.get topic (BTreeMap.remove topic mux.state.decoders) ≡ none =
        get-remove topic topic mux.state.decoders ∙ rw (key_eq_refl topic) refl in
      ground (arith, gone)

module _ {K D R C T P O : Type 0} (crypto : Crypto) (os : UdpSocket K)
    (wire : WireAuthenticator C T) (coding : Coding D R C T P O) (is_utf8 : List ℕ → Bool) where
  -- The frame of a plaintext, at a topic without a relay.
  dispatch_plaintext_decoder :
      (addr : UdpAddr) (body : List ℕ) (rng : Rng) (mux : PubsubMux K D R C) (frame : PubsubFrame)
      (w : WirePiece C T P) (entry : DecoderEntry D C)
      → Codec.decode wire coding.pieces is_utf8 body ≡ ok (frame, w)
      → BTreeMap.get frame.topic mux.state.recoders ≡ none
      → BTreeMap.get frame.topic mux.state.decoders ≡ some entry
      → dispatch_plaintext crypto os wire coding is_utf8 addr (kind_pubsub ∷ body) rng mux
        ≡ ok (decoder_path coding addr frame.topic w mux)
  unfolding dispatch_plaintext handle_pubsub_body
  dispatch_plaintext_decoder addr body rng mux frame w entry p r d =
      let not_relay : contains_key frame.topic mux.state.recoders ≡ false = ground (arith, r) in
      let is_decoder : contains_key frame.topic mux.state.decoders ≡ true = ground (arith, d) in
      rw (slice_from-cons {A = ℕ} 1 body)
        (rw (handle_pubsub_body, p) (rw not_relay (rw is_decoder refl)))

  -- A frame that decodes to a piece which does not verify under the commitment of the topic's
  -- decoder, where the topic has no relay, is rejected, and the mux has the same host, the same
  -- relays, the same tick, and for every topic the same decoder as before.
  pub dispatch_plaintext-unverified :
      (addr : UdpAddr) (body : List ℕ) (rng : Rng) (mux : PubsubMux K D R C) (frame : PubsubFrame)
      (w : WirePiece C T P) (entry : DecoderEntry D C)
      → Codec.decode wire coding.pieces is_utf8 body ≡ ok (frame, w)
      → BTreeMap.get frame.topic mux.state.recoders ≡ none
      → BTreeMap.get frame.topic mux.state.decoders ≡ some entry
      → coding.verify entry.commitment w.piece w.tag ≡ false
      → (next : PubsubMux K D R C) × (dispatch_plaintext crypto os wire coding is_utf8 addr
            (kind_pubsub ∷ body)
            rng
            mux
          ≡ ok (next, rejected addr))
        × (next.host ≡ mux.host)
        × (next.state.recoders ≡ mux.state.recoders)
        × (next.state.tick ≡ mux.state.tick)
        × ((j : Topic) → BTreeMap.get j next.state.decoders ≡ BTreeMap.get j mux.state.decoders)
  dispatch_plaintext-unverified addr body rng mux frame w entry p r d v = (
    restored coding addr frame.topic w mux entry d,
    dispatch_plaintext_decoder addr body rng mux frame w entry p r d
        ∙ ap (λ e. ok e) (decoder_path_unverified coding addr frame.topic w mux entry d v),
    refl,
    refl,
    refl,
    get-restored coding addr frame.topic w mux entry d,
  )

  -- A frame that decodes to a piece which verifies under the commitment of the topic's decoder, but
  -- which that decoder fails to absorb, where the topic has no relay, is rejected, and the topic has
  -- no decoder any more.
  pub dispatch_plaintext-malformed :
      (addr : UdpAddr) (body : List ℕ) (rng : Rng) (mux : PubsubMux K D R C) (frame : PubsubFrame)
      (w : WirePiece C T P) (entry : DecoderEntry D C)
      → Codec.decode wire coding.pieces is_utf8 body ≡ ok (frame, w)
      → BTreeMap.get frame.topic mux.state.recoders ≡ none
      → BTreeMap.get frame.topic mux.state.decoders ≡ some entry
      → coding.verify entry.commitment w.piece w.tag ≡ true
      → coding.absorb w.piece entry.state ≡ none
      → (next : PubsubMux K D R C) × (dispatch_plaintext crypto os wire coding is_utf8 addr
            (kind_pubsub ∷ body)
            rng
            mux
          ≡ ok (next, rejected addr))
        × (is_decoder_registered frame.topic next.state ≡ false)
  dispatch_plaintext-malformed addr body rng mux frame w entry p r d v a = (
    taken coding addr frame.topic w mux entry d,
    dispatch_plaintext_decoder addr body rng mux frame w entry p r d
        ∙ ap (λ e. ok e) (decoder_path_malformed coding addr frame.topic w mux entry d v a),
    taken_unregistered coding addr frame.topic w mux entry d,
  )
