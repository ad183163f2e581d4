-- ===== src/Pubsub/Mux/Relay.antt =====
-- What crates/libp2p-cat-pubsub/src/mux.rs sends on.
use libp2p_cat_rs.Prelude.{
  ℕ, ◌≡◌, ◌==◌, refl, ◌∙◌, ap, Bool, true, false, some, List, slice_from, or_empty, [], ◌∷◌,
  Bool-cases, Option-cases, inl, inr,
}
use libp2p_cat_rs.Prelude.Lex.{key_eq_refl}
use libp2p_cat_rs.Prelude.Words.{wrapping_suc}
use libp2p_cat_rs.Prelude.BTreeMap
use libp2p_cat_rs.Prelude.BTreeMap.{contains_key, get-insert, get-remove}
use libp2p_cat_rs.Types.Error.{ok, Ensures, Ensures-elim, Ensures-map}
use libp2p_cat_rs.Types.Addr.{UdpAddr, addr_lex}
use libp2p_cat_rs.Noise.Transport.Replay.{Result-cases}
use libp2p_cat_rs.Udp.{UdpSocket}
use libp2p_cat_rs.Host.Dispatch.{Crypto}
use libp2p_cat_rs.Pubsub.Topic.{Topic, topic_lex}
use libp2p_cat_rs.Pubsub.State.{RecoderEntry}
use libp2p_cat_rs.Pubsub.Auth.{WireAuthenticator}
use libp2p_cat_rs.Pubsub.Codec
use libp2p_cat_rs.Pubsub.Codec.{WirePiece, PubsubFrame}
use libp2p_cat_rs.Pubsub.Mux.{Rng, Coding, PubsubMux, MuxEvent, kind_app, kind_pubsub}
use libp2p_cat_rs.Pubsub.Mux.Paths.{
  decoder_path, store_relay, recode_and_send, relay_piece, relay_path,
}
use libp2p_cat_rs.Pubsub.Mux.Sent.{IsSentOn, IsGated, recode_and_send-IsSentOn}
use libp2p_cat_rs.Pubsub.Mux.Receive.{handle_pubsub_body, dispatch_plaintext}

module _ {K D R C T P O : Type 0} (crypto : Crypto) (os : UdpSocket K)
    (wire : WireAuthenticator C T) (coding : Coding D R C T P O) where
  -- The relay's last branch, from a mux without the entry.
  relayed-HasRelayed :
      (addr : UdpAddr) (topic : Topic) (w : WirePiece C T P) (rng : Rng) (mux : PubsubMux K D R C)
      (entry : RecoderEntry D R C) (tracker : D) (recoder : R)
      → BTreeMap.get topic mux.state.recoders ≡ some entry
      → coding.verify entry.commitment w.piece w.tag ≡ true
      → coding.absorb w.piece entry.rank_tracker ≡ some tracker
      → (coding.useful_count tracker == coding.useful_count entry.rank_tracker) ≡ false
      → coding.add_piece w.piece entry.recoder ≡ some recoder
      → (let next : RecoderEntry D R C = record {
        recoder = recoder;
        rank_tracker = tracker;
        commitment = entry.commitment;
        last_activity = wrapping_suc mux.state.tick;
      } in
          Ensures (IsGated crypto os wire coding rng addr mux) (
            recode_and_send crypto os wire coding addr topic w.piece rng next (record mux {
              state =
                  store_relay topic next
                    (wrapping_suc mux.state.tick)
                    (record mux.state { recoders = BTreeMap.remove topic mux.state.recoders });
            })))
  unfolding store_relay
  relayed-HasRelayed addr topic w rng mux entry tracker recoder e v a raised f =
      Ensures-map (IsSentOn crypto os wire coding rng addr topic w.piece entry.commitment recoder _)
        (IsGated crypto os wire coding rng addr mux) _
        (λ r (event, same, out). inr (record {
          topic = topic;
          event = event;
          entry = entry;
          there = e;
          piece = w.piece;
          tag = w.tag;
          verified = v;
          tracker = tracker;
          absorbed = a;
          raised = raised;
          recoder = recoder;
          added = f;
          fanned_out = out;
          kept =
              ap (λ s. BTreeMap.get topic s.recoders) same
              ∙ (get-insert topic topic _ (BTreeMap.remove topic mux.state.recoders)
                  ∙ rw (key_eq_refl topic) refl);
          decoders = ap (λ s. s.decoders) same;
        }))
        (recode_and_send-IsSentOn crypto os wire coding rng addr topic w.piece _ _)

  relay_path-IsGated :
      (addr : UdpAddr) (topic : Topic) (w : WirePiece C T P) (rng : Rng) (mux : PubsubMux K D R C)
      → Ensures
          (IsGated crypto os wire coding rng addr mux)
          (relay_path crypto os wire coding addr topic w rng mux)
  unfolding relay_path relay_piece
  relay_path-IsGated addr topic w rng mux =
      elim (Option-cases (BTreeMap.get topic mux.state.recoders)) [
        | inl e ↦ rw (Ensures, e) (inl refl)
        | inr (entry, e) ↦ elim (Bool-cases (coding.verify entry.commitment w.piece w.tag)) [
          | inr v ↦ rw (Ensures, e) (rw v (inl refl))
          | inl v ↦ elim (Bool-cases (coding.is_complete entry.rank_tracker)) [
            | inl full ↦ rw (Ensures, e) (rw v (rw full (inl refl)))
            | inr short ↦ elim (Option-cases (coding.absorb w.piece entry.rank_tracker)) [
              | inl a ↦ rw (Ensures, e) (rw v (rw (short, a) (inl refl)))
              | inr (tracker, a) ↦
                  elim (Bool-cases
                    (coding.useful_count tracker == coding.useful_count entry.rank_tracker)) [
                      | inl same ↦ rw (Ensures, e) (rw v (rw (short, a) (rw same (inl refl))))
                      | inr raised ↦ elim (Option-cases (coding.add_piece w.piece entry.recoder)) [
                        | inl f ↦ rw (Ensures, e) (rw v (rw (short, a) (rw (raised, f) (inl refl))))
                        | inr (recoder, f) ↦
                            rw (Ensures, e)
                              (rw v (
                                rw (short, a)
                                  (rw (raised, f)
                                    (relayed-HasRelayed addr topic w rng mux entry tracker recoder e
                                      v a raised f))))
                      ]
                    ]
            ]
          ]
        ]
      ]

-- A decoder sends nothing.
decoder_path_host :
    {K D R C T P O : Type 0} (coding : Coding D R C T P O) (addr : UdpAddr) (topic : Topic)
    (w : WirePiece C T P) (mux : PubsubMux K D R C)
    → (decoder_path coding addr topic w mux).0.host ≡ mux.host
unfolding decoder_path
decoder_path_host coding addr topic w mux =
    elim (Option-cases (BTreeMap.get topic mux.state.decoders)) [
      | inl e ↦ rw (decoder_path, e) refl
      | inr (entry, e) ↦ elim (Bool-cases (coding.verify entry.commitment w.piece w.tag)) [
        | inl v ↦ rw (decoder_path, e) (rw v refl)
        | inr v ↦ rw (decoder_path, e) (rw v refl)
      ]
    ]

module _ {K D R C T P O : Type 0} (crypto : Crypto) (os : UdpSocket K)
    (wire : WireAuthenticator C T) (coding : Coding D R C T P O) (is_utf8 : List ℕ → Bool) where
  handle_pubsub_body-IsGated :
      (addr : UdpAddr) (body : List ℕ) (rng : Rng) (mux : PubsubMux K D R C)
      → Ensures
          (IsGated crypto os wire coding rng addr mux)
          (handle_pubsub_body crypto os wire coding is_utf8 addr body rng mux)
  unfolding handle_pubsub_body
  handle_pubsub_body-IsGated addr body rng mux =
      elim (Result-cases (Codec.decode wire coding.pieces is_utf8 body)) [
        | inl (error, p) ↦ rw (Ensures, p) (inl refl)
        | inr ((frame, w), p) ↦ elim (Bool-cases (contains_key frame.topic mux.state.recoders)) [
          | inl relay ↦
              rw (Ensures, p)
                (rw relay (relay_path-IsGated crypto os wire coding addr frame.topic w rng mux))
          | inr r ↦ elim (Bool-cases (contains_key frame.topic mux.state.decoders)) [
            | inl d ↦
                rw (Ensures, p) (rw (r, d) (inl (decoder_path_host coding addr frame.topic w mux)))
            | inr d ↦ rw (Ensures, p) (rw (r, d) (inl refl))
          ]
        ]
      ]

  dispatch_plaintext-Ensures :
      (addr : UdpAddr) (plaintext : List ℕ) (rng : Rng) (mux : PubsubMux K D R C)
      → Ensures
          (IsGated crypto os wire coding rng addr mux)
          (dispatch_plaintext crypto os wire coding is_utf8 addr plaintext rng mux)
  unfolding dispatch_plaintext
  dispatch_plaintext-Ensures addr [] rng mux = inl refl
  dispatch_plaintext-Ensures addr (kind ∷ body) rng mux = elim (Bool-cases (kind == kind_app)) [
    | inl app ↦ rw (Ensures, app) (inl refl)
    | inr not_app ↦ elim (Bool-cases (kind == kind_pubsub)) [
      | inl pubsub ↦
          rw (Ensures, not_app)
            (rw pubsub
              (handle_pubsub_body-IsGated addr (or_empty (slice_from 1 (kind ∷ body))) rng mux))
      | inr neither ↦ rw (Ensures, not_app) (rw neither (inl refl))
    ]
  ]

  -- Whatever plaintext a peer sends: where the mux returns, either nothing was sent; or a relay of
  -- the reported topic took a piece that verifies under its commitment and raised its rank, and the
  -- frame of the piece that its recoder then mixes, tagged for that commitment, was sent to each
  -- connected peer but the source in turn, and to no other, as often as is reported; the relay then
  -- has the new rank, and the decoders are as before.
  pub dispatch_plaintext-IsGated :
      (addr : UdpAddr) (plaintext : List ℕ) (rng : Rng) (mux next : PubsubMux K D R C)
      (event : MuxEvent)
      → dispatch_plaintext crypto os wire coding is_utf8 addr plaintext rng mux ≡ ok (next, event)
      → IsGated crypto os wire coding rng addr mux (next, event)
  dispatch_plaintext-IsGated addr plaintext rng mux next event h =
      Ensures-elim (IsGated crypto os wire coding rng addr mux) _
        (dispatch_plaintext-Ensures addr plaintext rng mux) h
