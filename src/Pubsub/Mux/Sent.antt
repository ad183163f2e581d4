-- ===== src/Pubsub/Mux/Sent.antt =====
-- What a relay of crates/libp2p-cat-pubsub/src/mux.rs sends on, and to whom.
use libp2p_cat_rs.Prelude.{
  ℕ, ◌≡◌, ◌⊎◌, ◌==◌, refl, ap, true, false, not, some, List, filter, length, arith, [], ◌∷◌,
  Option-cases, inl, inr,
}
use libp2p_cat_rs.Prelude.Lex.{key_eq}
use libp2p_cat_rs.Prelude.Words.{wrapping_suc}
use libp2p_cat_rs.Prelude.BTreeMap
use libp2p_cat_rs.Prelude.BTreeMap.{contains_key, get-insert, get-remove}
use libp2p_cat_rs.Types.Error.{
  ok, ok_or, rlnc_layer, Ensures, Ensures-elim, Ensures-bind, Ensures-map,
}
use libp2p_cat_rs.Types.Addr.{UdpAddr, addr_lex}
use libp2p_cat_rs.Udp.{UdpSocket}
use libp2p_cat_rs.Host.State.{Host}
use libp2p_cat_rs.Host.Dispatch
use libp2p_cat_rs.Host.Dispatch.{Crypto, established_addrs}
use libp2p_cat_rs.Pubsub.Topic.{Topic, topic_lex}
use libp2p_cat_rs.Pubsub.State.{RecoderEntry}
use libp2p_cat_rs.Pubsub.Auth.{WireAuthenticator}
use libp2p_cat_rs.Pubsub.Codec
use libp2p_cat_rs.Pubsub.Codec.{WirePiece, PubsubFrame}
use libp2p_cat_rs.Pubsub.Mux.{
  Rng, Coding, PubsubMux, MuxEvent, pubsub_relayed, send_frame_excluding, send_each, prefix_kind,
  kind_pubsub,
}
use libp2p_cat_rs.Pubsub.Mux.Paths.{recode_and_send}

-- The connected peers of a host but one.
abbrev pub others : {K : Type 0} → UdpAddr → Host K → List UdpAddr
others addr h = filter (λ a. not (key_eq a addr)) (established_addrs h)

module _ {K : Type 0} (crypto : Crypto) (os : UdpSocket K) where
  -- The host sends this datagram to each of these peers in turn, once, and to no other.
  pub data SentTo (datagram : List ℕ) : List UdpAddr → Host K → Host K → Type 0 where
    none_left : {h : Host K} → SentTo datagram [] h h
    then_to :
        {addr : UdpAddr} {addrs : List UdpAddr} {h next last : Host K}
        → Dispatch.send crypto os addr datagram h ≡ ok next
        → SentTo datagram addrs next last
        → SentTo datagram (addr ∷ addrs) h last

  pub send_each-SentTo :
      (addrs : List UdpAddr) (datagram : List ℕ) (h : Host K)
      → Ensures (SentTo datagram addrs h) (send_each crypto os addrs datagram h)
  unfolding send_each
  send_each-SentTo [] datagram h = none_left
  send_each-SentTo (addr ∷ addrs) datagram h =
      Ensures-bind (SentTo datagram (addr ∷ addrs) h) (Dispatch.send crypto os addr datagram h) _
        λ next sent.
          Ensures-map (SentTo datagram addrs next) (SentTo datagram (addr ∷ addrs) h) _
            (λ last rest. then_to sent rest) (send_each-SentTo addrs datagram next)

module _ {K D R C T P O : Type 0} (crypto : Crypto) (os : UdpSocket K)
    (wire : WireAuthenticator C T) (coding : Coding D R C T P O) (rng : Rng) where
  -- A piece that the recoder mixes is tagged for the commitment, put in a frame with the
  -- dimensions of the piece that arrived, and sent to every connected peer but the source.
  pub record IsFannedOut (addr : UdpAddr) (topic : Topic) (piece : P) (commitment : C) (recoder : R)
      (h next : Host K) : Type 0 where
    pub recoded : P
    pub recodes : coding.recode_one rng recoder ≡ some recoded
    pub frame : List ℕ
    pub encodes :
        Codec.encode wire coding.pieces topic
          (coding.vector_len piece)
          (coding.data_len piece)
          (record { commitment = commitment; piece = recoded; tag = coding.tag commitment recoded })
        ≡ ok frame
    pub sent : SentTo crypto os (kind_pubsub ∷ frame) (others addr h) h next

  -- A piece was sent on: it verifies under the commitment of a relay's entry and raises its rank; a
  -- mix of the relay's pieces goes to every connected peer but the source, and the report counts
  -- these.
  pub record HasRelayed (addr : UdpAddr) (mux : PubsubMux K D R C)
      (r : PubsubMux K D R C × MuxEvent) : Type 0 where
    pub topic : Topic
    pub event : r.1 ≡ pubsub_relayed addr topic (length (others addr mux.host))
    pub entry : RecoderEntry D R C
    pub there : BTreeMap.get topic mux.state.recoders ≡ some entry
    pub piece : P
    pub tag : T
    pub verified : coding.verify entry.commitment piece tag ≡ true
    pub tracker : D
    pub absorbed : coding.absorb piece entry.rank_tracker ≡ some tracker
    pub raised : (coding.useful_count tracker == coding.useful_count entry.rank_tracker) ≡ false
    pub recoder : R
    pub added : coding.add_piece piece entry.recoder ≡ some recoder
    pub fanned_out : IsFannedOut addr topic piece entry.commitment recoder mux.host r.0.host
    pub kept :
        BTreeMap.get topic r.0.state.recoders
        ≡ some (record {
          recoder = recoder;
          rank_tracker = tracker;
          commitment = entry.commitment;
          last_activity = wrapping_suc mux.state.tick;
        })
    pub decoders : r.0.state.decoders ≡ mux.state.decoders

  -- Either nothing was sent, or a piece was sent on.
  abbrev pub IsGated : UdpAddr → PubsubMux K D R C → PubsubMux K D R C × MuxEvent → Type 0
  IsGated addr mux r = (r.0.host ≡ mux.host) ⊎ HasRelayed addr mux r

  abbrev pub IsSentOn :
      UdpAddr → Topic → P → C → R → PubsubMux K D R C → PubsubMux K D R C × MuxEvent → Type 0
  IsSentOn addr topic piece commitment recoder mux r =
      (r.1 ≡ pubsub_relayed addr topic (length (others addr mux.host)))
      × (r.0.state ≡ mux.state)
      × IsFannedOut addr topic piece commitment recoder mux.host r.0.host

  send_frame_excluding_lem :
      (frame : List ℕ) (addr : UdpAddr) (mux : PubsubMux K D R C)
      → Ensures
          (λ r.
            (r.1 ≡ length (others addr mux.host))
            × (r.0.state ≡ mux.state)
            × SentTo crypto os (kind_pubsub ∷ frame) (others addr mux.host) mux.host r.0.host)
          (send_frame_excluding crypto os frame addr mux)
  unfolding send_frame_excluding prefix_kind
  send_frame_excluding_lem frame addr mux =
      let datagram = kind_pubsub ∷ frame in
      let addrs = others addr mux.host in
      Ensures-bind
        (λ r.
          (r.1 ≡ length addrs)
          × (r.0.state ≡ mux.state)
          × SentTo crypto os datagram addrs mux.host r.0.host)
        (send_each crypto os addrs datagram mux.host) _
        λ host sent. (
          refl,
          refl,
          Ensures-elim (SentTo crypto os datagram addrs mux.host) _
              (send_each-SentTo crypto os addrs datagram mux.host) sent,
        )

  recode_one_some :
      {recoded : P} (r : R)
      → ok_or rlnc_layer (coding.recode_one rng r) ≡ ok recoded
      → coding.recode_one rng r ≡ some recoded
  recode_one_some r h = elim (Option-cases (coding.recode_one rng r)) [
    | inl p ↦ absurd (ground (arith, p))
    | inr (x, p) ↦ ground (arith, p)
  ]

  pub recode_and_send-IsSentOn :
      (addr : UdpAddr) (topic : Topic) (piece : P) (next : RecoderEntry D R C)
      (mux : PubsubMux K D R C)
      → Ensures
          (IsSentOn addr topic piece next.commitment next.recoder mux)
          (recode_and_send crypto os wire coding addr topic piece rng next mux)
  unfolding recode_and_send
  recode_and_send-IsSentOn addr topic piece next mux =
      let Q = IsSentOn addr topic piece next.commitment next.recoder mux in
      Ensures-bind Q (ok_or rlnc_layer (coding.recode_one rng next.recoder)) _ λ recoded p.
        Ensures-bind Q
          (Codec.encode wire coding.pieces topic (coding.vector_len piece) (coding.data_len piece)
            (record {
              commitment = next.commitment;
              piece = recoded;
              tag = coding.tag next.commitment recoded;
            }))
          _
          λ frame q.
            Ensures-bind Q (send_frame_excluding crypto os frame addr mux) _ λ (after, n) sent.
              let (count, same, to) =
                Ensures-elim _ _ (send_frame_excluding_lem frame addr mux) sent in
              (
                ap (λ m. pubsub_relayed addr topic m) count,
                same,
                record {
                  recoded = recoded;
                  recodes = recode_one_some next.recoder p;
                  frame = frame;
                  encodes = q;
                  sent = to;
                },
              )
