-- ===== src/Pubsub/Mux/Receive.antt =====
-- crates/libp2p-cat-pubsub/src/mux.rs: the dispatch of what the host delivers.
use libp2p_cat_rs.Prelude.{
  ℕ, ◌==◌, Bool, none, some, List, if◌then◌else◌, first, slice_from, or_empty,
}
use libp2p_cat_rs.Prelude.BTreeMap.{contains_key}
use libp2p_cat_rs.Types.Error.{Result, ok, err, ◌>>=◌}
use libp2p_cat_rs.Types.Addr.{UdpAddr}
use libp2p_cat_rs.Udp.{UdpSocket}
use libp2p_cat_rs.Host.State
use libp2p_cat_rs.Host.State.{HostEvent}
use libp2p_cat_rs.Host.Dispatch
use libp2p_cat_rs.Host.Dispatch.{Crypto}
use libp2p_cat_rs.Pubsub.Topic.{topic_lex}
use libp2p_cat_rs.Pubsub.Auth.{WireAuthenticator}
use libp2p_cat_rs.Pubsub.Codec
use libp2p_cat_rs.Pubsub.Mux.{
  Rng, Coding, PubsubMux, MuxEvent, app_data, handshake_progress, handshake_complete, rejected,
  kind_app, kind_pubsub,
}
use libp2p_cat_rs.Pubsub.Mux.Paths.{decoder_path, relay_path}

module _ {K D R C T P O : Type 0} (crypto : Crypto) (os : UdpSocket K)
    (wire : WireAuthenticator C T) (coding : Coding D R C T P O) (is_utf8 : List ℕ → Bool) where
  unfoldable pub handle_pubsub_body :
      UdpAddr → List ℕ → Rng → PubsubMux K D R C → Result (PubsubMux K D R C × MuxEvent)
  handle_pubsub_body addr body relay_rng mux = elim (Codec.decode wire coding.pieces is_utf8 body) [
    | err e ↦ ok (mux, rejected addr)
    | ok (frame, w) ↦
        if contains_key frame.topic mux.state.recoders
        then relay_path crypto os wire coding addr frame.topic w relay_rng mux
        else if contains_key frame.topic mux.state.decoders
        then ok (decoder_path coding addr frame.topic w mux)
        else ok (mux, rejected addr)
  ]

  unfoldable pub dispatch_plaintext :
      UdpAddr → List ℕ → Rng → PubsubMux K D R C → Result (PubsubMux K D R C × MuxEvent)
  dispatch_plaintext addr plaintext relay_rng mux = elim (first plaintext) [
    | none ↦ ok (mux, rejected addr)
    | some kind ↦
        let body = or_empty (slice_from 1 plaintext) in
        if kind == kind_app
        then ok (mux, app_data addr body)
        else if kind == kind_pubsub
        then handle_pubsub_body addr body relay_rng mux
        else ok (mux, rejected addr)
  ]

  unfoldable pub process_event :
      HostEvent → Rng → PubsubMux K D R C → Result (PubsubMux K D R C × MuxEvent)
  process_event (State.handshake_progress addr) relay_rng mux = ok (mux, handshake_progress addr)
  process_event (State.handshake_complete addr remote_static remote_peer_id) relay_rng mux =
      ok (mux, handshake_complete addr remote_static remote_peer_id)
  process_event (State.rejected addr) relay_rng mux = ok (mux, rejected addr)
  process_event (State.datagram_delivered addr plaintext) relay_rng mux =
      dispatch_plaintext addr plaintext relay_rng mux

  unfoldable pub recv_one : List ℕ → Rng → PubsubMux K D R C → Result (PubsubMux K D R C × MuxEvent)
  recv_one ephemeral_seed relay_rng mux = do
    (host, host_event) ← Dispatch.recv_one crypto os ephemeral_seed mux.host
    process_event host_event relay_rng (record mux { host = host })
