-- ===== src/Udp.antt =====
-- crates/libp2p-cat-udp/src/transport.rs: datagrams over the operating system's socket, which is a
-- parameter. An error of the socket is an `Error::Io`.
use libp2p_cat_rs.Prelude.{ℕ, List, ltb, if◌then◌else◌, length, slice_to, or_empty}
use libp2p_cat_rs.Types.Error.{Result, ok, err, ◌>>=◌, datagram_too_large}
use libp2p_cat_rs.Types.Addr.{UdpAddr}

abbrev pub default_max_datagram : ℕ
default_max_datagram = 1200

abbrev pub max_udp_payload : ℕ
max_udp_payload = 65507

-- A bound socket, with what it has sent and what is still to arrive, is a value of `K`. `recv_from`
-- takes the width of the buffer, and gives the buffer, the length of the datagram and its source.
pub record UdpSocket (K : Type 0) : Type 0 where
  pub bind : UdpAddr → Result K
  pub send_to : List ℕ → UdpAddr → K → Result K
  pub recv_from : ℕ → K → Result ((List ℕ × ℕ × UdpAddr) × K)

pub record UdpTransport (K : Type 0) : Type 0 where
  pub socket : K
  pub max_send_payload : ℕ
  pub recv_buf_size : ℕ

module _ {K : Type 0} (os : UdpSocket K) where
  unfoldable pub bind_with_limits : UdpAddr → ℕ → ℕ → Result (UdpTransport K)
  bind_with_limits addr max_send_payload recv_buf_size = do
    socket ← os.bind addr
    ok (record {
      socket = socket;
      max_send_payload = max_send_payload;
      recv_buf_size = recv_buf_size;
    })

  unfoldable pub bind : UdpAddr → Result (UdpTransport K)
  bind addr = bind_with_limits addr default_max_datagram max_udp_payload

  unfoldable pub send : UdpAddr → List ℕ → UdpTransport K → Result (UdpTransport K)
  send to payload t =
      let attempted = length payload in
      if ltb t.max_send_payload attempted
      then err (datagram_too_large attempted t.max_send_payload)
      else os.send_to payload to t.socket >>= λ socket. ok (record t { socket = socket })

  unfoldable pub recv : UdpTransport K → Result ((UdpAddr × List ℕ) × UdpTransport K)
  recv t = do
    ((buf, n, source), socket) ← os.recv_from t.recv_buf_size t.socket
    ok ((source, or_empty (slice_to n buf)), record t { socket = socket })
