-- ===== src/Kad/Codec.antt =====
-- crates/libp2p-cat-kad/src/codec.rs: the wire form of the Kademlia frames.
pub mod Laws
use libp2p_cat_rs.Prelude.{
  ℕ, zero, suc, ◌+◌, ◌≡◌, Bool, Option, none, some, List, [], ◌∷◌, ◌++◌, leb, ◌==◌, if◌then◌else◌,
  length, is_empty, first, slice_to, slice_from, or_empty, try_array,
}
use libp2p_cat_rs.Prelude.Bytes.{to_be_bytes, from_be_bytes}
use libp2p_cat_rs.Types.Error.{Error, pubsub_protocol, Result, ok, err, ◌>>=◌, ok_or, map_ok}
use libp2p_cat_rs.Types.Addr.{UdpAddr, SocketAddrV4, SocketAddrV6, v4, v6}
use libp2p_cat_rs.Kad.Distance.{node_id_len}
use libp2p_cat_rs.Kad.NodeId.{NodeId}
use libp2p_cat_rs.Kad.Bucket.{Entry}
use libp2p_cat_rs.Kad.AddrCodec.{encode_addr, decode_addr}

pub data Opcode : Type 0 where
  ping_req : Opcode
  ping_resp : Opcode
  find_node_req : Opcode
  find_node_resp : Opcode

unfoldable pub to_byte : Opcode → ℕ
to_byte ping_req = 0x00
to_byte ping_resp = 0x01
to_byte find_node_req = 0x02
to_byte find_node_resp = 0x03

unfoldable pub from_byte : ℕ → Result Opcode
from_byte byte =
    if byte == 0x00
    then ok ping_req
    else if byte == 0x01
    then ok ping_resp
    else if byte == 0x02
    then ok find_node_req
    else if byte == 0x03
    then ok find_node_resp
    else err pubsub_protocol

pub data Frame : Type 0 where
  ping_req_frame : Frame
  ping_resp_frame : Frame
  find_node_req_frame : NodeId → Frame
  find_node_resp_frame : List Entry → Frame

abbrev pub max_peers_per_resp : ℕ
max_peers_per_resp = 255

unfoldable pub encode_entry : Entry → List ℕ
encode_entry (id, addr) = id.bytes ++ encode_addr addr

-- `flat_map` of `encode_entry`.
unfoldable pub encode_entries : List Entry → List ℕ
encode_entries [] = []
encode_entries (e ∷ es) = encode_entry e ++ encode_entries es

-- `u8::try_from`
u8_try_from : ℕ → Option ℕ
u8_try_from n = if leb n max_peers_per_resp then some n else none

unfoldable pub encode_find_node_resp : List Entry → Result (List ℕ)
unfolding u8_try_from
encode_find_node_resp peers = do
  count ← ok_or pubsub_protocol (u8_try_from (length peers))
  ok (to_byte find_node_resp ∷ count ∷ encode_entries peers)

unfoldable pub encode : Frame → Result (List ℕ)
encode ping_req_frame = ok (to_byte ping_req ∷ [])
encode ping_resp_frame = ok (to_byte ping_resp ∷ [])
encode (find_node_req_frame target) = ok (to_byte find_node_req ∷ target.bytes)
encode (find_node_resp_frame peers) = encode_find_node_resp peers

unfoldable pub decode_no_body : Opcode → List ℕ → Result Frame
decode_no_body opcode (b ∷ body) = err pubsub_protocol
decode_no_body ping_req [] = ok ping_req_frame
decode_no_body ping_resp [] = ok ping_resp_frame
decode_no_body find_node_req [] = err pubsub_protocol
decode_no_body find_node_resp [] = err pubsub_protocol

unfoldable pub decode_find_node_req : List ℕ → Result Frame
decode_find_node_req body = do
  target_slice ← ok_or pubsub_protocol (slice_to node_id_len body)
  let trailing = or_empty (slice_from node_id_len body)
  if is_empty trailing
      then (do
        arr ← ok_or pubsub_protocol (try_array node_id_len target_slice)
        ok (find_node_req_frame (record { bytes = arr })))
      else err pubsub_protocol

-- The entry and the number of bytes it takes.
unfoldable pub decode_entry : List ℕ → Result (Entry × ℕ)
decode_entry buf = do
  id_slice ← ok_or pubsub_protocol (slice_to node_id_len buf)
  id_arr ← ok_or pubsub_protocol (try_array node_id_len id_slice)
  let after_id = or_empty (slice_from node_id_len buf)
  (addr, addr_consumed) ← decode_addr after_id
  ok ((record { bytes = id_arr }, addr), node_id_len + addr_consumed)

-- The `try_fold` over the remaining entries, with the entries so far and the offset. Every error of
-- an entry is reported as an error of the protocol.
unfoldable pub decode_entries_from : List ℕ → ℕ → List Entry → ℕ → Result (List Entry × ℕ)
decode_entries_from buf zero acc offset = ok (acc, offset)
decode_entries_from buf (suc count) acc offset =
    elim (decode_entry (or_empty (slice_from offset buf))) [
      | err e ↦ err pubsub_protocol
      | ok (entry, consumed) ↦
          decode_entries_from buf count (acc ++ (entry ∷ [])) (offset + consumed)
    ]

unfoldable pub decode_entries : List ℕ → ℕ → Result (List Entry × ℕ)
decode_entries buf count = decode_entries_from buf count [] 0

unfoldable pub decode_find_node_resp : List ℕ → Result Frame
decode_find_node_resp body = do
  count ← ok_or pubsub_protocol (first body)
  let entries_slice = or_empty (slice_from 1 body)
  (peers, consumed) ← decode_entries entries_slice count
  let trailing = or_empty (slice_from consumed entries_slice)
  if is_empty trailing then ok (find_node_resp_frame peers) else err pubsub_protocol

unfoldable pub decode_body : Opcode → List ℕ → Result Frame
decode_body ping_req body = decode_no_body ping_req body
decode_body ping_resp body = decode_no_body ping_resp body
decode_body find_node_req body = decode_find_node_req body
decode_body find_node_resp body = decode_find_node_resp body

unfoldable pub decode : List ℕ → Result Frame
decode bytes = do
  opcode_byte ← ok_or pubsub_protocol (first bytes)
  opcode ← from_byte opcode_byte
  decode_body opcode (or_empty (slice_from 1 bytes))
