-- ===== src/Kad/Codec/Laws.antt =====
-- The frames of crates/libp2p-cat-kad/src/codec.rs: encoding against decoding.
use native.Mathlib.Nat.{zero-add}
use libp2p_cat_rs.Prelude.{
  ℕ, suc, ◌+◌, ◌≤◌, ◌<◌, ◌≡◌, refl, sym, ap, ◌∙◌, ◌↔◌, List, [], ◌∷◌, ◌++◌, map, arith, append-nil,
  append_assoc, length, length-append, All, le→leb, not_le→leb, slice_to, slice_from, some,
  slice_to-append, slice_from-append, slice_from-cons, try_array-of_length,
}
use libp2p_cat_rs.Types.Error.{pubsub_protocol, ok, err}
use libp2p_cat_rs.Types.Addr.{IsAddr}
use libp2p_cat_rs.Kad.Distance.{node_id_len}
use libp2p_cat_rs.Kad.NodeId.{NodeId, IsNodeId}
use libp2p_cat_rs.Kad.Bucket.{Entry}
use libp2p_cat_rs.Kad.AddrCodec.{encode_addr}
use libp2p_cat_rs.Kad.AddrCodec.Laws.{on_wire, decode_addr-encode_addr}
use libp2p_cat_rs.Kad.Codec.{
  Opcode, ping_req, ping_resp, find_node_req, find_node_resp, to_byte, from_byte, Frame,
  ping_req_frame, ping_resp_frame, find_node_req_frame, find_node_resp_frame, max_peers_per_resp,
  u8_try_from, encode_entry, encode_entries, encode_find_node_resp, encode, decode_no_body,
  decode_find_node_req, decode_entry, decode_entries_from, decode_entries, decode_find_node_resp,
  decode_body, decode,
}

abbrev pub IsEntry : Entry → Type 0
IsEntry e = IsNodeId e.0 × IsAddr e.1

-- A frame of well-formed identifiers and addresses that fits the one-byte count.
abbrev pub IsFrame : Frame → Type 0
IsFrame ping_req_frame = Unit
IsFrame ping_resp_frame = Unit
IsFrame (find_node_req_frame target) = IsNodeId target
IsFrame (find_node_resp_frame peers) = (length peers ≤ max_peers_per_resp) × All IsEntry peers

abbrev pub entry_on_wire : Entry → Entry
entry_on_wire (id, addr) = (id, on_wire addr)

unfoldable pub frame_on_wire : Frame → Frame
frame_on_wire ping_req_frame = ping_req_frame
frame_on_wire ping_resp_frame = ping_resp_frame
frame_on_wire (find_node_req_frame target) = find_node_req_frame target
frame_on_wire (find_node_resp_frame peers) = find_node_resp_frame (map entry_on_wire peers)

-- `from_byte` reads `to_byte` back, and accepts no other byte.
pub from_byte_iff : (o : Opcode) (b : ℕ) → (from_byte b ≡ ok o) ↔ (b ≡ to_byte o)
unfolding from_byte to_byte
from_byte_iff ping_req b = (λ h. ground arith, λ h. ground arith)
from_byte_iff ping_resp b = (λ h. ground arith, λ h. ground arith)
from_byte_iff find_node_req b = (λ h. ground arith, λ h. ground arith)
from_byte_iff find_node_resp b = (λ h. ground arith, λ h. ground arith)

decode_entry-encode_entry :
    (e : Entry) (rest : List ℕ)
    → IsEntry e
    → decode_entry (encode_entry e ++ rest) ≡ ok (entry_on_wire e, length (encode_entry e))
unfolding decode_entry encode_entry
decode_entry-encode_entry (id, addr) rest ((len, bytes), ha) =
    rw
      (
        append_assoc id.bytes (encode_addr addr) rest,
        slice_to-append id.bytes (encode_addr addr ++ rest) node_id_len len,
        slice_from-append id.bytes (encode_addr addr ++ rest) node_id_len len,
      )
      (rw (try_array-of_length node_id_len id.bytes len, decode_addr-encode_addr addr rest ha)
        (ap (λ (n : ℕ). ok ((id, on_wire addr), n))
          (omega (arith, len, length-append id.bytes (encode_addr addr)))))

-- One entry read at an offset.
decode_entries_from-step :
    (buf chunk : List ℕ) (count : ℕ) (acc : List Entry) (offset : ℕ) (entry : Entry) (consumed : ℕ)
    → slice_from offset buf ≡ some chunk
    → decode_entry chunk ≡ ok (entry, consumed)
    → decode_entries_from buf (suc count) acc offset
      ≡ decode_entries_from buf count (acc ++ (entry ∷ [])) (offset + consumed)
unfolding decode_entries_from
decode_entries_from-step buf chunk count acc offset entry consumed p q =
    rw (p, q, decode_entries_from) refl

decode_entries_from-encode_entries :
    (es : List Entry) (pre rest : List ℕ) (acc : List Entry)
    → All IsEntry es
    → decode_entries_from (pre ++ (encode_entries es ++ rest)) (length es) acc (length pre)
      ≡ ok (acc ++ map entry_on_wire es, length pre + length (encode_entries es))
unfolding encode_entries
decode_entries_from-encode_entries [] pre rest acc h =
    unfold decode_entries_from in rw append-nil (ap (λ (n : ℕ). ok (acc, n)) (omega arith))
decode_entries_from-encode_entries (e ∷ es) pre rest acc (h, hs) =
    rw (append_assoc (encode_entry e) (encode_entries es) rest) (
      decode_entries_from-step _ (encode_entry e ++ (encode_entries es ++ rest)) (length es) acc
        (length pre) (entry_on_wire e) (length (encode_entry e))
        (slice_from-append pre _ (length pre) refl)
        (decode_entry-encode_entry e (encode_entries es ++ rest) h)
      ∙ cc (
        length-append pre (encode_entry e),
        append_assoc pre (encode_entry e) (encode_entries es ++ rest),
        decode_entries_from-encode_entries es (pre ++ encode_entry e) rest
            (acc ++ (entry_on_wire e ∷ [])) hs,
        append_assoc acc (entry_on_wire e ∷ []) (map entry_on_wire es),
        total,
      ))
  where
    total :
        length (pre ++ encode_entry e) + length (encode_entries es)
        ≡ length pre + length (encode_entry e ++ encode_entries es)
    total = omega (
      arith,
      length-append pre (encode_entry e),
      length-append (encode_entry e) (encode_entries es),
    )

slice_from-all : (n : ℕ) (xs : List ℕ) → length xs ≡ n → slice_from n xs ≡ some []
slice_from-all n xs h = ap (slice_from n) (sym (append-nil xs)) ∙ slice_from-append xs [] n h

-- The bodies of the two frames that have one.
decode_find_node_req_lem :
    (target : NodeId)
    → length target.bytes ≡ node_id_len
    → decode_find_node_req target.bytes ≡ ok (find_node_req_frame target)
unfolding decode_find_node_req
decode_find_node_req_lem target len =
    rw
      (
        ap (slice_to node_id_len) (sym (append-nil target.bytes))
            ∙ slice_to-append target.bytes [] node_id_len len,
        slice_from-all node_id_len target.bytes len,
      )
      (rw (try_array-of_length node_id_len target.bytes len) refl)

decode_entries-encode_entries :
    (peers : List Entry)
    → All IsEntry peers
    → decode_entries (encode_entries peers) (length peers)
      ≡ ok (map entry_on_wire peers, length (encode_entries peers))
unfolding decode_entries
decode_entries-encode_entries peers h =
    let p = decode_entries_from-encode_entries peers [] [] [] h in rw (append-nil, zero-add) at p

decode_find_node_resp_lem :
    (peers : List Entry)
    → All IsEntry peers
    → decode_find_node_resp (length peers ∷ encode_entries peers)
      ≡ ok (find_node_resp_frame (map entry_on_wire peers))
unfolding decode_find_node_resp
decode_find_node_resp_lem peers h = rw (slice_from-cons (length peers) (encode_entries peers)) (
    rw (decode_entries-encode_entries peers h)
      (rw (slice_from-all (length (encode_entries peers)) (encode_entries peers) refl) refl))

encode_find_node_resp_lem :
    (peers : List Entry)
    → length peers ≤ max_peers_per_resp
    → encode_find_node_resp peers ≡ ok (3 ∷ length peers ∷ encode_entries peers)
unfolding encode_find_node_resp u8_try_from to_byte
encode_find_node_resp_lem peers count = rw (le→leb (length peers) max_peers_per_resp count) refl

-- A frame of well-formed identifiers and addresses, with at most 255 peers, is encoded, and its
-- bytes decode to the frame without the two IPv6 fields that are not sent.
pub decode-encode :
    (f : Frame)
    → IsFrame f
    → (bytes : List ℕ) × (encode f ≡ ok bytes) × (decode bytes ≡ ok (frame_on_wire f))
unfolding encode decode frame_on_wire decode_body decode_no_body to_byte from_byte
decode-encode ping_req_frame h = (_, refl, rw (slice_from-cons {A = ℕ} 0 []) refl)
decode-encode ping_resp_frame h = (_, refl, rw (slice_from-cons {A = ℕ} 1 []) refl)
decode-encode (find_node_req_frame target) (len, bytes) =
    (_, refl, rw (slice_from-cons 2 target.bytes) (decode_find_node_req_lem target len))
decode-encode (find_node_resp_frame peers) (count, h) = (
  _,
  encode_find_node_resp_lem peers count,
  rw (slice_from-cons 3 (length peers ∷ encode_entries peers)) (decode_find_node_resp_lem peers h),
)

-- Only a count that does not fit one byte is refused.
pub encode-err :
    (peers : List Entry)
    → max_peers_per_resp < length peers
    → encode (find_node_resp_frame peers) ≡ err pubsub_protocol
unfolding encode encode_find_node_resp u8_try_from
encode-err peers h = rw (not_le→leb (length peers) max_peers_per_resp h) refl
