-- ===== src/Examples/Kad.antt =====
-- A routing table of a few peers, and frames on the wire.
use mathlib.Core.List.{Perm}
use libp2p_cat_rs.Prelude.Bytes.{from_be_bytes}
use libp2p_cat_rs.Types.Addr.{IsAddr}
use libp2p_cat_rs.Kad.AddrCodec.{encode_addr, decode_addr, decode_addr_v4}
use libp2p_cat_rs.Kad.AddrCodec.Canonical.{decode_addr-eq-ok}
use libp2p_cat_rs.Prelude.{
  length, min, take, slice, slice_to, slice_from, try_array, ℕ, suc, ◌^◌, ◌≤◌, ◌<◌, ◌≡◌, ◌≢◌, ◌↔◌,
  refl, true, none, some, List, [], ◌∷◌, ◌++◌, All, if◌then◌else◌, arith,
}
use libp2p_cat_rs.Prelude.Lex.{key_eq}
use libp2p_cat_rs.Types.Error.{ok}
use libp2p_cat_rs.Kad.Distance.{
  distance_lex, bucket_index, is_zero, leading_zeros, find_nonzero, u8_leading_zeros,
}
use libp2p_cat_rs.Kad.Distance.Value.{IsDistance, value, bucket_index_iff}
use libp2p_cat_rs.Kad.NodeId.{node_id_lex, distance}
use libp2p_cat_rs.Kad.NodeId.Metric.{distance-IsDistance}
use libp2p_cat_rs.Kad.Bucket
use libp2p_cat_rs.Kad.Bucket.{Bucket, Entry}
use libp2p_cat_rs.Kad.Bucket.Invariant
use libp2p_cat_rs.Kad.Bucket.Invariant.{addr_of}
use libp2p_cat_rs.Kad.RoutingTable
use libp2p_cat_rs.Kad.RoutingTable.{RoutingTable, len, all_entries}
use libp2p_cat_rs.Kad.RoutingTable.Placement.{IsTable, new-IsTable, insert-IsTable}
use libp2p_cat_rs.Kad.RoutingTable.Addresses.{addr_in, addr_in-remove}
use libp2p_cat_rs.Kad.RoutingTable.Sorting.{Beyond, IsAscending}
use libp2p_cat_rs.Kad.RoutingTable.Closest.{closest_to-nearest}
use libp2p_cat_rs.Kad.Codec
use libp2p_cat_rs.Kad.Codec.{Frame, find_node_resp_frame}
use libp2p_cat_rs.Kad.Codec.Laws
use libp2p_cat_rs.Kad.Codec.Laws.{frame_on_wire}
use libp2p_cat_rs.Rendezvous.Codec as Rendezvous
use libp2p_cat_rs.Rendezvous.Codec.Laws as RendezvousLaws
use libp2p_cat_rs.Examples.Data.{
  id, id-IsNodeId, home, away, home-IsAddr, away-IsAddr, bytes_checked,
}

-- Bits 1 and 2 of the distance: bucket 2.
six : bucket_index (distance (id 5) (id 3)) ≡ some 2
unfolding bucket_index is_zero leading_zeros find_nonzero u8_leading_zeros distance
six = refl

five_three-IsDistance : IsDistance (distance (id 5) (id 3))
five_three-IsDistance = distance-IsDistance (id 5) (id 3) (id-IsNodeId 5 refl) (id-IsNodeId 3 refl)

bucket_index_iff_example :
    (bucket_index (distance (id 5) (id 3)) ≡ some 2)
    ↔ ((2 ^ 2 ≤ value (distance (id 5) (id 3))) × (value (distance (id 5) (id 3)) < 2 ^ suc 2))
bucket_index_iff_example = bucket_index_iff (distance (id 5) (id 3)) 2 five_three-IsDistance

abbrev one_peer : Bucket
one_peer = record { capacity = 1; entries = (id 3, home) ∷ [] }

one_peer-IsValid : Invariant.IsValid one_peer
one_peer-IsValid = record { within = omega arith; distinct = (unfold Bucket.any_id in refl, tt) }

abbrev fresh : RoutingTable
fresh = RoutingTable.new (id 5) 20

fresh-IsTable : IsTable fresh
fresh-IsTable = new-IsTable (id 5) 20

insert-IsTable_example : IsTable (RoutingTable.insert (id 3) home fresh).0
insert-IsTable_example = insert-IsTable (id 3) home fresh fresh-IsTable

has_bucket : bucket_index (distance fresh.self_id (id 3)) ≢ none
has_bucket h =
    let five : fresh.self_id ≡ id 5 = unfold RoutingTable.new in refl in
    let same : bucket_index (distance fresh.self_id (id 3)) ≡ some 2 = rw five six in cc (same, h)

addr_in-remove_example :
    addr_in (id 3) (RoutingTable.remove (id 3) fresh)
    ≡ (if key_eq (id 3) (id 3) then none else addr_in (id 3) fresh)
addr_in-remove_example = addr_in-remove (id 3) (id 3) fresh fresh-IsTable has_bucket

-- Three peers, of which two are asked for.
abbrev stocked : RoutingTable
stocked =
    (RoutingTable.insert (id 6) away
      (RoutingTable.insert (id 4) away (RoutingTable.insert (id 3) home fresh).0).0).0

closest_to-nearest_example :
    (length (RoutingTable.closest_to (id 1) 2 stocked) ≡ min 2 (len stocked))
    × IsAscending (id 1) (RoutingTable.closest_to (id 1) 2 stocked)
    × (rest : List Entry) × Perm
        (RoutingTable.closest_to (id 1) 2 stocked ++ rest)
        (all_entries stocked.buckets)
    × All (λ e. Beyond (id 1) (distance e.0 (id 1)) rest) (RoutingTable.closest_to (id 1) 2 stocked)
closest_to-nearest_example = closest_to-nearest (id 1) 2 stocked

abbrev answer : Frame
answer = find_node_resp_frame ((id 3, home) ∷ (id 4, away) ∷ [])

answer-IsFrame : Laws.IsFrame answer
answer-IsFrame =
    (omega arith, ((id-IsNodeId 3 refl, home-IsAddr), ((id-IsNodeId 4 refl, away-IsAddr), tt)))

decode-encode_example :
    (bytes : List ℕ) × (Codec.encode answer ≡ ok bytes)
    × (Codec.decode bytes ≡ ok (frame_on_wire answer))
decode-encode_example = Laws.decode-encode answer answer-IsFrame

abbrev relayed : Rendezvous.Frame
relayed = Rendezvous.relay_data_req_frame away (1 ∷ 2 ∷ 3 ∷ [])

decode-encode_rendezvous_example :
    (bytes : List ℕ) × (Rendezvous.encode relayed ≡ ok bytes)
    × (Rendezvous.decode (λ bs. true) bytes ≡ ok (RendezvousLaws.frame_on_wire relayed))
decode-encode_rendezvous_example =
    RendezvousLaws.decode-encode_rendezvous (λ bs. true) relayed away-IsAddr

abbrev home_bytes : List ℕ
home_bytes = 4 ∷ 127 ∷ 0 ∷ 0 ∷ 1 ∷ 15 ∷ 161 ∷ 9 ∷ []

home_decoded : decode_addr home_bytes ≡ ok (home, 7)
unfolding decode_addr decode_addr_v4 slice slice_to slice_from try_array from_be_bytes
home_decoded = refl

decode_addr-eq-ok_example :
    (take 7 home_bytes ≡ encode_addr home) × (7 ≤ length home_bytes) × IsAddr home
decode_addr-eq-ok_example =
    decode_addr-eq-ok home_bytes home 7 (bytes_checked home_bytes refl) home_decoded
