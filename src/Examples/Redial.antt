-- ===== src/Examples/Redial.antt =====
-- A node whose table has a peer that it has dialled and that has not answered.
use libp2p_cat_rs.Prelude.{ℕ, ◌≡◌, refl, none, List, [], ◌∷◌, replicate, arith}
use libp2p_cat_rs.Prelude.Lex.{lex}
use libp2p_cat_rs.Prelude.BTreeMap
use libp2p_cat_rs.Types.Error.{err, host_state}
use libp2p_cat_rs.Host.State.{initiator_awaiting_response}
use libp2p_cat_rs.Kad.Distance.{
  distance_lex, bucket_index, is_zero, leading_zeros, find_nonzero, u8_leading_zeros,
}
use libp2p_cat_rs.Kad.NodeId.{node_id_lex, distance}
use libp2p_cat_rs.Kad.Bucket
use libp2p_cat_rs.Kad.RoutingTable
use libp2p_cat_rs.Kad.RoutingTable.{closest_to}
use libp2p_cat_rs.Kad.Lookup.{LookupConfig, new, collect_entries, pick_next_alpha}
use libp2p_cat_rs.Kad.Node.{KademliaNode, lookup_node}
use libp2p_cat_rs.Kad.Node.Redial.{lookup_node_in_flight}
use libp2p_cat_rs.Examples.Data.{id, home, key}
use libp2p_cat_rs.Examples.Crypto.{crypto, keypair, os, idle}

abbrev waiting : KademliaNode (Unit {0})
waiting = record {
  host = record idle {
    handshakes =
        (
          home,
          record {
            state =
                initiator_awaiting_response
                  (record {
                    static_keypair = keypair;
                    eph_private = key;
                    sym = record {
                      chaining_key = replicate 32 6;
                      hash = replicate 32 5;
                      cipher_key = none;
                      nonce = 0;
                    };
                  })
                  (replicate 32 1);
            last_activity = 0;
          },
        )
        ∷ [];
  };
  table = (RoutingTable.insert (id 3) home (RoutingTable.new (id 5) 20)).0;
}

abbrev config : LookupConfig
config = record { alpha = 1; k = 2; max_rounds = 2; max_recv_per_round = 2 }

abbrev seeds : ℕ → List ℕ
seeds n = n ∷ []

picked :
    pick_next_alpha
      (new waiting.table.self_id (id 2) config (closest_to (id 2) config.k waiting.table))
    ≡ (id 3, home) ∷ []
unfolding pick_next_alpha new collect_entries closest_to RoutingTable.new RoutingTable.insert
    RoutingTable.insert_into_bucket RoutingTable.insert_fold RoutingTable.sort_by_key
    RoutingTable.insert_by_key RoutingTable.with_distance RoutingTable.all_entries Bucket.new
    Bucket.insert Bucket.remove_first Bucket.is_full bucket_index is_zero leading_zeros find_nonzero
    u8_leading_zeros distance lex BTreeMap.insert
picked = refl

lookup_node_in_flight_example : lookup_node crypto os (id 2) config seeds waiting ≡ err host_state
unfolding BTreeMap.get lex
lookup_node_in_flight_example =
    lookup_node_in_flight crypto os (id 2) config seeds waiting (id 3) home [] picked (omega arith)
      refl refl
