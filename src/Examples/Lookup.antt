-- ===== src/Examples/Lookup.antt =====
-- A lookup over a node whose every query is answered by one more peer.
use libp2p_cat_rs.Prelude.{
  ℕ, ◌≡◌, ◌≤◌, refl, true, false, List, [], ◌∷◌, All, length, is_empty, arith,
}
use libp2p_cat_rs.Prelude.Lex.{key_eq, lex}
use libp2p_cat_rs.Prelude.BTreeMap
use libp2p_cat_rs.Types.Error.{ok}
use libp2p_cat_rs.Kad.Distance.{distance_lex}
use libp2p_cat_rs.Kad.NodeId.{node_id_lex, distance}
use libp2p_cat_rs.Kad.Bucket.{Entry}
use libp2p_cat_rs.Kad.Event.{find_node_response_received}
use libp2p_cat_rs.Kad.Lookup.{
  Lookup, LookupConfig, unqueried, unqueried_entry, new, collect_entries, is_done, pick_next_alpha,
  has_pending, record_response, mark_in_flight, mark_dialing, merge_peers, skip_all,
  skip_pending_queries, skip_pending_dials, top_k_results,
}
use libp2p_cat_rs.Kad.Lookup.Invariant.{
  Steps, stay, then_step, records, IsLookup, new-IsLookup, Steps-IsLookup,
}
use libp2p_cat_rs.Kad.Lookup.Shortlist.{
  IsKnown, Steps-IsKnown, is_done-pick_next_alpha, IsStrictlyAscending,
}
use libp2p_cat_rs.Kad.Lookup.Drive.{
  LookupNode, run_lookup, drive_rounds, drain_responses, choose_actions, send_chain, send_action,
  mark_all, mark_action, on_event,
}
use libp2p_cat_rs.Kad.Lookup.Run.{run_lookup_results}
use libp2p_cat_rs.Examples.Data.{id, home, away}

-- Node 5 knows node 3 at `home`; node 3 answers every query with nodes 5 and 2.
abbrev network : LookupNode (Unit {0})
network = record {
  node_id = λ n. id 5;
  closest_to = λ target k n. (id 3, home) ∷ [];
  is_established = λ addr n. true;
  find_node = λ addr target n. ok n;
  dial = λ addr seed n. ok n;
  recv_one = λ seed n. ok (n, find_node_response_received home ((id 5, away) ∷ (id 2, away) ∷ []));
}

abbrev seeds : ℕ → List ℕ
seeds n = n ∷ []

abbrev config : LookupConfig
config = record { alpha = 1; k = 2; max_rounds = 2; max_recv_per_round = 2 }

abbrev results : List Entry
results = (id 2, away) ∷ (id 3, home) ∷ []

found : run_lookup network seeds tt (id 2) config ≡ ok (tt, results)
unfolding run_lookup drive_rounds drain_responses choose_actions send_chain send_action mark_all
    mark_action on_event new collect_entries is_done pick_next_alpha record_response mark_in_flight
    mark_dialing merge_peers skip_all skip_pending_queries skip_pending_dials top_k_results
    BTreeMap.insert BTreeMap.adjust BTreeMap.get BTreeMap.remove distance lex
found = refl

run_lookup_results_example :
    (length results ≤ 2)
    × All (λ p. key_eq p.0 (id 5) ≡ false) results
    × IsStrictlyAscending (id 2) results
run_lookup_results_example = run_lookup_results network seeds tt tt (id 2) config results found

abbrev begun : Lookup
begun = new (id 5) (id 2) config ((id 3, home) ∷ [])

abbrev answered : Lookup
answered = (record_response home ((id 3, away) ∷ (id 5, away) ∷ []) begun).0

answered-Steps : Steps begun answered
answered-Steps = then_step (stay begun) (records home ((id 3, away) ∷ (id 5, away) ∷ []) begun)

-- Node 3 stays known at `home`, whatever address a response claims.
Steps-IsKnown_example :
    IsKnown (distance (id 3) (id 2)) (unqueried_entry (id 3, home)) answered.entries
Steps-IsKnown_example =
    Steps-IsKnown (distance (id 3) (id 2)) (unqueried_entry (id 3, home)) answered-Steps
      (unqueried, unfold new collect_entries BTreeMap.insert BTreeMap.get distance lex in refl)

Steps-IsLookup_example : IsLookup answered
Steps-IsLookup_example =
    Steps-IsLookup answered-Steps (new-IsLookup (id 5) (id 2) config ((id 3, home) ∷ []))

is_done-pick_next_alpha_example : is_done begun ≡ is_empty (pick_next_alpha begun)
is_done-pick_next_alpha_example =
    is_done-pick_next_alpha begun (unfold new in omega arith) (unfold has_pending new in refl)
