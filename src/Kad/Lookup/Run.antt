-- ===== src/Kad/Lookup/Run.antt =====
-- The whole lookup of crates/libp2p-cat-kad/src/lookup.rs, over any node.
use libp2p_cat_rs.Prelude.{
  ℕ, zero, suc, ◌≤◌, ◌≡◌, refl, ap, inl, inr, false, ◌&&◌, ◌||◌, List, [], ◌∷◌, All, length,
  is_empty, arith, Bool-cases,
}
use libp2p_cat_rs.Prelude.Lex.{key_eq}
use libp2p_cat_rs.Types.Error.{Result, ok, err, ◌>>=◌, map_ok}
use libp2p_cat_rs.Kad.NodeId.{NodeId, node_id_lex}
use libp2p_cat_rs.Kad.Bucket.{Entry}
use libp2p_cat_rs.Kad.Event.{
  KadEvent, handshake_progress, handshake_complete, ping_request_received, ping_response_received,
  find_node_request_received, find_node_response_received, rejected,
}
use libp2p_cat_rs.Kad.Lookup.{
  Lookup, LookupConfig, new, is_done, pick_next_alpha, is_pending_dial, skip_pending_queries,
  skip_pending_dials, top_k_results, has_pending,
}
use libp2p_cat_rs.Kad.Lookup.Invariant.{
  marks_in_flight, marks_dialing, completes_dial, records, skips_queries, skips_dials, Steps, stay,
  then_step, new-IsLookup, Steps-IsLookup, Steps-fixed,
}
use libp2p_cat_rs.Kad.Lookup.Shortlist.{
  length-top_k_results, top_k_results-not_self, top_k_results-IsStrictlyAscending,
  IsStrictlyAscending,
}
use libp2p_cat_rs.Kad.Lookup.Drive.{
  LookupNode, RoundAction, query, dial_peer, on_event, mark_action, mark_all, choose_actions,
  send_chain, drain_responses, drive_rounds, run_lookup,
}

Steps-trans : {a b c : Lookup} → Steps a b → Steps b c → Steps a c
Steps-trans p (stay l) = p
Steps-trans p (then_step q s) = then_step (Steps-trans p q) s

-- Every event moves the lookup by at most one step.
on_event-Steps : (ev : KadEvent) (l : Lookup) → Steps l (on_event ev l)
unfolding on_event
on_event-Steps (find_node_response_received source peers) l =
    then_step (stay l) (records source peers l)
on_event-Steps (handshake_complete addr a b c) l = elim (Bool-cases (is_pending_dial addr l)) [
  | inl e ↦ rw e (then_step (stay l) (completes_dial addr l))
  | inr e ↦ rw e (stay l)
]
on_event-Steps (handshake_progress addr) l = stay l
on_event-Steps (ping_request_received source) l = stay l
on_event-Steps (ping_response_received source) l = stay l
on_event-Steps (find_node_request_received source target returned) l = stay l
on_event-Steps (rejected addr) l = stay l

mark_all-Steps : (actions : List (NodeId × RoundAction)) (l : Lookup) → Steps l (mark_all actions l)
unfolding mark_all mark_action
mark_all-Steps [] l = stay l
mark_all-Steps ((id, query addr) ∷ actions) l =
    Steps-trans (then_step (stay l) (marks_in_flight id addr l)) (mark_all-Steps actions _)
mark_all-Steps ((id, dial_peer addr seed) ∷ actions) l =
    Steps-trans (then_step (stay l) (marks_dialing id addr l)) (mark_all-Steps actions _)

module _ {N : Type 0} (node_of : LookupNode N) (seed_factory : ℕ → List ℕ) where
  -- Where a result is reached, the lookup got there by its steps.
  abbrev ReachedFrom : Lookup → Result (N × Lookup × ℕ) → Type 0
  ReachedFrom l (err e) = Unit
  ReachedFrom l (ok r) = Steps l r.1

  ReachedFrom-trans :
      (a b : Lookup) (r : Result (N × Lookup × ℕ)) → Steps a b → ReachedFrom b r → ReachedFrom a r
  ReachedFrom-trans a b (err e) p q = tt
  ReachedFrom-trans a b (ok r) p q = Steps-trans p q

  bind_any :
      {X : Type 0} (l : Lookup) (r : Result X) (f : X → Result (N × Lookup × ℕ))
      → ((x : X) → ReachedFrom l (f x))
      → ReachedFrom l (r >>= f)
  bind_any l (err e) f h = tt
  bind_any l (ok x) f h = h x

  bind_reached :
      (l : Lookup) (r : Result (N × Lookup × ℕ)) (f : N × Lookup × ℕ → Result (N × Lookup × ℕ))
      → ReachedFrom l r
      → ((x : N × Lookup × ℕ) → ReachedFrom x.1 (f x))
      → ReachedFrom l (r >>= f)
  bind_reached l (err e) f p h = tt
  bind_reached l (ok x) f p h = ReachedFrom-trans l x.1 (f x) p (h x)

  drain_responses-Steps :
      (budget : ℕ) (node : N) (l : Lookup) (calls : ℕ)
      → ReachedFrom l (drain_responses node_of seed_factory budget node l calls)
  unfolding drain_responses
  drain_responses-Steps zero node l calls = stay l
  drain_responses-Steps (suc budget) node l calls =
      elim (Bool-cases (is_empty l.pending_queries && is_empty l.pending_dials)) [
        | inl e ↦ rw e (stay l)
        | inr e ↦ rw e (
            bind_any l (node_of.recv_one (seed_factory calls) node) _ λ (next, ev).
              ReachedFrom-trans l (on_event ev l) _ (on_event-Steps ev l)
                (drain_responses-Steps budget next (on_event ev l) (suc calls)))
      ]

  drive_rounds-Steps :
      (rounds : ℕ) (node : N) (l : Lookup) (calls : ℕ)
      → ReachedFrom l (drive_rounds node_of seed_factory rounds node l calls)
  unfolding drive_rounds
  drive_rounds-Steps zero node l calls = stay l
  drive_rounds-Steps (suc rounds) node l calls =
      elim (Bool-cases (is_done l || is_empty (pick_next_alpha l))) [
        | inl e ↦ rw e (stay l)
        | inr e ↦
            let actions = (choose_actions node_of seed_factory node calls (pick_next_alpha l)).0 in
            rw e (
              ReachedFrom-trans l (mark_all actions l) _ (mark_all-Steps actions l) (
                bind_any _
                  (send_chain node_of seed_factory (mark_all actions l).target actions node) _
                  λ sent.
                    bind_reached _ _ _ (drain_responses-Steps _ sent (mark_all actions l) _)
                      λ (drained, after, spent).
                        ReachedFrom-trans after (skip_pending_dials (skip_pending_queries after)) _
                          (then_step (then_step (stay after) (skips_queries after)) (skips_dials _))
                          (drive_rounds-Steps rounds drained _ spent)))
      ]

  -- Nothing is pending where a result is reached.
  abbrev Settled : Result (N × Lookup × ℕ) → Type 0
  Settled (err e) = Unit
  Settled (ok r) = has_pending r.1 ≡ false

  bind-Settled :
      {X : Type 0} (r : Result X) (f : X → Result (N × Lookup × ℕ))
      → ((x : X) → Settled (f x))
      → Settled (r >>= f)
  bind-Settled (err e) f h = tt
  bind-Settled (ok x) f h = h x

  drive_rounds-Settled :
      (rounds : ℕ) (node : N) (l : Lookup) (calls : ℕ)
      → has_pending l ≡ false
      → Settled (drive_rounds node_of seed_factory rounds node l calls)
  unfolding drive_rounds has_pending skip_pending_queries skip_pending_dials
  drive_rounds-Settled zero node l calls h = h
  drive_rounds-Settled (suc rounds) node l calls h =
      elim (Bool-cases (is_done l || is_empty (pick_next_alpha l))) [
        | inl e ↦ rw e h
        | inr e ↦ rw e (
            bind-Settled (send_chain node_of seed_factory _ _ node) _ λ sent.
              bind-Settled (drain_responses node_of seed_factory _ sent _ _) _
                λ (drained, after, spent). drive_rounds-Settled rounds drained _ spent refl)
      ]

  result_facts :
      (self_id target : NodeId) (config : LookupConfig) (initial : List Entry) (l : Lookup)
      → Steps (new self_id target config initial) l
      → (length (top_k_results l) ≤ config.k)
        × All (λ p. key_eq p.0 self_id ≡ false) (top_k_results l)
        × IsStrictlyAscending target (top_k_results l)
  unfolding new top_k_results
  result_facts self_id target config initial l ss =
      let v = Steps-IsLookup ss (new-IsLookup self_id target config initial) in
      let (same_self, same_target, same_config) = Steps-fixed ss in
      (
        omega (arith, length-top_k_results l, ap (λ (c : LookupConfig). c.k) same_config),
        rw same_self at (top_k_results-not_self l v),
        rw same_target at (top_k_results-IsStrictlyAscending l v),
      )

  -- Where a lookup returns peers, they are at most `k`, none of them is the node itself, and their
  -- distances to the target ascend strictly, whatever the node's calls answered.
  pub run_lookup_results :
      (node last : N) (target : NodeId) (config : LookupConfig) (peers : List Entry)
      → run_lookup node_of seed_factory node target config ≡ ok (last, peers)
      → (length peers ≤ config.k)
        × All (λ p. key_eq p.0 (node_of.node_id node) ≡ false) peers
        × IsStrictlyAscending target peers
  unfolding run_lookup
  run_lookup_results node last target config peers h =
      let initial = node_of.closest_to target config.k node in
      let l = new (node_of.node_id node) target config initial in
      read (drive_rounds node_of seed_factory config.max_rounds node l 0)
        (drive_rounds-Steps config.max_rounds node l 0) h
    where
      read :
          (r : Result (N × Lookup × ℕ))
          → ReachedFrom
              (new (node_of.node_id node) target config (node_of.closest_to target config.k node))
              r
          → map_ok {B = N × List Entry} (λ x. (x.0, top_k_results x.1)) r ≡ ok (last, peers)
          → (length peers ≤ config.k)
            × All (λ p. key_eq p.0 (node_of.node_id node) ≡ false) peers
            × IsStrictlyAscending target peers
      read (err e) p q = cc
      read (ok (n, l, c)) p q =
          let same : top_k_results l ≡ peers = ground arith in
          rw (← same) (
            result_facts (node_of.node_id node) target config
              (node_of.closest_to target config.k node) l p)
