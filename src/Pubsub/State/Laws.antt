-- ===== src/Pubsub/State/Laws.antt =====
-- The operations of crates/libp2p-cat-pubsub/src/state.rs on the tables and the tick.
use libp2p_cat_rs.Prelude.{
  ℕ, ◌+◌, ◌-◌, ◌^◌, ◌≤◌, ◌<◌, ◌≡◌, refl, ◌∙◌, some, [], ◌∷◌, true, leb, if◌then◌else◌, All,
  All-filter, arith,
}
use native.Mathlib.Nat.{mod-eq_of_lt}
use libp2p_cat_rs.Prelude.Lex.{key_eq, key_eq_refl}
use libp2p_cat_rs.Prelude.BTreeMap
use libp2p_cat_rs.Prelude.BTreeMap.{
  BTreeMap, IsSorted, keys, get-insert, get-remove, get-filter, insert-IsSorted, remove-IsSorted,
  filter-IsSorted, insert-All, remove-All,
}
use libp2p_cat_rs.Prelude.Words.{wrapping_suc}
use libp2p_cat_rs.Pubsub.Topic.{Topic, topic_lex}
use libp2p_cat_rs.Pubsub.State.{
  DecoderEntry, RecoderEntry, PubsubState, register_topic, register_relay, unregister_topic,
  unregister_relay, evict_idle_topics, evict_idle_relays,
}

-- Both tables are sorted, and no entry was active after the tick.
pub record IsState {D R C : Type 0} (s : PubsubState D R C) : Type 0 where
  pub decoders_sorted : IsSorted s.decoders
  pub recoders_sorted : IsSorted s.recoders
  pub decoders_past : All (λ e. e.1.last_activity ≤ s.tick) s.decoders
  pub recoders_past : All (λ e. e.1.last_activity ≤ s.tick) s.recoders

-- The operations that change the state.
pub data Operation (C : Type 0) : Type 0 where
  registers_topic : Topic → ℕ → ℕ → C → Operation C
  registers_relay : Topic → ℕ → ℕ → C → Operation C
  unregisters_topic : Topic → Operation C
  unregisters_relay : Topic → Operation C
  evicts_topics : ℕ → Operation C
  evicts_relays : ℕ → Operation C

All-later :
    {V : Type 0} (last_activity : V → ℕ) (t u : ℕ) (m : BTreeMap Topic V)
    → t ≤ u
    → All (λ e. last_activity e.1 ≤ t) m
    → All (λ e. last_activity e.1 ≤ u) m
All-later la t u [] h a = tt
All-later la t u (e ∷ m) h (a, as') = (omega arith, All-later la t u m h as')

wrapping_suc_lem : (t : ℕ) → t + 1 < 2 ^ 64 → wrapping_suc t ≡ t + 1
wrapping_suc_lem t h = mod-eq_of_lt h

module _ {D R C : Type 0} (new_decoder : ℕ → ℕ → D) (new_recoder : ℕ → ℕ → R) where
  unfoldable pub apply : Operation C → PubsubState D R C → PubsubState D R C
  apply (registers_topic t n l c) s = register_topic new_decoder new_recoder t n l c s
  apply (registers_relay t n l c) s = register_relay new_decoder new_recoder t n l c s
  apply (unregisters_topic t) s = unregister_topic t s
  apply (unregisters_relay t) s = unregister_relay t s
  apply (evicts_topics n) s = (evict_idle_topics n s).0
  apply (evicts_relays n) s = (evict_idle_relays n s).0

  abbrev decoder_time : DecoderEntry D C → ℕ
  decoder_time e = e.last_activity

  abbrev recoder_time : RecoderEntry D R C → ℕ
  recoder_time e = e.last_activity

  -- As long as the tick does not wrap, every operation advances it by one, keeps the tables sorted,
  -- and leaves no entry that was active after the tick.
  pub apply-IsState :
      (op : Operation C) (s : PubsubState D R C)
      → IsState s
      → s.tick + 1 < 2 ^ 64
      → IsState (apply op s) × ((apply op s).tick ≡ s.tick + 1)
  unfolding apply register_topic register_relay unregister_topic unregister_relay evict_idle_topics
      evict_idle_relays
  apply-IsState op s v h = step op
    where
      t : s.tick ≤ wrapping_suc s.tick
      t = omega (arith, wrapping_suc_lem s.tick h)

      decoders_later : All (λ e. e.1.last_activity ≤ wrapping_suc s.tick) s.decoders
      decoders_later = All-later decoder_time s.tick _ s.decoders t v.decoders_past

      recoders_later : All (λ e. e.1.last_activity ≤ wrapping_suc s.tick) s.recoders
      recoders_later = All-later recoder_time s.tick _ s.recoders t v.recoders_past

      state :
          (ds : BTreeMap Topic (DecoderEntry D C)) (rs : BTreeMap Topic (RecoderEntry D R C))
          → IsSorted ds
          → IsSorted rs
          → All (λ e. e.1.last_activity ≤ wrapping_suc s.tick) ds
          → All (λ e. e.1.last_activity ≤ wrapping_suc s.tick) rs
          → IsState (record s { decoders = ds; recoders = rs; tick = wrapping_suc s.tick })
            × (wrapping_suc s.tick ≡ s.tick + 1)
      state ds rs sd sr pd pr = (
        record {
          decoders_sorted = sd;
          recoders_sorted = sr;
          decoders_past = pd;
          recoders_past = pr;
        },
        wrapping_suc_lem s.tick h,
      )

      step : (o : Operation C) → IsState (apply o s) × ((apply o s).tick ≡ s.tick + 1)
      step (registers_topic k n l c) =
          state _ s.recoders (insert-IsSorted k _ s.decoders v.decoders_sorted) v.recoders_sorted
            (insert-All _ k _ s.decoders (omega arith) decoders_later) recoders_later
      step (registers_relay k n l c) =
          state s.decoders _ v.decoders_sorted (insert-IsSorted k _ s.recoders v.recoders_sorted)
            decoders_later (insert-All _ k _ s.recoders (omega arith) recoders_later)
      step (unregisters_topic k) =
          state _ s.recoders (remove-IsSorted k s.decoders v.decoders_sorted) v.recoders_sorted
            (remove-All _ k s.decoders decoders_later) recoders_later
      step (unregisters_relay k) =
          state s.decoders _ v.decoders_sorted (remove-IsSorted k s.recoders v.recoders_sorted)
            decoders_later (remove-All _ k s.recoders recoders_later)
      step (evicts_topics n) =
          state _ s.recoders (filter-IsSorted _ s.decoders v.decoders_sorted) v.recoders_sorted
            (All-filter _ _ s.decoders decoders_later) recoders_later
      step (evicts_relays n) =
          state s.decoders _ v.decoders_sorted (filter-IsSorted _ s.recoders v.recoders_sorted)
            decoders_later (All-filter _ _ s.recoders recoders_later)

  -- A topic that was just registered has its commitment and a fresh decoder, and survives any sweep
  -- that follows at once, as long as the tick does not wrap; every other topic, and every relay, is as
  -- it was before the registration.
  pub evict-register_topic :
      (topic j : Topic) (n l max_idle_ticks : ℕ) (c : C) (s : PubsubState D R C)
      → IsState s
      → s.tick + 1 < 2 ^ 64
      → (BTreeMap.get topic
            (evict_idle_topics max_idle_ticks
              (register_topic new_decoder new_recoder topic n l c s)).0.decoders
          ≡ some (record { state = new_decoder n l; commitment = c; last_activity = s.tick + 1 }))
        × (BTreeMap.get j (register_topic new_decoder new_recoder topic n l c s).decoders ≡ (
            if key_eq j topic
            then some
                (record { state = new_decoder n l; commitment = c; last_activity = s.tick + 1 })
            else BTreeMap.get j s.decoders))
        × ((register_topic new_decoder new_recoder topic n l c s).recoders ≡ s.recoders)
  unfolding register_topic evict_idle_topics
  evict-register_topic topic j n l m c s v h =
      let next = wrapping_suc_lem s.tick h in
      let entry : DecoderEntry D C = record {
        state = new_decoder n l;
        commitment = c;
        last_activity = s.tick + 1;
      } in
      let survives : leb (s.tick + 1 - m) (s.tick + 1) ≡ true = ground arith in
      rw next (
        get-filter topic (λ (e : DecoderEntry D C). leb (s.tick + 1 - m) e.last_activity) _
              (insert-IsSorted topic entry s.decoders v.decoders_sorted)
            ∙ rw (get-insert topic topic entry s.decoders, key_eq_refl topic) (rw survives refl),
        get-insert j topic entry s.decoders,
        refl,
      )
