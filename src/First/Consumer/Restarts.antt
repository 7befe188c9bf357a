-- ===== src/First/Consumer/Restarts.antt =====
-- The set of processed ids across restarts.
use upstox_gtt.Common.{
  ℕ, zero, suc, ◌+◌, ◌≤◌, ◌==◌, ◌≡◌, inl, inr, true, false, not, ◌&&◌, ◌||◌, Option, none, some,
  List, [], ◌∷◌, String, refl, ap, ◌∙◌, arith, if_elim, ltb, length, Bool-cases,
}
use upstox_gtt.First.Signals.{Signal, parse_message_to_signal}
use upstox_gtt.First.Instruments.{InstrumentCache}
use upstox_gtt.First.Orders.{place_gtt_order}
use upstox_gtt.First.Consumer.{
  Config, Delivery, Consumer, has_id, scored, without, insert_ranked, zadd, trim,
  processed_zset_max, track, skip, placed_state, handle_new, handle, restart,
}
use upstox_gtt.First.Consumer.Once.{placed_count, Once}

scored-without :
    (id i : ℕ) (l : List (ℕ × ℕ)) → scored id (without i l) ≡ (scored id l && not (i == id))
scored-without id i [] = refl
scored-without id i (x ∷ l) = ground (arith, scored-without id i l)

scored-insert_ranked :
    (id : ℕ) (x : ℕ × ℕ) (l : List (ℕ × ℕ))
    → scored id (insert_ranked x l) ≡ (x.0 == id || scored id l)
unfolding insert_ranked
scored-insert_ranked id x [] = refl
scored-insert_ranked id (i, s) ((j, t) ∷ l) =
    if_elim (λ (r : List (ℕ × ℕ)). scored id r ≡ (i == id || scored id ((j, t) ∷ l)))
      (ltb t s || (t == s && ltb j i)) (λ behind. ground (arith, scored-insert_ranked id (i, s) l))
      (λ before. refl)

scored-zadd :
    (id i now : ℕ) (l : List (ℕ × ℕ)) → scored id (zadd i now l) ≡ (i == id || scored id l)
unfolding zadd
scored-zadd id i now l =
    scored-insert_ranked id (i, now) (without i l) ∙ ground (arith, scored-without id i l)

length-without : (i : ℕ) (l : List (ℕ × ℕ)) → length (without i l) ≤ length l
length-without i [] = omega arith
length-without i (x ∷ l) = ground (arith, length-without i l)

length-insert_ranked : (x : ℕ × ℕ) (l : List (ℕ × ℕ)) → length (insert_ranked x l) ≡ suc (length l)
unfolding insert_ranked
length-insert_ranked x [] = refl
length-insert_ranked (i, s) ((j, t) ∷ l) =
    if_elim (λ (r : List (ℕ × ℕ)). length r ≡ suc (suc (length l))) (ltb t s || (t == s && ltb j i))
      (λ behind. ap suc (length-insert_ranked (i, s) l)) (λ before. refl)

length-zadd : (i now : ℕ) (l : List (ℕ × ℕ)) → length (zadd i now l) ≤ suc (length l)
unfolding zadd
length-zadd i now l = omega (arith, length-insert_ranked (i, now) (without i l), length-without i l)

trim_small : (l : List (ℕ × ℕ)) → length l ≤ processed_zset_max → trim l ≡ l
unfolding trim
trim_small l h = ground arith

-- Redis answers, and at least the `ZADD` of the tracking succeeds.
abbrev pub IsReliable : Delivery → Type 0
IsReliable d = (d.zscore_ok ≡ true) × (1 ≤ d.tracked)

track-zset :
    (n id now : ℕ) (c : Consumer)
    → 1 ≤ n
    → length c.zset + 1 ≤ processed_zset_max
    → ((track n id now c).zset ≡ zadd id now c.zset)
      × ((track n id now c).placements ≡ c.placements)
unfolding track
track-zset zero id now c h k = absurd (omega arith)
track-zset (suc zero) id now c h k = (refl, refl)
track-zset (suc (suc zero)) id now c h k = (refl, refl)
track-zset (suc (suc (suc n))) id now c h k =
    (trim_small (zadd id now c.zset) (omega (arith, length-zadd id now c.zset)), refl)

-- The set has grown by one member at most, and a message was placed at most once, and not at all while it
-- is not in the set.
abbrev pub Tracked : ℕ → Consumer → Consumer → Type 0
Tracked id c c' = Once id (scored id c'.zset) c' × (length c'.zset ≤ length c.zset + 1)

module _ (cfg : Config) where
  handle_new-Tracked :
      (id : ℕ) (d : Delivery) (s : Option Signal) (c : Consumer)
      → 1 ≤ d.tracked
      → length c.zset + 1 ≤ processed_zset_max
      → scored d.id c.zset ≡ false
      → Once id (scored id c.zset) c
      → Tracked id c (handle_new cfg d s c)
  unfolding placed_count
  handle_new-Tracked id d none c h k free once = (once, omega arith)
  handle_new-Tracked id d (some s) c h k free once =
      let c1 =
        skip cfg d.id (placed_state cfg d s (place_gtt_order cfg.surroundings d.net s c.cache) c) in
      let (set, same) = track-zset d.tracked d.id d.now c1 h k in
      rw (set, same)
        (
          elim (Bool-cases (d.id == id)) [
            | inl here ↦
                let eq : scored id c.zset ≡ false =
                  ap (λ i. scored i c.zset) (ground (arith, here)) ∙ free in
                ground (arith, scored-zadd id d.id d.now c.zset, here, eq, once)
            | inr other ↦ ground (arith, scored-zadd id d.id d.now c.zset, other, once)
          ],
          omega (arith, length-zadd d.id d.now c.zset),
        )

  handle-Tracked :
      (id : ℕ) (d : Delivery) (c : Consumer)
      → IsReliable d
      → length c.zset + 1 ≤ processed_zset_max
      → Once id (scored id c.zset) c
      → Tracked id c (handle cfg d c)
  unfolding handle
  handle-Tracked id d c (up, tracked) room once = elim (Bool-cases (has_id d.id c.processed_ids)) [
    | inl seen ↦ rw seen (once, omega arith)
    | inr fresh ↦ elim (Bool-cases (scored d.id c.zset)) [
      | inl stored ↦
          let both : (d.zscore_ok && scored d.id c.zset) ≡ true = ground (arith, up, stored) in
          rw (fresh, both) (once, omega arith)
      | inr free ↦
          let neither : (d.zscore_ok && scored d.id c.zset) ≡ false = ground (arith, up, free) in
          rw (fresh, neither)
            (handle_new-Tracked id d
              (parse_message_to_signal cfg.to_float cfg.default_quantity cfg.delimiter cfg.strict
                d.fields)
              (record c { processed_ids = d.id ∷ c.processed_ids }) tracked room free once)
    ]
  ]

  -- A message, or a new start of the consumer with a policy and a cache of instruments.
  pub data Event : Type 0 where
    message : Delivery → Event
    start : String → InstrumentCache → Event

  unfoldable pub run_events : List Event → Consumer → Consumer
  run_events [] c = c
  run_events (message d ∷ es) c = run_events es (handle cfg d c)
  run_events (start policy cache ∷ es) c = run_events es (restart cfg policy cache c)

  abbrev pub AllReliable : List Event → Type 0
  AllReliable [] = Unit
  AllReliable (message d ∷ es) = IsReliable d × AllReliable es
  AllReliable (start policy cache ∷ es) = AllReliable es

  run_events-Once :
      (id : ℕ) (es : List Event) (c : Consumer)
      → AllReliable es
      → length c.zset + length es ≤ processed_zset_max
      → Once id (scored id c.zset) c
      → Once id (scored id (run_events es c).zset) (run_events es c)
  unfolding run_events restart
  run_events-Once id [] c ok room once = once
  run_events-Once id (message d ∷ es) c (ok, oks) room once =
      let (once', grown) = handle-Tracked id d c ok (omega arith) once in
      run_events-Once id es (handle cfg d c) oks (omega arith) once'
  run_events-Once id (start policy cache ∷ es) c ok room once =
      run_events-Once id es (restart cfg policy cache c) ok (omega arith) once

  -- Across any restarts between messages, and whatever is delivered again after them, a message is placed at
  -- most once, as long as Redis answers the look-up and takes the id of each message that was placed,
  -- and the set of processed ids does not outgrow its limit.
  pub run_events_once :
      (id : ℕ) (es : List Event) (c : Consumer)
      → c.placements ≡ []
      → AllReliable es
      → length c.zset + length es ≤ processed_zset_max
      → placed_count id (run_events es c).placements ≤ 1
  run_events_once id es c none_placed ok room =
      ground (
        arith,
        run_events-Once id es c ok room (unfold placed_count in ground (arith, none_placed)),
      )
