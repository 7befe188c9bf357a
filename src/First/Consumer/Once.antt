-- ===== src/First/Consumer/Once.antt =====
-- At most one order for a message.
use upstox_gtt.Common.{
  ℕ, zero, suc, ◌≤◌, ◌==◌, ◌≡◌, inl, inr, Bool, false, ◌&&◌, Option, none, some, List, [], ◌∷◌,
  refl, ap, ◌∙◌, arith, if◌then◌else◌, Bool-cases,
}
use upstox_gtt.First.Signals.{Signal, parse_message_to_signal}
use upstox_gtt.First.Orders.{Payload}
use upstox_gtt.First.Consumer.{
  Config, Delivery, Consumer, has_id, scored, track, handle_new, handle, handle_all,
}

-- How often a message was placed.
unfoldable pub placed_count : ℕ → List (ℕ × List Payload) → ℕ
placed_count id [] = 0
placed_count id ((i, posts) ∷ l) =
    let rest = placed_count id l in if i == id then suc rest else rest

-- A message was placed at most once, and not at all before it was remembered.
abbrev pub Once : ℕ → Bool → Consumer → Type 0
Once id known c = placed_count id c.placements ≤ (if known then 1 else 0)

track-placements :
    (n id now : ℕ) (c : Consumer)
    → ((track n id now c).placements ≡ c.placements)
      × ((track n id now c).processed_ids ≡ c.processed_ids)
unfolding track
track-placements zero id now c = (refl, refl)
track-placements (suc zero) id now c = (refl, refl)
track-placements (suc (suc zero)) id now c = (refl, refl)
track-placements (suc (suc (suc n))) id now c = (refl, refl)

module _ (cfg : Config) where
  handle_new-placements :
      (id : ℕ) (d : Delivery) (s : Option Signal) (c : Consumer)
      → (placed_count id (handle_new cfg d s c).placements ≤ (
          if d.id == id then suc (placed_count id c.placements) else placed_count id c.placements))
        × ((handle_new cfg d s c).processed_ids ≡ c.processed_ids)
  unfolding placed_count
  handle_new-placements id d none c = (ground arith, refl)
  handle_new-placements id d (some s) c =
      let (same, kept) = track-placements d.tracked d.id d.now _ in (rw same (ground arith), kept)

  handle-Once :
      (id : ℕ) (d : Delivery) (c : Consumer)
      → Once id (has_id id c.processed_ids) c
      → Once id (has_id id (handle cfg d c).processed_ids) (handle cfg d c)
  unfolding handle
  handle-Once id d c once = elim (Bool-cases (has_id d.id c.processed_ids)) [
    | inl seen ↦ rw seen once
    | inr fresh ↦ elim (Bool-cases (d.zscore_ok && scored d.id c.zset)) [
      | inl stored ↦ rw (fresh, stored) once
      | inr new ↦
          let c1 = record c { processed_ids = d.id ∷ c.processed_ids } in
          let s =
            parse_message_to_signal cfg.to_float cfg.default_quantity cfg.delimiter cfg.strict
              d.fields in
          let (more, kept) = handle_new-placements id d s c1 in
          rw (fresh, new)
            (rw kept (elim (Bool-cases (d.id == id)) [
              | inl same ↦
                  let eq : has_id id c.processed_ids ≡ false =
                    ap (λ i. has_id i c.processed_ids) (ground (arith, same)) ∙ fresh in
                  ground (arith, same, eq, more, once)
              | inr other ↦ ground (arith, other, more, once)
            ]))
    ]
  ]

  handle_all-Once :
      (id : ℕ) (ds : List Delivery) (c : Consumer)
      → Once id (has_id id c.processed_ids) c
      → Once id (has_id id (handle_all cfg ds c).processed_ids) (handle_all cfg ds c)
  unfolding handle_all
  handle_all-Once id [] c once = once
  handle_all-Once id (d ∷ ds) c once =
      handle_all-Once id ds (handle cfg d c) (handle-Once id d c once)

  -- In one run of the consumer, however often a message is delivered, and whatever Redis and the network do,
  -- it is placed at most once.
  pub handle_all_once :
      (id : ℕ) (ds : List Delivery) (c : Consumer)
      → c.placements ≡ []
      → placed_count id (handle_all cfg ds c).placements ≤ 1
  handle_all_once id ds c none_placed =
      ground (arith, handle_all-Once id ds c (unfold placed_count in ground (arith, none_placed)))
