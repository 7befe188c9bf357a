-- ===== src/First/Tracker/Fills.antt =====
-- What a fill does to the row of its signal.
use upstox_gtt.Common.{
  ℕ, ℤ, ◌≡◌, ◌⊎◌, Bool, true, false, Option, none, some, List, [], ◌∷◌, String, str_eq, refl, sym,
  ap, subst, ◌∙◌, if◌then◌else◌, if_elim,
}
use upstox_gtt.First.Store.{
  Row, OrderPayload, Trade, Tables, insert_price_event, insert_order_update, record_upstox_event,
}
use upstox_gtt.First.Store.Signals.{
  set_entry, set_exit, update_signal_entry_executed, update_signal_exit_executed,
}
use upstox_gtt.First.Store.Orders.{
  get_signal, get_signal_by_order_id, get_signal_strategy_by_order_id, replace_trade_executions,
}
use upstox_gtt.First.Store.Rows.{get_signal-update}
use upstox_gtt.First.Tracker.{
  Api, is_resolved, exit_reason, apply_entry_fill, apply_exit_fill, compute_exit_pnl, final_price,
  latest, store_trades, insert_order_updates, sync_order_from_api, is_fill_event, sync_fill,
  entity_id, is_rejected_or_cancelled,
}
use upstox_gtt.First.Tracker.Updates.{handle_order_update, known_order, id_of, order_issue}

-- A leg by which a position is closed.
abbrev pub IsExit : String → Type 0
IsExit s = (s ≡ "TARGET") ⊎ (s ≡ "STOPLOSS")

apply_entry_fill-row :
    (now id : ℕ) (r : Row) (price : ℤ) (t : Tables)
    → str_eq r.status "ACTIVE" ≡ false
    → get_signal id t ≡ some r
    → get_signal id (apply_entry_fill now id r (some price) t) ≡ some (set_entry now price r)
unfolding apply_entry_fill update_signal_entry_executed insert_price_event get_signal
apply_entry_fill-row now id r price t idle there =
    rw idle (unfold get_signal in get_signal-update id (set_entry now price) r t (λ x. refl) there)

module _ (rounds_up : ℤ → Bool) where
  apply_exit_fill-row :
      (now id : ℕ) (r : Row) (strategy : String) (price : ℤ) (t : Tables)
      → is_resolved r.status ≡ false
      → get_signal id t ≡ some r
      → get_signal id (apply_exit_fill rounds_up now id r strategy (some price) t)
        ≡ some (set_exit now price (compute_exit_pnl rounds_up r price) (exit_reason strategy) r)
  unfolding apply_exit_fill update_signal_exit_executed insert_price_event get_signal
  apply_exit_fill-row now id r strategy price t open_ there = rw open_ (
      get_signal-update id
        (set_exit now price (compute_exit_pnl rounds_up r price) (exit_reason strategy)) r t
        (λ x. refl) there)

  exit_reason-resolved : (strategy : String) → is_resolved (exit_reason strategy) ≡ true
  exit_reason-resolved strategy =
      if_elim (λ s. is_resolved s ≡ true) (str_eq strategy "TARGET") (λ _. refl) (λ _. refl)

  -- Exit fills of a signal one after another: each reads the row as it then is.
  unfoldable pub exit_fills : ℕ → List (ℕ × String × Option ℤ) → Tables → Tables
  exit_fills id [] t = t
  exit_fills id ((now, strategy, price) ∷ fills) t = exit_fills id fills (elim (get_signal id t) [
    | none ↦ t
    | some r ↦ apply_exit_fill rounds_up now id r strategy price t
  ])

  resolved_same :
      (now id : ℕ) (r : Row) (strategy : String) (price : Option ℤ) (t : Tables)
      → is_resolved r.status ≡ true
      → apply_exit_fill rounds_up now id r strategy price t ≡ t
  unfolding apply_exit_fill
  resolved_same now id r strategy none t done = refl
  resolved_same now id r strategy (some p) t done = rw done refl

  exit_fills_same :
      (id : ℕ) (r : Row) (fills : List (ℕ × String × Option ℤ)) (t : Tables)
      → get_signal id t ≡ some r
      → is_resolved r.status ≡ true
      → exit_fills id fills t ≡ t
  unfolding exit_fills
  exit_fills_same id r [] t there done = refl
  exit_fills_same id r ((now, strategy, price) ∷ fills) t there done = rw there (
      ap (exit_fills id fills) (resolved_same now id r strategy price t done)
      ∙ exit_fills_same id r fills t there done)

  -- The first fill of an exit leg of a signal that is not resolved sets the price, the profit and the status
  -- of its row; the exit fills that follow, however many and of whatever legs and prices, leave the
  -- tables as they are, as long as no other message is handled in between.
  pub exit_fill_once :
      (now id : ℕ) (r : Row) (strategy : String) (price : ℤ) (later : List (ℕ × String × Option ℤ))
      (t : Tables)
      → is_resolved r.status ≡ false
      → get_signal id t ≡ some r
      → let t' = apply_exit_fill rounds_up now id r strategy (some price) t in
        let r' = set_exit now price (compute_exit_pnl rounds_up r price) (exit_reason strategy) r in
        (get_signal id t' ≡ some r') × (exit_fills id later t' ≡ t')
  exit_fill_once now id r strategy price later t open_ there =
      let row = apply_exit_fill-row now id r strategy price t open_ there in
      (
        row,
        exit_fills_same id
            (set_exit now price (compute_exit_pnl rounds_up r price) (exit_reason strategy) r) later
            (apply_exit_fill rounds_up now id r strategy (some price) t) row
            (exit_reason-resolved strategy),
      )

  insert_order_updates-signal :
      (id i : ℕ) (strategy : String) (ps : List OrderPayload) (t : Tables)
      → get_signal id (insert_order_updates i strategy ps t) ≡ get_signal id t
  unfolding insert_order_updates insert_order_update get_signal
  insert_order_updates-signal id i strategy [] t = refl
  insert_order_updates-signal id i strategy (p ∷ ps) t =
      insert_order_updates-signal id i strategy ps _

  store_trades-signal :
      (id : ℕ) (i : Option ℕ) (order : String) (trades : List Trade) (t : Tables)
      → get_signal id (store_trades rounds_up i order trades t) ≡ get_signal id t
  unfolding replace_trade_executions get_signal
  store_trades-signal id i order [] t = refl
  store_trades-signal id i order (x ∷ xs) t = refl

  -- An order of the entry leg that is read from the API with a price makes its signal ACTIVE with that
  -- price, also one that is not filled, or a signal that is resolved: only a signal that is ACTIVE
  -- already is left alone.
  pub sync_order_from_api_activates :
      (now id : ℕ) (api : Api) (order : String) (r : Row) (price : ℤ) (t : Tables)
      → get_signal id t ≡ some r
      → str_eq r.status "ACTIVE" ≡ false
      → final_price rounds_up (latest rounds_up order (api.history order)) (api.trades order)
        ≡ some price
      → get_signal id (sync_order_from_api rounds_up now api id order "ENTRY" t)
        ≡ some (set_entry now price r)
  unfolding sync_order_from_api
  sync_order_from_api_activates now id api order r price t there idle priced =
      let t1 =
        insert_order_updates id "ENTRY" (api.history order)
          (store_trades rounds_up (some id) order (api.trades order) t) in
      let same : get_signal id t1 ≡ some r =
        insert_order_updates-signal id id "ENTRY" (api.history order) _
        ∙ store_trades-signal id (some id) order (api.trades order) t
        ∙ there in
      subst
        (λ o.
          get_signal id (
            sync_fill rounds_up now id "ENTRY" (latest rounds_up order (api.history order))
              (api.trades order) o t1)
          ≡ some (set_entry now price r))
        (sym same)
        (subst (λ q. get_signal id (apply_entry_fill now id r q t1) ≡ some (set_entry now price r))
          (sym priced) (apply_entry_fill-row now id r price t1 idle same))

  order_tables-signal :
      (id : ℕ) (i j : Option ℕ) (strategy entity : Option String) (order : String)
      (p : OrderPayload) (trades : List Trade) (t : Tables)
      → get_signal id (
          store_trades rounds_up i order trades
            (insert_order_update j strategy p (record_upstox_event j "order" entity t)))
        ≡ get_signal id t
  unfolding insert_order_update record_upstox_event get_signal
  order_tables-signal id i j strategy entity order p trades t =
      store_trades-signal id i order trades
        (insert_order_update j strategy p (record_upstox_event j "order" entity t))

  -- A message that an order is filled, for the order of the entry leg, makes its signal ACTIVE with the price
  -- of the fill whatever it has come to since: also a signal that its target or its stoploss has
  -- closed, whose profit and price of exit stay in its row.
  pub handle_order_update_reopens :
      (now : ℕ) (api : Api) (p : OrderPayload) (r : Row) (price : ℤ) (t : Tables)
      → get_signal_by_order_id p.order_id t ≡ some r
      → get_signal_strategy_by_order_id p.order_id t ≡ some "ENTRY"
      → get_signal r.id t ≡ some r
      → is_fill_event p ≡ true
      → str_eq r.status "ACTIVE" ≡ false
      → final_price rounds_up p (api.trades p.order_id) ≡ some price
      → get_signal r.id (handle_order_update rounds_up now api p t) ≡ some (set_entry now price r)
  unfolding handle_order_update
  handle_order_update_reopens now api p r price t found entry there fill idle priced =
      let trades = api.trades p.order_id in
      let logged : Option Row → Option String → Tables = λ o s.
        insert_order_update (id_of rounds_up o) s p (
          record_upstox_event (id_of rounds_up o) "order" (entity_id p.order_id p.instrument_key)
            t) in
      let t2 =
        store_trades rounds_up (some r.id) p.order_id trades (logged (some r) (some "ENTRY")) in
      let done = apply_entry_fill-row now r.id r price t2 idle (
        order_tables-signal r.id (some r.id) (some r.id) (some "ENTRY") _ p.order_id p trades t
        ∙ there) in
      subst
        (λ o.
          get_signal r.id (
            known_order rounds_up now p trades o (get_signal_strategy_by_order_id p.order_id t)
              (logged o (get_signal_strategy_by_order_id p.order_id t)))
          ≡ some (set_entry now price r))
        (sym found)
        (subst
          (λ s.
            get_signal r.id (known_order rounds_up now p trades (some r) s (logged (some r) s))
            ≡ some (set_entry now price r))
          (sym entry)
          (subst
            (λ b.
              get_signal r.id (
                if b
                then apply_entry_fill now r.id r (final_price rounds_up p trades) t2
                else (if is_rejected_or_cancelled p
                    then order_issue rounds_up now r.id "ENTRY" p t2
                    else t2))
              ≡ some (set_entry now price r))
            (sym fill)
            (subst
              (λ q.
                get_signal r.id (apply_entry_fill now r.id r q t2) ≡ some (set_entry now price r))
              (sym priced) done)))
