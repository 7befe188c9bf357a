-- ===== src/Engine/Safety/Gates.antt =====
-- The gates of `process_signal` before the row is inserted: what has been passed when a GTT is sent.
use upstox_gtt.Common.{
  ℤ, ◌≡◌, ◌⊎◌, inl, inr, Bool, true, false, none, some, List, [], ◌∷◌, refl, if_elim, option_elim,
}
use upstox_gtt.Signal.{RawSignal, AdjustedSignal}
use upstox_gtt.Rules.Buffer.{apply_buffer}
use upstox_gtt.Rules.TradeType.{detect_trade_type, with_trade_type}
use upstox_gtt.Rules.Timing.{check}
use upstox_gtt.Rules.MissedEntry.{check_missed_entry}
use upstox_gtt.Rules.PnlGuard.{allow}
use upstox_gtt.Instruments.{Instrument, resolve}
use upstox_gtt.GttBuilder.{resolve_lot_size}
use upstox_gtt.Engine.State.{Settings, Surroundings, Engine, Verdict}
use upstox_gtt.Engine.Process.{block_signal, rr_too_low}
use upstox_gtt.Engine.Stages.{
  instrument_index, with_instrument, adj_with_instrument, guard_entry, find_instrument, check_rr,
  check_targets, check_pnl, check_timing,
}
use upstox_gtt.Engine.Safety.{SentOne, SentNone, Sends, after_row, PassedInsert, insert_row-Sends}

module _ (cfg : Settings) (env : Surroundings) where
  -- Those, and a first target that has not been reached, for the instrument `i`.
  abbrev pub PassedEntry : RawSignal → AdjustedSignal → Engine → Instrument → Type 0
  PassedEntry s adj e i =
      let s1 = with_instrument s i.instrument_key in
      let adj1 = adj_with_instrument adj i.instrument_key in
      (check_missed_entry env.now adj1 e.prices ≡ none) × PassedInsert cfg env s1 adj1 e

  abbrev pub SendsFor :
      Type 0 → RawSignal → AdjustedSignal → Instrument → Engine → Verdict × Engine → Type 0
  SendsFor F s adj i e =
      let s1 = with_instrument s i.instrument_key in
      let adj1 = adj_with_instrument adj i.instrument_key in
      Sends cfg env F s1 adj1 i.instrument_key (resolve_lot_size cfg.lots s.underlying i)
        (after_row env s1 adj1 e) e

  guard_entry_sends :
      (s : RawSignal) (adj : AdjustedSignal) (i : Instrument) (e : Engine)
      → SendsFor (PassedEntry s adj e i) s adj i e (guard_entry cfg env s adj i e)
  unfolding guard_entry block_signal
  guard_entry_sends s adj i e =
      let s1 = with_instrument s i.instrument_key in
      let adj1 = adj_with_instrument adj i.instrument_key in
      option_elim (SendsFor (PassedEntry s adj e i) s adj i e)
        (check_missed_entry env.now adj1 e.prices)
        (λ free.
          elim (insert_row-Sends cfg env i.instrument_key s1 adj1
            (resolve_lot_size cfg.lots s.underlying i) e) [
              | inl none_ ↦ inl none_
              | inr (facts, one) ↦ inr ((free, facts), one)
            ])
        (λ why missed. inl refl)

  -- Those, for the instrument that the signal's option resolves to.
  abbrev pub SendsSome : Type 0 → RawSignal → AdjustedSignal → Engine → Verdict × Engine → Type 0
  SendsSome F s adj e r =
      SentNone e r
      ⊎ (F
          × ((i : Instrument) × ((resolve (instrument_index s) e.cache).0 ≡ some i)
              × PassedEntry s adj e i
              × SentOne cfg env (with_instrument s i.instrument_key)
                  (adj_with_instrument adj i.instrument_key) i.instrument_key
                  (resolve_lot_size cfg.lots s.underlying i)
                  (after_row env (with_instrument s i.instrument_key)
                    (adj_with_instrument adj i.instrument_key) e)
                  e r))

  find_instrument_sends :
      (s : RawSignal) (adj : AdjustedSignal) (e : Engine)
      → SendsSome Unit s adj e (find_instrument cfg env s adj e)
  unfolding find_instrument
  find_instrument_sends s adj e =
      let (found, cache) = resolve (instrument_index s) e.cache in
      option_elim (SendsSome Unit s adj e) found (λ missing. unfold block_signal in inl refl)
        λ i e'. elim (guard_entry_sends s adj i (record e { cache = cache })) [
          | inl none_ ↦ inl none_
          | inr (facts, one) ↦ inr (tt, (i, e', facts, one))
        ]

  module _ (rounds_up : ℤ → Bool) where
    -- The signal with the trade type that the engine finds.
    abbrev pub typed : RawSignal → RawSignal
    typed s = with_trade_type s (detect_trade_type s)

    abbrev pub SendsTyped : Type 0 → RawSignal → Engine → Verdict × Engine → Type 0
    SendsTyped F s e r = SendsSome F (typed s) (apply_buffer rounds_up (typed s)) e r

    check_rr_sends :
        (s : RawSignal) (t1 : ℤ) (e : Engine)
        → SendsTyped (rr_too_low (typed s) t1 ≡ false) s e (check_rr cfg env rounds_up s t1 e)
    unfolding check_rr
    check_rr_sends s t1 e =
        if_elim (SendsTyped (rr_too_low (typed s) t1 ≡ false) s e) (rr_too_low (typed s) t1)
          (λ low. unfold block_signal in inl refl)
          λ good. elim (find_instrument_sends (typed s) (apply_buffer rounds_up (typed s)) e) [
            | inl none_ ↦ inl none_
            | inr (_, one) ↦ inr (good, one)
          ]

    -- A first target whose reward is at least twice the risk.
    abbrev pub PassedTargets : RawSignal → List ℤ → Type 0
    PassedTargets s ts =
        (t1 : ℤ) × (rest : List ℤ) × (ts ≡ t1 ∷ rest) × (rr_too_low (typed s) t1 ≡ false)

    check_targets_sends :
        (s : RawSignal) (ts : List ℤ) (e : Engine)
        → SendsTyped (PassedTargets s ts) s e (check_targets cfg env rounds_up s ts e)
    unfolding check_targets block_signal
    check_targets_sends s [] e = inl refl
    check_targets_sends s (t1 ∷ ts) e = elim (check_rr_sends s t1 e) [
      | inl none_ ↦ inl none_
      | inr (good, one) ↦ inr ((t1, ts, refl, good), one)
    ]

    abbrev pub PassedPnl : RawSignal → Engine → Type 0
    PassedPnl s e = ((allow cfg.limits env.now e.ledger).0 ≡ true) × PassedTargets s s.targets

    check_pnl_sends :
        (s : RawSignal) (e : Engine)
        → SendsTyped (PassedPnl s e) s e (check_pnl cfg env rounds_up s e)
    unfolding check_pnl
    check_pnl_sends s e =
        let (allowed, ledger) = allow cfg.limits env.now e.ledger in
        if_elim (SendsTyped (PassedPnl s e) s e) allowed
          (λ may. elim (check_targets_sends s s.targets (record e { ledger = ledger })) [
            | inl none_ ↦ inl none_
            | inr (targets, one) ↦ inr ((may, targets), one)
          ])
          (λ over. unfold block_signal in inl refl)

    -- The hours, the daily limit, the targets and the ratio.
    abbrev pub PassedRules : RawSignal → Engine → Type 0
    PassedRules s e =
        ((cfg.dry_run ≡ true) ⊎ (check env.now cfg.trader_profile ≡ none)) × PassedPnl s e

    pub check_timing_sends :
        (s : RawSignal) (e : Engine)
        → SendsTyped (PassedRules s e) s e (check_timing cfg env rounds_up s e)
    unfolding check_timing
    check_timing_sends s e =
        if_elim (SendsTyped (PassedRules s e) s e) cfg.dry_run
          (λ dry. elim (check_pnl_sends s e) [
            | inl none_ ↦ inl none_
            | inr (pnl, one) ↦ inr ((inl dry, pnl), one)
          ])
          λ live.
            option_elim (SendsTyped (PassedRules s e) s e) (check env.now cfg.trader_profile)
              (λ open_. elim (check_pnl_sends s e) [
                | inl none_ ↦ inl none_
                | inr (pnl, one) ↦ inr ((inr open_, pnl), one)
              ])
              (λ why closed_. unfold block_signal in inl refl)
