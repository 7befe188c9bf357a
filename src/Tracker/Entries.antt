-- ===== src/Tracker/Entries.antt =====
-- Entry fills, and the exits that follow them.
use upstox_gtt.Common.{
  ◌*ℤ◌, ◌-ℤ◌, ℕ, ℤ, ◌≡◌, true, false, none, some, refl, arith, truthy_ℤ, if◌then◌else◌, ap, ◌∙◌,
  sym,
}
use upstox_gtt.Signal.{Action, active, target1_hit}
use upstox_gtt.Database.{SignalRow}
use upstox_gtt.Database.Signals.{
  is_pending, has_id, update_rows, update_signal_status, get_signal, set_status, set_pnl,
}
use upstox_gtt.Database.Signals.Lifecycle.{get_signal-update_rows}
use upstox_gtt.Rules.PnlGuard.{Limits, record_pnl}
use upstox_gtt.Tracker.{Tracker}
use upstox_gtt.Tracker.Fill.{
  FillData, is_entry, already_applied, is_target_hit, is_stoploss_hit, set_entry, pnl_of,
  exit_status, apply_entry, apply_exit, apply_fill, entry_of,
}
use upstox_gtt.Tracker.Booking.{exited, apply_exit-row, apply_fill-exit, apply_fill-applied}

-- The row after an entry.
abbrev pub entered : ℕ → FillData → SignalRow → SignalRow
entered now f r = set_status now active none none none (set_entry now f.price r)

-- An entry that has not been applied yet, away from the target and the stoploss.
apply_fill-entry :
    (lim : Limits) (now : ℕ) (f : FillData) (r : SignalRow) (s : Tracker)
    → get_signal f.signal_id s.tables ≡ some r
    → is_entry f.strategy ≡ true
    → already_applied f.strategy (some r) ≡ false
    → is_target_hit f.price (some r) ≡ false
    → is_stoploss_hit f.price (some r) ≡ false
    → apply_fill lim now f s ≡ apply_entry lim now f s
apply_fill-entry lim now f r s there into fresh below above =
    let row = get_signal f.signal_id s.tables in
    let unapplied : already_applied f.strategy row ≡ false =
      ap (already_applied f.strategy) there ∙ fresh in
    let low : is_target_hit f.price row ≡ false = ap (is_target_hit f.price) there ∙ below in
    let high : is_stoploss_hit f.price row ≡ false = ap (is_stoploss_hit f.price) there ∙ above in
    unfold apply_fill in rw (unapplied, into, low, high) refl

apply_entry-row :
    (lim : Limits) (now : ℕ) (f : FillData) (r : SignalRow) (s : Tracker)
    → get_signal f.signal_id s.tables ≡ some r
    → get_signal f.signal_id (apply_entry lim now f s).tables ≡ some (entered now f r)
unfolding update_signal_status
apply_entry-row lim now f r s there =
    get_signal-update_rows f.signal_id (set_status now active none none none)
      (set_entry now f.price r) (update_rows (has_id f.signal_id) (set_entry now f.price) s.tables)
      (λ x. unfold set_status in refl)
      (get_signal-update_rows f.signal_id (set_entry now f.price) r s.tables (λ x. refl) there)

-- An entry fill of a PENDING signal, away from its target and stoploss and not at zero, makes it
-- ACTIVE and books nothing; the fill of an exit leg that follows books the difference of the two
-- prices times the quantity, for a SELL the other way round, in the row and, unless it is zero, on
-- the day.
pub entry_then_exit :
    (lim : Limits) (now later qty : ℕ) (f g : FillData) (r : SignalRow) (s : Tracker)
    → get_signal f.signal_id s.tables ≡ some r
    → is_pending r.status ≡ true
    → is_entry f.strategy ≡ true
    → is_target_hit f.price (some r) ≡ false
    → is_stoploss_hit f.price (some r) ≡ false
    → truthy_ℤ f.price ≡ true
    → g.signal_id ≡ f.signal_id
    → is_entry g.strategy ≡ false
    → g.quantity ≡ some qty
    → let s1 = apply_fill lim now f s in
      let s2 = apply_fill lim later g s1 in
      let pnl = pnl_of r.inserted.action f.price g.price qty in
      (get_signal f.signal_id s1.tables ≡ some (entered now f r))
      × (s1.ledger ≡ s.ledger)
      × (get_signal f.signal_id s2.tables ≡ some (exited later g qty (entered now f r)))
      × (s2.ledger ≡ (if truthy_ℤ pnl then record_pnl lim later pnl s.ledger else s.ledger))
unfolding set_status
entry_then_exit lim now later qty f g r s there waiting into below above price same out quantity =
    let first =
      apply_fill-entry lim now f r s there into (unfold already_applied in rw (into, waiting) refl)
        below above in
    let s1 = apply_fill lim now f s in
    let row =
      ap (λ (x : Tracker). get_signal f.signal_id x.tables) first
      ∙ apply_entry-row lim now f r s there in
    let there1 : get_signal g.signal_id s1.tables ≡ some (entered now f r) =
      ap (λ id. get_signal id s1.tables) same ∙ row in
    let second =
      apply_fill-exit lim later qty g (entered now f r) s1 there1 out quantity
        (unfold already_applied in rw out (ground arith)) in
    (
      row,
      ap (λ (x : Tracker). x.ledger) first,
      ap (λ id. get_signal id (apply_fill lim later g s1).tables) (sym same)
          ∙ ap (λ (x : Tracker). get_signal g.signal_id x.tables) second
          ∙ apply_exit-row lim later qty g (entered now f r) s1 there1,
      ap (λ (x : Tracker). x.ledger) second
          ∙ (let pnl = pnl_of r.inserted.action f.price g.price qty in
              rw price (
                ap (λ l. if truthy_ℤ pnl then record_pnl lim later pnl l else l)
                  (ap (λ (x : Tracker). x.ledger) first))),
    )

pnl_of_same : (a : Action) (p : ℤ) (qty : ℕ) → truthy_ℤ (pnl_of a p p qty) ≡ false
unfolding pnl_of ◌*ℤ◌ ◌-ℤ◌
pnl_of_same a p qty = ground arith

-- An entry fill of a PENDING signal that is at the target or beyond it is taken for the exit: nothing
-- is booked, the status is TARGET1_HIT, and no fill of an exit leg that follows books anything or
-- changes a row.
pub gap_entry_books_nothing :
    (lim : Limits) (now later qty : ℕ) (f g : FillData) (r : SignalRow) (s : Tracker)
    → get_signal f.signal_id s.tables ≡ some r
    → is_pending r.status ≡ true
    → entry_of (some r) ≡ none
    → is_entry f.strategy ≡ true
    → f.quantity ≡ some qty
    → is_target_hit f.price (some r) ≡ true
    → truthy_ℤ f.price ≡ true
    → g.signal_id ≡ f.signal_id
    → is_entry g.strategy ≡ false
    → let s1 = apply_fill lim now f s in
      (s1.ledger ≡ s.ledger)
      × (get_signal f.signal_id s1.tables ≡ some (exited now f qty r))
      × ((exited now f qty r).status ≡ target1_hit)
      × (apply_fill lim later g s1 ≡ s1)
gap_entry_books_nothing lim now later qty f g r s there waiting unfilled into quantity hit price
      same out =
    let row0 = get_signal f.signal_id s.tables in
    let fresh : already_applied f.strategy row0 ≡ false =
      ap (already_applied f.strategy) there ∙ (unfold already_applied in rw (into, waiting) refl) in
    let hit0 : is_target_hit f.price row0 ≡ true = ap (is_target_hit f.price) there ∙ hit in
    let step : apply_fill lim now f s ≡ apply_exit lim now f qty row0 s =
      unfold apply_fill in rw (fresh, into, hit0, quantity) refl in
    let first = step ∙ ap (λ o. apply_exit lim now f qty o s) there in
    let row =
      ap (λ (x : Tracker). get_signal f.signal_id x.tables) first
      ∙ apply_exit-row lim now qty f r s there in
    let reached : (exited now f qty r).status ≡ target1_hit =
      unfold set_status exit_status in rw hit refl in
    (
      ap (λ (x : Tracker). x.ledger) first
          ∙ rw unfilled (rw (pnl_of_same r.inserted.action f.price qty) refl),
      row,
      reached,
      apply_fill-applied lim later g (apply_fill lim now f s) (
          ap (λ id. already_applied g.strategy (get_signal id (apply_fill lim now f s).tables)) same
          ∙ ap (already_applied g.strategy) row
          ∙ (unfold already_applied set_status set_pnl exit_status in rw (out, price, hit) refl)),
    )
