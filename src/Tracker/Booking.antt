-- ===== src/Tracker/Booking.antt =====
-- What the fills of a signal book.
use upstox_gtt.Common.{
  ℕ, ℤ, ◌≡◌, true, false, Option, none, some, refl, arith, truthy_ℤ, if◌then◌else◌, get_or, ap, ◌∙◌,
  List, [], ◌∷◌, All,
}
use upstox_gtt.Signal.{Strategy, entry, target, stoploss_leg, same_strategy}
use upstox_gtt.Database.{SignalRow}
use upstox_gtt.Database.Signals.{
  update_signal_status, update_signal_pnl, get_signal, set_status, set_pnl,
}
use upstox_gtt.Database.Signals.Lifecycle.{get_signal-update_rows}
use upstox_gtt.Rules.PnlGuard.{Limits, record_pnl}
use upstox_gtt.Tracker.{Tracker}
use upstox_gtt.Tracker.Fill.{
  FillData, is_entry, already_applied, pnl_of, exit_status, resolved_by_exit, apply_exit,
  apply_fill, entry_of,
}

-- The row after an exit.
abbrev pub exited : ℕ → FillData → ℕ → SignalRow → SignalRow
exited now f qty r =
    let e = get_or f.price (entry_of (some r)) in
    set_status now (exit_status f.strategy f.price (some r)) none none none
      (set_pnl now e f.price (pnl_of r.inserted.action e f.price qty) r)

pub apply_exit-row :
    (lim : Limits) (now qty : ℕ) (f : FillData) (r : SignalRow) (s : Tracker)
    → get_signal f.signal_id s.tables ≡ some r
    → get_signal f.signal_id (apply_exit lim now f qty (some r) s).tables
      ≡ some (exited now f qty r)
unfolding update_signal_status update_signal_pnl
apply_exit-row lim now qty f r s there =
    let e = get_or f.price (entry_of (some r)) in
    let pnl = pnl_of r.inserted.action e f.price qty in
    get_signal-update_rows f.signal_id
      (set_status now (exit_status f.strategy f.price (some r)) none none none)
      (set_pnl now e f.price pnl r) (update_signal_pnl now f.signal_id e f.price pnl s.tables)
      (λ x. unfold set_status in refl)
      (get_signal-update_rows f.signal_id (set_pnl now e f.price pnl) r s.tables
        (λ x. unfold set_pnl in refl) there)

exit_status-resolves :
    (s : Strategy) (fill : ℤ) (row : Option SignalRow)
    → is_entry s ≡ false
    → resolved_by_exit (exit_status s fill row) ≡ true
unfolding exit_status same_strategy
exit_status-resolves entry fill row h = ground arith
exit_status-resolves target fill row h = ground arith
exit_status-resolves stoploss_leg fill row h = ground arith

exited_applied :
    (now qty : ℕ) (f : FillData) (g : Strategy) (r : SignalRow)
    → is_entry f.strategy ≡ false
    → is_entry g ≡ false
    → truthy_ℤ f.price ≡ true
    → already_applied g (some (exited now f qty r)) ≡ true
unfolding already_applied set_status set_pnl
exited_applied now qty f g r exit again price =
    rw again (rw price (exit_status-resolves f.strategy f.price (some r) exit))

-- An exit that has not been applied yet, and a fill that has been.
pub apply_fill-exit :
    (lim : Limits) (now qty : ℕ) (f : FillData) (r : SignalRow) (s : Tracker)
    → get_signal f.signal_id s.tables ≡ some r
    → is_entry f.strategy ≡ false
    → f.quantity ≡ some qty
    → already_applied f.strategy (some r) ≡ false
    → apply_fill lim now f s ≡ apply_exit lim now f qty (some r) s
apply_fill-exit lim now qty f r s there exit quantity fresh =
    let row = get_signal f.signal_id s.tables in
    let unapplied : already_applied f.strategy row ≡ false =
      ap (already_applied f.strategy) there ∙ fresh in
    let step : apply_fill lim now f s ≡ apply_exit lim now f qty row s =
      unfold apply_fill in rw (unapplied, exit, quantity) refl in
    step ∙ ap (λ o. apply_exit lim now f qty o s) there

pub apply_fill-applied :
    (lim : Limits) (now : ℕ) (g : FillData) (s : Tracker)
    → already_applied g.strategy (get_signal g.signal_id s.tables) ≡ true
    → apply_fill lim now g s ≡ s
unfolding apply_fill
apply_fill-applied lim now g s applied = rw applied refl

-- Fills one after another, each with its instant.
unfoldable pub apply_fills : Limits → List (ℕ × FillData) → Tracker → Tracker
apply_fills lim [] s = s
apply_fills lim ((now, f) ∷ fills) s = apply_fills lim fills (apply_fill lim now f s)

-- An exit leg of a signal.
abbrev pub IsExitOf : ℕ → ℕ × FillData → Type 0
IsExitOf id (now, g) = (g.signal_id ≡ id) × (is_entry g.strategy ≡ false)

applied_again :
    (lim : Limits) (id : ℕ) (r : SignalRow) (s : Tracker) (fills : List (ℕ × FillData))
    → get_signal id s.tables ≡ some r
    → ((g : Strategy) → is_entry g ≡ false → already_applied g (some r) ≡ true)
    → All (IsExitOf id) fills
    → apply_fills lim fills s ≡ s
unfolding apply_fills
applied_again lim id r s [] there known exits = refl
applied_again lim id r s ((now, g) ∷ fills) there known ((same, exit), exits) =
    ap (apply_fills lim fills) (
      apply_fill-applied lim now g s (
        ap (λ i. already_applied g.strategy (get_signal i s.tables)) same
        ∙ ap (already_applied g.strategy) there
        ∙ known g.strategy exit))
    ∙ applied_again lim id r s fills there known exits

-- The first fill of an exit leg, at a price that is not zero, closes the signal: its row gets the exit
-- price, the profit and the final status, and the profit is booked on the day unless it is zero.
-- The fills of exit legs of the signal that follow, however many and whatever their prices and
-- quantities, book nothing and change no row, as long as nothing else is written in between.
pub exit_books_once :
    (lim : Limits) (now qty : ℕ) (f : FillData) (later : List (ℕ × FillData)) (r : SignalRow)
    (s : Tracker)
    → get_signal f.signal_id s.tables ≡ some r
    → is_entry f.strategy ≡ false
    → f.quantity ≡ some qty
    → already_applied f.strategy (some r) ≡ false
    → truthy_ℤ f.price ≡ true
    → All (IsExitOf f.signal_id) later
    → let s1 = apply_fill lim now f s in
      let pnl = pnl_of r.inserted.action (get_or f.price (entry_of (some r))) f.price qty in
      (get_signal f.signal_id s1.tables ≡ some (exited now f qty r))
      × (s1.ledger ≡ (if truthy_ℤ pnl then record_pnl lim now pnl s.ledger else s.ledger))
      × (apply_fills lim later s1 ≡ s1)
exit_books_once lim now qty f later r s there exit quantity fresh price exits =
    let first = apply_fill-exit lim now qty f r s there exit quantity fresh in
    let row =
      ap (λ (x : Tracker). get_signal f.signal_id x.tables) first
      ∙ apply_exit-row lim now qty f r s there in
    (
      row,
      ap (λ (x : Tracker). x.ledger) first,
      applied_again lim f.signal_id (exited now f qty r) (apply_fill lim now f s) later row
          (λ g again. exited_applied now qty f g r exit again price) exits,
    )
