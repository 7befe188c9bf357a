-- ===== src/Examples/Tracker.antt =====
-- The order tracker at concrete fills.
use upstox_gtt.Common.{
  ◌+◌, ◌≡◌, pos, ◌+ℤ◌, ◌-ℤ◌, ◌*ℤ◌, some, [], ◌∷◌, refl, truthy_ℤ, if◌then◌else◌, get_or,
}
use upstox_gtt.Signal.{buy, entry, target, stoploss_leg, target1_hit, same_strategy}
use upstox_gtt.Database.{SignalRow, SignalData, no_rows}
use upstox_gtt.Database.Signals.{new_row, get_signal}
use upstox_gtt.Rules.PnlGuard.{record_pnl}
use upstox_gtt.Tracker.{Tracker}
use upstox_gtt.Tracker.Fill.{
  FillData, apply_fill, already_applied, is_target_hit, is_stoploss_hit, pnl_of, entry_of,
}
use upstox_gtt.Tracker.Booking.{apply_fills, exited, exit_books_once}
use upstox_gtt.Tracker.Entries.{entered, entry_then_exit, gap_entry_books_nothing}
use upstox_gtt.Examples.Data.{ten, row_data, limits, new_ledger}

-- A BUY with the buffered target 177 and stoploss 137.
abbrev buffered : SignalData
buffered = record (row_data "1-0" "h1") {
  targets_adj = pos 17700 ∷ [];
  stoploss_adj = some (pos 13700);
}

abbrev row : SignalRow
row = new_row ten 1 buffered

abbrev tracker : Tracker
tracker = record { tables = record no_rows { signals = row ∷ [] }; ledger = new_ledger }

abbrev bought : FillData
bought = record { signal_id = 1; strategy = entry; price = pos 15300; quantity = some 75 }

abbrev gapped : FillData
gapped = record bought { price = pos 18000 }

abbrev sold : FillData
sold = record { signal_id = 1; strategy = target; price = pos 17800; quantity = some 75 }

abbrev stopped_out : FillData
stopped_out = record sold { strategy = stoploss_leg; price = pos 13600 }

exit_books_once_example :
    let s1 = apply_fill limits ten sold tracker in
    let pnl = pnl_of buy (get_or (pos 17800) (entry_of (some row))) (pos 17800) 75 in
    (get_signal 1 s1.tables ≡ some (exited ten sold 75 row))
    × (s1.ledger ≡ (if truthy_ℤ pnl then record_pnl limits ten pnl new_ledger else new_ledger))
    × (apply_fills limits ((ten + 1, stopped_out) ∷ (ten + 2, sold) ∷ []) s1 ≡ s1)
exit_books_once_example =
    exit_books_once limits ten 75 sold ((ten + 1, stopped_out) ∷ (ten + 2, sold) ∷ []) row tracker
      (unfold get_signal in refl) (unfold same_strategy in refl) refl
      (unfold already_applied same_strategy in refl) refl
      ((refl, unfold same_strategy in refl), ((refl, unfold same_strategy in refl), tt))

entry_then_exit_example :
    let s1 = apply_fill limits ten bought tracker in
    let s2 = apply_fill limits (ten + 1) sold s1 in
    let pnl = pnl_of buy (pos 15300) (pos 17800) 75 in
    (get_signal 1 s1.tables ≡ some (entered ten bought row))
    × (s1.ledger ≡ new_ledger)
    × (get_signal 1 s2.tables ≡ some (exited (ten + 1) sold 75 (entered ten bought row)))
    × (s2.ledger
        ≡ (if truthy_ℤ pnl then record_pnl limits (ten + 1) pnl new_ledger else new_ledger))
entry_then_exit_example =
    entry_then_exit limits ten (ten + 1) 75 bought sold row tracker (unfold get_signal in refl) refl
      (unfold same_strategy in refl) (unfold is_target_hit ◌-ℤ◌ in refl)
      (unfold is_stoploss_hit ◌+ℤ◌ in refl) refl refl (unfold same_strategy in refl) refl

-- 75 pieces at a profit of 25.
profit : pnl_of buy (pos 15300) (pos 17800) 75 ≡ pos 187500
unfolding pnl_of ◌-ℤ◌ ◌*ℤ◌
profit = refl

gap_entry_books_nothing_example :
    let s1 = apply_fill limits ten gapped tracker in
    (s1.ledger ≡ new_ledger)
    × (get_signal 1 s1.tables ≡ some (exited ten gapped 75 row))
    × ((exited ten gapped 75 row).status ≡ target1_hit)
    × (apply_fill limits (ten + 1) stopped_out s1 ≡ s1)
gap_entry_books_nothing_example =
    gap_entry_books_nothing limits ten (ten + 1) 75 gapped stopped_out row tracker
      (unfold get_signal in refl) refl refl (unfold same_strategy in refl) refl
      (unfold is_target_hit ◌-ℤ◌ in refl) refl refl (unfold same_strategy in refl)
