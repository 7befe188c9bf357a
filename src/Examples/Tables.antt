-- ===== src/Examples/Tables.antt =====
-- The repositories at concrete rows.
use upstox_gtt.Common.{◌+◌, ◌≡◌, pos, ◌+ℤ◌, ◌*ℤ◌, none, some, List, [], ◌∷◌, refl}
use upstox_gtt.Signal.{active}
use upstox_gtt.Database.{no_rows, Trade}
use upstox_gtt.Database.Signals.{duplicate, insert_signal, hash_taken, message_taken}
use upstox_gtt.Database.Signals.Unique.{TableOp, insert, status, run_ops, insert_signal_once}
use upstox_gtt.Common.Rounding.{round_div}
use upstox_gtt.Database.Orders.{total_quantity, total_value, weighted_avg_price}
use upstox_gtt.Examples.Data.{ten, row_data, trade_of}

abbrev ops : List TableOp
ops =
    insert ten (row_data "1-0" "h1")
    ∷ status ten 1 active none none none
    ∷ insert ten (row_data "2-0" "h1")
    ∷ insert ten (row_data "3-0" "h2")
    ∷ []

insert_signal_once_example :
    let t' = run_ops ops (insert_signal ten (row_data "0-0" "h1") no_rows).1 in
    ((insert_signal (ten + 5) (row_data "9-0" "h1") t').0 ≡ duplicate)
    × ((insert_signal (ten + 5) (row_data "9-0" "h1") t').1.signals ≡ t'.signals)
insert_signal_once_example =
    insert_signal_once ten (ten + 5) (row_data "0-0" "h1") (row_data "9-0" "h1") "h1" 1 ops no_rows
      refl refl (unfold insert_signal hash_taken message_taken in refl)

abbrev trades : List Trade
trades = trade_of 15000 75 ∷ trade_of 15010 25 ∷ []

-- A mean of 15002.5 hundredths goes to the even 15002.
trades_mean : weighted_avg_price trades ≡ some (pos 15002)
unfolding weighted_avg_price total_quantity total_value round_div ◌+ℤ◌ ◌*ℤ◌
trades_mean = refl
