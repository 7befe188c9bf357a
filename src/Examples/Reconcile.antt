-- ===== src/Examples/Reconcile.antt =====
-- A signal that is stale when it is found and ACTIVE when its write is made.
use upstox_gtt.Common.{ℕ, ◌+◌, ◌*◌, false, [], ◌∷◌, refl, arith}
use upstox_gtt.Signal.{active}
use upstox_gtt.Database.{SignalRow, Tables, no_rows}
use upstox_gtt.Database.Signals.{new_row, get_signal, get_signals_older_than}
use upstox_gtt.Database.Writer.{drain}
use upstox_gtt.Engine.Reconcile.{IsExpired, reconcile_stale, reconcile_stale-IsExpired}
use upstox_gtt.Examples.Data.{ten, row_data}

abbrev waiting_row : SignalRow
waiting_row = new_row ten 1 (row_data "1-0" "h1")

abbrev before : Tables
before = record no_rows { signals = waiting_row ∷ [] }

abbrev filled_row : SignalRow
filled_row = record waiting_row { status = active }

abbrev meanwhile : Tables
meanwhile = record no_rows { signals = filled_row ∷ [] }

-- Seven hours later, with a limit of six.
abbrev seven_hours : ℕ
seven_hours = ten + 7 * 3_600_000

reconcile_stale-IsExpired_example :
    IsExpired 1
      (drain (seven_hours + 1) (reconcile_stale (λ g. false) seven_hours 6 before []).0 meanwhile)
reconcile_stale-IsExpired_example =
    reconcile_stale-IsExpired (λ g. false) seven_hours (seven_hours + 1) 6 1 filled_row [] before
      meanwhile (unfold get_signals_older_than in omega arith)
      (unfold get_signals_older_than in refl) (unfold drain get_signal in refl)
