-- ===== src/First/Monitor/Levels.antt =====
-- What a price does to the rows.
use upstox_gtt.Common.{
  ℕ, ℤ, ◌≡◌, Bool, true, false, Option, none, some, String, str_eq, refl, ap, ◌∙◌, arith,
}
use upstox_gtt.First.Store.{Row, Tables, insert_price_event}
use upstox_gtt.First.Store.Signals.{set_exit, update_signal_exit_executed}
use upstox_gtt.First.Store.Orders.{get_signal}
use upstox_gtt.First.Store.Rows.{get_signal-update}
use upstox_gtt.First.Monitor.{
  Watched, reaches, stopped, action_of, profit_of, check_target, check_all_targets, all_hit,
  book_stop, after_targets, check_active, check_one,
}

-- A price that reaches no level that is given.
abbrev pub Unreached : String → ℤ → Option ℤ → Type 0
Unreached action ltp none = Unit
Unreached action ltp (some level) = reaches action ltp level ≡ false

module _ (rounds_up : ℤ → Bool) where
  check_target-Unreached :
      (now n : ℕ) (level : Option ℤ) (ltp : ℤ) (w : Watched) (t : Tables)
      → Unreached (action_of w.signal) ltp level
      → check_target rounds_up now n level ltp (w, t) ≡ (w, t)
  unfolding check_target
  check_target-Unreached now n none ltp w t h = refl
  check_target-Unreached now n (some level) ltp w t h = ground (arith, h)

  book_stop-row :
      (now : ℕ) (ltp pnl : ℤ) (s r : Row) (t : Tables)
      → get_signal s.id t ≡ some r
      → get_signal s.id (book_stop rounds_up now ltp pnl s t)
        ≡ some (set_exit now ltp pnl "STOPLOSS_HIT" r)
  unfolding update_signal_exit_executed insert_price_event get_signal
  book_stop-row now ltp pnl s r t there =
      get_signal-update s.id (set_exit now ltp pnl "STOPLOSS_HIT") r t (λ x. refl) there

  -- A signal that is ACTIVE in memory and has a target left to hit is set to STOPLOSS_HIT, with the loss, by
  -- a price at its stoploss that reaches no target, whatever its row says: also where the row has
  -- become TARGET1_HIT, with its profit, when the first target was hit. It then leaves the cache.
  pub stop_after_target :
      (now : ℕ) (ltp : ℤ) (w : Watched) (r : Row) (t : Tables)
      → str_eq w.signal.status "PENDING" ≡ false
      → str_eq w.signal.status "ACTIVE" ≡ true
      → all_hit rounds_up w ≡ false
      → stopped (action_of w.signal) ltp w.signal.inserted.stoploss ≡ true
      → Unreached (action_of w.signal) ltp w.signal.inserted.target1
      → Unreached (action_of w.signal) ltp w.signal.inserted.target2
      → Unreached (action_of w.signal) ltp w.signal.inserted.target3
      → get_signal w.signal.id t ≡ some r
      → ((check_one rounds_up now ltp w t).0 ≡ none)
        × (get_signal w.signal.id (check_one rounds_up now ltp w t).1
            ≡ some (set_exit now ltp (profit_of rounds_up w.signal ltp) "STOPLOSS_HIT" r))
  unfolding check_one check_active
  stop_after_target now ltp w r t idle active left at h1 h2 h3 there =
      let targets : check_all_targets rounds_up now ltp (w, t) ≡ (w, t) =
        ap
          (λ s.
            check_target rounds_up now 3 w.signal.inserted.target3 ltp
              (check_target rounds_up now 2 w.signal.inserted.target2 ltp s))
          (check_target-Unreached now 1 w.signal.inserted.target1 ltp w t h1)
        ∙ ap (check_target rounds_up now 3 w.signal.inserted.target3 ltp)
            (check_target-Unreached now 2 w.signal.inserted.target2 ltp w t h2)
        ∙ check_target-Unreached now 3 w.signal.inserted.target3 ltp w t h3 in
      let stops : after_targets rounds_up now ltp (w, t)
          ≡ (none, book_stop rounds_up now ltp (profit_of rounds_up w.signal ltp) w.signal t) =
        rw (left, at) refl in
      let whole : check_one rounds_up now ltp w t
          ≡ (none, book_stop rounds_up now ltp (profit_of rounds_up w.signal ltp) w.signal t) =
        rw (idle, active) (ap (after_targets rounds_up now ltp) targets ∙ stops) in
      (
        ap (λ x. x.0) whole,
        ap (λ x. get_signal w.signal.id x.1) whole ∙ book_stop-row now ltp _ w.signal r t there,
      )
