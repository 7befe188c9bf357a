-- ===== src/First/Monitor/Elsewhere.antt =====
-- What a price leaves alone.
use upstox_gtt.Common.{
  ℕ, ◌==◌, ℤ, ◌≡◌, Bool, false, not, ◌&&◌, ◌||◌, Option, none, some, List, [], ◌∷◌, String, str_eq,
  refl, ◌∙◌, if_elim, truthy_ℤ, All, leb_ℤ, pos,
}
use upstox_gtt.First.Store.{Row, Tables, insert_price_event}
use upstox_gtt.First.Store.Signals.{
  set_entry, set_exit, update_signal_entry_executed, update_signal_exit_executed,
}
use upstox_gtt.First.Store.Orders.{get_signal}
use upstox_gtt.First.Store.Rows.{get_signal-update_other}
use upstox_gtt.First.Monitor.{
  Watched, Monitor, key_of, reaches, stopped, action_of, is_hit, book_target, check_target,
  check_all_targets, all_hit, book_stop, after_targets, check_active, activated, book_entry,
  check_one, check_signals, check_thresholds,
}

-- The row `id` is as it was.
abbrev pub Same : ℕ → Tables → Tables → Type 0
Same id t t' = get_signal id t' ≡ get_signal id t

-- The row of another signal than `id`.
abbrev pub Other : ℕ → Row → Type 0
Other id r = (r.id == id) ≡ false

module _ (rounds_up : ℤ → Bool) (id now : ℕ) (ltp : ℤ) where
  exit-Same :
      (r : Row) (pnl : ℤ) (reason : String) (t : Tables)
      → Other id r
      → Same id t (update_signal_exit_executed now r.id ltp pnl reason t)
  unfolding update_signal_exit_executed
  exit-Same r pnl reason t o =
      get_signal-update_other id r.id (set_exit now ltp pnl reason) t (λ x. refl) o

  book_target-Same :
      (n : ℕ) (level : ℤ) (r : Row) (t : Tables)
      → Other id r
      → Same id t (book_target rounds_up now n level ltp r t)
  unfolding insert_price_event get_signal
  book_target-Same n level r t o =
      if_elim (Same id t) (n == 1) (λ first. exit-Same r _ "TARGET1_HIT" t o) (λ later. refl)

  -- A check of a target keeps the signal, and the row.
  abbrev Kept : Watched → Tables → Watched × Tables → Type 0
  Kept w t s = (s.0.signal ≡ w.signal) × Same id t s.1

  check_target-Kept :
      (n : ℕ) (level : Option ℤ) (w : Watched) (t : Tables)
      → Other id w.signal
      → Kept w t (check_target rounds_up now n level ltp (w, t))
  unfolding check_target
  check_target-Kept n none w t o = (refl, refl)
  check_target-Kept n (some level) w t o =
      if_elim (Kept w t)
        (not (truthy_ℤ level) || is_hit n w || not (reaches (action_of w.signal) ltp level))
        (λ away. (refl, refl)) (λ here. (refl, book_target-Same n level w.signal t o))

  then_target-Kept :
      (n : ℕ) (level : Option ℤ) (w : Watched) (t : Tables) (s : Watched × Tables)
      → Other id w.signal
      → Kept w t s
      → Kept w t (check_target rounds_up now n level ltp s)
  then_target-Kept n level w t (v, u) o (same, kept) =
      let (same', kept') = check_target-Kept n level v u (rw same o) in (same' ∙ same, kept' ∙ kept)

  check_all_targets-Kept :
      (w : Watched) (t : Tables)
      → Other id w.signal
      → Kept w t (check_all_targets rounds_up now ltp (w, t))
  check_all_targets-Kept w t o = then_target-Kept 3 w.signal.inserted.target3 w t _ o (
      then_target-Kept 2 w.signal.inserted.target2 w t _ o
        (check_target-Kept 1 w.signal.inserted.target1 w t o))

  book_stop-Same :
      (pnl : ℤ) (r : Row) (t : Tables)
      → Other id r
      → Same id t (book_stop rounds_up now ltp pnl r t)
  unfolding insert_price_event get_signal
  book_stop-Same pnl r t o = exit-Same r pnl "STOPLOSS_HIT" t o

  abbrev SameAfter : Tables → Option Watched × Tables → Type 0
  SameAfter t s = Same id t s.1

  after_targets-Same :
      (w : Watched) (t : Tables) (s : Watched × Tables)
      → Other id w.signal
      → Kept w t s
      → Same id t (after_targets rounds_up now ltp s).1
  after_targets-Same w t (v, u) o (same, kept) =
      if_elim (SameAfter t) (all_hit rounds_up v) (λ done. kept)
        λ left.
          if_elim (SameAfter t) (stopped (action_of v.signal) ltp v.signal.inserted.stoploss)
            (λ stop. book_stop-Same _ v.signal u (rw same o) ∙ kept) (λ free. kept)

  check_active-Same :
      (w : Watched) (t u : Tables)
      → Other id w.signal
      → Same id u t
      → Same id u (check_active rounds_up now ltp (w, t)).1
  unfolding check_active
  check_active-Same w t u o same =
      after_targets-Same w t (check_all_targets rounds_up now ltp (w, t)) o
        (check_all_targets-Kept w t o)
      ∙ same

  book_entry-Same :
      (r : Row) (t : Tables) → Other id r → Same id t (book_entry rounds_up now ltp r t)
  unfolding update_signal_entry_executed insert_price_event get_signal
  book_entry-Same r t o = get_signal-update_other id r.id (set_entry now ltp) t (λ x. refl) o

  check_one-Same :
      (w : Watched) (t : Tables) → Other id w.signal → Same id t (check_one rounds_up now ltp w t).1
  unfolding check_one
  check_one-Same w t o =
      if_elim (SameAfter t) (str_eq w.signal.status "PENDING")
        (λ pending.
          if_elim (SameAfter t) (reaches (action_of w.signal) ltp w.signal.inserted.entry_low)
            (λ enters.
              check_active-Same (activated rounds_up ltp w)
                (book_entry rounds_up now ltp w.signal t) t o (book_entry-Same w.signal t o))
            λ waits.
              if_elim (SameAfter t) (stopped (action_of w.signal) ltp w.signal.inserted.stoploss)
                (λ stop. book_stop-Same _ w.signal t o) (λ free. refl))
        λ begun.
          if_elim (SameAfter t) (str_eq w.signal.status "ACTIVE")
            (λ active. check_active-Same w t t o refl) (λ ended. refl)

  -- No watched signal of the instrument has the row `id`.
  abbrev pub Elsewhere : String → List Watched → Type 0
  Elsewhere key = All (λ w. (str_eq (key_of w) key && w.signal.id == id) ≡ false)

  check_signals-Same :
      (key : String) (ws : List Watched) (t : Tables)
      → Elsewhere key ws
      → Same id t (check_signals rounds_up now key ltp ws t).1
  unfolding check_signals
  check_signals-Same key [] t h = refl
  check_signals-Same key (w ∷ ws) t (o, os) =
      check_signals-Same key ws _ os
      ∙ if_elim (SameAfter t) (str_eq (key_of w) key) (λ here. check_one-Same w t (rw here at o))
          (λ away. refl)

  -- A price of an instrument leaves every row alone but those of the signals that are watched on it.
  pub check_thresholds-Elsewhere :
      (key : String) (m : Monitor)
      → Elsewhere key m.cache
      → get_signal id (check_thresholds rounds_up now key ltp m).tables ≡ get_signal id m.tables
  unfolding check_thresholds
  check_thresholds-Elsewhere key m h =
      if_elim (λ (x : Monitor). Same id m.tables x.tables) (leb_ℤ ltp (pos 0)) (λ nothing. refl)
        (λ price. check_signals-Same key m.cache m.tables h)
