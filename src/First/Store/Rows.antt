-- ===== src/First/Store/Rows.antt =====
-- What reads see after writes: rows by their ids, and the trades of an order.
use upstox_gtt.Common.{
  ℕ, ◌≡◌, ◌==◌, Bool, false, Option, some, List, [], ◌∷◌, ◌++◌, String, eq_iff, refl, ap, ◌∙◌,
  arith, find, keep, any, not, if_elim, Bool-cases, inl, inr,
}
use mathlib.Core.Option.{map as map_option}
use upstox_gtt.First.Store.{Row, Trade, TradeRow, Tables, has_id, update_row, update}
use upstox_gtt.First.Store.Orders.{
  get_signal, add_trades, other_order, same_trade, replace_trade_executions,
}

abbrev pub KeepsId : (Row → Row) → Type 0
KeepsId f = (r : Row) → (f r).id ≡ r.id

find-update_row :
    (id : ℕ) (f : Row → Row) (r : Row) (rs : List Row)
    → KeepsId f
    → find (has_id id) rs ≡ some r
    → find (has_id id) (update_row id f rs) ≡ some (f r)
unfolding update_row
find-update_row id f r [] k h = cc
find-update_row id f r (x ∷ rs) k h =
    let same : has_id id (f x) ≡ has_id id x = ap (λ n. n == id) (k x) in
    elim (Bool-cases (has_id id x)) [
      | inl here ↦ rw (here, same ∙ here) (ap (map_option f) (rw here at h))
      | inr there ↦ rw (there, there) (find-update_row id f r rs k (rw there at h))
    ]

-- A row is read as it was updated.
pub get_signal-update :
    (id : ℕ) (f : Row → Row) (r : Row) (t : Tables)
    → KeepsId f
    → get_signal id t ≡ some r
    → get_signal id (update id f t) ≡ some (f r)
unfolding get_signal update_row
get_signal-update id f r t = find-update_row id f r t.signals

find-update_other :
    (id i : ℕ) (f : Row → Row) (rs : List Row)
    → KeepsId f
    → (i == id) ≡ false
    → find (has_id id) (update_row i f rs) ≡ find (has_id id) rs
unfolding update_row
find-update_other id i f [] k h = refl
find-update_other id i f (x ∷ rs) k h =
    let same : has_id id (f x) ≡ has_id id x = ap (λ n. n == id) (k x) in
    ground (arith, same, find-update_other id i f rs k h)

-- An update leaves the other rows alone.
pub get_signal-update_other :
    (id i : ℕ) (f : Row → Row) (t : Tables)
    → KeepsId f
    → (i == id) ≡ false
    → get_signal id (update i f t) ≡ get_signal id t
unfolding get_signal update_row
get_signal-update_other id i f t = find-update_other id i f t.signals

keep-snoc :
    (p : TradeRow → Bool) (rows : List TradeRow) (x : TradeRow)
    → p x ≡ false
    → keep p (rows ++ x ∷ []) ≡ keep p rows
keep-snoc p [] x h = rw h refl
keep-snoc p (y ∷ rows) x h = elim (Bool-cases (p y)) [
  | inl here ↦ rw here (ap (◌∷◌ y) (keep-snoc p rows x h))
  | inr away ↦ rw away (keep-snoc p rows x h)
]

keep-keep : (p : TradeRow → Bool) (rows : List TradeRow) → keep p (keep p rows) ≡ keep p rows
keep-keep p [] = refl
keep-keep p (y ∷ rows) = elim (Bool-cases (p y)) [
  | inl here ↦ rw (here, here) (ap (◌∷◌ y) (keep-keep p rows))
  | inr away ↦ rw away (keep-keep p rows)
]

keep-add_trades :
    (id : Option ℕ) (order : String) (xs : List Trade) (rows : List TradeRow)
    → keep (other_order order) (add_trades id order xs rows) ≡ keep (other_order order) rows
unfolding add_trades
keep-add_trades id order [] rows = refl
keep-add_trades id order (x ∷ xs) rows =
    keep-add_trades id order xs _
    ∙ if_elim (λ l. keep (other_order order) l ≡ keep (other_order order) rows)
        (any (same_trade order x.trade_id) rows) (λ dup. refl)
        (λ new. keep-snoc (other_order order) rows _ (ap not ((eq_iff order order).1 refl)))

-- The trades of an order are replaced: however often the same trades are stored, by any signals, the
-- table is as after the last time alone.
pub replace_trade_executions_twice :
    (id id' : Option ℕ) (order : String) (trades again : List Trade) (t : Tables)
    → replace_trade_executions id' order again (replace_trade_executions id order trades t)
      ≡ replace_trade_executions id' order again t
unfolding replace_trade_executions
replace_trade_executions_twice id id' order trades again t =
    ap (λ rows. record t { trade_executions = add_trades id' order again rows })
      (keep-add_trades id order trades (keep (other_order order) t.trade_executions)
        ∙ keep-keep (other_order order) t.trade_executions)
