-- ===== src/Database/Signals/Lifecycle.antt =====
-- What the updates of gtt_v2/shared/db/signals.py do to a row over its life.
use upstox_gtt.Common.{
  true, ◌∙◌, ℕ, ◌≡◌, ℤ, Option, none, some, List, [], ◌∷◌, String, refl, arith, ◌==◌, map, find,
  if◌then◌else◌,
}
use upstox_gtt.Signal.{Status, active}
use upstox_gtt.Database.{SignalRow, Tables, BlockReason}
use upstox_gtt.Database.Signals.{
  has_id, set_status, update_rows, update_signal_status, set_pnl, get_signal,
}

-- A change of one row.
pub data RowOp : Type 0 where
  restatus : ℕ → Status → Option BlockReason → Option (List String) → Option ℤ → RowOp
  settle : ℕ → ℤ → ℤ → ℤ → RowOp

unfoldable pub change : RowOp → SignalRow → SignalRow
change (restatus now s why ids ltp) r = set_status now s why ids ltp r
change (settle now e x p) r = set_pnl now e x p r

unfoldable pub change_all : List RowOp → SignalRow → SignalRow
unfolding change
change_all [] r = r
change_all (op ∷ ops) r = change_all ops (change op r)

change-keeps :
    (op : RowOp) (r : SignalRow) (at : ℕ)
    → r.activated_at ≡ some at
    → (change op r).activated_at ≡ some at
unfolding change set_status set_pnl
change-keeps (restatus now s why ids ltp) r at h = ground arith
change-keeps (settle now e x p) r at h = ground arith

change_all-keeps :
    (ops : List RowOp) (r : SignalRow) (at : ℕ)
    → r.activated_at ≡ some at
    → (change_all ops r).activated_at ≡ some at
unfolding change_all
change_all-keeps [] r at h = h
change_all-keeps (op ∷ ops) r at h = change_all-keeps ops (change op r) at (change-keeps op r at h)

-- `activated_at` is the instant at which a row first became ACTIVE, whatever changes follow it:
-- later activations, settlements and final statuses leave it.
pub activated_once :
    (now : ℕ) (why : Option BlockReason) (ids : Option (List String)) (ltp : Option ℤ)
    (ops : List RowOp) (r : SignalRow)
    → r.activated_at ≡ none
    → (change_all ops (set_status now active why ids ltp r)).activated_at ≡ some now
activated_once now why ids ltp ops r h =
    change_all-keeps ops (set_status now active why ids ltp r) now
      (unfold set_status in ground arith)

find-map :
    (j id : ℕ) (f : SignalRow → SignalRow) (rows : List SignalRow)
    → ((r : SignalRow) → (f r).id ≡ r.id)
    → find (has_id j) (map (λ r. if has_id id r then f r else r) rows) ≡ (
        if id == j
        then elim (find (has_id j) rows) [ none ↦ none | some r ↦ some (f r) ]
        else find (has_id j) rows)
find-map j id f [] h = ground arith
find-map j id f (r ∷ rows) h = ground (arith, h r, find-map j id f rows h)

-- An update by id of a row that is there.
pub get_signal-update_rows :
    (id : ℕ) (f : SignalRow → SignalRow) (r : SignalRow) (t : Tables)
    → ((x : SignalRow) → (f x).id ≡ x.id)
    → get_signal id t ≡ some r
    → get_signal id (update_rows (has_id id) f t) ≡ some (f r)
unfolding get_signal update_rows
get_signal-update_rows id f r t keeps there =
    let same : (id == id) ≡ true = ground arith in
    find-map id id f t.signals keeps ∙ rw same (rw there refl)

-- `update_signal_status` changes the row of its id, as `set_status` says, and no other row; on an
-- id that is not there it changes nothing.
pub get_signal-update_signal_status :
    (now j id : ℕ) (s : Status) (why : Option BlockReason) (ids : Option (List String))
    (ltp : Option ℤ) (t : Tables)
    → get_signal j (update_signal_status now id s why ids ltp t) ≡ (
        if id == j
        then elim (get_signal j t) [ none ↦ none | some r ↦ some (set_status now s why ids ltp r) ]
        else get_signal j t)
unfolding get_signal update_signal_status update_rows
get_signal-update_signal_status now j id s why ids ltp t =
    find-map j id (set_status now s why ids ltp) t.signals (λ r. unfold set_status in refl)
