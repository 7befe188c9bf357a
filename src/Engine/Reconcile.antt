-- ===== src/Engine/Reconcile.antt =====
-- `reconcile_stale` of gtt_v2/services/trading_engine/main.py: signals that have waited too long.
use upstox_gtt.Common.{
  ℕ, ◌+◌, ◌≤◌, ◌≡◌, ◌==◌, Bool, true, none, some, List, [], ◌∷◌, ◌++◌, map, any, keep, get_or,
  length, String, refl, arith, ltb, lt→ltb, if◌then◌else◌, Bool-cases, inl, inr, ap, sym, ◌∙◌,
  subst,
}
use upstox_gtt.Signal.{expired}
use upstox_gtt.Database.{SignalRow, Tables}
use upstox_gtt.Database
use upstox_gtt.Database.Signals.{has_id, get_signals_older_than, get_signal, set_status}
use upstox_gtt.Database.Signals.Lifecycle.{get_signal-update_signal_status}
use upstox_gtt.Database.Writer.{DbWrite, write_status, apply_write, enqueue, drain, max_queue}
use upstox_gtt.Database.Writer.Order.{drain-append}

abbrev pub stale_write : SignalRow → DbWrite
stale_write r = write_status r.id expired (some Database.stale_expiry) none none

-- The queue, and the GTTs for which Upstox took the request to cancel them.
unfoldable pub expire_all :
    (String → Bool) → List SignalRow → List DbWrite × List String → List DbWrite × List String
expire_all accepts [] (queue, cancelled) = (queue, cancelled)
expire_all accepts (r ∷ rs) (queue, cancelled) =
    expire_all accepts rs
      (enqueue (stale_write r) queue, cancelled ++ keep accepts (get_or [] r.gtt_order_ids))

unfoldable pub reconcile_stale :
    (String → Bool) → ℕ → ℕ → Tables → List DbWrite → List DbWrite × List String
unfolding expire_all
reconcile_stale accepts now hours t queue =
    expire_all accepts (get_signals_older_than now hours t) (queue, [])

append_assoc :
    (xs : List DbWrite) (y : DbWrite) (ys : List DbWrite) → (xs ++ y ∷ []) ++ ys ≡ xs ++ y ∷ ys
append_assoc [] y ys = refl
append_assoc (x ∷ xs) y ys = ap (λ l. x ∷ l) (append_assoc xs y ys)

append_none : (xs : List DbWrite) → xs ++ [] ≡ xs
append_none [] = refl
append_none (x ∷ xs) = ap (λ l. x ∷ l) (append_none xs)

length-snoc : (xs : List DbWrite) (y : DbWrite) → length (xs ++ y ∷ []) ≡ length xs + 1
length-snoc [] y = refl
length-snoc (x ∷ xs) y = omega (arith, length-snoc xs y)

enqueue_room :
    (w : DbWrite) (queue : List DbWrite)
    → length queue + 1 ≤ max_queue
    → enqueue w queue ≡ queue ++ w ∷ []
unfolding enqueue
enqueue_room w queue room =
    let free : ltb (length queue) max_queue ≡ true = lt→ltb _ _ (omega arith) in rw free refl

expire_all-queue :
    (accepts : String → Bool) (rs : List SignalRow) (queue : List DbWrite) (ids : List String)
    → length queue + length rs ≤ max_queue
    → (expire_all accepts rs (queue, ids)).0 ≡ queue ++ map stale_write rs
unfolding expire_all
expire_all-queue accepts [] queue ids room = sym (append_none queue)
expire_all-queue accepts (r ∷ rs) queue ids room =
    let w = stale_write r in
    let ids1 = ids ++ keep accepts (get_or [] r.gtt_order_ids) in
    ap (λ q. (expire_all accepts rs (q, ids1)).0) (enqueue_room w queue (omega arith))
    ∙ expire_all-queue accepts rs (queue ++ w ∷ []) ids1 (omega (arith, length-snoc queue w))
    ∙ append_assoc queue w (map stale_write rs)

-- A row after such a write.
abbrev stale_row : ℕ → SignalRow → SignalRow
stale_row later r = set_status later expired (some Database.stale_expiry) none none r

stale_row-status : (later : ℕ) (r : SignalRow) → (stale_row later r).status ≡ expired
unfolding set_status
stale_row-status later r = refl

-- The row `id` is there, and EXPIRED.
abbrev pub IsExpired : ℕ → Tables → Type 0
IsExpired id t = (r : SignalRow) × (get_signal id t ≡ some r) × (r.status ≡ expired)

write-row :
    (later id : ℕ) (x r : SignalRow) (t : Tables)
    → get_signal id t ≡ some r
    → get_signal id (apply_write later (stale_write x) t)
      ≡ (if x.id == id then some (stale_row later r) else some r)
unfolding apply_write
write-row later id x r t there =
    get_signal-update_signal_status later id x.id expired (some Database.stale_expiry) none none t
    ∙ rw there refl

keep-IsExpired :
    (later id : ℕ) (rs : List SignalRow) (t : Tables)
    → IsExpired id t
    → IsExpired id (drain later (map stale_write rs) t)
unfolding drain
keep-IsExpired later id [] t h = h
keep-IsExpired later id (x ∷ rs) t (r, there, done) =
    keep-IsExpired later id rs (apply_write later (stale_write x) t)
      (elim (Bool-cases (x.id == id)) [
        | inl own ↦ (
          stale_row later r,
          write-row later id x r t there ∙ rw own refl,
          stale_row-status later r,
        )
        | inr other ↦ (r, write-row later id x r t there ∙ rw other refl, done)
      ])

drain-IsExpired :
    (later id : ℕ) (rs : List SignalRow) (r : SignalRow) (t : Tables)
    → any (has_id id) rs ≡ true
    → get_signal id t ≡ some r
    → IsExpired id (drain later (map stale_write rs) t)
unfolding drain
drain-IsExpired later id [] r t listed there = ground arith
drain-IsExpired later id (x ∷ rs) r t listed there = elim (Bool-cases (x.id == id)) [
  | inl own ↦
      keep-IsExpired later id rs (apply_write later (stale_write x) t)
        (stale_row later r, write-row later id x r t there ∙ rw own refl, stale_row-status later r)
  | inr other ↦
      drain-IsExpired later id rs r (apply_write later (stale_write x) t) (ground arith)
        (write-row later id x r t there ∙ rw other refl)
]

-- A signal that is found stale ends as EXPIRED whatever happens to it before its write is made, also
-- if the cancellation of its orders failed or its row has become ACTIVE meanwhile: if the queue has
-- room, then once the writes are made, to tables in which the row still is, it is EXPIRED.
pub reconcile_stale-IsExpired :
    (accepts : String → Bool) (now later hours id : ℕ) (r : SignalRow) (queue : List DbWrite)
    (t t' : Tables)
    → let stale = get_signals_older_than now hours t in
      length queue + length stale ≤ max_queue
      → any (has_id id) stale ≡ true
      → get_signal id (drain later queue t') ≡ some r
      → IsExpired id (drain later (reconcile_stale accepts now hours t queue).0 t')
unfolding reconcile_stale
reconcile_stale-IsExpired accepts now later hours id r queue t t' room listed there =
    let stale = get_signals_older_than now hours t in
    let whole : drain later (expire_all accepts stale (queue, [])).0 t'
        ≡ drain later (map stale_write stale) (drain later queue t') =
      ap (λ q. drain later q t') (expire_all-queue accepts stale queue [] room)
      ∙ drain-append later queue (map stale_write stale) t' in
    subst (IsExpired id) (sym whole)
      (drain-IsExpired later id stale r (drain later queue t') listed there)
