-- ===== src/Database/Writer/Order.antt =====
-- The queue keeps the order of the writes.
use upstox_gtt.Common.{
  ℕ, ◌≡◌, List, [], ◌∷◌, ◌++◌, length, ltb, refl, if◌then◌else◌, Bool-cases, inl, inr,
}
use upstox_gtt.Database.{Tables}
use upstox_gtt.Database.Writer.{DbWrite, apply_write, enqueue, drain, max_queue}

pub drain-append :
    (now : ℕ) (q w : List DbWrite) (t : Tables) → drain now (q ++ w) t ≡ drain now w (drain now q t)
unfolding drain
drain-append now [] w t = refl
drain-append now (x ∷ q) w t = drain-append now q w (apply_write now x t)

-- A write that is enqueued takes effect after all that were enqueued before it; only on a full
-- queue it is lost, and nothing else then changes.
pub drain-enqueue :
    (now : ℕ) (w : DbWrite) (q : List DbWrite) (t : Tables)
    → drain now (enqueue w q) t
      ≡ (if ltb (length q) max_queue then apply_write now w (drain now q t) else drain now q t)
unfolding enqueue
drain-enqueue now w q t = elim (Bool-cases (ltb (length q) max_queue)) [
  | inl room ↦ rw room (unfold drain in drain-append now q (w ∷ []) t)
  | inr full ↦ rw full refl
]
