-- ===== src/Engine/Loop/Runs.antt =====
-- The posts of a run of the engine: batches of messages, restarts with their reclaimed messages, and the
-- writes of the other services in between.
use upstox_gtt.Common.{
  ◌≤◌, ◌≡◌, ℤ, Bool, true, false, some, List, [], ◌∷◌, String, refl, arith, ◌∙◌,
}
use upstox_gtt.Database.{SignalRow, Tables}
use upstox_gtt.Database.Signals.{update_rows}
use upstox_gtt.Database.Signals.Unique.{
  TableOp, run_ops, run_ops-taken, KeepsInserted, hash_taken-map,
}
use upstox_gtt.Engine.State.{Settings, SignalKey, Engine}
use upstox_gtt.Engine.Stages.{acknowledged}
use upstox_gtt.Engine.Loop.{Delivery, Progress, Reader, ack_if, completed, handle, consume, reclaim}
use upstox_gtt.Engine.Loop.Batch.{orders_of, FewPosts, keeps-FewPosts, handle-FewPosts}

-- What the engine goes through: a batch of the consumer loop, a start with other memory and the
-- reclaimed messages, and what the write queue and the other services do to the tables: the inserts
-- and updates of the repository, any update of rows of `signals` that keeps the columns of the insert, and
-- anything at all in the other tables.
pub data Event : Type 0 where
  batch : List Delivery → Event
  restart : Engine → List Delivery → Event
  writes : List TableOp → Event
  rewrites : (p : SignalRow → Bool) → (f : SignalRow → SignalRow) → KeepsInserted f → Event
  others : Tables → Event

-- A start keeps the tables and what was sent.
abbrev pub restarted : Engine → Engine → Engine
restarted fresh e = record fresh { tables = e.tables; sent = e.sent }

module _ (cfg : Settings) (rounds_up : ℤ → Bool) (digest : SignalKey → String) (r : Reader) where
  pub step : Event → Progress → Progress
  unfolding consume reclaim update_rows
  step (batch ds) p = consume cfg rounds_up digest r ds p
  step (restart fresh ds) p =
      reclaim cfg rounds_up digest r ds (record p { engine = restarted fresh p.engine })
  step (writes ops) p = record p {
    engine = record p.engine { tables = run_ops ops p.engine.tables };
  }
  step (rewrites p f keeps) s = record s {
    engine = record s.engine { tables = update_rows p f s.engine.tables };
  }
  step (others t) s = record s {
    engine = record s.engine { tables = record t { signals = s.engine.tables.signals } };
  }

  pub run : List Event → Progress → Progress
  run [] p = p
  run (x ∷ xs) p = run xs (step x p)

  acked_engine :
      (b : Bool) (id : String) (e : Engine) (ids : List String) → (ack_if b id e ids).engine ≡ e
  acked_engine true id e ids = refl
  acked_engine false id e ids = refl

  consume-FewPosts :
      (ds : List Delivery) (p : Progress) (h : String)
      → FewPosts h p.engine
      → FewPosts h (consume cfg rounds_up digest r ds p).engine
  unfolding consume
  consume-FewPosts [] p h one = one
  consume-FewPosts (d ∷ ds) p h one =
      let (v, e) = handle cfg rounds_up digest r d p.engine in
      consume-FewPosts ds (ack_if (acknowledged v) d.id e p.acked) h (
        rw (acked_engine (acknowledged v) d.id e p.acked)
          (handle-FewPosts cfg rounds_up digest r d p.engine h one))

  reclaim-FewPosts :
      (ds : List Delivery) (p : Progress) (h : String)
      → FewPosts h p.engine
      → FewPosts h (reclaim cfg rounds_up digest r ds p).engine
  unfolding reclaim
  reclaim-FewPosts [] p h one = one
  reclaim-FewPosts (d ∷ ds) p h one =
      let (v, e) = handle cfg rounds_up digest r d p.engine in
      reclaim-FewPosts ds (ack_if (completed v) d.id e p.acked) h (
        rw (acked_engine (completed v) d.id e p.acked)
          (handle-FewPosts cfg rounds_up digest r d p.engine h one))

  step-FewPosts :
      (x : Event) (p : Progress) (h : String) → FewPosts h p.engine → FewPosts h (step x p).engine
  unfolding step update_rows
  step-FewPosts (batch ds) p h one = consume-FewPosts ds p h one
  step-FewPosts (restart fresh ds) p h one =
      reclaim-FewPosts ds (record p { engine = restarted fresh p.engine }) h one
  step-FewPosts (writes ops) p h one =
      keeps-FewPosts h p.engine (record p.engine { tables = run_ops ops p.engine.tables }) refl
        (run_ops-taken ops (some h) p.engine.tables) one
  step-FewPosts (rewrites p f keeps) s h one =
      keeps-FewPosts h s.engine (record s.engine { tables = update_rows p f s.engine.tables }) refl
        (λ taken. hash_taken-map (some h) p f s.engine.tables.signals keeps ∙ taken) one
  step-FewPosts (others t) s h one = one

  run-FewPosts :
      (xs : List Event) (p : Progress) (h : String)
      → FewPosts h p.engine
      → FewPosts h (run xs p).engine
  unfolding run
  run-FewPosts [] p h one = one
  run-FewPosts (x ∷ xs) p h one = run-FewPosts xs (step x p) h (step-FewPosts x p h one)

  -- From a state in which nothing was sent, however messages come, are delivered again or are reclaimed
  -- after a restart, and whatever the other services insert and update in between, deleting no row and
  -- giving none another hash, at most three POSTs are made for each signal hash.
  pub run_three_posts :
      (xs : List Event) (p : Progress) (h : String)
      → p.engine.sent ≡ []
      → orders_of h (run xs p).engine.sent ≤ 3
  run_three_posts xs p h none_sent =
      ground (arith, run-FewPosts xs p h (unfold orders_of in ground (arith, none_sent)))
