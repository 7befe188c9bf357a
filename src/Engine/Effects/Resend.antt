-- ===== src/Engine/Effects/Resend.antt =====
-- A signal whose order failed, and the same signal sent again.
use upstox_gtt.Common.{ℤ, ◌≡◌, Bool, Option, some, true, String, ap, ◌∙◌, subst}
use upstox_gtt.Signal.{RawSignal}
use upstox_gtt.Database.{BlockReason}
use upstox_gtt.Database.Signals.{hash_taken}
use upstox_gtt.Database.Signals.Unique.{inserted_taken}
use upstox_gtt.Engine.State.{
  Settings, SignalKey, Surroundings, Engine, failed_for, compute_signal_hash,
}
use upstox_gtt.Engine.Stages.{process_signal}
use upstox_gtt.Engine.Safety.{SentNone}
use upstox_gtt.Engine.Safety.Orders.{taken_sends_none}
use upstox_gtt.Engine.Effects.{Effect}
use upstox_gtt.Engine.Effects.Verdicts.{process_signal-Effect}

module _ (cfg : Settings) (rounds_up : ℤ → Bool) (digest : SignalKey → String) where
  -- A signal whose call ended as FAILED, by the rate limit, a rejection or an unreachable Upstox,
  -- cannot be sent again: no later call for the same hash posts an order, whatever has been written since
  -- then, if each hash that had a row still has one.
  pub failed_never_sent :
      (env later : Surroundings) (s s' : RawSignal) (why : BlockReason) (e e' : Engine)
      → let r = process_signal cfg env rounds_up digest (some s) e in
        r.0 ≡ failed_for why
        → compute_signal_hash digest s' ≡ compute_signal_hash digest s
        → ((k : Option String)
            → hash_taken k r.1.tables.signals ≡ true
            → hash_taken k e'.tables.signals ≡ true)
        → SentNone e' (process_signal cfg later rounds_up digest (some s') e')
  failed_never_sent env later s s' why e e' failed same came =
      let h = compute_signal_hash digest s in
      let r = process_signal cfg env rounds_up digest (some s) e in
      let (id, (d, hash, st, new, tables), queue) =
        subst (λ v. Effect cfg env h s.redis_message_id e.queue e.tables (v, r.1)) failed
          (process_signal-Effect cfg env rounds_up digest s e) in
      let taken =
        ap (λ t. hash_taken (some h) t.signals) tables
        ∙ inserted_taken env.now d h id e.tables hash new in
      taken_sends_none cfg rounds_up digest later s' e' (rw same (came (some h) taken))
