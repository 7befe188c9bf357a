-- ===== src/Examples/Engine.antt =====
-- Whole calls of the engine for one signal.
use upstox_gtt.Common.{
  length, ℕ, ◌+◌, ◌<◌, ◌≡◌, ◌⊎◌, inl, inr, ℤ, pos, Bool, true, false, Option, none, some, List, [],
  ◌∷◌, String, refl, arith,
}
use upstox_gtt.Signal.{RawSignal}
use upstox_gtt.Rules.Buffer.{apply_buffer}
use upstox_gtt.Instruments.{Instrument}
use upstox_gtt.GttBuilder.{LotEnv, resolve_lot_size, resolve_lot_size-pos}
use upstox_gtt.Database.{no_rows}
use upstox_gtt.Database.Signals.{hash_taken, message_taken, insert_signal}
use upstox_gtt.Engine.State.{
  Settings, SignalKey, Surroundings, Engine, Verdict, placed, failed_for, compute_signal_hash,
  signal_key,
}
use upstox_gtt.Engine.Stages.{process_signal}
use upstox_gtt.Engine.Safety.{SentNone}
use upstox_gtt.Engine.Safety.Orders.{prepared, Sanctioned, OrderFor, process_signal_sends}
use upstox_gtt.Client.{response, soft_error}
use upstox_gtt.Database
use upstox_gtt.Engine.Effects.Resend.{failed_never_sent}
use upstox_gtt.Engine.Effects.{Effect}
use upstox_gtt.Engine.Effects.Verdicts.{process_signal-Effect}
use upstox_gtt.Examples.Data.{always, nifty, settings, morning, fresh, digest, half_up}

abbrev first : Verdict × Engine
first = process_signal settings morning half_up digest (some nifty) fresh

-- The signal is sent as one GTT.
first_result : (first.0 ≡ placed ("GTT-1" ∷ [])) × (length first.1.sent ≡ 1)
unfolding upstox_gtt.Engine.State.posts upstox_gtt.Engine.Stages.if_connected
    upstox_gtt.Client.after_reply upstox_gtt.Client.can_attempt upstox_gtt.Client.record_failure
    upstox_gtt.Client.record_success upstox_gtt.Client.refused upstox_gtt.Client.request
    upstox_gtt.Client.retryable upstox_gtt.Client.run_attempts upstox_gtt.Clock.today_key
    upstox_gtt.Clock.weekday upstox_gtt.Clock.time_of_day upstox_gtt.Common.◌+ℤ◌
    upstox_gtt.Common.◌-ℤ◌ upstox_gtt.Common.◌*ℤ◌ upstox_gtt.Common.Rounding.round_div
    upstox_gtt.Database.Signals.hash_taken upstox_gtt.Database.Signals.insert_signal
    upstox_gtt.Database.Signals.message_taken upstox_gtt.Database.Writer.enqueue
    upstox_gtt.Engine.Process.after_placing upstox_gtt.Engine.Process.record_legs
    upstox_gtt.Engine.Process.rr_too_low upstox_gtt.Engine.Process.signal_to_dict
    upstox_gtt.Engine.Stages.after_insert upstox_gtt.Engine.Stages.check_targets
    upstox_gtt.Engine.Stages.check_timing upstox_gtt.Engine.Stages.check_pnl
    upstox_gtt.Engine.Stages.check_rr upstox_gtt.Engine.Stages.find_instrument
    upstox_gtt.Engine.Stages.guard_entry upstox_gtt.Engine.Stages.insert_row
    upstox_gtt.Engine.Stages.limit_rate upstox_gtt.Engine.Stages.place
    upstox_gtt.Engine.Stages.process_signal upstox_gtt.Engine.State.compute_signal_hash
    upstox_gtt.Engine.State.signal_key upstox_gtt.Instruments.lookup_key
    upstox_gtt.Instruments.resolve upstox_gtt.Instruments.same_key upstox_gtt.Limiter.acquire
    upstox_gtt.Limiter.find_limit upstox_gtt.Limiter.refilled upstox_gtt.Limiter.take_token
    upstox_gtt.Rules.Buffer.adjust_stoploss upstox_gtt.Rules.Buffer.adjust_target
    upstox_gtt.Rules.Buffer.apply_buffer upstox_gtt.Rules.Buffer.buffer_trade_type
    upstox_gtt.Rules.Buffer.compute_entry_price upstox_gtt.Rules.Buffer.find_buffer
    upstox_gtt.Rules.Buffer.get_target_buffer upstox_gtt.Rules.Timing.check
    upstox_gtt.Rules.Timing.check_time upstox_gtt.Rules.MissedEntry.check_missed_entry
    upstox_gtt.Rules.PnlGuard.allow upstox_gtt.Rules.PnlGuard.limit_hit
    upstox_gtt.Rules.TradeType.detect_trade_type upstox_gtt.GttBuilder.build_gtt_payload
    upstox_gtt.GttBuilder.resolve_lot_size
first_result = (refl, refl)

order_sent : ¬ SentNone fresh first
order_sent e = let one = first_result.1 in cc

process_signal_sends_example :
    let s1 = prepared digest nifty in
    let adj = apply_buffer half_up s1 in
    SentNone fresh first
    ⊎ ((i : Instrument) × Sanctioned settings morning half_up s1 adj fresh i
        × OrderFor settings morning s1 adj i fresh first)
process_signal_sends_example = process_signal_sends settings half_up digest morning nifty fresh

process_signal-Effect_example :
    Effect settings morning (compute_signal_hash digest nifty) "1-0" [] no_rows first
process_signal-Effect_example = process_signal-Effect settings morning half_up digest nifty fresh

-- The signal comes again, in another message and with other words for the product, after its row has
-- been activated.
abbrev again : RawSignal
again = record nifty { redis_message_id = "2-0"; product = "D" }

-- Upstox refuses the order, and accepts one that comes later.
abbrev refusing : Surroundings
refusing = record morning { net = always (response 200 (soft_error "no funds")) }

refused_result :
    (process_signal settings refusing half_up digest (some nifty) fresh).0
    ≡ failed_for (Database.upstox_reject "no funds")
unfolding upstox_gtt.Engine.State.posts upstox_gtt.Engine.Stages.if_connected
    upstox_gtt.Client.after_reply upstox_gtt.Client.can_attempt upstox_gtt.Client.record_failure
    upstox_gtt.Client.record_success upstox_gtt.Client.refused upstox_gtt.Client.request
    upstox_gtt.Client.retryable upstox_gtt.Client.run_attempts upstox_gtt.Clock.today_key
    upstox_gtt.Clock.weekday upstox_gtt.Clock.time_of_day upstox_gtt.Common.◌+ℤ◌
    upstox_gtt.Common.◌-ℤ◌ upstox_gtt.Common.◌*ℤ◌ upstox_gtt.Common.Rounding.round_div
    upstox_gtt.Database.Signals.hash_taken upstox_gtt.Database.Signals.insert_signal
    upstox_gtt.Database.Signals.message_taken upstox_gtt.Database.Writer.enqueue
    upstox_gtt.Engine.Process.after_placing upstox_gtt.Engine.Process.record_legs
    upstox_gtt.Engine.Process.rr_too_low upstox_gtt.Engine.Process.signal_to_dict
    upstox_gtt.Engine.Stages.after_insert upstox_gtt.Engine.Stages.check_targets
    upstox_gtt.Engine.Stages.check_timing upstox_gtt.Engine.Stages.check_pnl
    upstox_gtt.Engine.Stages.check_rr upstox_gtt.Engine.Stages.find_instrument
    upstox_gtt.Engine.Stages.guard_entry upstox_gtt.Engine.Stages.insert_row
    upstox_gtt.Engine.Stages.limit_rate upstox_gtt.Engine.Stages.place
    upstox_gtt.Engine.Stages.process_signal upstox_gtt.Engine.State.compute_signal_hash
    upstox_gtt.Engine.State.signal_key upstox_gtt.Instruments.lookup_key
    upstox_gtt.Instruments.resolve upstox_gtt.Instruments.same_key upstox_gtt.Limiter.acquire
    upstox_gtt.Limiter.find_limit upstox_gtt.Limiter.refilled upstox_gtt.Limiter.take_token
    upstox_gtt.Rules.Buffer.adjust_stoploss upstox_gtt.Rules.Buffer.adjust_target
    upstox_gtt.Rules.Buffer.apply_buffer upstox_gtt.Rules.Buffer.buffer_trade_type
    upstox_gtt.Rules.Buffer.compute_entry_price upstox_gtt.Rules.Buffer.find_buffer
    upstox_gtt.Rules.Buffer.get_target_buffer upstox_gtt.Rules.Timing.check
    upstox_gtt.Rules.Timing.check_time upstox_gtt.Rules.MissedEntry.check_missed_entry
    upstox_gtt.Rules.PnlGuard.allow upstox_gtt.Rules.PnlGuard.limit_hit
    upstox_gtt.Rules.TradeType.detect_trade_type upstox_gtt.GttBuilder.build_gtt_payload
    upstox_gtt.GttBuilder.resolve_lot_size
refused_result = refl

abbrev after_refusal : Engine
after_refusal = record fresh {
  tables = (process_signal settings refusing half_up digest (some nifty) fresh).1.tables;
}

failed_never_sent_example :
    SentNone after_refusal
      (process_signal settings morning half_up digest (some again) after_refusal)
failed_never_sent_example =
    failed_never_sent settings half_up digest refusing morning nifty again
      (Database.upstox_reject "no funds") fresh after_refusal refused_result
      (unfold compute_signal_hash signal_key in refl) (λ k taken. taken)
