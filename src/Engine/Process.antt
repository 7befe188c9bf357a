-- ===== src/Engine/Process.antt =====
-- `process_signal` of gtt_v2/services/trading_engine/main.py, stage by stage.
use upstox_gtt.Common.{
  ℕ, ℤ, pos, ◌-ℤ◌, ◌*ℤ◌, ltb_ℤ, Bool, ◌&&◌, Option, none, some, List, [], ◌∷◌, ◌++◌, String,
  if◌then◌else◌,
}
use upstox_gtt.Signal.{
  Action, is_buy, RawSignal, AdjustedSignal, Status, pending, failed, blocked, Strategy, entry,
  target, stoploss_leg,
}
use upstox_gtt.Client.{Result, ok, reject, http_error, raised, Outcome, request}
use upstox_gtt.Client
use upstox_gtt.Database.{BlockReason, SignalData, RuleData, Tables}
use upstox_gtt.Database
use upstox_gtt.Database.Writer.{DbWrite, write_status, write_rule, write_block, enqueue}
use upstox_gtt.GttBuilder.{entry_trigger}
use upstox_gtt.Engine.State.{
  Engine, Verdict, blocked_for, failed_for, placed, raises, other_error, http_status,
}

-- `_signal_to_dict`.
abbrev pub adjusted {ℓ} :
    {A : Type ℓ} → (AdjustedSignal → Option A) → Option AdjustedSignal → Option A
adjusted f none = none
adjusted f (some adj) = f adj

abbrev pub targets_of : Option AdjustedSignal → List ℤ
targets_of none = []
targets_of (some adj) = adj.targets_adj

unfoldable pub signal_to_dict : RawSignal → Option AdjustedSignal → Status → SignalData
signal_to_dict s adj status = record {
  redis_message_id = s.redis_message_id;
  signal_hash = s.signal_hash;
  action = s.action;
  underlying = s.underlying;
  strike = s.strike;
  option_type = s.option_type;
  expiry = s.expiry;
  product = s.product;
  quantity_lots = s.quantity_lots;
  instrument_key = s.instrument_key;
  entry_low_raw = s.entry_low;
  entry_high_raw = s.entry_high;
  stoploss_raw = s.stoploss;
  targets_raw = s.targets;
  entry_low_adj = adjusted (λ a. some a.entry_price) adj;
  entry_high_adj = adjusted (λ a. a.entry_high_adj) adj;
  stoploss_adj = adjusted (λ a. some a.stoploss_adj) adj;
  targets_adj = targets_of adj;
  trade_type = s.trade_type;
  safe_only = s.safe_only;
  risk_only = s.risk_only;
  status = status;
}

abbrev pub push : DbWrite → Engine → Engine
push w e = record e { queue = enqueue w e.queue }

-- `_block_signal`.
unfoldable pub block_signal : RawSignal → BlockReason → Engine → Verdict × Engine
block_signal s reason e =
    (blocked_for reason, push (write_block (signal_to_dict s none blocked) reason) e)

abbrev pub fail_signal : ℕ → BlockReason → Engine → Verdict × Engine
fail_signal id reason e =
    (failed_for reason, push (write_status id failed (some reason) none none) e)

-- Risk and reward of the raw prices, and the test of their ratio against 1:2.
abbrev pub risk : RawSignal → ℤ
risk s = if is_buy s.action then s.entry_low -ℤ s.stoploss else s.stoploss -ℤ s.entry_low

abbrev pub reward : RawSignal → ℤ → ℤ
reward s t = if is_buy s.action then t -ℤ s.entry_low else s.entry_low -ℤ t

unfoldable pub rr_too_low : RawSignal → ℤ → Bool
rr_too_low s t = ltb_ℤ (pos 0) (risk s) && ltb_ℤ (reward s t) (pos 2 *ℤ risk s)

-- The three rows of `gtt_rules` for a GTT.
abbrev pub rule : ℕ → String → Action → Strategy → String → ℤ → DbWrite
rule id gtt_id action strategy trigger_type trigger_price = write_rule (record {
  signal_id = id;
  gtt_order_id = gtt_id;
  strategy = strategy;
  trigger_type = some trigger_type;
  trigger_price = some trigger_price;
  transaction_type = some action;
  status = some "PENDING";
  order_id = none;
  message = none;
})

abbrev pub record_gtt : ℕ → RawSignal → AdjustedSignal → ℤ → String → Engine → Engine
record_gtt id s adj target_adj gtt_id e =
    push (rule id gtt_id s.action stoploss_leg "IMMEDIATE" adj.stoploss_adj) (
      push (rule id gtt_id s.action target "IMMEDIATE" target_adj)
        (push (rule id gtt_id s.action entry (entry_trigger s.action) adj.entry_price) e))

unfoldable pub record_legs : ℕ → RawSignal → AdjustedSignal → ℤ → List String → Engine → Engine
record_legs id s adj target_adj [] e = e
record_legs id s adj target_adj (gtt_id ∷ rest) e =
    record_legs id s adj target_adj rest (record_gtt id s adj target_adj gtt_id e)

-- The last steps: the status with the order ids, and the message to the price monitor.
abbrev pub finish : ℕ → String → AdjustedSignal → List String → Engine → Verdict × Engine
finish id instrument_key adj gtt_ids e = (
  placed gtt_ids,
  let e1 = push (write_status id pending none (some gtt_ids) adj.ltp_at_check) e in
      record e1 { subscribed = e1.subscribed ++ instrument_key ∷ [] },
)

-- What follows from the result of `place_gtt`.
unfoldable pub after_placing :
    ℕ → String → RawSignal → AdjustedSignal → ℤ → Result (List String) → Engine → Verdict × Engine
unfolding record_legs
after_placing id key s adj target_adj (ok []) e = fail_signal id Database.no_gtt_ids_returned e
after_placing id key s adj target_adj (ok (g ∷ gs)) e =
    finish id key adj (g ∷ gs) (record_legs id s adj target_adj (g ∷ gs) e)
after_placing id key s adj target_adj (reject msg) e = fail_signal id (Database.upstox_reject msg) e
after_placing id key s adj target_adj Client.circuit_open e = fail_signal id Database.circuit_open e
after_placing id key s adj target_adj Client.max_retries e = fail_signal id Database.max_retries e
after_placing id key s adj target_adj (http_error status) e = (raises (http_status status), e)
after_placing id key s adj target_adj raised e = (raises other_error, e)
