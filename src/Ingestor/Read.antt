-- ===== src/Ingestor/Read.antt =====
-- The messages of the ingestor as the engine's parser reads them: gtt_v2/services/signal_ingestor/telegram_listener.py
-- with gtt_v2/shared/signal/parser.py.
use upstox_gtt.Common.{
  to_int, keep, not, map, strip, pos, leb_ℤ, ℤ, ◌≡◌, Bool, true, false, Option, none, some, String,
  refl, subst, split, upper, is_blank,
}
use upstox_gtt.Signal.{Date, RawSignal, validate_prices-IsValid}
use upstox_gtt.Signal.Parser.{
  Reading, read, no_match, raised, ◌>>=◌, optional, all_of, raise_if, or_none, or_raise, to_action,
  action_text, to_option_type, is_yes, checked, get, field, template_text, parse_strict_template,
  parse_fields, parse_message_to_signal,
}
use upstox_gtt.Ingestor.{
  Delivery, TradingSignal, flag, mentions, safe_only_re, risk_only_re, payload,
}

-- What holds of a value that is read.
abbrev Reads {ℓ κ} : {A : Type ℓ} → (A → Type κ) → Reading A → Type κ
Reads P (read a) = P a
Reads P no_match = Unit
Reads P raised = Unit

bind-Reads {ℓ κ μ} :
    {A : Type ℓ} {B : Type κ} (P : B → Type μ) (f : A → Reading B) (r : Reading A)
    → ((a : A) → Reads P (f a))
    → Reads P (r >>= f)
bind-Reads P f (read a) h = h a
bind-Reads P f no_match h = tt
bind-Reads P f raised h = tt

is_yes-flag : (b : Bool) → is_yes (flag b) ≡ b
unfolding upper
is_yes-flag true = refl
is_yes-flag false = refl

-- The flags of a text, and no average.
abbrev pub Flagged : String → RawSignal → Type 0
Flagged text s =
    (s.average_level ≡ none)
    × (s.safe_only ≡ mentions safe_only_re text)
    × (s.risk_only ≡ mentions risk_only_re text)

checked-Flagged :
    (text id : String) (r : Reading RawSignal) (s : RawSignal)
    → Reads (Flagged text) r
    → checked id r ≡ some s
    → Flagged text s
checked-Flagged text id (read t) s flagged h =
    let (_, same) = validate_prices-IsValid (record t { redis_message_id = id }) s h in
    subst (Flagged text) same flagged
checked-Flagged text id no_match s flagged h = cc
checked-Flagged text id raised s flagged h = cc

flags_read :
    (text : String)
    → (Path (Option ℤ) none none)
      × (is_yes (flag (mentions safe_only_re text)) ≡ mentions safe_only_re text)
      × (is_yes (flag (mentions risk_only_re text)) ≡ mentions risk_only_re text)
flags_read text =
    (refl, is_yes-flag (mentions safe_only_re text), is_yes-flag (mentions risk_only_re text))

module _ (show_price show_int : ℤ → String) (to_float : String → Option ℤ)
    (parse_expiry_date : String → Option Date) (default : ℤ) where
  fields-Flagged :
      (d : Delivery) (t : TradingSignal)
      → Reads
          (Flagged d.text)
          (parse_fields to_float parse_expiry_date default (payload show_price show_int d t))
  unfolding parse_fields get
  fields-Flagged d t =
      let m = payload show_price show_int d t in
      bind-Reads (Flagged d.text) _ (optional to_int (field "strike" m)) (λ strike.
        bind-Reads (Flagged d.text) _ (optional to_float (field "entry_low" m)) (λ low.
          bind-Reads (Flagged d.text) _ (optional to_float (field "entry_high" m)) (λ high.
            bind-Reads (Flagged d.text) _ (optional to_float (field "stoploss" m)) (λ stop.
              bind-Reads (Flagged d.text) _
                (all_of to_float
                  (keep (λ t. not (is_blank t)) (map strip (split "/" (field "targets" m)))))
                (λ targets.
                  bind-Reads (Flagged d.text) _ (raise_if (leb_ℤ default (pos 0))) (λ positive.
                    bind-Reads (Flagged d.text) _ (or_none low) (λ entry.
                      bind-Reads (Flagged d.text) _ (or_none stop) (λ stoploss.
                        bind-Reads (Flagged d.text) _ (or_raise (to_action (action_text m)))
                          (λ action.
                            bind-Reads (Flagged d.text) _
                              (to_option_type (upper (field "option_type" m)))
                              (λ option_type. flags_read d.text))))))))))

  -- Of a signal that was put into the stream, the engine reads the flags for safe and for risky traders that
  -- the text of Telegram mentions, and never an average.
  pub ingested_flags :
      (d : Delivery) (t : TradingSignal) (id : String) (s : RawSignal)
      → parse_message_to_signal to_float parse_expiry_date default
          (payload show_price show_int d t)
          id
        ≡ some s
      → Flagged d.text s
  unfolding parse_message_to_signal template_text get parse_strict_template
  ingested_flags d t id s h =
      checked-Flagged d.text id
        (parse_fields to_float parse_expiry_date default (payload show_price show_int d t)) s
        (fields-Flagged d t) h
