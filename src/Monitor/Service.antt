-- ===== src/Monitor/Service.antt =====
-- `main` of gtt_v2/services/price_monitor/main.py: the keys that prices are subscribed for, and the messages
-- of the engine. A price comes only for a key that is subscribed.
use upstox_gtt.Common.{
  ℤ, ◌≡◌, Bool, true, false, List, [], ◌∷◌, ◌++◌, String, str_eq, any, is_blank, refl, arith,
  if◌then◌else◌, Bool-cases, inl, inr, ◌∙◌, All,
}
use upstox_gtt.Redis.{update_key}
use upstox_gtt.Database.{Tables}
use upstox_gtt.Monitor.Checker.{Monitor, Tick, watched, check}

-- The checker, and the keys that `market_ws` is subscribed to.
pub record Service : Type 0 where
  pub checker : Monitor
  pub subscribed : String → Bool

-- `add_instrument` and `remove_instrument`.
unfoldable pub add_instrument : String → Monitor → Monitor
add_instrument key m =
    if is_blank key then m else record m { tracked_keys = update_key m.tracked_keys key true }

unfoldable pub remove_instrument : String → Monitor → Monitor
remove_instrument key m = record m { tracked_keys = update_key m.tracked_keys key false }

-- `load_initial_keys`.
unfoldable pub load_initial_keys : Tables → String → Bool
load_initial_keys t key = any (watched key) t.signals

-- The start: the keys are subscribed once.
unfoldable pub start : Tables → Service
unfolding load_initial_keys
start t = record {
  checker = record {
    thresholds = λ key. [];
    tracked_keys = load_initial_keys t;
    last_refresh = 0;
    queue = [];
    tables = t;
    cancelled = [];
  };
  subscribed = load_initial_keys t;
}

-- A message on one of the two channels, a price at Upstox, and what other services write.
pub data Happening : Type 0 where
  subscribe unsubscribe : String → Happening
  price : Tick → String → ℤ → Happening
  written : Tables → Happening

unfoldable pub happen : Happening → Service → Service
unfolding add_instrument remove_instrument
happen (subscribe key) s = record {
  checker = add_instrument key s.checker;
  subscribed = update_key s.subscribed key true;
}
happen (unsubscribe key) s = record {
  checker = remove_instrument key s.checker;
  subscribed = update_key s.subscribed key false;
}
happen (price tick key ltp) s =
    if s.subscribed key then record s { checker = check tick key ltp s.checker } else s
happen (written t) s = record s { checker = record s.checker { tables = t } }

unfoldable pub happen_all : List Happening → Service → Service
unfolding happen
happen_all [] s = s
happen_all (x ∷ xs) s = happen_all xs (happen x s)

-- No message of the engine to subscribe to the key.
abbrev pub IsUnannounced : String → Happening → Type 0
IsUnannounced key (subscribe k) = str_eq k key ≡ false
IsUnannounced key _ = Unit

happen-append :
    (xs ys : List Happening) (s : Service)
    → happen_all (xs ++ ys) s ≡ happen_all ys (happen_all xs s)
unfolding happen_all
happen-append [] ys s = refl
happen-append (x ∷ xs) ys s = happen-append xs ys (happen x s)

happen-unsubscribed :
    (key : String) (x : Happening) (s : Service)
    → IsUnannounced key x
    → s.subscribed key ≡ false
    → (happen x s).subscribed key ≡ false
unfolding happen
happen-unsubscribed key (subscribe k) s other h = rw other h
happen-unsubscribed key (unsubscribe k) s other h = ground (arith, h)
happen-unsubscribed key (price tick k ltp) s other h = elim (Bool-cases (s.subscribed k)) [
  | inl heard ↦ rw heard h
  | inr unheard ↦ rw unheard h
]
happen-unsubscribed key (written t) s other h = h

happen_all-unsubscribed :
    (key : String) (xs : List Happening) (s : Service)
    → All (IsUnannounced key) xs
    → s.subscribed key ≡ false
    → (happen_all xs s).subscribed key ≡ false
unfolding happen_all
happen_all-unsubscribed key [] s others h = h
happen_all-unsubscribed key (x ∷ xs) s (other, others) h =
    happen_all-unsubscribed key xs (happen x s) others (happen-unsubscribed key x s other h)

-- An instrument that no signal had at the start, and that no message of the engine announces since, is
-- never heard of: whatever prices, other messages and writes come, also rows of signals for it, which the
-- refresh of the thresholds takes up, a price for it that follows changes nothing.
pub unannounced_unheard :
    (t : Tables) (key : String) (xs : List Happening) (tick : Tick) (ltp : ℤ)
    → load_initial_keys t key ≡ false
    → All (IsUnannounced key) xs
    → happen_all (xs ++ price tick key ltp ∷ []) (start t) ≡ happen_all xs (start t)
unannounced_unheard t key xs tick ltp unknown others =
    let unheard : (happen_all xs (start t)).subscribed key ≡ false =
      happen_all-unsubscribed key xs (start t) others (unfold start in unknown) in
    happen-append xs (price tick key ltp ∷ []) (start t)
    ∙ (unfold happen_all happen in rw unheard refl)
