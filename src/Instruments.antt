-- ===== src/Instruments.antt =====
-- gtt_v2/shared/instruments/cache.py: the instruments in memory and in Redis. Texts that the source
-- compares in upper case are taken in upper case.
pub mod Loaded
use upstox_gtt.Common.{
  ℕ, ◌+◌, ◌==◌, Bool, true, false, ◌&&◌, ◌||◌, Option, none, some, List, [], ◌∷◌, String, str_eq,
  if◌then◌else◌,
}
use upstox_gtt.Signal.{OptionType, ce, pe, Date}

-- An entry of the instrument master; `none` for a field that is missing or does not parse.
pub record Instrument : Type 0 where
  pub segment : String
  pub instrument_type : Option OptionType
  pub underlying_symbol : String
  pub strike_price : Option ℕ
  pub expiry : Option Date
  pub instrument_key : String
  pub lot_size : Option ℕ

-- `f"{underlying}:{strike}:{opt_type}:{expiry_ymd}"`, by its parts.
pub record IndexKey : Type 0 where
  pub underlying : String
  pub strike : ℕ
  pub opt_type : Option OptionType
  pub expiry : Option Date

abbrev pub same_option : Option OptionType → Option OptionType → Bool
same_option none none = true
same_option (some ce) (some ce) = true
same_option (some pe) (some pe) = true
same_option _ _ = false

abbrev pub same_date : Option Date → Option Date → Bool
same_date none none = true
same_date (some a) (some b) = a.year == b.year && a.month == b.month && a.day == b.day
same_date _ _ = false

unfoldable pub same_key : IndexKey → IndexKey → Bool
same_key a b =
    str_eq a.underlying b.underlying
    && a.strike == b.strike
    && same_option a.opt_type b.opt_type
    && same_date a.expiry b.expiry

-- `_local`, and the Redis hashes `instruments:index` and `instruments:data:{key}`.
pub record Cache : Type 0 where
  pub local_ : List (IndexKey × Instrument)
  pub index : List (IndexKey × String)
  pub stored : List (String × Instrument)

module _ {V : Type 0} where
  unfoldable pub lookup_key : IndexKey → List (IndexKey × V) → Option V
  lookup_key k [] = none
  lookup_key k ((j, v) ∷ m) = if same_key k j then some v else lookup_key k m

  unfoldable pub lookup_text : String → List (String × V) → Option V
  lookup_text k [] = none
  lookup_text k ((j, v) ∷ m) = if str_eq k j then some v else lookup_text k m

-- The look-up in Redis, after a miss in memory; `none` is `InstrumentNotFound`.
abbrev pub from_redis : IndexKey → Cache → Option Instrument
from_redis k c = elim (lookup_key k c.index) [
  | none ↦ none
  | some key ↦ if str_eq key "" then none else lookup_text key c.stored
]

abbrev remember : IndexKey → Cache → Option Instrument → Option Instrument × Cache
remember k c none = (none, c)
remember k c (some i) = (some i, record c { local_ = (k, i) ∷ c.local_ })

-- `resolve`.
unfoldable pub resolve : IndexKey → Cache → Option Instrument × Cache
unfolding lookup_key lookup_text same_key
resolve k c = elim (lookup_key k c.local_) [
  | some i ↦ (some i, c)
  | none ↦ remember k c (from_redis k c)
]

-- The key of an entry of the master, if it is an option that `load` takes.
abbrev pub option_key : Instrument → Option IndexKey
option_key i = elim i.strike_price [
  | none ↦ none
  | some strike ↦ elim i.expiry [
    | none ↦ none
    | some date ↦ elim i.instrument_type [
      | none ↦ none
      | some t ↦
          if str_eq i.underlying_symbol "" || str_eq i.instrument_key ""
          then none
          else some (record {
            underlying = i.underlying_symbol;
            strike = strike;
            opt_type = some t;
            expiry = some date;
          })
    ]
  ]
]

unfoldable pub load_key : Instrument → Option IndexKey
load_key i = if str_eq i.segment "NSE_FO" || str_eq i.segment "BSE_FO" then option_key i else none

abbrev pub add_option : Instrument → Option IndexKey → Cache × ℕ → Cache × ℕ
add_option i none acc = acc
add_option i (some k) (c, loaded) = (
  record {
    local_ = (k, i) ∷ c.local_;
    index = (k, i.instrument_key) ∷ c.index;
    stored = (i.instrument_key, i) ∷ c.stored;
  },
  loaded + 1,
)

-- The loop of `load`: the cache and the number of options. A later entry hides an earlier one.
unfoldable pub load : List Instrument → Cache × ℕ → Cache × ℕ
unfolding load_key
load [] acc = acc
load (i ∷ rest) acc = load rest (add_option i (load_key i) acc)

unfoldable pub clear_l1 : Cache → Cache
clear_l1 c = record c { local_ = [] }
