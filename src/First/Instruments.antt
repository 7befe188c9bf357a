-- ===== src/First/Instruments.antt =====
-- gtt_strategy.py: the options in memory, and the lot size. What the download and `parse_expiry_date` give
-- is given.
use upstox_gtt.Common.{
  ℤ, pos, Bool, true, false, not, ◌&&◌, ◌||◌, Option, none, some, List, [], ◌∷◌, String, str_eq,
  if◌then◌else◌, is_blank, is_some, upper, before, to_int, leb_ℤ, eqb_ℤ,
}
use upstox_gtt.First.Signals.{Signal}

-- An entry of the instrument master; `none` for a field that is missing or does not parse. Texts that the
-- source compares in upper case are in upper case, and the expiry is its date as a text.
pub record Item : Type 0 where
  pub segment : String
  pub instrument_type : String
  pub underlying_symbol : String
  pub strike_price : Option ℤ
  pub expiry : Option String
  pub instrument_key : String
  pub lot_size : Option ℤ

pub record LookupKey : Type 0 where
  pub underlying : String
  pub strike : ℤ
  pub option_type : String
  pub expiry : String

abbrev pub same_key : LookupKey → LookupKey → Bool
same_key a b =
    str_eq a.underlying b.underlying
    && eqb_ℤ a.strike b.strike
    && str_eq a.option_type b.option_type
    && str_eq a.expiry b.expiry

unfoldable pub lookup : LookupKey → List (LookupKey × Item) → Option Item
lookup k [] = none
lookup k ((j, i) ∷ m) = if same_key j k then some i else lookup k m

-- `InstrumentCache`, with `option_index` as the list of its entries.
pub record InstrumentCache : Type 0 where
  pub option_index : List (LookupKey × Item)
  pub loaded : Bool

abbrev pub is_option : Item → Bool
is_option i =
    (str_eq i.segment "NSE_FO" || str_eq i.segment "BSE_FO")
    && (str_eq i.instrument_type "CE" || str_eq i.instrument_type "PE")
    && not (is_blank i.underlying_symbol)

-- The key under which `load_instruments` indexes an entry, if it does.
unfoldable pub item_key : Item → Option LookupKey
item_key i =
    if is_option i
    then elim i.strike_price [
      | none ↦ none
      | some strike ↦ elim i.expiry [
        | none ↦ none
        | some date ↦ some (record {
          underlying = i.underlying_symbol;
          strike = strike;
          option_type = i.instrument_type;
          expiry = date;
        })
      ]
    ]
    else none

abbrev pub set_default : Option LookupKey → Item → List (LookupKey × Item) → List (LookupKey × Item)
set_default none i m = m
set_default (some k) i m = if is_some (lookup k m) then m else (k, i) ∷ m

-- `setdefault`: the first entry with a key stays.
unfoldable pub index_items : List Item → List (LookupKey × Item) → List (LookupKey × Item)
unfolding item_key lookup
index_items [] m = m
index_items (i ∷ is) m = index_items is (set_default (item_key i) i m)

-- `load_instruments`, with what the download gives: nothing where it fails, which leaves the cache.
unfoldable pub load_instruments : Option (List Item) → InstrumentCache → Bool × InstrumentCache
unfolding index_items
load_instruments none c = (false, c)
load_instruments (some items) c =
    (true, record { option_index = index_items items []; loaded = true })

abbrev pub look_up :
    (String → Option String) → String → ℤ → String → String → InstrumentCache → Option Item
look_up parse_expiry_date underlying strike option_type expiry c = elim (parse_expiry_date expiry) [
  | none ↦ none
  | some date ↦
      if is_blank date
      then none
      else lookup
          (record {
            underlying = upper underlying;
            strike = strike;
            option_type = upper option_type;
            expiry = date;
          })
          c.option_index
]

-- `find_instrument`: the list is loaded if it is not.
unfoldable pub find_instrument :
    (String → Option String)
    → Option (List Item)
    → String
    → ℤ
    → String
    → String
    → InstrumentCache
    → Option Item × InstrumentCache
unfolding load_instruments lookup upper
find_instrument parse_expiry_date download underlying strike option_type expiry c =
    if c.loaded
    then (look_up parse_expiry_date underlying strike option_type expiry c, c)
    else let (done, c1) = load_instruments download c in
      if done
      then (look_up parse_expiry_date underlying strike option_type expiry c1, c1)
      else (none, c1)

-- The value of an environment variable as a lot size, if it is a positive number.
abbrev pub positive_lot : Option ℤ → Option ℤ
positive_lot none = none
positive_lot (some n) = if leb_ℤ n (pos 0) then none else some n

abbrev pub env_lot : (String → String) → String → Option ℤ
env_lot getenv key = if is_blank (getenv key) then none else positive_lot (to_int (getenv key))

abbrev pub or_lot : Option ℤ → ℤ → ℤ
or_lot none d = d
or_lot (some n) d = n

-- `resolve_env_lot_size`; a variable that is not set is an empty text.
unfoldable pub resolve_env_lot_size : (String → String) → Signal → Item → ℤ
unfolding to_int before upper
resolve_env_lot_size getenv s i =
    let underlying = upper s.underlying in
    let plain = before "LOT_SIZE_" underlying in
    or_lot (env_lot getenv (before plain (before "_" (upper s.option_type))))
      (or_lot (env_lot getenv plain) (or_lot (positive_lot i.lot_size) (pos 1)))
