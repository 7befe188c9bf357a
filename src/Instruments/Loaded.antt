-- ===== src/Instruments/Loaded.antt =====
-- The round trip through the instrument cache.
use upstox_gtt.Common.{◌≡◌, false, some, str_eq}
use upstox_gtt.Instruments.{
  Instrument, IndexKey, Cache, same_key, lookup_key, lookup_text, load_key,
}

-- The option is in memory and in both hashes of Redis.
abbrev Holds : Instrument → IndexKey → Cache → Type 0
Holds i k c =
    (lookup_key k c.local_ ≡ some i)
    × (lookup_key k c.index ≡ some i.instrument_key)
    × (lookup_text i.instrument_key c.stored ≡ some i)

-- An entry that is no option, or one with another look-up key and another instrument key.
abbrev pub IsOther : Instrument → IndexKey → Instrument → Type 0
IsOther i k y =
    (j : IndexKey)
    → load_key y ≡ some j
    → (same_key k j ≡ false) × (str_eq i.instrument_key y.instrument_key ≡ false)
