-- ===== src/Redis.antt =====
-- The Redis keys that the services share: values with an expiry time (`SET … EX`, `EXPIRE`), read
-- at an instant of the clock. Instants are milliseconds.
use upstox_gtt.Common.{ℕ, Option, none, some, String, ltb, ◌==◌, str_eq, if◌then◌else◌, ◌+◌, ◌*◌}

pub record Cell {ℓ} (V : Type ℓ) : Type ℓ where
  pub value : V
  pub expires : ℕ

module _ {ℓ} {V : Type ℓ} where
  -- `GET`: a key that has expired is gone.
  abbrev pub read : ℕ → Option (Cell V) → Option V
  read now none = none
  read now (some c) = if ltb now c.expires then some c.value else none

  -- `SET key value EX seconds`.
  abbrev pub set_ex : ℕ → V → ℕ → Option (Cell V)
  set_ex now v seconds = some (record { value = v; expires = now + seconds * 1000 })

  -- A map keyed by dates, with one entry replaced.
  abbrev pub update_date : (ℕ → V) → ℕ → V → ℕ → V
  update_date f k v j = if k == j then v else f j

  -- A map keyed by texts, with one entry replaced.
  abbrev pub update_key : (String → V) → String → V → String → V
  update_key f k v j = if str_eq k j then v else f j
