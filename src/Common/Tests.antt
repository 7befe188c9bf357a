-- ===== src/Common/Tests.antt =====
-- Boolean tests on the native numbers and on texts, and the branches built on them.
use Prim.Native.Nat.{compare, Ordering, ℕ, ◌≤◌, ◌<◌}
use mathlib.Core.Path.{◌≡◌, refl}
use mathlib.Core.Logic.{◌⊎◌, inl, inr}
use mathlib.Core.Bool.{Bool, true, false}
use mathlib.Core.Option.{Option, none, some}
use native.Mathlib.Omega.{arith}

abbrev pub ltb : ℕ → ℕ → Bool
ltb a b = elim (compare a b) [ Ordering.lt ↦ true | _ ↦ false ]

abbrev pub leb : ℕ → ℕ → Bool
leb a b = elim (compare a b) [ Ordering.gt ↦ false | _ ↦ true ]

infix 50 ◌==◌
abbrev pub ◌==◌ : ℕ → ℕ → Bool
a == b = elim (compare a b) [ Ordering.eq ↦ true | _ ↦ false ]

infix 1 if◌then◌else◌
abbrev pub if◌then◌else◌ {ℓ} : {A : Type ℓ} → Bool → A → A → A
if true then x else y = x
if false then x else y = y

pub ltb→lt : (a b : ℕ) → ltb a b ≡ true → a < b
ltb→lt a b h = ground arith

pub lt→ltb : (a b : ℕ) → a < b → ltb a b ≡ true
lt→ltb a b h = ground arith

pub leb→le : (a b : ℕ) → leb a b ≡ true → a ≤ b
leb→le a b h = ground arith

-- To split on a computed value and keep the equation.
pub Bool-cases : (b : Bool) → (b ≡ true) ⊎ (b ≡ false)
Bool-cases true = inl refl
Bool-cases false = inr refl

module _ {ℓ} {A : Type ℓ} where
  pub Option-cases : (o : Option A) → (o ≡ none) ⊎ ((a : A) × (o ≡ some a))
  Option-cases none = inl refl
  Option-cases (some a) = inr (a, refl)

  -- `x is not None`
  abbrev pub is_some : Option A → Bool
  is_some none = false
  is_some (some a) = true

  -- SQL's `COALESCE(x, y)`.
  abbrev pub coalesce : Option A → Option A → Option A
  coalesce none y = y
  coalesce (some x) y = some x

  -- Python's `x if x is not None else y`
  abbrev pub get_or : A → Option A → A
  get_or d none = d
  get_or d (some x) = x

-- A property of a branch holds of the whole if it holds of each branch under its test.
pub if_elim {ℓ κ} :
    {A : Type ℓ} (C : A → Type κ) (b : Bool) {x y : A}
    → (b ≡ true → C x)
    → (b ≡ false → C y)
    → C (if b then x else y)
if_elim C true f g = f refl
if_elim C false f g = g refl

pub option_elim {ℓ κ μ} :
    {A : Type ℓ} {B : Type κ} (C : B → Type μ) (o : Option A) {x : B} {f : A → B}
    → (o ≡ none → C x)
    → ((a : A) → o ≡ some a → C (f a))
    → C (elim o [ none ↦ x | some a ↦ f a ])
option_elim C none h k = h refl
option_elim C (some a) h k = k a refl
