-- ===== src/Common/Text.antt =====
-- What the services use of Python's `str`, on ASCII texts: `strip`, `upper`, `split`, `startswith` and `int`.
use Prim.Native.Nat.{ℕ, ◌+◌, ◌-◌, ◌*◌}
use Prim.Native.Char.{Char, code}
use Prim.Native.String.{String, char_at}
use mathlib.Core.Path.{◌≡◌, refl, ap, ◌∙◌}
use mathlib.Core.Bool.{Bool, true, false, ◌&&◌, ◌||◌}
use mathlib.Core.Option.{Option, none, some}
use mathlib.Core.List.{List, [], ◌∷◌}
use native.Mathlib.Omega.{arith}
use upstox_gtt.Common.Tests.{leb, ◌==◌, if◌then◌else◌}
use upstox_gtt.Common.Lists.{All}
use upstox_gtt.Common.Int.{ℤ, pos, negsuc, sub_ℕ}

abbrev pub is_blank : String → Bool
is_blank String.[] = true
is_blank (String.◌∷◌ c s) = false

abbrev between : ℕ → ℕ → ℕ → Bool
between a b c = leb a c && leb c b

abbrev pub is_space : Char → Bool
is_space c = between 9 13 (code c) || between 28 32 (code c)

unfoldable pub lstrip : String → String
lstrip String.[] = ""
lstrip (String.◌∷◌ c s) = if is_space c then lstrip s else String.◌∷◌ c s

abbrev keep_unless : Bool → Char → String → String
keep_unless b c r = if b && is_blank r then "" else String.◌∷◌ c r

unfoldable pub rstrip : String → String
rstrip String.[] = ""
rstrip (String.◌∷◌ c s) = keep_unless (is_space c) c (rstrip s)

unfoldable pub strip : String → String
unfolding lstrip rstrip
strip s = rstrip (lstrip s)

abbrev upper_char : Char → Char
upper_char c =
    if between 97 122 (code c) then char_at "ABCDEFGHIJKLMNOPQRSTUVWXYZ" (code c - 97) else c

unfoldable pub upper : String → String
upper String.[] = ""
upper (String.◌∷◌ c s) = String.◌∷◌ (upper_char c) (upper s)

abbrev lower_char : Char → Char
lower_char c =
    if between 65 90 (code c) then char_at "abcdefghijklmnopqrstuvwxyz" (code c - 65) else c

unfoldable pub lower : String → String
lower String.[] = ""
lower (String.◌∷◌ c s) = String.◌∷◌ (lower_char c) (lower s)

-- `s.startswith(t)`.
unfoldable pub starts : String → String → Bool
starts s String.[] = true
starts String.[] (String.◌∷◌ d t) = false
starts (String.◌∷◌ c s) (String.◌∷◌ d t) = code c == code d && starts s t

abbrev push : Char → List String → List String
push c [] = String.◌∷◌ c "" ∷ []
push c (p ∷ ps) = String.◌∷◌ c p ∷ ps

abbrev cut : Bool → Char → List String → List String
cut true c ps = "" ∷ ps
cut false c ps = push c ps

-- `s.split(d)`.
unfoldable pub split : Char → String → List String
split d String.[] = "" ∷ []
split d (String.◌∷◌ c s) = cut (code c == code d) c (split d s)

-- A character of a number: a digit, an underscore between digits, or another.
pub data Figure : Type 0 where
  digit : ℕ → Figure
  underscore other : Figure

abbrev figure : Char → Figure
figure c =
    if between 48 57 (code c)
    then digit (code c - 48)
    else if code c == b'_'
    then underscore
    else other

-- The digits of `int`: one underscore may stand between two of them.
unfoldable pub digits : Bool → ℕ → String → Option ℕ
digits after_digit n String.[] = if after_digit then some n else none
digits after_digit n (String.◌∷◌ c s) = elim (figure c) [
  | digit d ↦ digits true (n * 10 + d) s
  | underscore ↦ if after_digit then digits false n s else none
  | other ↦ none
]

abbrev positive : Option ℕ → Option ℤ
positive none = none
positive (some n) = some (pos n)

abbrev negative : Option ℕ → Option ℤ
negative none = none
negative (some n) = some (sub_ℕ 0 n)

abbrev signed : String → Option ℤ
unfolding digits
signed String.[] = none
signed (String.◌∷◌ c s) =
    if code c == b'-'
    then negative (digits false 0 s)
    else if code c == b'+'
    then positive (digits false 0 s)
    else positive (digits false 0 (String.◌∷◌ c s))

-- `int(s)`; `none` is the `ValueError`.
unfoldable pub to_int : String → Option ℤ
unfolding digits strip
to_int s = signed (strip s)

-- Texts written one after another, a delimiter between two.
unfoldable pub before : String → String → String
before String.[] r = r
before (String.◌∷◌ c s) r = String.◌∷◌ c (before s r)

unfoldable pub join : Char → String → List String → String
unfolding before
join d p [] = p
join d p (q ∷ ps) = before p (String.◌∷◌ d (join d q ps))

abbrev pub Avoids : Char → String → Type 0
Avoids d String.[] = Unit
Avoids d (String.◌∷◌ c s) = (code c == code d ≡ false) × Avoids d s

split-last : (d : Char) (p : String) → Avoids d p → split d p ≡ p ∷ []
unfolding split
split-last d String.[] h = refl
split-last d (String.◌∷◌ c s) (h, hs) = rw (h, split-last d s hs) refl

split-before :
    (d : Char) (p r : String) → Avoids d p → split d (before p (String.◌∷◌ d r)) ≡ p ∷ split d r
unfolding split before
split-before d String.[] r h = ground arith
split-before d (String.◌∷◌ c s) r (h, hs) = rw (h, split-before d s r hs) refl

-- Splitting gives back the texts that were joined, if none of them holds the delimiter.
pub split-join :
    (d : Char) (p : String) (ps : List String)
    → Avoids d p
    → All (Avoids d) ps
    → split d (join d p ps) ≡ p ∷ ps
unfolding join
split-join d p [] h hs = split-last d p h
split-join d p (q ∷ ps) h (k, hs) =
    split-before d p (join d q ps) h ∙ ap (◌∷◌ p) (split-join d q ps k hs)

thousand : to_int " -1_000 " ≡ some (negsuc 999)
unfolding to_int
thousand = refl

no_number : to_int "1__0" ≡ none
unfolding to_int
no_number = refl

fields : split "b" "abb" ≡ "a" ∷ "" ∷ "" ∷ []
unfolding split
fields = refl

shout : upper "ok, Go" ≡ "OK, GO"
unfolding upper
shout = refl
