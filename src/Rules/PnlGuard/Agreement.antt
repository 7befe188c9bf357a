-- ===== src/Rules/PnlGuard/Agreement.antt =====
-- The running total in Redis and the table `daily_pnl` hold what was booked on a date.
use upstox_gtt.Common.{
  ltb_ℤ, ℕ, ◌+◌, ◌≡◌, ℤ, pos, ◌+ℤ◌, true, false, Option, none, some, List, [], ◌∷◌, refl, arith,
  int_laws, Bool-cases, inl, inr, get_or, ◌==◌, sym, if◌then◌else◌, ap, ◌∙◌, subst,
}
use upstox_gtt.Clock.{today_key, today_key_near}
use upstox_gtt.Redis.{read}
use upstox_gtt.Rules.PnlGuard.{
  Limits, DailyPnl, Ledger, GuardOp, ask, book, fetch, allow, record_pnl, cache_capital, limit_hit,
  perform, perform_all, added, marked, add_pnl,
}

abbrev pub realized : Option DailyPnl → ℤ
realized none = pos 0
realized (some r) = r.realized_pnl

abbrev pub trades : Option DailyPnl → ℕ
trades none = 0
trades (some r) = r.trade_count

-- `DailyPnLGuard` reads this total at the instant `t` of the date.
abbrev pub running_total : ℕ → ℕ → Ledger → ℤ
running_total date t s = get_or (pos 0) (read t (s.daily_pnl date))

-- The sum and the number of what a run books on a date.
abbrev pub booked : ℕ → List GuardOp → ℤ
booked date [] = pos 0
booked date (book now pnl ∷ ops) =
    if today_key now == date then pnl +ℤ booked date ops else booked date ops
booked date (_ ∷ ops) = booked date ops

abbrev pub bookings : ℕ → List GuardOp → ℕ
bookings date [] = 0
bookings date (book now pnl ∷ ops) =
    if today_key now == date then bookings date ops + 1 else bookings date ops
bookings date (_ ∷ ops) = bookings date ops

-- Both views of a date hold `total`, and the table counts `n` trades.
abbrev pub Holds : ℕ → ℤ → ℕ → Ledger → Type 0
Holds date total n s =
    ((t : ℕ) → today_key t ≡ date → running_total date t s ≡ total)
    × (realized (s.table date) ≡ total)
    × (trades (s.table date) ≡ n)

==→eq : (a b : ℕ) → (a == b) ≡ true → a ≡ b
==→eq a b h = ground arith

realized-marked : (r : Option DailyPnl) → realized (marked r) ≡ realized r
realized-marked none = refl
realized-marked (some r) = refl

trades-marked : (r : Option DailyPnl) → trades (marked r) ≡ trades r
trades-marked none = refl
trades-marked (some r) = refl

realized-added : (p : ℤ) (r : Option DailyPnl) → realized (some (added p r)) ≡ realized r +ℤ p
realized-added p none = omega int_laws
realized-added p (some r) = refl

trades-added : (p : ℤ) (r : Option DailyPnl) → trades (some (added p r)) ≡ trades r + 1
trades-added p none = refl
trades-added p (some r) = refl

-- What a booking leaves in the two keys of its own date.
record_pnl-total :
    (lim : Limits) (now t : ℕ) (pnl : ℤ) (s : Ledger)
    → today_key t ≡ today_key now
    → running_total (today_key now) t (record_pnl lim now pnl s)
      ≡ running_total (today_key now) now s +ℤ pnl
unfolding record_pnl
record_pnl-total lim now t pnl s e = let near = today_key_near now t (sym e) in ground (arith)

record_pnl-table :
    (lim : Limits) (now : ℕ) (pnl : ℤ) (s : Ledger)
    → (realized ((record_pnl lim now pnl s).table (today_key now))
        ≡ realized (s.table (today_key now)) +ℤ pnl)
      × (trades ((record_pnl lim now pnl s).table (today_key now))
          ≡ trades (s.table (today_key now)) + 1)
unfolding record_pnl
record_pnl-table lim now pnl s =
    let row = s.table (today_key now) in
    ground (
      arith,
      realized-added pnl row,
      trades-added pnl row,
      realized-marked (some (added pnl row)),
      trades-marked (some (added pnl row)),
    )

-- A booking touches no other date.
record_pnl-other :
    (lim : Limits) (date now : ℕ) (pnl : ℤ) (s : Ledger)
    → (today_key now == date) ≡ false
    → ((record_pnl lim now pnl s).daily_pnl date ≡ s.daily_pnl date)
      × ((record_pnl lim now pnl s).table date ≡ s.table date)
unfolding record_pnl
record_pnl-other lim date now pnl s h = elim (Bool-cases (limit_hit lim now (add_pnl now pnl s))) [
  | inl over ↦ rw (over, h) (refl, refl)
  | inr under ↦ rw (under, h) (refl, refl)
]

allow-same :
    (lim : Limits) (now : ℕ) (s : Ledger)
    → ((allow lim now s).1.daily_pnl ≡ s.daily_pnl) × ((allow lim now s).1.table ≡ s.table)
unfolding allow
allow-same lim now s = ground arith

book-Holds :
    (lim : Limits) (now : ℕ) (pnl total : ℤ) (n : ℕ) (s : Ledger)
    → Holds (today_key now) total n s
    → Holds (today_key now) (total +ℤ pnl) (n + 1) (record_pnl lim now pnl s)
book-Holds lim now pnl total n s (redis, table, count) =
    let (sum, number) = record_pnl-table lim now pnl s in
    (
      λ t same. record_pnl-total lim now t pnl s same ∙ ap (λ x. x +ℤ pnl) (redis now refl),
      sum ∙ ap (λ x. x +ℤ pnl) table,
      omega (arith, number),
    )

other-Holds :
    (lim : Limits) (date now : ℕ) (pnl total : ℤ) (n : ℕ) (s : Ledger)
    → (today_key now == date) ≡ false
    → Holds date total n s
    → Holds date total n (record_pnl lim now pnl s)
other-Holds lim date now pnl total n s other (redis, table, count) =
    let (key, row) = record_pnl-other lim date now pnl s other in
    (
      λ t same. ap (λ c. get_or (pos 0) (read t c)) key ∙ redis t same,
      ap realized row ∙ table,
      ap trades row ∙ count,
    )

cache_capital-Holds :
    (date now : ℕ) (total available : ℤ) (n : ℕ) (s : Ledger)
    → Holds date total n s
    → Holds date total n (cache_capital now available s)
unfolding cache_capital
cache_capital-Holds date now total available n s h = elim (Bool-cases (ltb_ℤ (pos 0) available)) [
  | inl some_ ↦ rw some_ h
  | inr nothing ↦ rw nothing h
]

allow-Holds :
    (lim : Limits) (date now : ℕ) (total : ℤ) (n : ℕ) (s : Ledger)
    → Holds date total n s
    → Holds date total n (allow lim now s).1
allow-Holds lim date now total n s (redis, table, count) =
    let (key, row) = allow-same lim now s in
    (
      λ t same. ap (λ k. get_or (pos 0) (read t (k date))) key ∙ redis t same,
      ap (λ r. realized (r date)) row ∙ table,
      ap (λ r. trades (r date)) row ∙ count,
    )

-- The same facts with the sum and the number written another way.
Holds-respects :
    (s : Ledger) {date : ℕ} {total total' : ℤ} {n n' : ℕ}
    → total ≡ total'
    → n ≡ n'
    → Holds date total n s
    → Holds date total' n' s
Holds-respects s p q (redis, table, count) = (λ t same. redis t same ∙ p, table ∙ p, count ∙ q)

perform_all-Holds :
    (lim : Limits) (date : ℕ) (ops : List GuardOp) (total : ℤ) (n : ℕ) (s : Ledger)
    → Holds date total n s
    → Holds date (total +ℤ booked date ops) (n + bookings date ops) (perform_all lim ops s)
unfolding perform_all perform
perform_all-Holds lim date [] total n s h = Holds-respects s (omega int_laws) (omega arith) h
perform_all-Holds lim date (ask now ∷ ops) total n s h =
    perform_all-Holds lim date ops total n (allow lim now s).1
      (allow-Holds lim date now total n s h)
perform_all-Holds lim date (fetch now c ∷ ops) total n s h =
    perform_all-Holds lim date ops total n (cache_capital now c s)
      (cache_capital-Holds date now total c n s h)
perform_all-Holds lim date (book now pnl ∷ ops) total n s h =
    elim (Bool-cases (today_key now == date)) [
      | inl same ↦
          Holds-respects (perform_all lim ops (record_pnl lim now pnl s)) (rw same (omega int_laws))
            (rw same (omega arith))
            (perform_all-Holds lim date ops (total +ℤ pnl) (n + 1) (record_pnl lim now pnl s) (
              subst
                (λ d. Holds d total n s → Holds d (total +ℤ pnl) (n + 1) (record_pnl lim now pnl s))
                (==→eq _ _ same) (book-Holds lim now pnl total n s) h))
      | inr other ↦
          Holds-respects (perform_all lim ops (record_pnl lim now pnl s)) (rw other refl)
            (rw other refl)
            (perform_all-Holds lim date ops total n (record_pnl lim now pnl s)
              (other-Holds lim date now pnl total n s other h))
    ]

-- On a date that begins with no key and no row, after any bookings, questions and fetched capitals
-- on whatever dates, the total that the guard reads at any instant of the date and the table's
-- `realized_pnl` are both the sum of what was booked on that date, and `trade_count` is the number
-- of those bookings.
pub perform_all-totals :
    (lim : Limits) (date t : ℕ) (ops : List GuardOp) (s : Ledger)
    → s.daily_pnl date ≡ none
    → s.table date ≡ none
    → today_key t ≡ date
    → let s' = perform_all lim ops s in
      (running_total date t s' ≡ booked date ops)
      × (realized (s'.table date) ≡ booked date ops)
      × (trades (s'.table date) ≡ bookings date ops)
perform_all-totals lim date t ops s key row same =
    let (redis, table, count) =
      perform_all-Holds lim date ops (pos 0) 0 s
        (λ t same. rw key refl, rw row refl, rw row refl) in
    (redis t same ∙ omega int_laws, table ∙ omega int_laws, omega (arith, count))
