-- ===== src/Rules/PnlGuard/Latch.antt =====
-- The daily limit is a latch: nothing that the services do lifts it on its date.
use upstox_gtt.Common.{
  ltb_ℤ, pos, ℕ, ◌<◌, ◌≡◌, ℤ, Bool, true, false, Option, none, some, List, [], ◌∷◌, refl, arith,
  Bool-cases, inl, inr, ◌==◌, subst,
}
use upstox_gtt.Clock.{today_key, today_key_near}
use upstox_gtt.Redis.{Cell, read, set_ex, update_date}
use upstox_gtt.Rules.PnlGuard.{
  Limits, Ledger, GuardOp, ask, book, fetch, allow, record_pnl, cache_capital, limit_hit, perform,
  perform_all, key_ttl, flagged, set_limit, add_pnl,
}

-- A cell that outlasts a trading date.
abbrev pub Outlasts : ℕ → Option (Cell Bool) → Type 0
Outlasts date none = ⊥
Outlasts date (some c) = (c.value ≡ true) × ((t : ℕ) → today_key t ≡ date → t < c.expires)

-- The flag `pnl_limit:{date}` is set for as long as the date lasts.
abbrev pub Latched : ℕ → Ledger → Type 0
Latched date s = Outlasts date (s.pnl_limit date)

set-Outlasts : (now : ℕ) → Outlasts (today_key now) (set_ex now true key_ttl)
set-Outlasts now = (refl, λ t h. omega (arith, today_key_near now t))

==→eq : (a b : ℕ) → (a == b) ≡ true → a ≡ b
==→eq a b h = ground arith

update-Outlasts :
    (date now : ℕ) (f : ℕ → Option (Cell Bool))
    → Outlasts date (f date)
    → Outlasts date (update_date f (today_key now) (set_ex now true key_ttl) date)
update-Outlasts date now f h = elim (Bool-cases (today_key now == date)) [
  | inl same ↦
      rw same
        (subst (λ d. Outlasts d (set_ex now true key_ttl)) (==→eq _ _ same) (set-Outlasts now))
  | inr other ↦ rw other h
]

allow-Latched :
    (lim : Limits) (date now : ℕ) (s : Ledger) → Latched date s → Latched date (allow lim now s).1
unfolding allow
allow-Latched lim date now s h =
    elim (Bool-cases (flagged (read now (s.pnl_limit (today_key now))))) [
      | inl blocked ↦ rw blocked h
      | inr open_yet ↦ rw open_yet (elim (Bool-cases (limit_hit lim now s)) [
        | inl over ↦ rw over (update-Outlasts date now s.pnl_limit h)
        | inr under ↦ rw under h
      ])
    ]

record-Latched :
    (lim : Limits) (date now : ℕ) (pnl : ℤ) (s : Ledger)
    → Latched date s
    → Latched date (record_pnl lim now pnl s)
unfolding record_pnl
record-Latched lim date now pnl s h = elim (Bool-cases (limit_hit lim now (add_pnl now pnl s))) [
  | inl over ↦ rw over (update-Outlasts date now s.pnl_limit h)
  | inr under ↦ rw under h
]

perform-Latched :
    (lim : Limits) (date : ℕ) (op : GuardOp) (s : Ledger)
    → Latched date s
    → Latched date (perform lim op s)
unfolding perform cache_capital
perform-Latched lim date (ask now) s h = allow-Latched lim date now s h
perform-Latched lim date (book now pnl) s h = record-Latched lim date now pnl s h
perform-Latched lim date (fetch now available) s h = elim (Bool-cases (ltb_ℤ (pos 0) available)) [
  | inl some_ ↦ rw some_ h
  | inr nothing ↦ rw nothing h
]

perform_all-Latched :
    (lim : Limits) (date : ℕ) (ops : List GuardOp) (s : Ledger)
    → Latched date s
    → Latched date (perform_all lim ops s)
unfolding perform_all
perform_all-Latched lim date [] s h = h
perform_all-Latched lim date (op ∷ ops) s h =
    perform_all-Latched lim date ops (perform lim op s) (perform-Latched lim date op s h)

read-Outlasts :
    (now : ℕ) (c : Option (Cell Bool)) → Outlasts (today_key now) c → flagged (read now c) ≡ true
read-Outlasts now none h = absurd h
read-Outlasts now (some c) (set, live) = ground (arith, live now refl)

Latched-refuses :
    (lim : Limits) (now : ℕ) (s : Ledger) → Latched (today_key now) s → (allow lim now s).0 ≡ false
unfolding allow
Latched-refuses lim now s h = rw (read-Outlasts now (s.pnl_limit (today_key now)) h)

set_limit-Latched : (now : ℕ) (s : Ledger) → Latched (today_key now) (set_limit now s)
set_limit-Latched now s =
    let same : (today_key now == today_key now) ≡ true = ground arith in rw same (set-Outlasts now)

-- Once a realised profit or loss has been booked that takes the day's total to the limit, no later
-- question is answered with yes on that date, whatever is booked, asked or fetched in between, in
-- any order and also if the capital grows.
pub record_pnl_latches :
    (lim : Limits) (at later : ℕ) (pnl : ℤ) (ops : List GuardOp) (s : Ledger)
    → limit_hit lim at (add_pnl at pnl s) ≡ true
    → today_key later ≡ today_key at
    → (allow lim later (perform_all lim ops (record_pnl lim at pnl s))).0 ≡ false
record_pnl_latches lim at later pnl ops s over same =
    Latched-refuses lim later (perform_all lim ops (record_pnl lim at pnl s))
      (rw same (perform_all-Latched lim (today_key at) ops (record_pnl lim at pnl s) latched))
  where
    latched : Latched (today_key at) (record_pnl lim at pnl s)
    latched = unfold record_pnl in rw over (set_limit-Latched at (add_pnl at pnl s))
