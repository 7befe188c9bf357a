-- ===== src/Limiter/Budget.antt =====
-- The token bucket spends no more than it was given.
use upstox_gtt.Common.{
  pos-*ℤ, pos-+ℤ, pos--ℤ, ℕ, ◌+◌, ◌-◌, ◌*◌, ◌≤◌, ◌<◌, ◌≡◌, Bool-cases, inl, inr, ltb, pos, sub_ℕ,
  ◌-ℤ◌, Bool, true, false, Option, none, some, List, [], ◌∷◌, refl, sym, ap, arith, lt→ltb,
  if◌then◌else◌, ltb_ℤ,
}
use upstox_gtt.Redis.{Cell, read}
use upstox_gtt.Limiter.{RateLimit, Bucket, token, refilled, store, take_token, grants}

-- A full bucket's worth of tokens comes in while the hash would live.
abbrev pub IsQuick : RateLimit → Type 0
IsQuick l = l.max_tokens ≤ 60_000 * l.refill_per_ms

sub_later : (a b : ℕ) → b ≤ a → sub_ℕ a b ≡ pos (a - b)
sub_later a b h = ground arith

-- What a bucket of `k` tokens holds after `gap` milliseconds, in natural numbers.
abbrev pub level : RateLimit → ℕ → ℕ → ℕ
level l k gap = let x = k + gap * l.refill_per_ms in if ltb l.max_tokens x then l.max_tokens else x

level-le : (l : RateLimit) (k gap : ℕ) → level l k gap ≤ k + gap * l.refill_per_ms
level-le l k gap = ground arith

level_full :
    (l : RateLimit) (k gap : ℕ)
    → l.max_tokens ≤ gap * l.refill_per_ms
    → level l k gap ≡ l.max_tokens
level_full l k gap h = ground arith

refilled-level :
    (l : RateLimit) (k last gap : ℕ)
    → refilled l (last + gap) (some (record { tokens = pos k; last_refill = last }))
      ≡ pos (level l k gap)
unfolding refilled
refilled-level l k last gap =
    let e : last + gap - last ≡ gap = omega arith in
    rw (sub_later (last + gap) last (omega arith)) (rw e (rw pos-*ℤ (rw pos-+ℤ (ground arith))))

-- The times of calls, each a gap after the one before.
abbrev pub schedule : ℕ → List ℕ → List ℕ
schedule last [] = []
schedule last (gap ∷ gaps) = (last + gap) ∷ schedule (last + gap) gaps

abbrev pub total : List ℕ → ℕ
total [] = 0
total (gap ∷ gaps) = gap + total gaps

-- After an hour or a minute the bucket is full again, so that its key may expire.
wait_fills : (gap r max : ℕ) → max ≤ 60_000 * r → 60_000 ≤ gap → max ≤ gap * r
wait_fills gap r max h k = grind arith

refilled_after :
    (l : RateLimit) (k last gap : ℕ)
    → IsQuick l
    → refilled l (last + gap) (read (last + gap) (store last (pos k))) ≡ pos (level l k gap)
refilled_after l k last gap quick = elim (Bool-cases (ltb (last + gap) (last + 60_000))) [
  | inl live ↦ rw live (refilled-level l k last gap)
  | inr gone ↦
      let full =
        level_full l k gap (wait_fills gap l.refill_per_ms l.max_tokens quick (ground arith)) in
      rw gone (unfold refilled in ap pos (sym full))
]

-- What a call leaves of `x` tokens.
abbrev pub spend : ℕ → ℕ → Bool × Option (Cell Bucket)
spend now x =
    if ltb x token then (false, store now (pos x)) else (true, store now (pos (x - token)))

spend_lem :
    (now x : ℕ)
    → (if ltb_ℤ (pos x) (pos token)
        then (false, store now (pos x))
        else (true, store now (pos x -ℤ pos token)))
      ≡ spend now x
spend_lem now x = ground (arith, pos--ℤ x token)

take_token-spend :
    (l : RateLimit) (k last gap : ℕ)
    → IsQuick l
    → take_token l (last + gap) (store last (pos k)) ≡ spend (last + gap) (level l k gap)
unfolding take_token
take_token-spend l k last gap quick =
    rw (refilled_after l k last gap quick) (spend_lem (last + gap) (level l k gap))

-- The tokens that `n` grants use after a call at `now` that leaves the bucket as in `spend`.
granted : RateLimit → ℕ → List ℕ → Bool × Option (Cell Bucket) → ℕ
granted l now gaps (ok, cell) =
    let n = (grants l (schedule now gaps) cell).0 in if ok then n + 1 else n

granted-spend :
    (l : RateLimit) (gaps : List ℕ) (now x : ℕ)
    → ((k : ℕ)
        → (grants l (schedule now gaps) (store now (pos k))).0 * token
          ≤ k + total gaps * l.refill_per_ms)
    → granted l now gaps (spend now x) * token ≤ x + total gaps * l.refill_per_ms
unfolding granted
granted-spend l gaps now x ih = elim (Bool-cases (ltb x token)) [
  | inl dry ↦ rw dry (ih x)
  | inr wet ↦ rw wet (let enough : token ≤ x = ground arith in omega (arith, ih (x - token)))
]

grants-spend :
    (l : RateLimit) (gaps : List ℕ) (k last : ℕ)
    → IsQuick l
    → (grants l (schedule last gaps) (store last (pos k))).0 * token
      ≤ k + total gaps * l.refill_per_ms
unfolding grants granted
grants-spend l [] k last quick = omega arith
grants-spend l (gap ∷ gaps) k last quick = rw (take_token-spend l k last gap quick) (
    omega (
      arith,
      level-le l k gap,
      granted-spend l gaps (last + gap) (level l k gap)
          (λ k'. grants-spend l gaps k' (last + gap) quick),
    ))

first_call : (l : RateLimit) (now : ℕ) → take_token l now none ≡ spend now l.max_tokens
unfolding take_token refilled
first_call l now = spend_lem now l.max_tokens

-- Of calls at any times that do not go back, the first on a full bucket, no more are let through
-- than the bucket's size and the refill since that first call pay for. The bucket must fill within
-- the minute after which its key expires.
pub grants_bounded :
    (l : RateLimit) (start : ℕ) (gaps : List ℕ)
    → IsQuick l
    → (grants l (start ∷ schedule start gaps) none).0 * token
      ≤ l.max_tokens + total gaps * l.refill_per_ms
unfolding grants granted
grants_bounded l start gaps quick =
    rw (first_call l start)
      (granted-spend l gaps start l.max_tokens (λ k. grants-spend l gaps k start quick))

-- A bucket that waits until the refill pays for a token lets the next call through, if it has room
-- for a token at all.
pub take_token_after_wait :
    (l : RateLimit) (k last gap : ℕ)
    → IsQuick l
    → token ≤ l.max_tokens
    → token ≤ gap * l.refill_per_ms
    → (take_token l (last + gap) (store last (pos k))).0 ≡ true
take_token_after_wait l k last gap quick room paid =
    rw (take_token-spend l k last gap quick) (ground arith)

-- That the hash expires a minute after a call cannot be seen: a later call is answered, and leaves
-- the bucket, as if the hash had been kept.
pub expiry_unseen :
    (l : RateLimit) (k last gap forever : ℕ)
    → IsQuick l
    → last + gap < forever
    → take_token l (last + gap) (store last (pos k))
      ≡ take_token l (last + gap) (
          some
            (record { value = record { tokens = pos k; last_refill = last }; expires = forever }))
unfolding take_token
expiry_unseen l k last gap forever quick long =
    rw (refilled_after l k last gap quick)
      (rw (lt→ltb _ _ long) (rw (refilled-level l k last gap) refl))
