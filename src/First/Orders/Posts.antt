-- ===== src/First/Orders/Posts.antt =====
-- What is posted to Upstox, and when the answer is a placed order.
use upstox_gtt.Common.{
  ℕ, zero, suc, ◌+◌, ◌≤◌, ◌<◌, ◌==◌, ℤ, pos, ◌*ℤ◌, ◌≤ℤ◌, ◌≡◌, ◌⊎◌, inl, inr, Bool, true, false,
  Option, none, some, List, [], ◌∷◌, String, refl, ap, ◌∙◌, arith, upper, get_or, leb_ℤ, ltb_ℤ, All,
  is_empty, if_elim, Bool-cases, if◌then◌else◌,
}
use upstox_gtt.First.Signals.{Signal}
use upstox_gtt.First.Instruments.{Item, InstrumentCache, find_instrument, resolve_env_lot_size}
use upstox_gtt.First.Orders.{
  Payload, Body, success, failure, not_json, Reply, response, timeout, other_exception, placed,
  Surroundings, Outcome, missing, minimum, min_target, build_payload, max_retries, next_attempt,
  post_attempts, replicate, read_reply, with_item, place_gtt_order,
}

minimum-le : (m : ℤ) (ts : List ℤ) → (minimum m ts ≤ℤ m) × All (λ t. minimum m ts ≤ℤ t) ts
unfolding minimum
minimum-le m [] = (omega arith, tt)
minimum-le m (t ∷ ts) =
    let next = if ltb_ℤ t m then t else m in
    let (le, all) = minimum-le next ts in
    let small : (next ≤ℤ m) × (next ≤ℤ t) = ground arith in (omega arith, (omega arith, all))

-- The price of the TARGET leg is at most every target of the signal: for a BUY the nearest one, and for a
-- SELL the farthest.
pub min_target_least : (ts : List ℤ) → All (λ t. min_target ts ≤ℤ t) ts
min_target_least [] = tt
min_target_least (t ∷ ts) = minimum-le t ts

post_attempts-calls : (n k : ℕ) (net : ℕ → Reply) → (post_attempts n k net).1 ≤ n
unfolding post_attempts
post_attempts-calls zero k net = omega arith
post_attempts-calls (suc n) k net = ground (arith, post_attempts-calls n (k + 1) net)

-- The first `n` attempts from the `k`-th on timed out.
abbrev pub TimedOut : (ℕ → Reply) → ℕ → ℕ → Type 0
TimedOut net k zero = Unit
TimedOut net k (suc n) = (net k ≡ timeout) × TimedOut net (k + 1) n

-- The attempt whose answer ends the loop: those before it timed out.
abbrev pub Answered : (ℕ → Reply) → ℕ → ℕ → ℕ → Body → Type 0
Answered net k i status body = (net (k + i) ≡ response status body) × TimedOut net k i

next_attempt-response :
    (last : Bool) (r : Reply) (s : Reply × ℕ) (status : ℕ) (body : Body)
    → (next_attempt last r s).0 ≡ response status body
    → ((r ≡ response status body) × ((next_attempt last r s).1 ≡ 1))
      ⊎ ((r ≡ timeout) × (s.0 ≡ response status body) × ((next_attempt last r s).1 ≡ suc s.1))
unfolding next_attempt
next_attempt-response true timeout s status body h = cc
next_attempt-response false timeout s status body h = inr (refl, h, refl)
next_attempt-response last other_exception s status body h = cc
next_attempt-response last (response st b) s status body h = inl (h, refl)

post_attempts-response :
    (n k status : ℕ) (body : Body) (net : ℕ → Reply)
    → (post_attempts n k net).0 ≡ response status body
    → (i : ℕ) × (i < n) × Answered net k i status body × ((post_attempts n k net).1 ≡ suc i)
unfolding post_attempts
post_attempts-response zero k status body net h = cc
post_attempts-response (suc n) k status body net h =
    let later = post_attempts n (k + 1) net in
    elim (next_attempt-response (n == 0) (net k) later status body h) [
      | inl (now, once) ↦
          let there : net (k + 0) ≡ response status body = ap net (omega arith) ∙ now in
          (0, omega arith, (there, tt), once)
      | inr (late, more, again) ↦
          let (i, below, (answer, before), calls) =
            post_attempts-response n (k + 1) status body net more in
          let there : net (k + suc i) ≡ response status body = ap net (omega arith) ∙ answer in
          (suc i, omega arith, (there, (late, before)), again ∙ ap suc calls)
    ]

-- What a post has passed, and its payload.
pub record Checked (env : Surroundings) (s : Signal) (c : InstrumentCache) (p : Payload)
    : Type 0 where
  pub complete : missing s ≡ []
  pub item : Item
  pub found :
      (find_instrument env.parse_expiry_date env.download
        (upper s.underlying)
        (get_or (pos 0) s.strike)
        (upper s.option_type)
        s.expiry
        c).0
      ≡ some item
  pub positive : leb_ℤ (s.quantity *ℤ resolve_env_lot_size env.getenv s item) (pos 0) ≡ false
  pub payload :
      p ≡ build_payload s item.instrument_key (s.quantity *ℤ resolve_env_lot_size env.getenv s item)

-- Nothing was posted, or one payload that passed the checks, one to three times.
abbrev pub Posts : Surroundings → Signal → InstrumentCache → Outcome → Type 0
Posts env s c o =
    (o.posts ≡ [])
    ⊎ ((p : Payload) × (calls : ℕ) × Checked env s c p
        × (calls ≤ max_retries)
        × (o.posts ≡ replicate calls p))

with_item-Posts :
    (env : Surroundings) (net : ℕ → Reply) (s : Signal) (c : InstrumentCache)
    (found : Option Item × InstrumentCache)
    → missing s ≡ []
    → find_instrument env.parse_expiry_date env.download
        (upper s.underlying)
        (get_or (pos 0) s.strike)
        (upper s.option_type)
        s.expiry
        c
      ≡ found
    → Posts env s c (with_item env net s found)
with_item-Posts env net s c (none, c') full same = inl refl
with_item-Posts env net s c (some i, c') full same =
    let quantity = s.quantity *ℤ resolve_env_lot_size env.getenv s i in
    if_elim (Posts env s c) (leb_ℤ quantity (pos 0)) (λ small. inl refl)
      λ enough. inr (
        build_payload s i.instrument_key quantity,
        (post_attempts max_retries 0 net).1,
        record {
          complete = full;
          item = i;
          found = ap (λ x. x.0) same;
          positive = enough;
          payload = refl;
        },
        post_attempts-calls max_retries 0 net,
        refl,
      )

is_empty-nil : (xs : List String) → is_empty xs ≡ true → xs ≡ []
is_empty-nil [] h = refl
is_empty-nil (x ∷ xs) h = cc

-- Placing a signal posts nothing, or one and the same payload at most three times; this only if no field of
-- the signal is missing, its instrument is found, and its lots times the lot size are positive; the
-- payload has that quantity, the prices of the signal, and the instrument that was found.
pub place_gtt_order-Posts :
    (env : Surroundings) (net : ℕ → Reply) (s : Signal) (c : InstrumentCache)
    → Posts env s c (place_gtt_order env net s c)
unfolding place_gtt_order
place_gtt_order-Posts env net s c =
    if_elim (Posts env s c) (is_empty (missing s))
      (λ full. with_item-Posts env net s c _ (is_empty-nil (missing s) full) refl)
      (λ lacks. inl refl)

-- A result that says so much: the attempt that answered, and what it answered.
abbrev pub Placed : (ℕ → Reply) → Option (List String) → Outcome → Type 0
Placed net ids o =
    (i : ℕ) × (i < max_retries)
    × Answered net 0 i 200 (success ids)
    × ((p : Payload) × (o.posts ≡ replicate (suc i) p))

read_reply-placed :
    (env : Surroundings) (p q : Payload) (r : Reply) (ids : Option (List String)) (key : String)
    (ltp : Option ℤ)
    → read_reply env p r ≡ placed ids key ltp q
    → r ≡ response 200 (success ids)
read_reply-placed env p q timeout ids key ltp h = cc
read_reply-placed env p q other_exception ids key ltp h = cc
read_reply-placed env p q (response status (success xs)) ids key ltp h = ground arith
read_reply-placed env p q (response status failure) ids key ltp h = ground arith
read_reply-placed env p q (response status not_json) ids key ltp h = ground arith

with_item_placed :
    (env : Surroundings) (net : ℕ → Reply) (s : Signal) (found : Option Item × InstrumentCache)
    (ids : Option (List String)) (key : String) (ltp : Option ℤ) (p : Payload)
    → (with_item env net s found).result ≡ placed ids key ltp p
    → Placed net ids (with_item env net s found)
with_item_placed env net s (none, c) ids key ltp p h = cc
with_item_placed env net s (some item, c) ids key ltp p h =
    let quantity = s.quantity *ℤ resolve_env_lot_size env.getenv s item in
    elim (Bool-cases (leb_ℤ quantity (pos 0))) [
      | inl small ↦ absurd (cc (rw small at h))
      | inr enough ↦
          let payload = build_payload s item.instrument_key quantity in
          let (i, below, answered, calls) =
            post_attempts-response max_retries 0 200 (success ids) net (
              read_reply-placed env payload p (post_attempts max_retries 0 net).0 ids key ltp
                (rw enough at h)) in
          (i, below, answered, (payload, rw enough (ap (λ n. replicate n payload) calls)))
    ]

-- A signal is reported as placed only if one of the three attempts was answered with the status 200 and
-- `success`, with the order ids that are reported, and every attempt before it timed out; as many
-- payloads were posted as attempts were made.
pub place_gtt_order_placed :
    (env : Surroundings) (net : ℕ → Reply) (s : Signal) (c : InstrumentCache)
    (ids : Option (List String)) (key : String) (ltp : Option ℤ) (p : Payload)
    → (place_gtt_order env net s c).result ≡ placed ids key ltp p
    → Placed net ids (place_gtt_order env net s c)
unfolding place_gtt_order
place_gtt_order_placed env net s c ids key ltp p h = elim (Bool-cases (is_empty (missing s))) [
  | inl full ↦
      let found =
        find_instrument env.parse_expiry_date env.download (upper s.underlying)
          (get_or (pos 0) s.strike) (upper s.option_type) s.expiry c in
      rw full (with_item_placed env net s found ids key ltp p (rw full at h))
  | inr lacks ↦ absurd (cc (rw lacks at h))
]
