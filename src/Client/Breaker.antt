-- ===== src/Client/Breaker.antt =====
-- What opens the circuit breaker, and what it then keeps back.
use upstox_gtt.Common.{
  ℕ, zero, suc, ◌+◌, ◌≤◌, ◌<◌, ◌≡◌, ◌≢◌, Bool, true, false, not, ◌&&◌, none, some, refl, arith,
  Bool-cases, inl, inr, ◌==◌, List, [], ◌∷◌, All,
}
use upstox_gtt.Client.{
  CircuitBreaker, closed, recovery_ms, can_attempt, record_success, record_failure, Body, response,
  no_connection, Attempt, circuit_open, max_retries, Outcome, retryable, refused, max_retry,
  read_body, after_reply, run_attempts, request, run_requests,
}

module _ {ℓ} {J : Type ℓ} where
  -- Every attempt is met by a response, or every attempt by a timeout.
  abbrev pub Responds : (ℕ → Attempt J) → Type ℓ
  Responds net = (k : ℕ) → (status : ℕ) × (body : Body J) × ((net k).reply ≡ response status body)

  abbrev pub TimesOut : (ℕ → Attempt J) → Type ℓ
  TimesOut net = (k : ℕ) → (net k).reply ≡ no_connection

  -- A breaker that opened less than a minute ago lets no call through and stays as it is.
  pub open_sends_nothing :
      (net : ℕ → Attempt J) (c : CircuitBreaker) (t : ℕ)
      → c.opened_at ≡ some t
      → (net 0).asked < t + recovery_ms
      → request net c ≡ record { result = circuit_open; circuit = c; calls = 0 }
  unfolding request
  open_sends_nothing net c t opened soon = ground arith

  -- The request came to an end at the server, with the breaker shut again.
  abbrev pub Finishes : Outcome J → Type ℓ
  Finishes o = (o.circuit ≡ closed) × (o.result ≢ max_retries) × (o.result ≢ circuit_open)

  after_reply-Finishes :
      (last : Bool) (status : ℕ) (body : Body J) (c failed : CircuitBreaker) (rest : Outcome J)
      → (last ≡ false → Finishes rest)
      → Finishes (after_reply last (response status body) c failed rest)
  unfolding after_reply record_success
  after_reply-Finishes last status body c failed rest h = elim (Bool-cases (refused status)) [
    | inl fatal ↦ rw fatal (refl, λ e. cc, λ e. cc)
    | inr other ↦ elim (Bool-cases (retryable status && not last)) [
      | inl again ↦ rw (other, again) (h (ground arith))
      | inr final ↦ rw (other, final) (refl, ground arith, ground arith)
    ]
  ]

  run_attempts-Finishes :
      (n k : ℕ) (net : ℕ → Attempt J) (c : CircuitBreaker)
      → Responds net
      → c.opened_at ≡ none
      → c.failures + n ≤ 4
      → 0 < n
      → Finishes (run_attempts n k net c)
  unfolding run_attempts record_failure can_attempt
  run_attempts-Finishes zero k net c replies shut few some_left = absurd (omega arith)
  run_attempts-Finishes (suc n) k net c replies shut few some_left =
      let (status, body, e) = replies k in
      let failed = record_failure (net k).answered c in
      let rest = run_attempts n (k + 1) net failed in
      let may : can_attempt (net k).asked c ≡ true = ground arith in
      rw may (
        rw e (
          after_reply-Finishes (n == 0) status body c failed rest λ more.
            run_attempts-Finishes n (k + 1) net failed replies (ground arith) (omega arith)
              (ground arith)))

  -- Responses never open the breaker: after any number of requests that the server answers at every
  -- attempt, with whatever statuses, errors such as 503 included, a breaker that was closed is
  -- closed with no failure counted.
  pub responses_never_open :
      (nets : List (ℕ → Attempt J)) → All Responds nets → run_requests nets closed ≡ closed
  unfolding run_requests request
  responses_never_open [] h = refl
  responses_never_open (net ∷ nets) (replies, rest) =
      rw (run_attempts-Finishes max_retry 0 net closed replies refl (omega arith) (omega arith)).0
        (responses_never_open nets rest)

  -- If all three responses have a status to retry on, such as 503, the request does not raise
  -- `MaxRetriesError`: it ends as the body of the third response says, so that JSON without an error
  -- message is returned as a success, and the breaker counts no failure.
  pub third_error_returned :
      (net : ℕ → Attempt J) (status : ℕ → ℕ) (body : ℕ → Body J)
      → ((k : ℕ) → (net k).reply ≡ response (status k) (body k))
      → ((k : ℕ) → (retryable (status k) ≡ true) × (refused (status k) ≡ false))
      → request net closed ≡ record { result = read_body (body 2); circuit = closed; calls = 3 }
  unfolding request run_attempts after_reply can_attempt record_failure record_success
  third_error_returned net status body replies errors =
      ground (arith, replies 0, replies 1, replies 2, errors 0, errors 1, errors 2)

  -- Timeouts do open it: of two requests that meet nothing else, the first raises
  -- `MaxRetriesError` after three calls; the second, unless its third attempt comes a minute late,
  -- raises `CircuitOpenError` after two, and leaves the breaker open from the fifth timeout.
  pub timeouts_open :
      (net net' : ℕ → Attempt J)
      → TimesOut net
      → TimesOut net'
      → (net' 2).asked < (net' 1).answered + recovery_ms
      → let first = request net closed in
        let second = request net' first.circuit in
        (first.result ≡ max_retries)
        × (first.calls ≡ 3)
        × (second.result ≡ circuit_open)
        × (second.calls ≡ 2)
        × (second.circuit ≡ record { failures = 5; opened_at = some (net' 1).answered })
  unfolding request run_attempts after_reply can_attempt record_failure record_success
  timeouts_open net net' lost lost' soon = ground (arith, lost 0, lost 1, lost 2, lost' 0, lost' 1)
