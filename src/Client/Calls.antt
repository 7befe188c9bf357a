-- ===== src/Client/Calls.antt =====
-- How many calls a request makes, and where its result comes from.
use upstox_gtt.Common.{
  ℕ, zero, suc, ◌+◌, ◌≤◌, ◌<◌, ◌≡◌, ◌⊎◌, Bool, false, not, ◌&&◌, refl, arith, Bool-cases, inl, inr,
  ◌==◌, ap, true, subst,
}
use upstox_gtt.Client.{
  CircuitBreaker, can_attempt, record_failure, Body, json, Reply, response, no_connection,
  other_exception, Attempt, ok, Outcome, retryable, refused, max_retry, read_body, after_reply,
  run_attempts, request,
}

module _ {ℓ} {J : Type ℓ} where
  after_reply-calls :
      (last : Bool) (r : Reply J) (c failed : CircuitBreaker) (rest : Outcome J)
      → (after_reply last r c failed rest).calls ≤ rest.calls + 1
  unfolding after_reply
  after_reply-calls last (response status body) c failed rest = ground arith
  after_reply-calls last no_connection c failed rest = ground arith
  after_reply-calls last other_exception c failed rest = ground arith

  run_attempts-calls :
      (n k : ℕ) (net : ℕ → Attempt J) (c : CircuitBreaker) → (run_attempts n k net c).calls ≤ n
  unfolding run_attempts
  run_attempts-calls zero k net c = omega arith
  run_attempts-calls (suc n) k net c =
      let failed = record_failure (net k).answered c in
      let rest = run_attempts n (k + 1) net failed in
      elim (Bool-cases (can_attempt (net k).asked c)) [
        | inl may ↦ rw may (
            omega (
              arith,
              after_reply-calls (n == 0) (net k).reply c failed rest,
              run_attempts-calls n (k + 1) net failed,
            ))
        | inr refused ↦ rw refused (omega arith)
      ]

  -- A reply after which the request is made again.
  abbrev pub Retries : Reply J → Type 0
  Retries (response status body) = retryable status ≡ true
  Retries no_connection = Unit
  Retries other_exception = ⊥

  after_reply-again :
      (last : Bool) (r : Reply J) (c failed : CircuitBreaker) (rest : Outcome J)
      → 1 < (after_reply last r c failed rest).calls
      → Retries r × ((after_reply last r c failed rest).calls ≡ rest.calls + 1)
  unfolding after_reply
  after_reply-again last (response status body) c failed rest h = ground arith
  after_reply-again last no_connection c failed rest h = ground arith
  after_reply-again last other_exception c failed rest h = ground arith

  run_attempts-again :
      (n k i : ℕ) (net : ℕ → Attempt J) (c : CircuitBreaker)
      → k ≤ i
      → i + 1 < k + (run_attempts n k net c).calls
      → Retries (net i).reply
  unfolding run_attempts
  run_attempts-again zero k i net c from before = absurd (omega arith)
  run_attempts-again (suc n) k i net c from before =
      let failed = record_failure (net k).answered c in
      let rest = run_attempts n (k + 1) net failed in
      elim (Bool-cases (can_attempt (net k).asked c)) [
        | inl may ↦
            let (again, more) =
              after_reply-again (n == 0) (net k).reply c failed rest
                (omega (arith, from, rw may at before)) in
            elim (Bool-cases (k == i)) [
              | inl here ↦
                  let eq : k ≡ i = ground arith in subst (λ j. Retries (net j).reply) eq again
              | inr later ↦
                  run_attempts-again n (k + 1) i net failed (ground arith)
                    (omega (arith, more, rw may at before))
            ]
        | inr barred ↦ absurd (omega (arith, from, rw barred at before))
      ]

  -- The attempt whose body a request returns.
  abbrev pub Answers : J → (ℕ → Attempt J) → ℕ → Type ℓ
  Answers j net k =
      (status : ℕ) × ((net k).reply ≡ response status (json j)) × (refused status ≡ false)

  read_body-ok : (b : Body J) (j : J) → read_body b ≡ ok j → b ≡ json j
  read_body-ok b j h = ground arith

  after_reply-ok :
      (last : Bool) (r : Reply J) (c failed : CircuitBreaker) (rest : Outcome J) (j : J)
      → (after_reply last r c failed rest).result ≡ ok j
      → ((status : ℕ) × (r ≡ response status (json j))
          × (refused status ≡ false)
          × ((after_reply last r c failed rest).calls ≡ 1))
        ⊎ ((rest.result ≡ ok j) × ((after_reply last r c failed rest).calls ≡ rest.calls + 1))
  unfolding after_reply
  after_reply-ok last (response status body) c failed rest j h =
      elim (Bool-cases (refused status)) [
        | inl fatal ↦ ground arith
        | inr other ↦ elim (Bool-cases (retryable status && not last)) [
          | inl again ↦ rw (other, again) (inr (rw (other, again) at h, refl))
          | inr final ↦
              rw (other, final)
                (inl (
                  status,
                  ap (response status) (read_body-ok body j (rw (other, final) at h)),
                  other,
                  refl,
                ))
        ]
      ]
  after_reply-ok last no_connection c failed rest j h = ground arith
  after_reply-ok last other_exception c failed rest j h = ground arith

  run_attempts-ok :
      (n k : ℕ) (net : ℕ → Attempt J) (c : CircuitBreaker) (j : J)
      → (run_attempts n k net c).result ≡ ok j
      → (i : ℕ) × (i < k + n) × Answers j net i × ((run_attempts n k net c).calls + k ≡ i + 1)
  unfolding run_attempts
  run_attempts-ok zero k net c j h = cc
  run_attempts-ok (suc n) k net c j h =
      let failed = record_failure (net k).answered c in
      let rest = run_attempts n (k + 1) net failed in
      elim (Bool-cases (can_attempt (net k).asked c)) [
        | inl may ↦ elim (after_reply-ok (n == 0) (net k).reply c failed rest j (rw may at h)) [
          | inl (status, replied, allowed, one) ↦
              rw may (k, omega arith, (status, replied, allowed), omega arith)
          | inr (later, more) ↦
              let (i, below, answers, calls) = run_attempts-ok n (k + 1) net failed j later in
              rw may (i, omega arith, answers, omega arith)
        ]
        | inr barred ↦ absurd (cc (rw barred at h))
      ]

  -- A request makes at most three calls.
  pub request_calls : (net : ℕ → Attempt J) (c : CircuitBreaker) → (request net c).calls ≤ max_retry
  unfolding request
  request_calls net c = run_attempts-calls max_retry 0 net c

  -- A request is made again only after a timeout, a failed connection, or a status to retry on.
  pub request_again :
      (net : ℕ → Attempt J) (c : CircuitBreaker) (i : ℕ)
      → i + 1 < (request net c).calls
      → Retries (net i).reply
  unfolding request
  request_again net c i before =
      run_attempts-again max_retry 0 i net c (omega arith) (omega (arith, before))

  -- A body that a request returns was the JSON body of its last call, whose status is none of those
  -- that end a request with an error, and this was one of at most three calls.
  pub request_ok :
      (net : ℕ → Attempt J) (c : CircuitBreaker) (j : J)
      → (request net c).result ≡ ok j
      → (i : ℕ) × (i < max_retry) × Answers j net i × ((request net c).calls ≡ i + 1)
  unfolding request
  request_ok net c j h =
      let (i, below, answers, calls) = run_attempts-ok max_retry 0 net c j h in
      (i, omega arith, answers, omega arith)
