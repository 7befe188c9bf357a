-- ===== src/Client.antt =====
-- gtt_v2/shared/upstox/client.py: the requests to Upstox, with their retries and circuit breaker.
-- What the network does at each attempt is given; what a reply holds is of any type `J`.
pub mod Calls
pub mod Breaker
use upstox_gtt.Common.{
  ℕ, zero, suc, ◌+◌, leb, Bool, true, false, not, ◌&&◌, ◌||◌, Option, none, some, List, [], ◌∷◌,
  String, ◌==◌, any, if◌then◌else◌,
}

-- `_CircuitBreaker`: the failures in a row and the time at which it opened, in milliseconds.
pub record CircuitBreaker : Type 0 where
  pub failures : ℕ
  pub opened_at : Option ℕ

abbrev pub failure_threshold : ℕ
failure_threshold = 5

abbrev pub recovery_ms : ℕ
recovery_ms = 60_000

abbrev pub closed : CircuitBreaker
closed = record { failures = 0; opened_at = none }

abbrev recovered : ℕ → Option ℕ → Bool
recovered now none = true
recovered now (some t) = leb (t + recovery_ms) now

unfoldable pub can_attempt : ℕ → CircuitBreaker → Bool
can_attempt now c = recovered now c.opened_at

unfoldable pub record_success : CircuitBreaker → CircuitBreaker
record_success c = closed

unfoldable pub record_failure : ℕ → CircuitBreaker → CircuitBreaker
record_failure now c = record c {
  failures = c.failures + 1;
  opened_at = if leb failure_threshold (c.failures + 1) then some now else c.opened_at;
}

-- The body of a response: JSON, JSON with `"status": "error"` and its messages, or no JSON.
pub data Body {ℓ} (J : Type ℓ) : Type ℓ where
  json : J → Body J
  soft_error : String → Body J
  not_json : Body J

-- What `self._http.request` does: a response, a timeout or failed connection, or another exception.
pub data Reply {ℓ} (J : Type ℓ) : Type ℓ where
  response : ℕ → Body J → Reply J
  no_connection : Reply J
  other_exception : Reply J

-- An attempt: the times before and after the request, and its reply.
pub record Attempt {ℓ} (J : Type ℓ) : Type ℓ where
  pub asked : ℕ
  pub answered : ℕ
  pub reply : Reply J

-- How `_request` ends: it returns a body, or raises `CircuitOpenError`, `MaxRetriesError`,
-- `UpstoxRejectError`, `HTTPStatusError` or another exception.
pub data Result {ℓ} (J : Type ℓ) : Type ℓ where
  ok : J → Result J
  circuit_open : Result J
  max_retries : Result J
  reject : String → Result J
  http_error : ℕ → Result J
  raised : Result J

pub record Outcome {ℓ} (J : Type ℓ) : Type ℓ where
  pub result : Result J
  pub circuit : CircuitBreaker
  pub calls : ℕ

abbrev pub retry_on : List ℕ
retry_on = 429 ∷ 500 ∷ 502 ∷ 503 ∷ 504 ∷ []

abbrev pub no_retry : List ℕ
no_retry = 400 ∷ 401 ∷ 403 ∷ 404 ∷ 422 ∷ []

abbrev pub member : ℕ → List ℕ → Bool
member n = any (λ m. m == n)

-- `r.status_code in RETRY_ON`, and in `NO_RETRY`.
unfoldable pub retryable : ℕ → Bool
retryable status = member status retry_on

unfoldable pub refused : ℕ → Bool
refused status = member status no_retry

abbrev pub max_retry : ℕ
max_retry = 3

module _ {ℓ} {J : Type ℓ} where
  -- `r.json()` and the test for a soft error.
  abbrev pub read_body : Body J → Result J
  read_body (json j) = ok j
  read_body (soft_error msg) = reject msg
  read_body not_json = raised

  abbrev pub ends : Result J → CircuitBreaker → Outcome J
  ends r c = record { result = r; circuit = c; calls = 1 }

  abbrev pub one_more : Outcome J → Outcome J
  one_more o = record o { calls = o.calls + 1 }

  -- One round of the loop after the request: the breaker before and after a failure is counted,
  -- and the outcome of the rounds that would follow.
  unfoldable pub after_reply :
      Bool → Reply J → CircuitBreaker → CircuitBreaker → Outcome J → Outcome J
  after_reply last (response status body) c failed rest =
      if refused status
      then ends (http_error status) (record_success c)
      else if retryable status && not last
      then one_more rest
      else ends (read_body body) (record_success c)
  after_reply last no_connection c failed rest =
      if last then ends max_retries failed else one_more rest
  after_reply last other_exception c failed rest = ends raised c

  -- The loop, with the rounds that are left, the number of the attempt, and what each attempt meets.
  unfoldable pub run_attempts : ℕ → ℕ → (ℕ → Attempt J) → CircuitBreaker → Outcome J
  run_attempts zero attempt net c = record { result = max_retries; circuit = c; calls = 0 }
  run_attempts (suc n) attempt net c =
      let failed = record_failure (net attempt).answered c in
      let rest = run_attempts n (attempt + 1) net failed in
      if can_attempt (net attempt).asked c
      then after_reply (n == 0) (net attempt).reply c failed rest
      else record { result = circuit_open; circuit = c; calls = 0 }

  -- `_request`.
  unfoldable pub request : (ℕ → Attempt J) → CircuitBreaker → Outcome J
  unfolding run_attempts after_reply can_attempt record_success record_failure retryable refused
  request = run_attempts max_retry 0

  -- Requests one after another, over what the network does at each.
  unfoldable pub run_requests : List (ℕ → Attempt J) → CircuitBreaker → CircuitBreaker
  run_requests [] c = c
  run_requests (net ∷ nets) c = run_requests nets (request net c).circuit
