-- ===== src/Examples/Requests.antt =====
-- The rate limiter and the client at concrete times and replies.
use upstox_gtt.Common.{ℕ, ◌+◌, ◌*◌, ◌≤◌, ◌≡◌, pos, true, none, List, [], ◌∷◌, refl, arith}
use upstox_gtt.Limiter.{RateLimit, token, store, take_token, grants}
use upstox_gtt.Limiter.Budget.{IsQuick, schedule, total, grants_bounded, take_token_after_wait}
use upstox_gtt.Client.{
  closed, json, response, Attempt, ok, retryable, refused, request, run_requests,
}
use upstox_gtt.Client.Breaker.{Responds, responses_never_open, third_error_returned}
use upstox_gtt.Examples.Data.{ten, always}

abbrev gtt_place : RateLimit
gtt_place = record { max_tokens = 5 * token; refill_per_ms = 20 }

abbrev gtt_place-IsQuick : IsQuick gtt_place
gtt_place-IsQuick = omega arith

abbrev gaps : List ℕ
gaps = 0 ∷ 0 ∷ 10 ∷ 0 ∷ 0 ∷ 600 ∷ []

grants_bounded_example :
    (grants gtt_place (ten ∷ schedule ten gaps) none).0 * token
    ≤ gtt_place.max_tokens + total gaps * gtt_place.refill_per_ms
grants_bounded_example = grants_bounded gtt_place ten gaps gtt_place-IsQuick

take_token_after_wait_example : (take_token gtt_place (ten + 500) (store ten (pos 12))).0 ≡ true
take_token_after_wait_example =
    take_token_after_wait gtt_place 12 ten 500 gtt_place-IsQuick (omega arith) (omega arith)

abbrev good : ℕ → Attempt ℕ
good = always (response 200 (json 7))

abbrev unavailable : ℕ → Attempt ℕ
unavailable = always (response 503 (json 9))

abbrev unavailable-Responds : Responds unavailable
unavailable-Responds k = (503, json 9, refl)

responses_never_open_example : run_requests (unavailable ∷ good ∷ unavailable ∷ []) closed ≡ closed
responses_never_open_example =
    responses_never_open (unavailable ∷ good ∷ unavailable ∷ [])
      (unavailable-Responds, ((λ k. (200, json 7, refl)), (unavailable-Responds, tt)))

third_error_returned_example :
    request unavailable closed ≡ record { result = ok 9; circuit = closed; calls = 3 }
third_error_returned_example =
    third_error_returned unavailable (λ k. 503) (λ k. json 9) (λ k. refl)
      (λ k. (unfold retryable in refl, unfold refused in refl))
