-- ===== src/Server/RateLimit/Tests.antt =====
-- The limiter at concrete requests.
use codeforge.Prelude.{ℕ, ◌≡◌, ◌↔◌, ◌<◌, refl, arith, String, true, List, [], ◌∷◌, length, none}
use codeforge.Server.RateLimit.{
  RateLimiter, Request, kept, judge, allow, next, too_many_requests, panicked, milliseconds, recent,
  middleware,
}
use codeforge.Server.RateLimit.Log.{served, log, middleware_lem}

abbrev two_a_minute : RateLimiter
two_a_minute = record { limit = 2; window = 60000000000 }

abbrev plain : String → String
plain client = client

abbrev request_at : ℕ → Request
request_at t = record { client = "alice"; time = t; up = true }

abbrev earlier_requests : List Request
earlier_requests = request_at 2500 ∷ request_at 2000 ∷ request_at 1000 ∷ []

middleware_lem_example :
    ((middleware two_a_minute plain
        (request_at 62000)
        (served two_a_minute plain earlier_requests)).0
      ≡ next)
    ↔ (length (recent (milliseconds 60000000000) 62000 (log plain "alice" earlier_requests)) < 2)
middleware_lem_example =
    middleware_lem two_a_minute plain earlier_requests (request_at 62000)
      (ground arith, (ground arith, (ground arith, tt))) refl refl

-- Only the refused request at 2500 is left in the window.
admitted_again :
    (middleware two_a_minute plain
      (request_at 62000)
      (served two_a_minute plain earlier_requests)).0
    ≡ next
unfolding middleware allow judge kept served
admitted_again = refl

refused :
    (middleware two_a_minute plain
      (request_at 2500)
      (served two_a_minute plain (request_at 2000 ∷ request_at 1000 ∷ []))).0
    ≡ too_many_requests 30
unfolding middleware allow judge kept served
refused = refl

-- Requests of one millisecond count once.
burst :
    (middleware two_a_minute plain
      (request_at 5)
      (served two_a_minute plain (request_at 5 ∷ request_at 5 ∷ request_at 5 ∷ []))).0
    ≡ next
unfolding middleware allow judge kept served
burst = refl

no_limit :
    (middleware (record { limit = 0; window = 60000000000 }) plain (request_at 5) λ _. none).0
    ≡ panicked
unfolding middleware allow judge kept
no_limit = refl
