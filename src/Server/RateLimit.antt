-- ===== src/Server/RateLimit.antt =====
-- internal/server/middleware/ratelimit.go: the limiter of requests per client.
--
-- A sorted set whose members are their own scores is the list of its scores. SHA-256 is a
-- parameter. Redis and the server read one clock, in milliseconds, and a window is in nanoseconds,
-- of whole seconds, as EXPIRE takes it.
pub mod Log
mod Tests
use codeforge.Prelude.{
  ℕ, ◌+◌, ◌*◌, ◌/◌, String, Bool, true, false, Option, none, some, List, [], ◌∷◌, if◌then◌else◌,
  ◌=s◌, ◌==◌, ◌||◌, leb, length, update,
}

pub record RateLimiter : Type 0 where
  pub limit : ℕ
  pub window : ℕ

-- A sorted set of Redis and the time at which it expires.
pub record SortedSet : Type 0 where
  pub scores : List ℕ
  pub deadline : ℕ

pub record Request : Type 0 where
  pub client : String
  pub time : ℕ
  pub up : Bool

-- The answers of allow; a limit of 0 divides by zero.
pub data Verdict : Type 0 where
  allowed : Verdict
  retry_after : ℕ → Verdict
  crashed : Verdict

abbrev pub Store : Type 0
Store = String → Option SortedSet

abbrev pub milliseconds : ℕ → ℕ
milliseconds ns = ns / 1000000

abbrev pub has : ℕ → List ℕ → Bool
has t [] = false
has t (x ∷ xs) = x == t || has t xs

-- ZADD of a member that is its own score.
abbrev pub zadd : ℕ → List ℕ → List ℕ
zadd t xs = if has t xs then xs else t ∷ xs

-- ZREMRANGEBYSCORE from 0 to `now - w`, which is negative for an early `now`.
abbrev pub recent : ℕ → ℕ → List ℕ → List ℕ
recent w now [] = []
recent w now (t ∷ ts) = let rest = recent w now ts in if leb (t + w) now then rest else t ∷ rest

-- What Redis still keeps of a set.
abbrev pub live : ℕ → Option SortedSet → List ℕ
live now none = []
live now (some s) = if leb s.deadline now then [] else s.scores

-- What ZCARD counts in the pipeline.
unfoldable pub kept : ℕ → ℕ → Option SortedSet → List ℕ
kept w now s = recent w now (live now s)

-- The set after the pipeline.
abbrev pub marked : ℕ → ℕ → Option SortedSet → Option SortedSet
marked w now s = some (record { scores = zadd now (kept w now s); deadline = now + w })

unfoldable pub judge : RateLimiter → ℕ → Verdict
judge rl n =
    if leb rl.limit n
    then (if rl.limit == 0 then crashed else retry_after (rl.window / rl.limit))
    else allowed

-- A pipeline that fails leaves a count of 0.
unfoldable pub allow : RateLimiter → (String → String) → Request → Store → Verdict × Store
allow rl hash r store =
    let key = hash r.client in
    let w = milliseconds rl.window in
    if r.up
    then (
      judge rl (length (kept w r.time (store key))),
      update store key (marked w r.time (store key)),
    )
    else (judge rl 0, store)

-- A reply of the middleware: the next handler's, or status 429 with the seconds of Retry-After.
pub data Reply : Type 0 where
  next : Reply
  too_many_requests : ℕ → Reply
  panicked : Reply

abbrev pub reply : Verdict → Reply
reply allowed = next
reply (retry_after ns) = too_many_requests (ns / 1000000000)
reply crashed = panicked

-- The middleware, from the client's id on: "" is a request without a bearer token.
unfoldable pub middleware : RateLimiter → (String → String) → Request → Store → Reply × Store
middleware rl hash r store =
    let answer = allow rl hash r store in
    if r.client =s "" then (next, store) else (reply answer.0, answer.1)
