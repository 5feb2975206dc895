-- ===== src/Server/RateLimit/Log.antt =====
-- The limiter against the full log of the requests.
use codeforge.Prelude.{
  ℕ, ◌+◌, ◌≤◌, ◌≡◌, refl, sym, ap, String, Bool, true, false, ◌||◌, ◌&&◌, Option, none, List, [],
  ◌∷◌, if◌then◌else◌, ◌=s◌, ◌==◌, leb, length, arith, Bool-cases, inl, inr, leb→le, eq_iff, ◌↔◌,
  ◌<◌,
}
use codeforge.Server.RateLimit.{
  RateLimiter, SortedSet, Request, Store, milliseconds, has, zadd, recent, kept, marked, judge,
  allow, reply, next, middleware,
}

-- The store after requests, the last one first.
unfoldable pub served : RateLimiter → (String → String) → List Request → Store
unfolding middleware
served rl hash [] = λ _. none
served rl hash (r ∷ rs) = (middleware rl hash r (served rl hash rs)).1

abbrev pub counts : (String → String) → String → Request → Bool
counts hash key r = if r.client =s "" then false else (r.up && hash r.client =s key)

-- All the times of the requests that reached Redis under a key.
unfoldable pub log : (String → String) → String → List Request → List ℕ
log hash key [] = []
log hash key (r ∷ rs) =
    let rest = log hash key rs in if counts hash key r then zadd r.time rest else rest

-- No request is later than the one before it in the list, the first one not later than `now`.
abbrev pub IsOrdered : ℕ → List Request → Type 0
IsOrdered now [] = Unit {0}
IsOrdered now (r ∷ rs) = (r.time ≤ now) × IsOrdered r.time rs

recent-recent :
    (w t now : ℕ) (xs : List ℕ) → t ≤ now → recent w now (recent w t xs) ≡ recent w now xs
recent-recent w t now [] le = refl
recent-recent w t now (x ∷ xs) le = elim (Bool-cases (leb (x + w) t)) [
  | inl old ↦ rw (old, later (leb→le (x + w) t old)) (recent-recent w t now xs le)
  | inr young ↦
      rw young (ap (λ ys. if leb (x + w) now then ys else x ∷ ys) (recent-recent w t now xs le))
]
  where
    later : x + w ≤ t → leb (x + w) now ≡ true
    later h = ground arith

has-recent : (w t : ℕ) (xs : List ℕ) → leb (t + w) t ≡ false → has t (recent w t xs) ≡ has t xs
has-recent w t [] h = refl
has-recent w t (x ∷ xs) h = elim (Bool-cases (leb (x + w) t)) [
  | inl old ↦ let other : (x == t) ≡ false = apart old in rw (old, other) (has-recent w t xs h)
  | inr young ↦ rw young (ap (λ b. x == t || b) (has-recent w t xs h))
]
  where
    apart : leb (x + w) t ≡ true → (x == t) ≡ false
    apart old = ground arith

abbrev pub UpTo : ℕ → List ℕ → Type 0
UpTo t [] = Unit {0}
UpTo t (x ∷ xs) = (x ≤ t) × UpTo t xs

UpTo-later : (t now : ℕ) (xs : List ℕ) → t ≤ now → UpTo t xs → UpTo now xs
UpTo-later t now [] le all = tt
UpTo-later t now (x ∷ xs) le (first, all) = (ground arith, UpTo-later t now xs le all)

zadd-UpTo : (t : ℕ) (xs : List ℕ) → UpTo t xs → UpTo t (zadd t xs)
zadd-UpTo t xs all = elim (Bool-cases (has t xs)) [
  | inl e ↦ rw e all
  | inr e ↦ rw e (omega arith, all)
]

recent_old : (w t now : ℕ) (xs : List ℕ) → leb (t + w) now ≡ true → UpTo t xs → recent w now xs ≡ []
recent_old w t now [] old all = refl
recent_old w t now (x ∷ xs) old (first, all) = rw older (recent_old w t now xs old all)
  where
    older : leb (x + w) now ≡ true
    older = ground arith

log-UpTo :
    (hash : String → String) (key : String) (now : ℕ) (rs : List Request)
    → IsOrdered now rs
    → UpTo now (log hash key rs)
unfolding log
log-UpTo hash key now [] ord = tt
log-UpTo hash key now (r ∷ rs) (le, ord) = elim (Bool-cases (counts hash key r)) [
  | inl e ↦ rw e (
      UpTo-later r.time now (zadd r.time (log hash key rs)) le
        (zadd-UpTo r.time (log hash key rs) (log-UpTo hash key r.time rs ord)))
  | inr e ↦ rw e (UpTo-later r.time now (log hash key rs) le (log-UpTo hash key r.time rs ord))
]

-- A marked set agrees with a marked log in every later window.
marked_lem :
    (w t now : ℕ) (s : Option SortedSet) (xs : List ℕ)
    → t ≤ now
    → UpTo t xs
    → kept w t s ≡ recent w t xs
    → kept w now (marked w t s) ≡ recent w now (zadd t xs)
unfolding kept
marked_lem w t now s xs le all same = elim (Bool-cases (leb (t + w) now)) [
  | inl old ↦ rw old (sym (recent_old w t now (zadd t xs) old (zadd-UpTo t xs all)))
  | inr young ↦ rw (young, same, has-recent w t xs (ground arith)) (added young)
]
  where
    added :
        leb (t + w) now ≡ false
        → recent w now (if has t xs then recent w t xs else t ∷ recent w t xs)
          ≡ recent w now (zadd t xs)
    added young = elim (Bool-cases (has t xs)) [
      | inl e ↦ rw e (recent-recent w t now xs le)
      | inr e ↦ rw (e, young) (ap (λ ys. t ∷ ys) (recent-recent w t now xs le))
    ]

IsOrdered-later : (t now : ℕ) (rs : List Request) → t ≤ now → IsOrdered t rs → IsOrdered now rs
IsOrdered-later t now [] le ord = tt
IsOrdered-later t now (r ∷ rs) le (first, ord) = (ground arith, ord)

Agrees : RateLimiter → (String → String) → String → List Request → ℕ → Type 0
Agrees rl hash key rs now =
    kept (milliseconds rl.window) now (served rl hash rs key)
    ≡ recent (milliseconds rl.window) now (log hash key rs)

-- What a request leaves under a key.
stored :
    (rl : RateLimiter) (hash : String → String) (key : String) (r : Request) (store : Store)
    → (middleware rl hash r store).1 key ≡ (
        if counts hash key r then marked (milliseconds rl.window) r.time (store key) else store key)
unfolding middleware allow
stored rl hash key r store = elim (Bool-cases (r.client =s "")) [
  | inl anonymous ↦ rw anonymous refl
  | inr known ↦ elim (Bool-cases r.up) [
    | inr down ↦ rw (known, down) refl
    | inl up ↦ elim (Bool-cases (hash r.client =s key)) [
      | inr other ↦ rw (known, up, other) refl
      | inl same ↦
          rw (known, up, same)
            (ap (λ k. marked (milliseconds rl.window) r.time (store k))
              ((eq_iff (hash r.client) key).0 same))
    ]
  ]
]

-- One request more, from the agreement at its own time and later.
kept-request :
    (rl : RateLimiter) (hash : String → String) (key : String) (now : ℕ) (r : Request)
    (rs : List Request)
    → r.time ≤ now
    → IsOrdered r.time rs
    → Agrees rl hash key rs r.time
    → Agrees rl hash key rs now
    → Agrees rl hash key (r ∷ rs) now
unfolding Agrees served log
kept-request rl hash key now r rs le ord here later = elim (Bool-cases (counts hash key r)) [
  | inl counted ↦
      rw (stored rl hash key r (served rl hash rs), counted)
        (marked_lem (milliseconds rl.window) r.time now (served rl hash rs key) (log hash key rs) le
          (log-UpTo hash key r.time rs ord) here)
  | inr skipped ↦ rw (stored rl hash key r (served rl hash rs), skipped) later
]

-- The trimmed set of Redis and the full log agree on every later window.
kept-served :
    (rl : RateLimiter) (hash : String → String) (key : String) (now : ℕ) (rs : List Request)
    → IsOrdered now rs
    → Agrees rl hash key rs now
unfolding Agrees kept served log
kept-served rl hash key now [] ord = refl
kept-served rl hash key now (r ∷ rs) (le, ord) =
    kept-request rl hash key now r rs le ord (kept-served rl hash key r.time rs ord)
      (kept-served rl hash key now rs (IsOrdered-later r.time now rs le ord))

judge_iff : (rl : RateLimiter) (n : ℕ) → (reply (judge rl n) ≡ next) ↔ (n < rl.limit)
unfolding judge
judge_iff rl n = elim (Bool-cases (leb rl.limit n)) [
  | inr few ↦ rw few ((λ _. ground arith), λ _. refl)
  | inl many ↦ elim (Bool-cases (rl.limit == 0)) [
    | inl e ↦ rw (many, e) ((λ h. ground arith), λ h. ground arith)
    | inr e ↦ rw (many, e) ((λ h. ground arith), λ h. ground arith)
  ]
]

-- After requests in the order of time, a request with a bearer token that finds Redis reaches the
-- next handler exactly if fewer than `limit` times within the window stand in the full log of its
-- client's key: the trimming and the expiry of the stored set lose nothing. The log has one entry
-- for all requests of a millisecond, and the refused requests too.
pub middleware_lem :
    (rl : RateLimiter) (hash : String → String) (rs : List Request) (r : Request)
    → IsOrdered r.time rs
    → (r.client =s "") ≡ false
    → r.up ≡ true
    → ((middleware rl hash r (served rl hash rs)).0 ≡ next)
      ↔ (length (recent (milliseconds rl.window) r.time (log hash (hash r.client) rs)) < rl.limit)
unfolding middleware allow Agrees
middleware_lem rl hash rs r ord known up =
    rw (known, up, kept-served rl hash (hash r.client) r.time rs ord)
      (judge_iff rl (length (recent (milliseconds rl.window) r.time (log hash (hash r.client) rs))))
