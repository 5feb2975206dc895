-- ===== src/Server/Sessions/Checks.antt =====
-- What holds behind each check of a tenant's request.
use codeforge.Prelude.{
  ℕ, ◌-◌, ◌%◌, ◌⊎◌, ◌≡◌, refl, sym, ap, ◌∙◌, String, Bool, true, false, not, Option, none, some,
  List, [], arith, Bool-cases, inl, inr, ◌=s◌,
}
use codeforge.Prelude.Int.{ℤ, pos, ltb_ℤ, leb_ℤ, ◌≤ℤ◌}
use codeforge.Session.Model.{Config}
use codeforge.Apperror.{Error, wrapped}
use codeforge.Session.World as SessionWorld
use codeforge.Session.World.{World, Row, Result, ok, err, M, reach, next_fault, later_faults, lost}
use codeforge.Session.Operations.{count_active_by_tenant, active_rows}
use codeforge.Session.Sqlite
use codeforge.Tenant.{Tenant, Tables, count_daily_sessions, distinct_sessions, logs_of, day}
use codeforge.Tenant.Pool.{resolve_key_from_pool}
use codeforge.Server.Http.{
  Handler, Body, Step, go, answered, ◌>>=◌, ◌>>◌, bind_step, give, refuse_if, or_refuse,
}
use codeforge.Server.Sessions.{
  check_count, quota_failed, concurrency_failed, SessionHandler, check_daily, check_concurrent,
  with_budget, with_pool_key, key_provider, pool_message, limit_message, budget_within,
  config_or_zero, own_key,
}

-- A program that goes on has gone on at each step.
pub >>=-go :
    {A B : Type 0} (m : Handler A) (f : A → Handler B) (w : World) {b : B} {w' : World}
    → (m >>= f) w ≡ (go b, w')
    → (a : A) × (v : World) × (m w ≡ (go a, v)) × (f a v ≡ (go b, w'))
>>=-go {A} {B} m f w {b} {w'} h = split (m w) h
  where
    split :
        (x : Step A × World)
        → bind_step f x ≡ (go b, w')
        → (a : A) × (v : World) × (x ≡ (go a, v)) × (f a v ≡ (go b, w'))
    split (go a, v) e = (a, v, refl, e)
    split (answered r, v) e = absurd (cc)

pub refuse_if-go :
    (t : Bool) (s : ℕ) (b : Body) (w w' : World)
    → refuse_if t s b w ≡ (go tt, w')
    → (t ≡ false) × (w ≡ w')
refuse_if-go true s b w w' h = absurd (cc)
refuse_if-go false s b w w' h = (refl, ap (λ p. p.1) h)

-- A query that reads a value.
pub query_cases :
    {A : Type 0} (e : Error) (a : A) (w : World)
    → (v : World) × (v.sqlite ≡ w.sqlite)
      × ((SessionWorld.◌>>◌ (reach e) (SessionWorld.pure a) w ≡ (ok a, v))
          ⊎ ((x : Error) × (SessionWorld.◌>>◌ (reach e) (SessionWorld.pure a) w ≡ (err x, v))))
unfolding reach
query_cases e a w = (
  record w { faults = later_faults w.faults },
  refl,
  elim (Bool-cases (next_fault w.faults)) [ inl f ↦ inr (e, rw f refl) | inr f ↦ inl (rw f refl) ],
)

abbrev pub used_today : Tables → String → ℕ → ℕ
used_today db id now = distinct_sessions [] (logs_of id (now - now % day) db.usage_logs)

abbrev pub active_now : String → Option (List Row) → ℕ
active_now id none = 0
active_now id (some rows) = Sqlite.count_active_by_tenant id rows

-- No limit, or a count below it.
abbrev pub IsBelow : ℕ → ℤ → Bool → Type 0
IsBelow used limit unlimited = (unlimited ≡ true) ⊎ (ltb_ℤ (pos used) limit ≡ true)

pub below : (limit : ℤ) (n : ℕ) → leb_ℤ limit (pos n) ≡ false → ltb_ℤ (pos n) limit ≡ true
below limit n h = ground arith

-- The end of a check by a count.
pub counted :
    (limit : ℤ) (failed : Body) (full : ℕ → Body) (m : M ℕ) (n : ℕ) (w w' : World)
    → (v : World) × (v.sqlite ≡ w.sqlite) × ((m w ≡ (ok n, v)) ⊎ ((e : Error) × (m w ≡ (err e, v))))
    → check_count limit failed full m w ≡ (go tt, w')
    → (ltb_ℤ (pos n) limit ≡ true) × (w'.sqlite ≡ w.sqlite)
counted limit failed full m n w w' (v, same, inl e) h =
    let (under, at) = refuse_if-go (leb_ℤ limit (pos n)) 429 (full n) v w' (rw e at h) in
    (below limit n under, ap (λ x. x.sqlite) (sym at) ∙ same)
counted limit failed full m n w w' (v, same, inr (x, e)) h = absurd (ended (rw e at h))
  where
    ended :
        ◌≡◌ {A = Step (Unit {0}) × World}
          (answered (record { status = 503; body = failed }), v)
          (go tt, w')
        → ⊥
    ended e = cc

pub check_daily-go :
    (db : Tables) (now : ℕ) (tnt : Tenant) (w w' : World)
    → check_daily db now tnt w ≡ (go tt, w')
    → IsBelow
        (used_today db tnt.id now)
        tnt.max_sessions_per_day
        (ltb_ℤ tnt.max_sessions_per_day (pos 0))
      × (w'.sqlite ≡ w.sqlite)
unfolding check_daily count_daily_sessions
check_daily-go db now tnt w w' h = elim (Bool-cases (ltb_ℤ tnt.max_sessions_per_day (pos 0))) [
  | inl e ↦ (inl e, ap (λ p. p.1.sqlite) (sym (rw e at h)))
  | inr e ↦
      let (under, same) =
        counted tnt.max_sessions_per_day quota_failed
          (λ used. limit_message "daily" used tnt.max_sessions_per_day tnt.tier)
          (count_daily_sessions db tnt.id now) (used_today db tnt.id now) w w'
          (query_cases (wrapped "counting daily sessions" lost) (used_today db tnt.id now) w)
          (rw e at h) in
      (inr under, same)
]

pub active_rows_cases :
    (id : String) (o : Option (List Row)) (w : World)
    → (v : World) × (v.sqlite ≡ w.sqlite)
      × ((active_rows id o w ≡ (ok (active_now id o), v))
          ⊎ ((x : Error) × (active_rows id o w ≡ (err x, v))))
active_rows_cases id none w = (w, refl, inl refl)
active_rows_cases id (some rows) w =
    query_cases (wrapped "counting active sessions" lost) (Sqlite.count_active_by_tenant id rows) w

pub active_cases :
    (id : String) (w : World)
    → (v : World) × (v.sqlite ≡ w.sqlite)
      × ((count_active_by_tenant id w ≡ (ok (active_now id w.sqlite), v))
          ⊎ ((x : Error) × (count_active_by_tenant id w ≡ (err x, v))))
unfolding count_active_by_tenant
active_cases id w = active_rows_cases id w.sqlite w

pub check_concurrent-go :
    (tnt : Tenant) (w w' : World)
    → check_concurrent tnt w ≡ (go tt, w')
    → IsBelow
        (active_now tnt.id w.sqlite)
        tnt.max_concurrent_sessions
        (not (ltb_ℤ (pos 0) tnt.max_concurrent_sessions))
unfolding check_concurrent
check_concurrent-go tnt w w' h =
    elim (Bool-cases (not (ltb_ℤ (pos 0) tnt.max_concurrent_sessions))) [
      | inl e ↦ inl e
      | inr e ↦
          inr
            (counted tnt.max_concurrent_sessions concurrency_failed
              (λ active. limit_message "concurrent" active tnt.max_concurrent_sessions tnt.tier)
              (count_active_by_tenant tnt.id) (active_now tnt.id w.sqlite) w w'
              (active_cases tnt.id w) (rw e at h)).0
    ]

pub budget_within-le : (cap asked : ℤ) → ltb_ℤ (pos 0) cap ≡ true → budget_within cap asked ≤ℤ cap
budget_within-le cap asked h = ground arith

abbrev pub budget_of : Option Config → ℤ
budget_of c = (config_or_zero c).max_budget_usd

pub with_budget-le :
    (cap : ℤ) (c : Option Config) → ltb_ℤ (pos 0) cap ≡ true → budget_of (with_budget cap c) ≤ℤ cap
unfolding with_budget
with_budget-le cap c h = rw h (budget_within-le cap (budget_of c) h)

pub or_refuse-go :
    {A : Type 0} (s : ℕ) (b : Body) (r : Result A) (w w' : World) (a : A)
    → or_refuse s b r w ≡ (go a, w')
    → (r ≡ ok a) × (w ≡ w')
or_refuse-go s b (ok x) w w' a h = (cc, ap (λ p. p.1) h)
or_refuse-go s b (err e) w w' a h = absurd (cc)

-- A key out of the pool, behind its query.
pub pooled :
    (provider : String) (c c' : Option Config) (answer : Result String) (v w' : World)
    → (or_refuse 503 (pool_message provider) answer >>= λ key.
          refuse_if (key =s "") 503 (pool_message provider)
          >> give (some (record (config_or_zero c) { ai_api_key = key })))
        v
      ≡ (go c', w')
    → ((own_key c' =s "") ≡ false) × (budget_of c' ≡ budget_of c)
pooled provider c c' (err e) v w' h = absurd (cc)
pooled provider c c' (ok key) v w' h = elim (Bool-cases (key =s "")) [
  | inl e ↦ absurd (ended (rw e at h))
  | inr e ↦
      let same : some (record (config_or_zero c) { ai_api_key = key }) ≡ c' = kept (rw e at h) in
      (rw (← same) e, rw (← same) refl)
]
  where
    ended :
        ◌≡◌ {A = Step (Option Config) × World}
          (answered (record { status = 503; body = pool_message provider }), v)
          (go c', w')
        → ⊥
    ended e = cc

    kept :
        ◌≡◌ {A = Step (Option Config) × World}
          (go (some (record (config_or_zero c) { ai_api_key = key })), v)
          (go c', w')
        → some (record (config_or_zero c) { ai_api_key = key }) ≡ c'
    kept e = cc

-- A request goes on with a key, and with its budget.
pub with_pool_key-go :
    (env : SessionHandler) (db : Tables) (cli : String) (c c' : Option Config) (w w' : World)
    → with_pool_key env db cli c w ≡ (go c', w')
    → ((own_key c' =s "") ≡ false) × (budget_of c' ≡ budget_of c)
unfolding with_pool_key
with_pool_key-go env db cli c c' w w' h = elim (Bool-cases (own_key c =s "")) [
  | inr e ↦ let same : c ≡ c' = kept (rw e at h) in (rw (← same) e, rw (← same) refl)
  | inl e ↦
      pooled (key_provider env cli) c c'
        (resolve_key_from_pool env.cipher.decrypt env.draw db (key_provider env cli) w).0
        (resolve_key_from_pool env.cipher.decrypt env.draw db (key_provider env cli) w).1 w'
        (rw e at h)
]
  where
    kept : ◌≡◌ {A = Step (Option Config) × World} (go c, w) (go c', w') → c ≡ c'
    kept e = cc
