-- ===== src/Server/Sessions/Calm.antt =====
-- The checks of a request change nothing but the outlook on faults.
use codeforge.Prelude.{
  ℕ, ◌≡◌, refl, String, Bool, true, false, not, Option, none, some, List, [], ◌∷◌, Bool-cases, inl,
  inr, ◌=s◌,
}
use codeforge.Prelude.Int.{ℤ, pos, ltb_ℤ, leb_ℤ}
use codeforge.Session.Model.{Config}
use codeforge.Session.World as SessionWorld
use codeforge.Session.World.{World, Row, Result, ok, err, M, up, reach}
use codeforge.Session.Service.{CreateSessionRequest}
use codeforge.Session.Operations.{count_active_by_tenant, active_rows}
use codeforge.Tenant.{Tenant, Tables, KeyPoolEntry, count_daily_sessions}
use codeforge.Tenant.Pool.{
  resolve_key_from_pool, get_active_key_for_provider, pick_from, active_keys, opened,
}
use codeforge.Server.Http.{
  Handler, Body, Step, go, answered, ◌>>=◌, ◌>>◌, bind_step, give, refuse_if, call, or_refuse,
}
use codeforge.Server.Sessions.{
  SessionHandler, check_count, quota_failed, concurrency_failed, limit_message, check_daily,
  check_concurrent, with_pool_key, with_budget, apply_limits, own_key, key_provider, pool_message,
  admit_cli, admit_model, admitted_request, named_cli, config_or_zero,
}

-- Programs that leave the World as it is where every call works.
abbrev pub IsCalm : {A : Type 0} → Handler A → World → Type 0
IsCalm m w = (m (up w)).1 ≡ up w

pub >>=-IsCalm :
    {A B : Type 0} (m : Handler A) (f : A → Handler B) (w : World)
    → IsCalm m w
    → ((a : A) → IsCalm (f a) w)
    → IsCalm (m >>= f) w
>>=-IsCalm {A} {B} m f w calm rest = split (m (up w)) calm
  where
    split : (x : Step A × World) → x.1 ≡ up w → (bind_step f x).1 ≡ up w
    split (go a, v) e = rw e (rest a)
    split (answered r, v) e = e

refuse_if-IsCalm : (t : Bool) (s : ℕ) (b : Body) (w : World) → IsCalm (refuse_if t s b) w
refuse_if-IsCalm true s b w = refl
refuse_if-IsCalm false s b w = refl

or_refuse-IsCalm :
    {A : Type 0} (s : ℕ) (b : Body) (r : Result A) (w : World) → IsCalm (or_refuse s b r) w
or_refuse-IsCalm s b (ok a) w = refl
or_refuse-IsCalm s b (err e) w = refl

-- A query, then its value or a refusal.
asked-IsCalm :
    {A B : Type 0} (m : M A) (s : ℕ) (b : Body) (f : A → Handler B) (w : World)
    → (m (up w)).1 ≡ up w
    → ((a : A) → IsCalm (f a) w)
    → IsCalm (call m >>= λ answer. or_refuse s b answer >>= f) w
asked-IsCalm m s b f w calm rest =
    >>=-IsCalm (call m) (λ answer. or_refuse s b answer >>= f) w calm
      λ answer. >>=-IsCalm (or_refuse s b answer) f w (or_refuse-IsCalm s b answer w) rest

check_count-IsCalm :
    (limit : ℤ) (failed : Body) (full : ℕ → Body) (m : M ℕ) (w : World)
    → (m (up w)).1 ≡ up w
    → IsCalm (check_count limit failed full m) w
check_count-IsCalm limit failed full m w calm =
    asked-IsCalm m 503 failed (λ n. refuse_if (leb_ℤ limit (pos n)) 429 (full n)) w calm
      λ n. refuse_if-IsCalm (leb_ℤ limit (pos n)) 429 (full n) w

check_daily-IsCalm :
    (db : Tables) (now : ℕ) (tnt : Tenant) (w : World) → IsCalm (check_daily db now tnt) w
unfolding check_daily count_daily_sessions
check_daily-IsCalm db now tnt w = elim (Bool-cases (ltb_ℤ tnt.max_sessions_per_day (pos 0))) [
  | inl e ↦ rw e refl
  | inr e ↦ rw e (
      check_count-IsCalm tnt.max_sessions_per_day quota_failed
        (λ used. limit_message "daily" used tnt.max_sessions_per_day tnt.tier)
        (count_daily_sessions db tnt.id now) w refl)
]

active_rows-IsCalm :
    (id : String) (o : Option (List Row)) (w : World) → (active_rows id o (up w)).1 ≡ up w
unfolding reach
active_rows-IsCalm id none w = refl
active_rows-IsCalm id (some rows) w = refl

check_concurrent-IsCalm : (tnt : Tenant) (w : World) → IsCalm (check_concurrent tnt) w
unfolding check_concurrent count_active_by_tenant
check_concurrent-IsCalm tnt w =
    elim (Bool-cases (not (ltb_ℤ (pos 0) tnt.max_concurrent_sessions))) [
      | inl e ↦ rw e refl
      | inr e ↦ rw e (
          check_count-IsCalm tnt.max_concurrent_sessions concurrency_failed
            (λ active. limit_message "concurrent" active tnt.max_concurrent_sessions tnt.tier)
            (count_active_by_tenant tnt.id) w (active_rows-IsCalm tnt.id w.sqlite w))
    ]

opened-IsCalm : (key : Option String) (w : World) → (opened key w).1 ≡ w
opened-IsCalm none w = refl
opened-IsCalm (some key) w = refl

picked-IsCalm :
    (decrypt : String → Option String) (draw : ℕ → ℕ) (provider : String) (es : List KeyPoolEntry)
    (w : World)
    → ((SessionWorld.◌>>=◌
          (pick_from draw provider es)
          λ entry. opened (decrypt entry.encrypted_token))
        w).1
      ≡ w
picked-IsCalm decrypt draw provider [] w = refl
picked-IsCalm decrypt draw provider (e ∷ es) w = opened-IsCalm _ w

resolve_key_from_pool-IsCalm :
    (decrypt : String → Option String) (draw : ℕ → ℕ) (db : Tables) (provider : String) (w : World)
    → (resolve_key_from_pool decrypt draw db provider (up w)).1 ≡ up w
unfolding resolve_key_from_pool get_active_key_for_provider
resolve_key_from_pool-IsCalm decrypt draw db provider w =
    picked-IsCalm decrypt draw provider (active_keys provider db.key_pool) (up w)

with_pool_key-IsCalm :
    (env : SessionHandler) (db : Tables) (cli : String) (c : Option Config) (w : World)
    → IsCalm (with_pool_key env db cli c) w
unfolding with_pool_key
with_pool_key-IsCalm env db cli c w = elim (Bool-cases (own_key c =s "")) [
  | inr e ↦ rw e refl
  | inl e ↦ rw e (
      asked-IsCalm (resolve_key_from_pool env.cipher.decrypt env.draw db (key_provider env cli)) 503
        (pool_message (key_provider env cli))
        (λ key.
          refuse_if (key =s "") 503 (pool_message (key_provider env cli))
          >> give (some (record (config_or_zero c) { ai_api_key = key })))
        w (resolve_key_from_pool-IsCalm env.cipher.decrypt env.draw db (key_provider env cli) w)
        λ key.
          >>=-IsCalm (refuse_if (key =s "") 503 (pool_message (key_provider env cli)))
            (λ _. give (some (record (config_or_zero c) { ai_api_key = key }))) w
            (refuse_if-IsCalm (key =s "") 503 (pool_message (key_provider env cli)) w) λ _. refl)
]

pub apply_limits-IsCalm :
    (env : SessionHandler) (db : Tables) (tnt : Tenant) (req : CreateSessionRequest) (w : World)
    → IsCalm (apply_limits env db tnt req) w
unfolding apply_limits
apply_limits-IsCalm env db tnt req w =
    let last = admitted_request env db tnt req in
    let fourth = check_concurrent tnt >> last in
    let third = check_daily db w.now tnt >> fourth in
    let second = admit_model env tnt req >> third in
    >>=-IsCalm (admit_cli env tnt req) (λ _. second) w (refuse_if-IsCalm _ 403 _ w)
      λ _.
        >>=-IsCalm (admit_model env tnt req) (λ _. third) w (refuse_if-IsCalm _ 403 _ w)
          λ _.
            >>=-IsCalm (check_daily db w.now tnt) (λ _. fourth) w
              (check_daily-IsCalm db w.now tnt w)
              λ _.
                >>=-IsCalm (check_concurrent tnt) (λ _. last) w (check_concurrent-IsCalm tnt w)
                  λ _.
                    >>=-IsCalm
                      (with_pool_key env db (named_cli env req.config)
                        (with_budget tnt.max_budget_usd_per_session req.config))
                      (λ config. give (record req { tenant_id = tnt.id; config = config })) w
                      (with_pool_key-IsCalm env db (named_cli env req.config)
                        (with_budget tnt.max_budget_usd_per_session req.config) w)
                      λ _. refl
