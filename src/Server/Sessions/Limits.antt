-- ===== src/Server/Sessions/Limits.antt =====
-- What holds of a tenant's request that its limits admit.
use codeforge.Prelude.{
  ◌≡◌, refl, sym, ap, ◌∙◌, String, Bool, true, false, not, ◌&&◌, Option, none, some, ◌⊎◌, inl, inr,
  ◌=s◌,
}
use codeforge.Prelude.Int.{pos, ltb_ℤ, ◌≤ℤ◌}
use codeforge.Session.Model.{Config}
use codeforge.Session.World.{World}
use codeforge.Session.Service.{CreateSessionRequest}
use codeforge.Tenant.{Tenant, Tables, day}
use codeforge.Server.Http.{Step, go, ◌>>◌, give}
use codeforge.Server.Sessions.{
  SessionHandler, string_in_json_list, check_daily, check_concurrent, with_budget, with_pool_key,
  apply_limits, apply_tenant, with_tables, is_denied_model, admit_cli, admit_model,
  admitted_request, own_key, named_cli,
}
use codeforge.Server.Sessions.Checks.{
  >>=-go, IsBelow, active_now, budget_of, check_concurrent-go, check_daily-go, refuse_if-go,
  used_today, with_budget-le, with_pool_key-go,
}

-- A named model is one of the tenant's list, where there is one.
abbrev pub IsAllowed : SessionHandler → Option String → Option Config → Type 0
IsAllowed env none c = Unit
IsAllowed env (some models) none = Unit
IsAllowed env (some models) (some c) =
    ((c.ai_model =s "") ≡ true) ⊎ (string_in_json_list env models c.ai_model ≡ true)

model-IsAllowed :
    (env : SessionHandler) (models : Option String) (c : Option Config)
    → is_denied_model env models c ≡ false
    → IsAllowed env models c
model-IsAllowed env none c h = tt
model-IsAllowed env (some models) none h = tt
model-IsAllowed env (some models) (some c) h =
    both (c.ai_model =s "") (string_in_json_list env models c.ai_model) h
  where
    both : (x y : Bool) → (not x && not y) ≡ false → (x ≡ true) ⊎ (y ≡ true)
    both true y h = inl refl
    both false true h = inr refl
    both false false h = absurd (cc)

-- What the limits of a tier allow.
pub record IsWithinLimits (env : SessionHandler) (db : Tables) (tnt : Tenant)
    (req admitted : CreateSessionRequest) (w : World) : Type 0 where
  pub owned : admitted.tenant_id ≡ tnt.id
  pub cli_allowed : string_in_json_list env tnt.allowed_clis (named_cli env req.config) ≡ true
  pub model_allowed : IsAllowed env tnt.allowed_models req.config
  pub daily :
      IsBelow
        (used_today db tnt.id w.now)
        tnt.max_sessions_per_day
        (ltb_ℤ tnt.max_sessions_per_day (pos 0))
  pub concurrent :
      IsBelow
        (active_now tnt.id w.sqlite)
        tnt.max_concurrent_sessions
        (not (ltb_ℤ (pos 0) tnt.max_concurrent_sessions))
  pub budget :
      ltb_ℤ (pos 0) tnt.max_budget_usd_per_session ≡ true
      → budget_of admitted.config ≤ℤ tnt.max_budget_usd_per_session
  pub keyed : (own_key admitted.config =s "") ≡ false

pub apply_limits-IsWithinLimits :
    (env : SessionHandler) (db : Tables) (tnt : Tenant) (req admitted : CreateSessionRequest)
    (w w' : World)
    → apply_limits env db tnt req w ≡ (go admitted, w')
    → IsWithinLimits env db tnt req admitted w
unfolding apply_limits
apply_limits-IsWithinLimits env db tnt req admitted w w' h =
    let last = admitted_request env db tnt req in
    let fourth = check_concurrent tnt >> last in
    let third = check_daily db w.now tnt >> fourth in
    let second = admit_model env tnt req >> third in
    let (_, v₁, h₁, k₁) = >>=-go (admit_cli env tnt req) (λ _. second) w h in
    let (cli, at₁) = refuse_if-go _ _ _ w v₁ h₁ in
    let (_, v₂, h₂, k₂) = >>=-go (admit_model env tnt req) (λ _. third) v₁ k₁ in
    let (model, at₂) = refuse_if-go _ _ _ v₁ v₂ h₂ in
    let (_, v₃, h₃, k₃) = >>=-go (check_daily db w.now tnt) (λ _. fourth) v₂ k₂ in
    let (day, same) = check_daily-go db w.now tnt v₂ v₃ h₃ in
    let (_, v₄, h₄, k₄) = >>=-go (check_concurrent tnt) (λ _. last) v₃ k₃ in
    let (config, v₅, h₅, k₅) =
      >>=-go
        (with_pool_key env db (named_cli env req.config)
          (with_budget tnt.max_budget_usd_per_session req.config))
        (λ config. give (record req { tenant_id = tnt.id; config = config })) v₄ k₄ in
    let (key, kept) =
      with_pool_key-go env db (named_cli env req.config)
        (with_budget tnt.max_budget_usd_per_session req.config) config v₄ v₅ h₅ in
    let result : record req { tenant_id = tnt.id; config = config } ≡ admitted = gone v₅ k₅ in
    let rows : v₃.sqlite ≡ w.sqlite = same ∙ ap (λ v. v.sqlite) (sym (at₁ ∙ at₂)) in
    record {
      owned = ap (λ r. r.tenant_id) (sym result);
      cli_allowed =
          allowed (string_in_json_list env tnt.allowed_clis (named_cli env req.config)) cli;
      model_allowed = model-IsAllowed env tnt.allowed_models req.config model;
      daily = day;
      concurrent = rw (← rows) (check_concurrent-go tnt v₃ v₄ h₄);
      budget =
          λ on. rw (← result, kept) (with_budget-le tnt.max_budget_usd_per_session req.config on);
      keyed = rw (← result) key;
    }
  where
    allowed : (b : Bool) → not b ≡ false → b ≡ true
    allowed true e = refl
    allowed false e = absurd (cc)

    gone :
        {r : CreateSessionRequest} (v : World)
        → ◌≡◌ {A = Step CreateSessionRequest × World} (go r, v) (go admitted, w')
        → r ≡ admitted
    gone v e = cc

-- A request that applyTenant lets go on with a tenant service, whichever queries fail, belongs to the
-- tenant and is for a CLI that its list allows; a model that it names is one of the list of models,
-- if there is such a list; it finds fewer sessions of today in the usage log than the daily quota and
-- fewer at work than the limit unless these are off, asks for no more than the budget of the tier if
-- that is positive, and has a key.
pub apply_tenant_lem :
    (env : SessionHandler) (db : Tables) (tnt : Tenant) (req admitted : CreateSessionRequest)
    (w w' : World)
    → env.tables ≡ some db
    → apply_tenant env tnt req w ≡ (go admitted, w')
    → IsWithinLimits env db tnt req admitted w
unfolding apply_tenant
apply_tenant_lem env db tnt req admitted w w' served h =
    apply_limits-IsWithinLimits env db tnt req admitted w w'
      (ap (λ o. with_tables env tnt req o w) (sym served) ∙ h)
