-- ===== src/Server/Sessions.antt =====
-- internal/server/handlers/sessions.go: the handlers of a tenant's and an operator's requests on
-- sessions.
--
-- Decoding JSON and validating its tags are parameters: a request comes decoded, or not at all.
-- `%q` is written without its escapes.
pub mod Handlers
pub mod PullRequests
pub mod Checks
pub mod Limits
pub mod Calm
pub mod Ownership
mod Tests
use codeforge.Prelude.{
  ℕ, ◌+◌, String, Bool, true, false, ◌||◌, ◌&&◌, not, Option, none, some, List, [], ◌∷◌,
  if◌then◌else◌, ◌=s◌, ◌<>◌, ltb, leb, contains, option_or,
}
use codeforge.Prelude.Int.{is_zero, ℤ, pos, ltb_ℤ, leb_ℤ}
use codeforge.Prelude.Decimal.{decimal}
use codeforge.Apperror.{Error}
use codeforge.Session.Status.{
  Status, pending, running, cloning, reviewing, canceled, is_status, text,
}
use codeforge.Session.Model.{Config, Session, zero_config}
use codeforge.Session.World.{World, Result, ok, err, M}
use codeforge.Session.Service.{Cipher, Settings, CreateSessionRequest, Draws}
use codeforge.Session.Creating.{create}
use codeforge.Session.Loading.{get_session}
use codeforge.Session.Operations.{
  update_status, instruct, start_review_async, count_active_by_tenant,
}
use codeforge.Tenant.{Tenant, Tables, count_daily_sessions}
use codeforge.Tenant.Pool.{resolve_key_from_pool}
use codeforge.Server.Http.{
  Handler, Response, Body, Step, go, answered, message, app_error, validation_error, of_session,
  of_text, done, ◌>>=◌, ◌>>◌, give, respond, refuse_if, call, or_error, or_refuse,
}

-- internal/tool/runner/registry.go: the registered CLIs with the providers of their keys.
pub record CliRegistry : Type 0 where
  pub default_cli : String
  pub provider_of : String → Option String

abbrev pub cli_name : CliRegistry → String → String
cli_name reg name = if name =s "" then reg.default_cli else name

abbrev pub is_known_cli : CliRegistry → String → Bool
is_known_cli reg name = elim (reg.provider_of (cli_name reg name)) [ none ↦ false | some _ ↦ true ]

-- encoding/json on a list of texts, strings.TrimSpace on it, and what Go draws at random.
pub record SessionHandler : Type 0 where
  pub is_blank : String → Bool
  pub json_strings : String → Option (List String)
  pub draw : ℕ → ℕ
  pub cipher : Cipher
  pub registry : CliRegistry
  pub tables : Option Tables
  pub invalid_fields : CreateSessionRequest → List (String × String)

abbrev pub has_item : Option (List String) → String → Bool
has_item none target = false
has_item (some items) target = contains items target

unfoldable pub string_in_json_list : SessionHandler → String → String → Bool
string_in_json_list env list target =
    if env.is_blank list then true else has_item (env.json_strings list) target

abbrev pub quoted : String → String
quoted s = "\"" <> s <> "\""

abbrev pub config_or_zero : Option Config → Config
config_or_zero c = option_or c zero_config

abbrev pub named_cli : SessionHandler → Option Config → String
named_cli env none = env.registry.default_cli
named_cli env (some c) = if c.cli =s "" then env.registry.default_cli else c.cli

abbrev pub is_denied_model : SessionHandler → Option String → Option Config → Bool
is_denied_model env none c = false
is_denied_model env (some models) none = false
is_denied_model env (some models) (some c) =
    not (c.ai_model =s "") && not (string_in_json_list env models c.ai_model)

abbrev pub limit_message : String → ℕ → ℤ → String → Body
limit_message kind used limit tier = message (
    kind
    <> " session limit reached ("
    <> decimal (pos used)
    <> "/"
    <> decimal limit
    <> ") for the "
    <> quoted tier
    <> " tier")

-- A limit on what a query counts: 503 if it fails, and 429 if the limit is reached.
abbrev pub check_count : ℤ → Body → (ℕ → Body) → M ℕ → Handler (Unit {0})
check_count limit failed full query = do
  answer ← call query
  n ← or_refuse 503 failed answer
  refuse_if (leb_ℤ limit (pos n)) 429 (full n)

abbrev pub quota_failed : Body
quota_failed = message "could not verify session quota, try again"

abbrev pub concurrency_failed : Body
concurrency_failed = message "could not verify concurrency limit, try again"

-- The daily quota; -1 is no limit.
unfoldable pub check_daily : Tables → ℕ → Tenant → Handler (Unit {0})
check_daily db now tnt =
    if ltb_ℤ tnt.max_sessions_per_day (pos 0)
    then give tt
    else check_count tnt.max_sessions_per_day quota_failed
        (λ used. limit_message "daily" used tnt.max_sessions_per_day tnt.tier)
        (count_daily_sessions db tnt.id now)

-- The sessions at work; the server has a counter for them, its session service.
unfoldable pub check_concurrent : Tenant → Handler (Unit {0})
check_concurrent tnt =
    if not (ltb_ℤ (pos 0) tnt.max_concurrent_sessions)
    then give tt
    else check_count tnt.max_concurrent_sessions concurrency_failed
        (λ active. limit_message "concurrent" active tnt.max_concurrent_sessions tnt.tier)
        (count_active_by_tenant tnt.id)

abbrev pub budget_within : ℤ → ℤ → ℤ
budget_within cap asked = if is_zero asked || ltb_ℤ cap asked then cap else asked

-- The cap of the tier on a session's budget.
unfoldable pub with_budget : ℤ → Option Config → Option Config
with_budget cap c =
    if ltb_ℤ (pos 0) cap
    then some (record (config_or_zero c) {
      max_budget_usd = budget_within cap (config_or_zero c).max_budget_usd;
    })
    else c

abbrev pub own_key : Option Config → String
own_key none = ""
own_key (some c) = c.ai_api_key

abbrev pub key_provider : SessionHandler → String → String
key_provider env cli = elim (env.registry.provider_of (cli_name env.registry cli)) [
  | none ↦ "anthropic"
  | some p ↦ if p =s "" then "anthropic" else p
]

abbrev pub pool_message : String → Body
pool_message provider =
    message
      ("no managed API key available for provider " <> quoted provider <> " — contact the operator")

-- A key of the pool for a request without a key of its own.
unfoldable pub with_pool_key :
    SessionHandler → Tables → String → Option Config → Handler (Option Config)
with_pool_key env db cli c = if not (own_key c =s "") then give c else (do
  let provider = key_provider env cli
  answer ← call (resolve_key_from_pool env.cipher.decrypt env.draw db provider)
  key ← or_refuse 503 (pool_message provider) answer
  refuse_if (key =s "") 503 (pool_message provider)
  give (some (record (config_or_zero c) { ai_api_key = key })))

abbrev pub admit_cli : SessionHandler → Tenant → CreateSessionRequest → Handler (Unit {0})
admit_cli env tnt req =
    let cli = named_cli env req.config in
    refuse_if (not (string_in_json_list env tnt.allowed_clis cli)) 403 (
      message (
        "CLI "
        <> quoted cli
        <> " is not allowed for the "
        <> quoted tnt.tier
        <> " subscription tier"))

abbrev pub admit_model : SessionHandler → Tenant → CreateSessionRequest → Handler (Unit {0})
admit_model env tnt req = refuse_if (is_denied_model env tnt.allowed_models req.config) 403 (
    message (
      "model "
      <> quoted (config_or_zero req.config).ai_model
      <> " is not allowed for the "
      <> quoted tnt.tier
      <> " subscription tier"))

-- The request that goes on.
abbrev pub admitted_request :
    SessionHandler → Tables → Tenant → CreateSessionRequest → Handler CreateSessionRequest
admitted_request env db tnt req = do
  config ←
      with_pool_key env db (named_cli env req.config)
        (with_budget tnt.max_budget_usd_per_session req.config)
  give (record req { tenant_id = tnt.id; config = config })

-- applyTenant behind its first test: the limits, then the request that goes on.
unfoldable pub apply_limits :
    SessionHandler → Tables → Tenant → CreateSessionRequest → Handler CreateSessionRequest
apply_limits env db tnt req w =
    (do
      admit_cli env tnt req
      admit_model env tnt req
      check_daily db w.now tnt
      check_concurrent tnt
      admitted_request env db tnt req)
      w

abbrev pub with_tables :
    SessionHandler → Tenant → CreateSessionRequest → Option Tables → Handler CreateSessionRequest
with_tables env tnt req none = give req
with_tables env tnt req (some db) = apply_limits env db tnt req

-- applyTenant; without a tenant service the request goes on as it came.
unfoldable pub apply_tenant :
    SessionHandler → Tenant → CreateSessionRequest → Handler CreateSessionRequest
apply_tenant env tnt req = with_tables env tnt req env.tables

abbrev pub for_tenant :
    SessionHandler → Option Tenant → CreateSessionRequest → Handler CreateSessionRequest
for_tenant env none req = give req
for_tenant env (some tnt) req = apply_tenant env tnt req
