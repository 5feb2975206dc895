-- ===== src/Server/Sessions/Tests.antt =====
-- Requests of a tenant at a concrete server.
use codeforge.Apperror.{Error, opaque, wrapped, error_text}
use codeforge.Server.Sessions.PullRequests.{refuse_create, answer_text}
use codeforge.Session.Operations.{count_active_by_tenant}
use codeforge.Prelude.{String, ◌≡◌, ◌≢◌, refl, none, some, [], ◌∷◌, ◌=s◌}
use codeforge.Prelude.Int.{pos, negsuc}
use codeforge.Session.Model.{zero_config, Config}
use codeforge.Session.World.{World, up}
use codeforge.Session.Service.{new_session, effective_prompt, CreateSessionRequest}
use codeforge.Session.Creating.{create, seal, store_new, encrypted}
use codeforge.Session.Loading.{get_session}
use codeforge.Session.Samples.{two_sessions, request, draws, marking, marking-IsInvertible}
use codeforge.Tenant.{count_daily_sessions, Tenant, Tables, new_tenant}
use codeforge.Server.Http.{Handler, Response, go, answered, give, of_session}
use codeforge.Server.Sessions.{
  apply_tenant, with_budget, with_pool_key, check_concurrent, check_daily, string_in_json_list,
  SessionHandler, apply_limits,
}
use codeforge.Server.Sessions.Handlers.{check_request, ownership, create_session, no_session}
use codeforge.Server.Sessions.Limits.{apply_tenant_lem, IsWithinLimits}
use codeforge.Server.Sessions.Ownership.{ownership_lem, create_session-IsOwn, IsOwn, refusal}

abbrev tenant : Tenant
tenant = record (new_tenant "t" "#cfk_1" "T" "t" "free") { allowed_clis = "" }

abbrev other_tenant : Tenant
other_tenant = record tenant { id = "u" }

abbrev tables : Tables
tables = record { tenants = tenant ∷ []; usage_logs = []; key_pool = [] }

abbrev env : SessionHandler
env = record {
  is_blank = λ s. s =s "";
  json_strings = λ _. none;
  draw = λ _. 0;
  cipher = marking;
  registry = record { default_cli = "codex"; provider_of = λ _. some "openai" };
  tables = some tables;
  invalid_fields = λ _. [];
}

-- The request of a user who brings a key, with a budget in millionths of a dollar.
abbrev asked : Config → CreateSessionRequest
asked c = record request { config = some (record c { ai_api_key = "own" }) }

abbrev admitted : CreateSessionRequest
admitted = asked (record zero_config { max_budget_usd = pos 1000000 })

-- A list of models that holds what is asked for.
abbrev listing : SessionHandler
listing = record env { json_strings = λ _. some ("small" ∷ []) }

abbrev choosy : Tenant
choosy = record tenant { allowed_models = some "[\"small\"]" }

abbrev small : CreateSessionRequest
small = asked (record zero_config { ai_model = "small" })

abbrev small_admitted : CreateSessionRequest
small_admitted = asked (record zero_config { ai_model = "small"; max_budget_usd = pos 1000000 })

apply_tenant_lem_example : IsWithinLimits listing tables choosy small small_admitted two_sessions
unfolding apply_tenant apply_limits new_tenant string_in_json_list check_daily count_daily_sessions
    check_concurrent count_active_by_tenant with_pool_key with_budget
apply_tenant_lem_example =
    apply_tenant_lem listing tables choosy small small_admitted two_sessions two_sessions refl refl

-- A negative budget is below every cap, and goes on as it came.
abbrev negative : CreateSessionRequest
negative = asked (record zero_config { max_budget_usd = negsuc 0 })

negative_budget : apply_limits env tables tenant negative two_sessions ≡ (go negative, two_sessions)
unfolding apply_limits new_tenant string_in_json_list check_daily count_daily_sessions
    check_concurrent count_active_by_tenant with_pool_key with_budget
negative_budget = refl

abbrev shown : Handler Response
shown = give (record { status = 200; body = no_session })

ownership_lem_example :
    (IsOwn other_tenant (get_session marking "a" two_sessions).0
      → ownership env (some other_tenant) "a" shown two_sessions
        ≡ shown (get_session marking "a" two_sessions).1)
    × ((IsOwn other_tenant (get_session marking "a" two_sessions).0 → ⊥)
        → ownership env (some other_tenant) "a" shown two_sessions ≡ (
          answered (refusal (get_session marking "a" two_sessions).0),
          (get_session marking "a" two_sessions).1,
        ))
ownership_lem_example = ownership_lem env other_tenant "a" shown two_sessions refl

abbrev sent : CreateSessionRequest
sent = asked zero_config

abbrev left : World
left = (create marking admitted draws (up two_sessions)).1

create_session-IsOwn_example :
    (tenant.id ≡ other_tenant.id
      → ownership env (some other_tenant) "c" shown left ≡ shown (get_session marking "c" left).1)
    × (tenant.id ≢ other_tenant.id
        → ownership env (some other_tenant) "c" shown left ≡ (
          answered (record { status = 404; body = no_session }),
          (get_session marking "c" left).1,
        ))
unfolding create_session apply_limits new_tenant create seal store_new encrypted effective_prompt
    check_request apply_tenant string_in_json_list check_daily count_daily_sessions check_concurrent
    count_active_by_tenant with_pool_key with_budget
create_session-IsOwn_example =
    create_session-IsOwn env tables tenant sent draws two_sessions left
      (record { status = 201; body = of_session (new_session admitted "fix the tests" "c" 5) }) refl
      marking-IsInvertible refl refl refl other_tenant shown

-- A push to a repository that the remote does not know is answered as a session that is not found.
abbrev push_error : Error
push_error = wrapped "creating branch and pushing" (opaque "remote: Repository not found.")

remote_absent : (w : World) → refuse_create {A = String} push_error w ≡ answer_text 404 push_error w
unfolding error_text
remote_absent w = refl
