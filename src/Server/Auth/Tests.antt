-- ===== src/Server/Auth/Tests.antt =====
-- Authentication at concrete headers.
use codeforge.Prelude.{◌≡◌, refl, String, some, [], ◌∷◌, ◌<>◌}
use codeforge.Session.World.{ok, up}
use codeforge.Session.Samples.{two_sessions}
use codeforge.Tenant.{get_tenant_by_token_hash, Tables, Tenant, new_tenant}
use codeforge.Server.Auth.{
  Access, operator, unauthorized, as_tenant, operator_only, passes, tenant_of, tenant_auth,
}
use codeforge.Server.Auth.Identity.{Entitled, IsOperator, tenant_auth_lem}

abbrev hash : String → String
hash s = "#" <> s

abbrev tenant : Tenant
tenant = new_tenant "t" "#cfk_1" "T" "t" "free"

abbrev tables : Tables
tables = record { tenants = tenant ∷ []; usage_logs = []; key_pool = [] }

tenant_auth_lem_example :
    ((a : Access)
      → (tenant_auth "top" hash (some tables) "Bearer cfk_1" (up two_sessions)).0 ≡ ok a
      → Entitled "top" hash tables "Bearer cfk_1" two_sessions a)
    × (IsOperator "top" hash tables "Bearer cfk_1" two_sessions
        → (tenant_auth "top" hash (some tables) "Bearer cfk_1" (up two_sessions)).0 ≡ ok operator)
    × ((a : Access)
        → (tenant_auth "top" hash (some tables) "Bearer cfk_1" (up two_sessions)).0 ≡ ok a
        → (a ≡ unauthorized → ⊥)
        → operator_only (tenant_of a) ≡ passes
        → IsOperator "top" hash tables "Bearer cfk_1" two_sessions)
tenant_auth_lem_example = tenant_auth_lem "top" hash tables "Bearer cfk_1" two_sessions

as_the_tenant :
    (tenant_auth "top" hash (some tables) "Bearer cfk_1" (up two_sessions)).0
    ≡ ok (as_tenant tenant)
unfolding tenant_auth new_tenant get_tenant_by_token_hash
as_the_tenant = refl

-- A header without "Bearer " is refused.
bare_token : (tenant_auth "top" hash (some tables) "cfk_1" (up two_sessions)).0 ≡ ok unauthorized
unfolding tenant_auth
bare_token = refl
