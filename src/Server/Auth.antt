-- ===== src/Server/Auth.antt =====
-- internal/server/middleware/auth.go and tenant.go: who a request comes from.
--
-- A handler is a function of the request's tenant; what the middleware answers itself is a status.
-- SHA-256 is a parameter, and the constant-time comparison of tokens is their equality.
pub mod Identity
mod Tests
use Prim.Native.String.{len, slice}
use text.Mathlib.Text.{starts_with}
use codeforge.Prelude.{
  String, Bool, true, false, ◌||◌, ◌&&◌, not, Option, none, some, if◌then◌else◌, ◌=s◌,
}
use codeforge.Session.World.{World, Result, ok, err, M, attempt, ◌>>=◌, pure, reach}
use codeforge.Tenant.{Tenant, Tables, get_tenant_by_token_hash}

-- strings.TrimPrefix.
abbrev pub trim_prefix : String → String → String
trim_prefix s p = if starts_with s p then slice s (len p) (len s) else s

-- What authentication lets through: the operator, or a tenant; or nothing.
pub data Access : Type 0 where
  operator : Access
  as_tenant : Tenant → Access
  unauthorized : Access

unfoldable pub bearer_auth : String → String → Access
bearer_auth expected auth =
    let token = trim_prefix auth "Bearer " in
    if auth =s token || not (token =s expected) then unauthorized else operator

abbrev pub tenant_or_nothing : Result Tenant → Access
tenant_or_nothing (err _) = unauthorized
tenant_or_nothing (ok t) = as_tenant t

abbrev pub look_up : (String → String) → Option Tables → String → M Access
look_up hash none token = pure unauthorized
look_up hash (some db) token =
    if starts_with token "cfk_"
    then (do
      answer ← attempt (get_tenant_by_token_hash db (hash token))
      pure (tenant_or_nothing answer))
    else pure unauthorized

-- TenantAuth on the header Authorization; `none` is a server without a store of tenants.
unfoldable pub tenant_auth : String → (String → String) → Option Tables → String → M Access
tenant_auth operator_token hash lookup auth =
    let token = trim_prefix auth "Bearer " in
    if auth =s token || token =s ""
    then pure unauthorized
    else if not (operator_token =s "") && token =s operator_token
    then pure operator
    else look_up hash lookup token

abbrev pub tenant_of : Access → Option Tenant
tenant_of operator = none
tenant_of (as_tenant t) = some t
tenant_of unauthorized = none

-- What OperatorOnly does with a request that authentication has let through.
pub data Gate : Type 0 where
  passes : Gate
  forbidden : Gate

unfoldable pub operator_only : Option Tenant → Gate
operator_only none = passes
operator_only (some _) = forbidden
