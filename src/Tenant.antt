-- ===== src/Tenant.antt =====
-- internal/tenant: tenants with their limits, the log of their usage, and the pool of keys that the
-- operator lends them.
--
-- The three tables are lists of rows. US dollars (a float64) are counted in millionths, a time is its
-- nanoseconds, and what is drawn at random is a parameter. A query is a call that may fail, as in
-- Session.World.
pub mod KeyPool
pub mod Pool
mod Tests
use codeforge.Prelude.{
  ℕ, ◌-◌, ◌+◌, ◌*◌, ◌/◌, ◌%◌, ◌&&◌, ◌||◌, not, String, Bool, true, false, Option, none, some, List,
  [], ◌∷◌, ◌++◌, if◌then◌else◌, ◌=s◌, ◌<>◌, ltb, leb, length, contains,
}
use codeforge.Prelude.Int.{ℤ, pos, negsuc, pos_part, leb_ℤ}
use codeforge.Apperror.{Error, opaque, wrapped}
use codeforge.Session.World.{World, M, ◌>>=◌, ◌>>◌, pure, fail, reach, lost}

pub record Tenant : Type 0 where
  pub id : String
  pub name : String
  pub slug : String
  pub tier : String
  pub api_token_hash : String
  pub max_sessions_per_day : ℤ
  pub max_concurrent_sessions : ℤ
  pub max_budget_usd_per_session : ℤ
  pub allowed_clis : String
  pub allowed_models : Option String

pub record UsageLog : Type 0 where
  pub id : String
  pub tenant_id : String
  pub session_id : String
  pub cli : String
  pub model : String
  pub input_tokens : ℕ
  pub output_tokens : ℕ
  pub estimated_cost_usd : ℕ
  pub created_at : ℕ

pub record KeyPoolEntry : Type 0 where
  pub id : String
  pub provider : String
  pub encrypted_token : String
  pub weight : ℤ
  pub active : Bool

-- The tables `tenants`, `usage_logs` and `key_pool`.
pub record Tables : Type 0 where
  pub tenants : List Tenant
  pub usage_logs : List UsageLog
  pub key_pool : List KeyPoolEntry

pub record UsageSummary : Type 0 where
  pub total_sessions : ℕ
  pub total_input_tokens : ℕ
  pub total_output_tokens : ℕ
  pub total_cost_usd : ℕ

pub record TierDefaults : Type 0 where
  pub sessions_per_day : ℤ
  pub concurrent : ℤ
  pub budget_usd : ℤ
  pub clis : String

abbrev pub all_clis : String
all_clis = "[\"claude-code\",\"codex\",\"cursor\",\"claude-agent\"]"

-- A limit of -1 is none.
unfoldable pub defaults_for_tier : String → TierDefaults
defaults_for_tier tier =
    if tier =s "pro"
    then record {
      sessions_per_day = pos 100;
      concurrent = pos 10;
      budget_usd = pos 10000000;
      clis = all_clis;
    }
    else if tier =s "enterprise"
    then record {
      sessions_per_day = negsuc 0;
      concurrent = pos 50;
      budget_usd = pos 50000000;
      clis = all_clis;
    }
    else record {
      sessions_per_day = pos 10;
      concurrent = pos 2;
      budget_usd = pos 1000000;
      clis = "[\"claude-code\"]";
    }

-- The tenant that CreateTenant makes for a drawn id and the hash of a drawn token.
unfoldable pub new_tenant : String → String → String → String → String → Tenant
unfolding defaults_for_tier
new_tenant id token_hash name slug tier =
    let d = defaults_for_tier tier in
    record {
      id = id;
      name = name;
      slug = slug;
      tier = tier;
      api_token_hash = token_hash;
      max_sessions_per_day = d.sessions_per_day;
      max_concurrent_sessions = d.concurrent;
      max_budget_usd_per_session = d.budget_usd;
      allowed_clis = d.clis;
      allowed_models = none;
    }

abbrev pub slug_taken : String → List Tenant → Bool
slug_taken s [] = false
slug_taken s (t ∷ ts) = if t.slug =s s then true else slug_taken s ts

abbrev pub tiers : List String
tiers = "free" ∷ "pro" ∷ "enterprise" ∷ []

-- INSERT: the column `slug` is unique, and the tier is checked.
unfoldable pub create_tenant : Tenant → Tables → Option Tables
create_tenant t db =
    if slug_taken t.slug db.tenants || not (contains tiers t.tier)
    then none
    else some (record db { tenants = db.tenants ++ (t ∷ []) })

abbrev pub tenant_with_hash : String → List Tenant → Option Tenant
tenant_with_hash hash [] = none
tenant_with_hash hash (t ∷ ts) =
    if t.api_token_hash =s hash then some t else tenant_with_hash hash ts

abbrev pub or_no_rows : {A : Type 0} → Option A → M A
or_no_rows none = fail (wrapped "scanning tenant" (opaque "sql: no rows in result set"))
or_no_rows (some a) = pure a

unfoldable pub get_tenant_by_token_hash : Tables → String → M Tenant
unfolding reach
get_tenant_by_token_hash db hash = do
  reach (wrapped "scanning tenant" lost)
  or_no_rows (tenant_with_hash hash db.tenants)

abbrev pub tenants_without : String → List Tenant → List Tenant
tenants_without id [] = []
tenants_without id (t ∷ ts) =
    let rest = tenants_without id ts in if t.id =s id then rest else t ∷ rest

abbrev pub logs_without : String → List UsageLog → List UsageLog
logs_without id [] = []
logs_without id (l ∷ ls) =
    let rest = logs_without id ls in if l.tenant_id =s id then rest else l ∷ rest

-- DELETE, which takes the tenant's usage with it (ON DELETE CASCADE).
unfoldable pub delete_tenant : String → Tables → Tables
delete_tenant id db = record db {
  tenants = tenants_without id db.tenants;
  usage_logs = logs_without id db.usage_logs;
}

-- The columns that an UPDATE of a tenant writes.
abbrev pub updated_tenant : Tenant → Tenant → Tenant
updated_tenant t old = record old {
  name = t.name;
  tier = t.tier;
  max_sessions_per_day = t.max_sessions_per_day;
  max_concurrent_sessions = t.max_concurrent_sessions;
  max_budget_usd_per_session = t.max_budget_usd_per_session;
  allowed_clis = t.allowed_clis;
  allowed_models = t.allowed_models;
}

abbrev pub tenants_updated : Tenant → List Tenant → List Tenant
tenants_updated t [] = []
tenants_updated t (x ∷ xs) = (if x.id =s t.id then updated_tenant t x else x) ∷ tenants_updated t xs

unfoldable pub update_tenant : Tenant → Tables → Tables
update_tenant t db = record db { tenants = tenants_updated t db.tenants }

unfoldable pub log_usage : UsageLog → Tables → Tables
log_usage l db = record db { usage_logs = db.usage_logs ++ (l ∷ []) }

abbrev pub millisecond : ℕ
millisecond = 1000000

abbrev pub day : ℕ
day = 86400000000000

-- The texts of times are compared, to the millisecond.
abbrev pub is_since : ℕ → UsageLog → Bool
is_since since l = leb (since / millisecond) (l.created_at / millisecond)

abbrev pub logs_of : String → ℕ → List UsageLog → List UsageLog
logs_of id since [] = []
logs_of id since (l ∷ ls) =
    let rest = logs_of id since ls in
    if l.tenant_id =s id && is_since since l then l ∷ rest else rest

abbrev pub added_usage : UsageLog → UsageSummary → UsageSummary
added_usage l s = record {
  total_sessions = s.total_sessions + 1;
  total_input_tokens = s.total_input_tokens + l.input_tokens;
  total_output_tokens = s.total_output_tokens + l.output_tokens;
  total_cost_usd = s.total_cost_usd + l.estimated_cost_usd;
}

abbrev pub summed : List UsageLog → UsageSummary
summed [] = record {
  total_sessions = 0;
  total_input_tokens = 0;
  total_output_tokens = 0;
  total_cost_usd = 0;
}
summed (l ∷ ls) = added_usage l (summed ls)

unfoldable pub get_usage_summary : Tables → String → ℕ → M UsageSummary
unfolding reach
get_usage_summary db id since = do
  reach (wrapped "getting usage summary" lost)
  pure (summed (logs_of id since db.usage_logs))

-- COUNT(DISTINCT session_id).
abbrev pub distinct_sessions : List String → List UsageLog → ℕ
distinct_sessions seen [] = 0
distinct_sessions seen (l ∷ ls) =
    let again = distinct_sessions seen ls in
    let first = distinct_sessions (l.session_id ∷ seen) ls + 1 in
    if contains seen l.session_id then again else first

-- The sessions of a tenant in the log since midnight, UTC.
unfoldable pub count_daily_sessions : Tables → String → ℕ → M ℕ
unfolding reach
count_daily_sessions db id now = do
  reach (wrapped "counting daily sessions" lost)
  pure (distinct_sessions [] (logs_of id (now - now % day) db.usage_logs))
