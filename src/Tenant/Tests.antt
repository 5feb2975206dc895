-- ===== src/Tenant/Tests.antt =====
-- The pool of keys at concrete entries.
use codeforge.Prelude.{◌≡◌, refl, true, some, none, [], ◌∷◌, ◌+◌, arith}
use codeforge.Prelude.Int.{pos, negsuc}
use codeforge.Session.World.{ok}
use codeforge.Session.Samples.{two_sessions}
use codeforge.Tenant.{
  KeyPoolEntry, Tables, UsageLog, count_daily_sessions, create_tenant, new_tenant, log_usage,
}
use codeforge.Tenant.Pool.{
  get_active_key_for_provider, effective_weight, pick, resolve_key_from_pool,
}
use codeforge.Tenant.KeyPool.{pick_weighted}

abbrev light : KeyPoolEntry
light = record {
  id = "1";
  provider = "openai";
  encrypted_token = "k1";
  weight = negsuc 3;
  active = true;
}

abbrev heavy : KeyPoolEntry
heavy = record light { id = "2"; encrypted_token = "k2"; weight = pos 3 }

pick_weighted_example : pick light (1 + 2) (light ∷ heavy ∷ light ∷ []) ≡ heavy
unfolding effective_weight
pick_weighted_example = pick_weighted light (light ∷ []) heavy (light ∷ []) 2 (omega arith)

abbrev log : UsageLog
log = record {
  id = "l";
  tenant_id = "t";
  session_id = "a";
  cli = "codex";
  model = "m";
  input_tokens = 10;
  output_tokens = 1;
  estimated_cost_usd = 7;
  created_at = 5;
}

abbrev tables : Tables
tables = record { tenants = []; usage_logs = log ∷ []; key_pool = light ∷ heavy ∷ [] }

-- A session that is logged twice counts once.
counted_once : (count_daily_sessions (log_usage log tables) "t" 9 two_sessions).0 ≡ ok 1
unfolding count_daily_sessions log_usage
counted_once = refl

-- A slug is used once.
slug_unique :
    (create_tenant
      (new_tenant "x" "h" "X" "s" "free")
      (record tables { tenants = new_tenant "y" "g" "Y" "s" "pro" ∷ [] }))
    ≡ none
unfolding create_tenant new_tenant
slug_unique = refl

pooled_key : (resolve_key_from_pool (λ s. some s) (λ n. 1) tables "openai" two_sessions).0 ≡ ok "k2"
unfolding resolve_key_from_pool get_active_key_for_provider
pooled_key = refl
