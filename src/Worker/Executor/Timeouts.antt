-- ===== src/Worker/Executor/Timeouts.antt =====
-- The time that a session may run.
use codeforge.Prelude.{◌≡◌, true, arith}
use codeforge.Prelude.Int.{pos, ltb_ℤ, ◌≤ℤ◌}
use codeforge.Session.Model.{Session}
use codeforge.Worker.Executor.{Env, resolve_timeout, config_timeout}

-- A session never gets more than the maximum, and gets what its configuration asks for if that is
-- positive and no more than the maximum.
pub resolve_timeout_bounds :
    (env : Env) (t : Session)
    → (resolve_timeout env t ≤ℤ env.max_timeout)
      × (ltb_ℤ (pos 0) (config_timeout t.config) ≡ true
          → config_timeout t.config ≤ℤ env.max_timeout
          → resolve_timeout env t ≡ config_timeout t.config)
unfolding resolve_timeout
resolve_timeout_bounds env t = (ground arith, λ h k. ground arith)
