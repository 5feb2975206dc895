-- ===== src/Worker/Sweeper.antt =====
-- internal/worker/sweeper.go: sessions that claim to run, but are long untouched, are failed.
pub mod Effects
use codeforge.Prelude.{ℕ, ◌-◌, String, List, [], ◌∷◌}
use codeforge.Session.Status.{failed}
use codeforge.Session.World.{World, M, Result, ok, err, ◌>>=◌, ◌>>◌, pure, get, ignore, attempt}
use codeforge.Session.Service.{Settings}
use codeforge.Session.Operations.{list_stuck, update_status, set_error}

abbrev pub stuck_message : String
stuck_message = "session stuck without a worker — marked failed by the stuck sweeper"

abbrev pub after_failing : String → Result (Unit {0}) → M (Unit {0})
after_failing k (err _) = pure tt
after_failing k (ok _) = ignore (set_error k stuck_message)

-- The body of the loop.
unfoldable pub sweep_one : Settings → String → M (Unit {0})
sweep_one cfg k = attempt (update_status cfg k failed) >>= after_failing k

unfoldable pub sweep_all : Settings → List String → M (Unit {0})
unfolding sweep_one
sweep_all cfg [] = pure tt
sweep_all cfg (k ∷ ks) = sweep_one cfg k >> sweep_all cfg ks

-- sweep; the clock is past the first `max_age`.
unfoldable pub sweep : Settings → ℕ → M (Unit {0})
sweep cfg max_age = ignore (do w ← get; ids ← list_stuck (w.now - max_age); sweep_all cfg ids)
