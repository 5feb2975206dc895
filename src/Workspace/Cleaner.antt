-- ===== src/Workspace/Cleaner.antt =====
-- internal/workspace/cleanup.go: a round of the cleaner.
use codeforge.Prelude.{ℕ, String, Bool, true, false, ◌&&◌, ◌||◌, List, [], ◌∷◌, if◌then◌else◌, ltb}
use codeforge.Session.Status.{running, cloning, creating_pr, is_status}
use codeforge.Session.Model.{Session}
use codeforge.Session.World.{Result, ok, err}
use codeforge.Session.Service.{Cipher}
use codeforge.Session.Loading.{get_session}
use codeforge.Session.Listing.{sort_by}
use codeforge.Workspace.{
  Workspace, Manager, D, ◌>>=◌, pure, call, is_expired, delete_workspace, list_workspaces,
  total_size_bytes,
}

pub record CleanerConfig : Type 0 where
  pub disk_warning_threshold : ℕ
  pub disk_critical_threshold : ℕ

abbrev pub is_at_work : Result Session → Bool
is_at_work (err e) = false
is_at_work (ok t) =
    is_status t.status running || is_status t.status cloning || is_status t.status creating_pr

-- isSessionRunning.
unfoldable pub is_session_running : Cipher → String → D Bool
is_session_running cipher k = call (get_session cipher k) >>= λ r. pure (is_at_work r)

abbrev pub delete_idle : Manager → String → Bool → D (Unit {0})
delete_idle m k true = pure tt
delete_idle m k false = delete_workspace m k >>= λ _. pure tt

-- The loop of cleanup; `now` is the clock.
unfoldable pub delete_expired : Cipher → Manager → List Workspace → D (Unit {0})
delete_expired cipher m [] = pure tt
delete_expired cipher m (s ∷ ss) = λ d.
    let kept = delete_expired cipher m ss d in
    let next =
      (is_session_running cipher s.task_id >>= delete_idle m s.task_id >>= λ _.
      delete_expired cipher m ss)
        d in
    if is_expired d.world.now s then next else kept

abbrev pub older : Workspace → Workspace → Bool
older a b = ltb a.created_at b.created_at

-- What follows a delete of emergencyCleanup.
abbrev pub until_below : CleanerConfig → D (Unit {0}) → Result (Unit {0}) → D (Unit {0})
until_below cfg rest (err e) = rest
until_below cfg rest (ok a) = total_size_bytes >>= λ total d.
    let on = rest d in if ltb total cfg.disk_critical_threshold then (tt, d) else on

abbrev pub delete_if_idle : CleanerConfig → Manager → String → D (Unit {0}) → Bool → D (Unit {0})
delete_if_idle cfg m k rest true = rest
delete_if_idle cfg m k rest false = delete_workspace m k >>= until_below cfg rest

unfoldable pub delete_oldest : Cipher → CleanerConfig → Manager → List Workspace → D (Unit {0})
delete_oldest cipher cfg m [] = pure tt
delete_oldest cipher cfg m (s ∷ ss) =
    is_session_running cipher s.task_id
    >>= delete_if_idle cfg m s.task_id (delete_oldest cipher cfg m ss)

abbrev pub empty_oldest : Cipher → CleanerConfig → Manager → Result (List Workspace) → D (Unit {0})
empty_oldest cipher cfg m (err e) = pure tt
empty_oldest cipher cfg m (ok all) = delete_oldest cipher cfg m (sort_by older all)

unfoldable pub emergency_cleanup : Cipher → CleanerConfig → Manager → D (Unit {0})
emergency_cleanup cipher cfg m = list_workspaces >>= empty_oldest cipher cfg m

-- checkDiskUsage, whose warnings are only logged.
unfoldable pub check_disk_usage : Cipher → CleanerConfig → Manager → D (Unit {0})
check_disk_usage cipher cfg m = total_size_bytes >>= λ total d.
    let emptied = emergency_cleanup cipher cfg m d in
    if ltb 0 cfg.disk_critical_threshold && ltb cfg.disk_critical_threshold total
    then emptied
    else (tt, d)

abbrev pub clean_listed : Cipher → CleanerConfig → Manager → Result (List Workspace) → D (Unit {0})
clean_listed cipher cfg m (err e) = pure tt
clean_listed cipher cfg m (ok all) =
    delete_expired cipher m all >>= λ _. check_disk_usage cipher cfg m

unfoldable pub cleanup : Cipher → CleanerConfig → Manager → D (Unit {0})
cleanup cipher cfg m = list_workspaces >>= clean_listed cipher cfg m
