-- ===== src/Worker/Executor/Safety.antt =====
-- The executor moves the stored statuses along the diagram, whatever the agent and git answer and
-- whichever calls fail.
use codeforge.Prelude.{ℕ, String, Option, none, some, if◌then◌else◌, ◌<>◌, leb}
use codeforge.Apperror.{error_text}
use codeforge.Session.Status.{Status, pending, cloning, failed, canceled}
use codeforge.Session.Model.{Session, Iteration}
use codeforge.Session.World.{World, M, Result, ok, err, ◌>>=◌, ◌>>◌, pure, ignore, attempt, require}
use codeforge.Session.World.Statuses.{
  then-IsSafe, choice-IsSafe, IsSafe, Keeps-refl, >>=-IsSafe, ignore-IsSafe, attempt-IsSafe,
  require-IsSafe,
}
use codeforge.Session.Service.{Settings}
use codeforge.Session.Operations.{update_status, set_error, save_iteration}
use codeforge.Session.Operations.Safety.{set_error-IsSafe, save_iteration-IsSafe}
use codeforge.Session.Operations.Reads.{update_status-IsSafe}
use codeforge.Worker.Executor.{
  Env, Ended, going, canceled_by_user, shut_down, iteration_of, fail_session, cancel_session,
  requeue_for_restart, terminate_on_error, clone_step, after_clone, found_workspace,
  setup_workspace, referenced,
}

-- The record of an iteration, dated by the World in which it is saved.
pub saved-IsSafe :
    (k : String) (it : World → Iteration) → IsSafe (λ w. ignore (save_iteration k (it w)) w)
saved-IsSafe k it w = save_iteration-IsSafe k (it w) w

status-IsSafe : (cfg : Settings) (k : String) (s : Status) → IsSafe (ignore (update_status cfg k s))
status-IsSafe cfg k s = ignore-IsSafe (update_status cfg k s) (update_status-IsSafe cfg k s)

pub fail_session-IsSafe :
    (cfg : Settings) (t : Session) (started : ℕ) (message : String)
    → IsSafe (fail_session cfg t started message)
unfolding fail_session
fail_session-IsSafe cfg t started message =
    let it : World → Iteration = λ w. iteration_of t "" message failed none none started w.now in
    then-IsSafe (ignore (set_error t.id message))
      (ignore (update_status cfg t.id failed) >> λ w. ignore (save_iteration t.id (it w)) w)
      (ignore-IsSafe (set_error t.id message) (set_error-IsSafe t.id message))
      (then-IsSafe (ignore (update_status cfg t.id failed))
        (λ w. ignore (save_iteration t.id (it w)) w) (status-IsSafe cfg t.id failed)
        (saved-IsSafe t.id it))

pub terminate_on_error-IsSafe :
    (cfg : Settings) (t : Session) (started : ℕ) (message : String) (e : Ended)
    → IsSafe (terminate_on_error cfg t started message e)
unfolding terminate_on_error cancel_session requeue_for_restart
terminate_on_error-IsSafe cfg t started message going = fail_session-IsSafe cfg t started message
terminate_on_error-IsSafe cfg t started message canceled_by_user =
    let it : World → Iteration =
      λ w. iteration_of t "" "canceled by user" canceled none none started w.now in
    then-IsSafe (ignore (update_status cfg t.id canceled))
      (λ w. ignore (save_iteration t.id (it w)) w) (status-IsSafe cfg t.id canceled)
      (saved-IsSafe t.id it)
terminate_on_error-IsSafe cfg t started message shut_down = status-IsSafe cfg t.id pending

after_clone-IsSafe :
    (env : Env) (cfg : Settings) (t : Session) (started : ℕ) (context dir : String)
    (r : Result (Unit {0}))
    → IsSafe (after_clone env cfg t started context dir r)
after_clone-IsSafe env cfg t started context dir (ok _) = Keeps-refl
after_clone-IsSafe env cfg t started context dir (err e) =
    >>=-IsSafe (terminate_on_error cfg t started (context <> error_text e) env.ended)
      (λ _. pure {A = Option String} none)
      (terminate_on_error-IsSafe cfg t started (context <> error_text e) env.ended) λ _. Keeps-refl

clone_step-IsSafe : (env : Env) (cfg : Settings) (t : Session) → IsSafe (clone_step env cfg t)
unfolding clone_step
clone_step-IsSafe env cfg t =
    then-IsSafe (update_status cfg t.id cloning) (require (env.prepare_clone t))
      (update_status-IsSafe cfg t.id cloning) (require-IsSafe (env.prepare_clone t))

cloned-IsSafe :
    (env : Env) (cfg : Settings) (t : Session) (started : ℕ) (context : String)
    → IsSafe (
        attempt (clone_step env cfg t)
        >>= after_clone env cfg t started context (env.work_dir t.id))
cloned-IsSafe env cfg t started context =
    >>=-IsSafe (attempt (clone_step env cfg t))
      (after_clone env cfg t started context (env.work_dir t.id))
      (attempt-IsSafe (clone_step env cfg t) (clone_step-IsSafe env cfg t))
      (after_clone-IsSafe env cfg t started context (env.work_dir t.id))

pub setup_workspace-IsSafe :
    (env : Env) (cfg : Settings) (t : Session) (started : ℕ)
    → IsSafe (setup_workspace env cfg t started)
unfolding setup_workspace
setup_workspace-IsSafe env cfg t started = found (referenced env t.config)
  where
    own : M (Option String)
    own = pure (some (env.work_dir t.id))

    again : M (Option String)
    again =
        attempt (clone_step env cfg t)
        >>= after_clone env cfg t started "re-clone failed: " (env.work_dir t.id)

    found : (o : Option String) → IsSafe (found_workspace env cfg t started o)
    found (some dir) = Keeps-refl
    found none =
        choice-IsSafe (leb t.iteration 1)
          (attempt (clone_step env cfg t)
            >>= after_clone env cfg t started "clone failed: " (env.work_dir t.id))
          (if env.dir_exists (env.work_dir t.id) then own else again)
          (cloned-IsSafe env cfg t started "clone failed: ")
          (choice-IsSafe (env.dir_exists (env.work_dir t.id)) own again Keeps-refl
            (cloned-IsSafe env cfg t started "re-clone failed: "))
