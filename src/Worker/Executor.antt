-- ===== src/Worker/Executor.antt =====
-- internal/worker/executor.go: the run of one session, with the ends that it may have.
--
-- What git, the command-line agent, the workspaces and the clock's deadlines answer is a parameter,
-- Env. Streams, webhooks, notifications, usage logs, posted comments and metrics are left out, as
-- they change no session; so are the bytes of a text, which `truncate` counts.
pub mod Run
pub mod Safety
pub mod Endings
pub mod Timeouts
pub mod Prompt
use codeforge.Prelude.{
  ℕ, ◌+◌, ◌/◌, ◌%◌, zero, suc, String, Bool, true, false, not, ◌&&◌, ◌||◌, Option, none, some, List,
  if◌then◌else◌, ◌=s◌, ◌==◌, ◌<>◌, ltb, leb,
}
use codeforge.Prelude.Int.{ℤ, pos, ltb_ℤ}
use codeforge.Apperror.{Error, error_text}
use codeforge.Session.Status.{
  Status, pending, cloning, running, completed, failed, reviewing, canceled, is_status,
}
use codeforge.Session.Model.{Config, ChangesSummary, UsageInfo, ReviewResult, Iteration, Session}
use codeforge.Session.World.{
  require, World, M, Result, ok, err, ◌>>=◌, ◌>>◌, pure, get, ignore, attempt, lift,
}
use codeforge.Session.Service.{Cipher, Settings}
use codeforge.Session.Operations.{
  update_status, set_result, set_error, save_iteration, set_review_result, complete_review,
  start_review_async,
}
use codeforge.Session.PrService.{create_pr}
use codeforge.Session.PrPlan.{Outside, CreatePrRequest, has_changes}

pub record RunResult : Type 0 where
  pub output : String
  pub input_tokens : ℕ
  pub output_tokens : ℕ
  pub duration_seconds : ℕ

-- `Runner.Run` and the look-up before it: an error may come with a partial result.
pub data RunEnd : Type 0 where
  ran : RunResult → RunEnd
  stopped : Error → Option RunResult → RunEnd

-- The same for a review; `unready` is an error before the agent starts, with its message.
pub data ReviewEnd : Type 0 where
  reviewed : RunResult → ReviewEnd
  unready : String → ReviewEnd
  interrupted : Error → ReviewEnd

-- The context of a session: the cause of its cancellation.
pub data Ended : Type 0 where
  going canceled_by_user shut_down : Ended

-- `prepare_clone` is what follows the transition in cloneStep; `dir_exists` is os.Stat, and
-- `reusable` the stored workspace of another session, if its directory exists; `run_cli` is runStep
-- behind the transition, the prompt included; `parse_review` is ParseReviewOutput with the reviewer
-- filled in; `raced` is the outcome of the transaction of StartReviewAsync.
pub record Env : Type 0 where
  pub default_timeout : ℤ
  pub max_timeout : ℤ
  pub resolve_token : Option (String → String → String → Result String)
  pub reusable : String → Option String
  pub work_dir : String → String
  pub dir_exists : String → Bool
  pub prepare_clone : Session → Option Error
  pub setup_mcp : Session → String → Result String
  pub run_cli : Session → String → String → RunEnd
  pub run_review : Session → String → ReviewEnd
  pub deadline : Bool
  pub ended : Ended
  pub calculate_changes : String → Option ChangesSummary
  pub parse_review : String → ReviewResult
  pub default_cli : String
  pub review_dir : Session → String
  pub truncate : String → String
  pub auto_pr_description : String → String
  pub pr_creator : Option Outside
  pub raced : Bool

abbrev pub config_timeout : Option Config → ℤ
config_timeout none = pos 0
config_timeout (some c) = c.timeout_seconds

abbrev capped : ℤ → ℤ → ℤ
capped most t = if ltb_ℤ most t then most else t

-- resolveTimeout.
unfoldable pub resolve_timeout : Env → Session → ℤ
resolve_timeout env t =
    let asked = config_timeout t.config in
    capped env.max_timeout (if ltb_ℤ (pos 0) asked then asked else env.default_timeout)

abbrev kept_token : Session → Result String → Session
kept_token t (ok token) = record t { access_token = token }
kept_token t (err _) = t

abbrev asked_token : Option (String → String → String → Result String) → Session → Session
asked_token none t = t
asked_token (some resolve) t =
    if t.access_token =s ""
    then kept_token t (resolve t.repo_url t.access_token t.provider_key)
    else t

-- resolveToken.
abbrev pub with_resolved_token : Env → Session → Session
with_resolved_token env t = asked_token env.resolve_token t

abbrev pub prompt_of : Session → String
prompt_of t = if t.current_prompt =s "" then t.prompt else t.current_prompt

-- The record of an iteration that has ended.
abbrev pub iteration_of :
    Session
    → String
    → String
    → Status
    → Option ChangesSummary
    → Option UsageInfo
    → ℕ
    → ℕ
    → Iteration
iteration_of t result error status changes usage started ended = record {
  number = t.iteration;
  prompt = prompt_of t;
  result = result;
  error = error;
  status = status;
  changes = changes;
  usage = usage;
  started_at = started;
  ended_at = some ended;
}

-- failSession.
unfoldable pub fail_session : Settings → Session → ℕ → String → M (Unit {0})
fail_session cfg t started message = do
  ignore (set_error t.id message)
  ignore (update_status cfg t.id failed)
  w ← get
  ignore (save_iteration t.id (iteration_of t "" message failed none none started w.now))

-- cancelSession.
unfoldable pub cancel_session : Settings → Session → ℕ → M (Unit {0})
cancel_session cfg t started = do
  ignore (update_status cfg t.id canceled)
  w ← get
  ignore
      (save_iteration t.id (iteration_of t "" "canceled by user" canceled none none started w.now))

-- requeueForRestart.
unfoldable pub requeue_for_restart : Settings → Session → M (Unit {0})
requeue_for_restart cfg t = ignore (update_status cfg t.id pending)

-- terminateOnError.
unfoldable pub terminate_on_error : Settings → Session → ℕ → String → Ended → M (Unit {0})
terminate_on_error cfg t started message canceled_by_user = cancel_session cfg t started
terminate_on_error cfg t started message shut_down = requeue_for_restart cfg t
terminate_on_error cfg t started message going = fail_session cfg t started message

-- cloneStep; what follows the transition is one answer.
unfoldable pub clone_step : Env → Settings → Session → M (Unit {0})
clone_step env cfg t = do update_status cfg t.id cloning; require (env.prepare_clone t)

abbrev pub after_clone :
    Env → Settings → Session → ℕ → String → String → Result (Unit {0}) → M (Option String)
after_clone env cfg t started context dir (ok _) = pure (some dir)
after_clone env cfg t started context dir (err e) = do
  terminate_on_error cfg t started (context <> error_text e) env.ended
  pure none

-- The end of setupWorkspace, without a workspace to reuse.
abbrev pub own_workspace : Env → Settings → Session → ℕ → M (Option String)
own_workspace env cfg t started =
    if leb t.iteration 1
    then (attempt (clone_step env cfg t)
        >>= after_clone env cfg t started "clone failed: " (env.work_dir t.id))
    else if env.dir_exists (env.work_dir t.id)
    then pure (some (env.work_dir t.id))
    else (attempt (clone_step env cfg t)
        >>= after_clone env cfg t started "re-clone failed: " (env.work_dir t.id))

abbrev pub referenced : Env → Option Config → Option String
referenced env none = none
referenced env (some c) =
    if c.workspace_session_id =s "" then none else env.reusable c.workspace_session_id

abbrev pub found_workspace : Env → Settings → Session → ℕ → Option String → M (Option String)
found_workspace env cfg t started (some dir) = pure (some dir)
found_workspace env cfg t started none = own_workspace env cfg t started

-- setupWorkspace: `none` where the session has been ended.
unfoldable pub setup_workspace : Env → Settings → Session → ℕ → M (Option String)
setup_workspace env cfg t started = found_workspace env cfg t started (referenced env t.config)
