-- ===== src/Worker/Executor/Run.antt =====
-- internal/worker/executor.go: Execute and executeReview, from the workspace to the stored result.
pub mod Safety
use codeforge.Prelude.{
  ℕ, ◌-◌, ◌/◌, String, Bool, true, false, not, ◌&&◌, ◌||◌, Option, none, some, if◌then◌else◌, ◌=s◌,
  ◌==◌, ◌<>◌, ltb,
}
use codeforge.Prelude.Int.{ℤ}
use codeforge.Prelude.Decimal.{decimal}
use codeforge.Apperror.{error_text}
use codeforge.Session.Status.{running, completed, reviewing, is_status}
use codeforge.Session.Model.{Config, ChangesSummary, UsageInfo, Session}
use codeforge.Session.World.{M, Result, ok, err, ◌>>=◌, ◌>>◌, pure, get, ignore, attempt}
use codeforge.Session.Service.{Cipher, Settings}
use codeforge.Session.Operations.{
  update_status, set_result, save_iteration, set_review_result, complete_review, start_review_async,
}
use codeforge.Session.PrService.{create_pr}
use codeforge.Session.PrPlan.{Outside, CreatePrRequest, has_changes}
use codeforge.Worker.Executor.{
  Env, RunResult, RunEnd, ran, stopped, ReviewEnd, reviewed, unready, interrupted, resolve_timeout,
  with_resolved_token, iteration_of, fail_session, terminate_on_error, setup_workspace,
}

abbrev pub usage_of : RunResult → UsageInfo
usage_of r = record {
  input_tokens = r.input_tokens;
  output_tokens = r.output_tokens;
  duration_seconds = r.duration_seconds;
}

-- The result of handlePRReviewCompletion that is stored.
abbrev pub review_output : Env → Session → String → M (Unit {0})
review_output env t output =
    if t.session_type =s "pr_review" || t.session_type =s "review"
    then ignore (set_review_result t.id (some (env.parse_review output)))
    else pure tt

abbrev pub chosen_cli : Env → Config → String
chosen_cli env c = if c.cli =s "" then env.default_cli else c.cli

abbrev pub auto_review : Env → Cipher → Session → Option Config → M (Unit {0})
auto_review env cipher t none = pure tt
auto_review env cipher t (some c) =
    if c.auto_review_after_fix && ltb 1 t.iteration
    then ignore (start_review_async cipher env.raced t.id (chosen_cli env c) "")
    else pure tt

abbrev pub no_pr_yet : Session → Bool
no_pr_yet t = t.pr_number == 0 && t.branch =s ""

abbrev pub auto_pr_request : Env → Config → String → CreatePrRequest
auto_pr_request env c output = record {
  title = c.pr_title;
  description = env.auto_pr_description output;
  target_branch = c.target_branch;
}

-- maybeAutoCreatePR.
abbrev pub auto_pr :
    Env
    → Settings
    → Cipher
    → Session
    → String
    → Option ChangesSummary
    → Bool
    → Option Outside
    → Option Config
    → M (Unit {0})
auto_pr env cfg cipher t output changes timed_out (some o) (some c) =
    if c.auto_create_pr && not timed_out && no_pr_yet t && has_changes changes
    then ignore (create_pr o cfg cipher t.id (auto_pr_request env c output))
    else pure tt
auto_pr env cfg cipher t output changes timed_out _ _ = pure tt

-- completeSession behind the transition to completed.
unfoldable pub after_completion :
    Env
    → Settings
    → Cipher
    → Session
    → ℕ
    → RunResult
    → Option ChangesSummary
    → Bool
    → Result (Unit {0})
    → M (Unit {0})
after_completion env cfg cipher t started r changes timed_out (err _) = pure tt
after_completion env cfg cipher t started r changes timed_out (ok _) = do
  w ← get
  ignore (
      save_iteration t.id (
        iteration_of t (env.truncate r.output) "" completed changes (some (usage_of r)) started
          w.now))
  review_output env t r.output
  auto_review env cipher t t.config
  auto_pr env cfg cipher t r.output changes timed_out env.pr_creator t.config

-- completeSession.
unfoldable pub complete_session :
    Env → Settings → Cipher → Session → ℕ → RunResult → String → Bool → M (Unit {0})
complete_session env cfg cipher t started r dir timed_out = do
  ignore (set_result t.id r.output (env.calculate_changes dir) (some (usage_of r)))
  moved ← attempt (update_status cfg t.id completed)
  after_completion env cfg cipher t started r (env.calculate_changes dir) timed_out moved

-- What handleTimeout makes of the partial result; `waited` is the time since the start, in seconds.
abbrev pub partial_result : ℤ → ℕ → Option RunResult → RunResult
partial_result timeout waited none = record {
  output =
      "[Session timed out after "
      <> decimal timeout
      <> "s. Work in progress was preserved. You can continue with a follow-up instruction or create a PR from current changes.]";
  input_tokens = 0;
  output_tokens = 0;
  duration_seconds = waited;
}
partial_result timeout waited (some r) =
    if r.output =s ""
    then record r {
      output = "[Session timed out after " <> decimal timeout <> "s with no output captured.]";
    }
    else record r {
      output =
          r.output
          <> "\n\n[Session timed out after "
          <> decimal timeout
          <> "s. Partial output above.]";
    }

-- handleTimeout.
unfoldable pub handle_timeout :
    Env → Settings → Cipher → Session → ℕ → String → Option RunResult → M (Unit {0})
handle_timeout env cfg cipher t started dir partial = do
  w ← get
  complete_session env cfg cipher t started
      (partial_result (resolve_timeout env t) ((w.now - started) / 1_000_000_000) partial) dir true

-- The end of Execute behind runStep.
unfoldable pub finish : Env → Settings → Cipher → Session → ℕ → String → RunEnd → M (Unit {0})
finish env cfg cipher t started dir (ran r) = complete_session env cfg cipher t started r dir false
finish env cfg cipher t started dir (stopped e partial) =
    if env.deadline
    then handle_timeout env cfg cipher t started dir partial
    else terminate_on_error cfg t started ("CLI execution failed: " <> error_text e) env.ended

abbrev pub start_run : Settings → Session → M (Unit {0})
start_run cfg t = if is_status t.status running then pure tt else update_status cfg t.id running

abbrev pub ran_as : Env → Session → String → String → Result (Unit {0}) → RunEnd
ran_as env t dir mcp (ok _) = env.run_cli t dir mcp
ran_as env t dir mcp (err e) = stopped e none

-- runStep and what follows it.
unfoldable pub run_session :
    Env → Settings → Cipher → Session → ℕ → String → Result String → M (Unit {0})
run_session env cfg cipher t started dir (err e) =
    fail_session cfg t started ("tool/MCP setup failed: " <> error_text e)
run_session env cfg cipher t started dir (ok mcp) = do
  answer ← attempt (start_run cfg t)
  finish env cfg cipher t started dir (ran_as env t dir mcp answer)

abbrev pub in_workspace : Env → Settings → Cipher → Session → ℕ → Option String → M (Unit {0})
in_workspace env cfg cipher t started none = pure tt
in_workspace env cfg cipher t started (some dir) =
    run_session env cfg cipher t started dir (env.setup_mcp t dir)

abbrev pub after_review : Settings → Session → ℕ → Result (Unit {0}) → M (Unit {0})
after_review cfg t started (ok _) = pure tt
after_review cfg t started (err e) =
    fail_session cfg t started ("failed to complete review: " <> error_text e)

-- executeReview behind the agent's run.
unfoldable pub finish_review : Env → Settings → Session → ℕ → ReviewEnd → M (Unit {0})
finish_review env cfg t started (unready message) = fail_session cfg t started message
finish_review env cfg t started (interrupted e) =
    if env.deadline
    then fail_session cfg t started
        ("review timed out after " <> decimal (resolve_timeout env t) <> "s")
    else terminate_on_error cfg t started ("review CLI execution failed: " <> error_text e)
        env.ended
finish_review env cfg t started (reviewed r) = do
  ignore (set_result t.id r.output none (some (usage_of r)))
  answer ← attempt (complete_review cfg t.id (some (env.parse_review r.output)))
  after_review cfg t started answer

-- executeReview.
unfoldable pub execute_review : Env → Settings → Session → ℕ → M (Unit {0})
execute_review env cfg t started =
    if env.dir_exists (env.review_dir t)
    then finish_review env cfg t started (env.run_review t (env.review_dir t))
    else fail_session cfg t started "workspace not found for review — it may have been cleaned up"

abbrev pub execute_run : Env → Settings → Cipher → Session → ℕ → M (Unit {0})
execute_run env cfg cipher t started = do
  dir ← setup_workspace env cfg t started
  in_workspace env cfg cipher t started dir

-- Execute.
unfoldable pub execute : Env → Settings → Cipher → Session → M (Unit {0})
execute env cfg cipher t = do
  w ← get
  (if is_status t.status reviewing
      then execute_review env cfg t w.now
      else execute_run env cfg cipher (with_resolved_token env t) w.now)
