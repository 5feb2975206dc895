-- ===== src/Worker/Executor/Run/Safety.antt =====
-- The run of a session moves the stored statuses along the diagram, whatever the agent and git
-- answer and whichever calls fail.
use codeforge.Prelude.Decimal.{decimal}
use codeforge.Prelude.{
  ◌-◌, ◌/◌, ℕ, String, Bool, true, false, not, ◌&&◌, ◌||◌, Option, none, some, ◌=s◌, ◌<>◌, ltb,
}
use codeforge.Apperror.{error_text}
use codeforge.Session.Status.{running, completed, reviewing, is_status}
use codeforge.Session.Model.{Session, Config, ChangesSummary, Iteration}
use codeforge.Session.World.{World, Result, ok, err, ◌>>=◌, ◌>>◌, pure, ignore, attempt}
use codeforge.Session.World.Statuses.{
  then-IsSafe, choice-IsSafe, IsSafe, Keeps-refl, >>=-IsSafe, ignore-IsSafe, attempt-IsSafe,
}
use codeforge.Session.Service.{Cipher, Settings}
use codeforge.Session.Operations.{
  update_status, set_result, save_iteration, set_review_result, complete_review, start_review_async,
}
use codeforge.Session.Operations.Safety.{
  set_result-IsSafe, set_review_result-IsSafe, complete_review-IsSafe, start_review_async-IsSafe,
}
use codeforge.Session.Operations.Reads.{update_status-IsSafe}
use codeforge.Session.PrService.{create_pr}
use codeforge.Session.PrPlan.{Outside, has_changes}
use codeforge.Session.PrService.Safety.{create_pr-IsSafe}
use codeforge.Worker.Executor.{
  Env, RunResult, RunEnd, ran, stopped, ReviewEnd, reviewed, unready, interrupted,
  with_resolved_token, resolve_timeout, iteration_of, fail_session, terminate_on_error,
  setup_workspace,
}
use codeforge.Worker.Executor.Run.{
  usage_of, review_output, auto_review, auto_pr, no_pr_yet, auto_pr_request, chosen_cli,
  after_completion, complete_session, partial_result, handle_timeout, finish, start_run, ran_as,
  run_session, in_workspace, after_review, finish_review, execute_review, execute_run, execute,
}
use codeforge.Worker.Executor.Safety.{
  saved-IsSafe, fail_session-IsSafe, terminate_on_error-IsSafe, setup_workspace-IsSafe,
}

auto_review-IsSafe :
    (env : Env) (cipher : Cipher) (t : Session) (c : Option Config)
    → IsSafe (auto_review env cipher t c)
auto_review-IsSafe env cipher t none = Keeps-refl
auto_review-IsSafe env cipher t (some c) =
    choice-IsSafe (c.auto_review_after_fix && ltb 1 t.iteration)
      (ignore (start_review_async cipher env.raced t.id (chosen_cli env c) "")) (pure tt)
      (ignore-IsSafe (start_review_async cipher env.raced t.id (chosen_cli env c) "")
        (start_review_async-IsSafe cipher env.raced t.id (chosen_cli env c) ""))
      Keeps-refl

auto_pr-IsSafe :
    (env : Env) (cfg : Settings) (cipher : Cipher) (t : Session) (output : String)
    (changes : Option ChangesSummary) (timed_out : Bool) (o : Option Outside) (c : Option Config)
    → IsSafe (auto_pr env cfg cipher t output changes timed_out o c)
auto_pr-IsSafe env cfg cipher t output changes timed_out (some o) (some c) =
    choice-IsSafe (c.auto_create_pr && not timed_out && no_pr_yet t && has_changes changes)
      (ignore (create_pr o cfg cipher t.id (auto_pr_request env c output))) (pure tt)
      (ignore-IsSafe (create_pr o cfg cipher t.id (auto_pr_request env c output))
        (create_pr-IsSafe o cfg cipher t.id (auto_pr_request env c output)))
      Keeps-refl
auto_pr-IsSafe env cfg cipher t output changes timed_out (some o) none = Keeps-refl
auto_pr-IsSafe env cfg cipher t output changes timed_out none c = Keeps-refl

review_output-IsSafe :
    (env : Env) (t : Session) (output : String) → IsSafe (review_output env t output)
review_output-IsSafe env t output =
    choice-IsSafe (t.session_type =s "pr_review" || t.session_type =s "review")
      (ignore (set_review_result t.id (some (env.parse_review output)))) (pure tt)
      (ignore-IsSafe (set_review_result t.id (some (env.parse_review output)))
        (set_review_result-IsSafe t.id (some (env.parse_review output))))
      Keeps-refl

after_completion-IsSafe :
    (env : Env) (cfg : Settings) (cipher : Cipher) (t : Session) (started : ℕ) (r : RunResult)
    (changes : Option ChangesSummary) (timed_out : Bool) (moved : Result (Unit {0}))
    → IsSafe (after_completion env cfg cipher t started r changes timed_out moved)
unfolding after_completion
after_completion-IsSafe env cfg cipher t started r changes timed_out (err _) = Keeps-refl
after_completion-IsSafe env cfg cipher t started r changes timed_out (ok _) =
    let it : World → Iteration = λ w.
      iteration_of t (env.truncate r.output) "" completed changes (some (usage_of r)) started
        w.now in
    let pr = auto_pr env cfg cipher t r.output changes timed_out env.pr_creator t.config in
    let review = auto_review env cipher t t.config in
    then-IsSafe (λ w. ignore (save_iteration t.id (it w)) w)
      (review_output env t r.output >> (review >> pr)) (saved-IsSafe t.id it)
      (then-IsSafe (review_output env t r.output) (review >> pr)
        (review_output-IsSafe env t r.output)
        (then-IsSafe review pr (auto_review-IsSafe env cipher t t.config)
          (auto_pr-IsSafe env cfg cipher t r.output changes timed_out env.pr_creator t.config)))

complete_session-IsSafe :
    (env : Env) (cfg : Settings) (cipher : Cipher) (t : Session) (started : ℕ) (r : RunResult)
    (dir : String) (timed_out : Bool)
    → IsSafe (complete_session env cfg cipher t started r dir timed_out)
unfolding complete_session
complete_session-IsSafe env cfg cipher t started r dir timed_out =
    let changes = env.calculate_changes dir in
    let store = set_result t.id r.output changes (some (usage_of r)) in
    let move = attempt (update_status cfg t.id completed) in
    let rest = after_completion env cfg cipher t started r changes timed_out in
    then-IsSafe (ignore store) (move >>= rest)
      (ignore-IsSafe store (set_result-IsSafe t.id r.output changes (some (usage_of r))))
      (>>=-IsSafe move rest
        (attempt-IsSafe (update_status cfg t.id completed)
          (update_status-IsSafe cfg t.id completed))
        (after_completion-IsSafe env cfg cipher t started r changes timed_out))

finish-IsSafe :
    (env : Env) (cfg : Settings) (cipher : Cipher) (t : Session) (started : ℕ) (dir : String)
    (e : RunEnd)
    → IsSafe (finish env cfg cipher t started dir e)
unfolding finish handle_timeout
finish-IsSafe env cfg cipher t started dir (ran r) =
    complete_session-IsSafe env cfg cipher t started r dir false
finish-IsSafe env cfg cipher t started dir (stopped e partial) =
    let message = "CLI execution failed: " <> error_text e in
    choice-IsSafe env.deadline (handle_timeout env cfg cipher t started dir partial)
      (terminate_on_error cfg t started message env.ended)
      (λ w.
        complete_session-IsSafe env cfg cipher t started
          (partial_result (resolve_timeout env t) ((w.now - started) / 1_000_000_000) partial) dir
          true w)
      (terminate_on_error-IsSafe cfg t started message env.ended)

run_session-IsSafe :
    (env : Env) (cfg : Settings) (cipher : Cipher) (t : Session) (started : ℕ) (dir : String)
    (mcp : Result String)
    → IsSafe (run_session env cfg cipher t started dir mcp)
unfolding run_session
run_session-IsSafe env cfg cipher t started dir (err e) =
    fail_session-IsSafe cfg t started ("tool/MCP setup failed: " <> error_text e)
run_session-IsSafe env cfg cipher t started dir (ok mcp) =
    >>=-IsSafe (attempt (start_run cfg t))
      (λ answer. finish env cfg cipher t started dir (ran_as env t dir mcp answer))
      (attempt-IsSafe (start_run cfg t) (
        choice-IsSafe (is_status t.status running) (pure tt) (update_status cfg t.id running)
          Keeps-refl (update_status-IsSafe cfg t.id running)))
      λ answer. finish-IsSafe env cfg cipher t started dir (ran_as env t dir mcp answer)

finish_review-IsSafe :
    (env : Env) (cfg : Settings) (t : Session) (started : ℕ) (e : ReviewEnd)
    → IsSafe (finish_review env cfg t started e)
unfolding finish_review
finish_review-IsSafe env cfg t started (unready message) = fail_session-IsSafe cfg t started message
finish_review-IsSafe env cfg t started (interrupted e) =
    let message = "review CLI execution failed: " <> error_text e in
    let late = "review timed out after " <> decimal (resolve_timeout env t) <> "s" in
    choice-IsSafe env.deadline (fail_session cfg t started late)
      (terminate_on_error cfg t started message env.ended) (fail_session-IsSafe cfg t started late)
      (terminate_on_error-IsSafe cfg t started message env.ended)
finish_review-IsSafe env cfg t started (reviewed r) =
    let store = set_result t.id r.output none (some (usage_of r)) in
    let complete = complete_review cfg t.id (some (env.parse_review r.output)) in
    then-IsSafe (ignore store) (attempt complete >>= after_review cfg t started)
      (ignore-IsSafe store (set_result-IsSafe t.id r.output none (some (usage_of r))))
      (>>=-IsSafe (attempt complete) (after_review cfg t started)
        (attempt-IsSafe complete
          (complete_review-IsSafe cfg t.id (some (env.parse_review r.output))))
        after)
  where
    after : (a : Result (Unit {0})) → IsSafe (after_review cfg t started a)
    after (ok _) = Keeps-refl
    after (err e) =
        fail_session-IsSafe cfg t started ("failed to complete review: " <> error_text e)

-- Execute moves the stored statuses along the diagram, and the status of no other session.
pub execute-IsSafe :
    (env : Env) (cfg : Settings) (cipher : Cipher) (t : Session) → IsSafe (execute env cfg cipher t)
unfolding execute execute_review
execute-IsSafe env cfg cipher t w =
    choice-IsSafe (is_status t.status reviewing) (execute_review env cfg t w.now)
      (execute_run env cfg cipher (with_resolved_token env t) w.now)
      (choice-IsSafe (env.dir_exists (env.review_dir t))
        (finish_review env cfg t w.now (env.run_review t (env.review_dir t)))
        (fail_session cfg t w.now "workspace not found for review — it may have been cleaned up")
        (finish_review-IsSafe env cfg t w.now (env.run_review t (env.review_dir t)))
        (fail_session-IsSafe cfg t w.now _))
      (run (with_resolved_token env t) w.now) w
  where
    inside :
        (t : Session) (started : ℕ) (o : Option String)
        → IsSafe (in_workspace env cfg cipher t started o)
    inside t started none = Keeps-refl
    inside t started (some dir) =
        run_session-IsSafe env cfg cipher t started dir (env.setup_mcp t dir)

    run : (t : Session) (started : ℕ) → IsSafe (execute_run env cfg cipher t started)
    run t started =
        >>=-IsSafe (setup_workspace env cfg t started) (in_workspace env cfg cipher t started)
          (setup_workspace-IsSafe env cfg t started) (inside t started)
