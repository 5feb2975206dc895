-- ===== src/Action/Executor.antt =====
-- cmd/codeforge-action/ci_executor.go and main.go: the run, and its exit code.
--
-- The look-up and the installation of a CLI, files, templates, the CLI's answer and the posting of
-- comments are a parameter, Outside.
use codeforge.Prelude.{
  ℕ, String, Bool, true, false, ◌&&◌, ◌||◌, not, Option, none, some, if◌then◌else◌, ◌=s◌, ◌<>◌,
}
use codeforge.Prelude.Bytes.{Bytes}
use codeforge.Prelude.Int.{is_zero, ℤ, pos, ltb_ℤ}
use codeforge.Apperror.{Error}
use codeforge.Session.Model.{ReviewResult}
use codeforge.Review.Parser.{Texts, parse_review_output}
use codeforge.Worker.Executor.Prompt.{PrReviewData}
use codeforge.Action.{Environment, ActionConfig, or_text, parse_config, check_config}
use codeforge.Action.Context.{CiContext, GithubEvent, detect_ci_context}

pub record CliResult : Type 0 where
  pub output : Bytes
  pub exit_code : ℤ
  pub input_tokens : ℕ
  pub output_tokens : ℕ

pub record CliOptions : Type 0 where
  pub binary : String
  pub prompt : String
  pub work_dir : String
  pub model : String
  pub api_key : String
  pub max_turns : ℤ
  pub mcp_config_path : String
  pub append_system_prompt : String
  pub allowed_tools : String

-- `finds` tells whether a program is found, before and after an installation. `run` gives no result
-- where the CLI fails without one.
pub record Outside : Type 0 where
  pub texts : Texts
  pub finds : Bool → String → Bool
  pub installs : String → Bool
  pub exists : String → Bool
  pub writes : String → String → Bool
  pub join : String → String → String
  pub read_file : String → Option String
  pub render_pr_review : PrReviewData → Option String
  pub render_code_review : String → Option String
  pub analyze_prompt : String
  pub update_prompt : String
  pub run : CliOptions → Option CliResult
  pub read_event : String → Option GithubEvent

abbrev pub cli_package : String → Option (String × String)
cli_package cli =
    if cli =s "claude-code"
    then some ("claude", "@anthropic-ai/claude-code")
    else if cli =s "codex"
    then some ("codex", "@openai/codex")
    else none

abbrev pub available : Outside → Option (String × String) → Bool
available out none = false
available out (some (binary, tool)) =
    out.finds false binary || (out.installs tool && out.finds true binary)

-- ensureCLI: whether it ends without an error.
unfoldable pub ensure_cli : Outside → String → Bool
ensure_cli out cli = available out (cli_package cli)

-- writeMCPConfig; `none` is a failed write.
unfoldable pub write_mcp_config : Outside → String → String → Option String
write_mcp_config out config dir =
    if config =s ""
    then some ""
    else if out.exists config
    then some config
    else if out.writes (out.join dir ".mcp.json") config
    then some (out.join dir ".mcp.json")
    else none

-- buildPrompt; `none` is a template that fails, or an unknown type.
unfoldable pub build_ci_prompt : Outside → ActionConfig → CiContext → Option String
build_ci_prompt out cfg c =
    let base = or_text c.base_branch "main" in
    if cfg.session_type =s "pr_review"
    then out.render_pr_review (record {
      user_prompt = cfg.prompt;
      pr_number = c.pr_number;
      pr_branch = c.pr_branch;
      base_branch = base;
    })
    else if cfg.session_type =s "code_review"
    then out.render_code_review
        (or_text cfg.prompt ("Review the changes on this branch compared to " <> base))
    else if cfg.session_type =s "knowledge_update"
    then some (out.analyze_prompt <> "\n\n---\n\n" <> out.update_prompt)
    else if cfg.session_type =s "custom"
    then some cfg.prompt
    else none

abbrev pub titled : String → Option String → String
titled title none = ""
titled title (some s) = if s =s "" then "" else "# " <> title <> "\n\n" <> s <> "\n\n"

-- buildSystemContext.
unfoldable pub system_context : Outside → String → String
system_context out dir =
    titled "OVERVIEW" (out.read_file (out.join dir ".codeforge/OVERVIEW.md"))
    <> titled "ARCHITECTURE" (out.read_file (out.join dir ".codeforge/ARCHITECTURE.md"))
    <> titled "CONVENTIONS" (out.read_file (out.join dir ".codeforge/CONVENTIONS.md"))
    <> titled "Project Instructions" (out.read_file (out.join dir "CLAUDE.md"))

abbrev pub cli_options : Outside → ActionConfig → CiContext → String → String → CliOptions
cli_options out cfg c mcp prompt = record {
  binary = if cfg.cli =s "codex" then "codex" else "claude";
  prompt = prompt;
  work_dir = c.work_dir;
  model = cfg.model;
  api_key = cfg.api_key;
  max_turns = cfg.max_turns;
  mcp_config_path = mcp;
  append_system_prompt = system_context out c.work_dir;
  allowed_tools = cfg.allowed_tools;
}

-- What the job is left with: what is written, whether comments are posted, and the exit code.
pub record Ending : Type 0 where
  pub review : Option ReviewResult
  pub result : Option CliResult
  pub posts : Bool
  pub exit : ℕ

abbrev pub failed_early : Ending
failed_early = record { review = none; result = none; posts = false; exit = 1 }

abbrev pub exit_of : ℤ → ℕ
exit_of n = if is_zero n then 0 else 1

-- The reviewer and the duration are set on the review.
abbrev pub signed : ActionConfig → ℕ → ReviewResult → ReviewResult
signed cfg seconds r = record r { duration = seconds; reviewed_by = cfg.cli <> ":" <> cfg.model }

abbrev pub reviewed : ActionConfig → CiContext → CliResult → ReviewResult → Ending
reviewed cfg c result r = record {
  review = some r;
  result = some result;
  posts = cfg.post_comments && ltb_ℤ (pos 0) c.pr_number && not (cfg.provider_token =s "");
  exit = if cfg.fail_on_request_changes && r.verdict =s "request_changes" then 1 else 0;
}

-- handleReviewResult, and handleResult.
abbrev pub handle_review_result : Outside → ActionConfig → CiContext → ℕ → CliResult → Ending
handle_review_result out cfg c seconds result =
    reviewed cfg c result (signed cfg seconds (parse_review_output out.texts result.output))

abbrev pub handle_plain_result : ℕ → CliResult → Ending
handle_plain_result exit result = record {
  review = none;
  result = some result;
  posts = false;
  exit = exit;
}

unfoldable pub handle_result : Outside → ActionConfig → CiContext → ℕ → CliResult → Ending
unfolding parse_review_output
handle_result out cfg c seconds result =
    if cfg.session_type =s "pr_review" || cfg.session_type =s "code_review"
    then handle_review_result out cfg c seconds result
    else if cfg.session_type =s "knowledge_update" || cfg.session_type =s "custom"
    then handle_plain_result (exit_of result.exit_code) result
    else handle_plain_result 0 result

abbrev pub after_run : Outside → ActionConfig → CiContext → ℕ → Option CliResult → Ending
after_run out cfg c seconds none = failed_early
after_run out cfg c seconds (some result) = handle_result out cfg c seconds result

abbrev pub prompted : Outside → ActionConfig → CiContext → ℕ → String → Option String → Ending
prompted out cfg c seconds mcp none = failed_early
prompted out cfg c seconds mcp (some prompt) =
    after_run out cfg c seconds (out.run (cli_options out cfg c mcp prompt))

abbrev pub configured : Outside → ActionConfig → CiContext → ℕ → Option String → Ending
configured out cfg c seconds none = failed_early
configured out cfg c seconds (some mcp) = prompted out cfg c seconds mcp (build_ci_prompt out cfg c)

abbrev pub detected : Outside → ActionConfig → ℕ → Option CiContext → Ending
detected out cfg seconds none = failed_early
detected out cfg seconds (some c) =
    if ensure_cli out cfg.cli
    then configured out cfg c seconds (write_mcp_config out cfg.mcp_config c.work_dir)
    else failed_early

-- Execute, for the seconds that the CLI takes.
unfoldable pub execute_ci : Outside → Environment → ActionConfig → ℕ → Ending
unfolding ensure_cli write_mcp_config build_ci_prompt handle_result detect_ci_context
execute_ci out getenv cfg seconds =
    detected out cfg seconds (detect_ci_context getenv out.read_event)

abbrev pub unless_invalid : Ending → Option Error → Ending
unless_invalid e none = e
unless_invalid e (some _) = failed_early

-- run of main.go.
unfoldable pub run_action : Outside → Environment → ℕ → Ending
unfolding execute_ci parse_config check_config
run_action out getenv seconds =
    let cfg = parse_config getenv in
    unless_invalid (execute_ci out getenv cfg seconds) (check_config cfg)
