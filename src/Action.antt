-- ===== src/Action.antt =====
-- cmd/codeforge-action/main.go: the configuration of a job of GitHub or GitLab that runs a session.
--
-- os.Getenv is a function.
pub mod Executor
pub mod Context
pub mod Outputs
pub mod Exit
pub mod Reading
mod Tests
use codeforge.Prelude.{
  ℕ, zero, suc, ◌-◌, String, Bool, true, false, ◌&&◌, ◌||◌, not, Option, none, some, List, [], ◌∷◌,
  if◌then◌else◌, ◌=s◌, ◌==◌, ◌<>◌, contains, option_or,
}
use codeforge.Prelude.Bytes.{Bytes, codes, lower, same}
use codeforge.Prelude.Int.{is_zero, ℤ, pos, negsuc}
use codeforge.Apperror.{Error, opaque, wrapped}
use codeforge.Git.Provider.{cut}
use codeforge.Tools.{is_integer, number_from}

abbrev pub Environment : Type 0
Environment = String → String

abbrev pub env_default : Environment → String → String → String
env_default getenv key fallback = if getenv key =s "" then fallback else getenv key

-- EqualFold has no other letters than the two cases of those of "true".
abbrev pub env_bool : Environment → String → Bool → Bool
env_bool getenv key fallback =
    if getenv key =s ""
    then fallback
    else same (lower (codes (getenv key))) (codes "true") || getenv key =s "1"

abbrev pub negative : ℕ → ℤ
negative zero = pos 0
negative (suc n) = negsuc n

abbrev pub integer_of : Bytes → ℤ
integer_of [] = pos 0
integer_of (c ∷ cs) =
    if c == b'-'
    then negative (number_from 0 cs)
    else if c == b'+'
    then pos (number_from 0 cs)
    else pos (number_from 0 (c ∷ cs))

-- strconv.Atoi.
abbrev pub atoi : String → Option ℤ
atoi s = if is_integer (codes s) then some (integer_of (codes s)) else none

abbrev pub env_int : Environment → String → ℤ → ℤ
env_int getenv key fallback =
    if getenv key =s "" then fallback else option_or (atoi (getenv key)) fallback

pub record ActionConfig : Type 0 where
  pub session_type : String
  pub prompt : String
  pub cli : String
  pub model : String
  pub api_key : String
  pub provider_token : String
  pub mcp_config : String
  pub post_comments : Bool
  pub output_format : String
  pub max_turns : ℤ
  pub allowed_tools : String
  pub fail_on_request_changes : Bool

abbrev pub key_of_cli : Environment → String → String
key_of_cli getenv cli =
    if cli =s "claude-code"
    then env_default getenv "INPUT_API_KEY" (getenv "ANTHROPIC_API_KEY")
    else if cli =s "codex"
    then env_default getenv "INPUT_API_KEY" (getenv "OPENAI_API_KEY")
    else ""

abbrev pub or_text : String → String → String
or_text s other = if s =s "" then other else s

-- parseConfig.
unfoldable pub parse_config : Environment → ActionConfig
parse_config getenv =
    let cli = env_default getenv "INPUT_CLI" (env_default getenv "CODEFORGE_CLI" "claude-code") in
    record {
      session_type =
          env_default getenv "INPUT_SESSION_TYPE"
            (env_default getenv "INPUT_TASK_TYPE" "pr_review");
      prompt = env_default getenv "INPUT_PROMPT" "";
      cli = cli;
      model = env_default getenv "INPUT_MODEL" "";
      api_key = key_of_cli getenv cli;
      provider_token =
          or_text (or_text (env_default getenv "INPUT_PROVIDER_TOKEN" "") (getenv "GITHUB_TOKEN"))
            (env_default getenv "GITLAB_TOKEN" (getenv "CI_JOB_TOKEN"));
      mcp_config = env_default getenv "INPUT_MCP_CONFIG" "";
      post_comments = env_bool getenv "INPUT_POST_COMMENTS" true;
      output_format = env_default getenv "INPUT_OUTPUT_FORMAT" "json";
      max_turns = env_int getenv "INPUT_MAX_TURNS" (pos 0);
      allowed_tools = env_default getenv "INPUT_ALLOWED_TOOLS" "";
      fail_on_request_changes = env_bool getenv "INPUT_FAIL_ON_REQUEST_CHANGES" false;
    }

abbrev pub valid_types : List String
valid_types = "pr_review" ∷ "code_review" ∷ "knowledge_update" ∷ "custom" ∷ []

abbrev pub invalid : String → String → String → Error
invalid what value valid =
    opaque ("invalid " <> what <> ": \"" <> value <> "\" (valid: " <> valid <> ")")

abbrev pub no_key : String → Error
no_key cli =
    if cli =s "claude-code"
    then opaque "ANTHROPIC_API_KEY is required for claude-code CLI"
    else opaque "OPENAI_API_KEY is required for codex CLI"

-- validateConfig.
unfoldable pub check_config : ActionConfig → Option Error
check_config cfg =
    if not (contains valid_types cfg.session_type)
    then some
        (invalid "session_type" cfg.session_type "pr_review, code_review, knowledge_update, custom")
    else if not (cfg.cli =s "claude-code" || cfg.cli =s "codex")
    then some (invalid "cli" cfg.cli "claude-code, codex")
    else if cfg.api_key =s ""
    then some (no_key cfg.cli)
    else if cfg.session_type =s "custom" && cfg.prompt =s ""
    then some (opaque "prompt is required for session_type=custom")
    else none
