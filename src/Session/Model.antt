-- ===== src/Session/Model.antt =====
-- internal/session/model.go, and the records of internal/review/model.go and
-- internal/tool/git/diff.go that it embeds. A pointer is an Option, a map from text to text an
-- association list, a time or a duration its nanoseconds, and US dollars (a float64) are counted
-- in millionths.
use codeforge.Prelude.{ℕ, String, Bool, Option, List, []}
use codeforge.Prelude.Int.{ℤ}
use codeforge.Session.Status.{Status}

pub record McpServer : Type 0 where
  pub name : String
  pub transport : String
  pub npm_package : String
  pub command : String
  pub args : List String
  pub env : List (String × String)
  pub url : String
  pub headers : List (String × String)

pub record SessionTool : Type 0 where
  pub name : String
  pub config : List (String × String)

pub record Config : Type 0 where
  pub timeout_seconds : ℤ
  pub cli : String
  pub ai_model : String
  pub ai_api_key : String
  pub max_turns : ℤ
  pub source_branch : String
  pub target_branch : String
  pub max_budget_usd : ℤ
  pub mcp_servers : List McpServer
  pub tools : List SessionTool
  pub workspace_session_id : String
  pub pr_number : ℤ
  pub output_mode : String
  pub auto_review_after_fix : Bool
  pub auto_post_review : Bool
  pub auto_create_pr : Bool
  pub pr_title : String

pub record ChangesSummary : Type 0 where
  pub files_modified : ℕ
  pub files_created : ℕ
  pub files_deleted : ℕ
  pub diff_stats : String

pub record UsageInfo : Type 0 where
  pub input_tokens : ℕ
  pub output_tokens : ℕ
  pub duration_seconds : ℕ

pub record ReviewIssue : Type 0 where
  pub severity : String
  pub file : String
  pub line : ℤ
  pub description : String
  pub suggestion : String

-- The verdict is a text, as in Go; the constants are "approve", "request_changes" and "comment".
pub record ReviewResult : Type 0 where
  pub verdict : String
  pub score : ℤ
  pub summary : String
  pub issues : List ReviewIssue
  pub auto_fixable : Bool
  pub reviewed_by : String
  pub duration : ℕ

pub record Iteration : Type 0 where
  pub number : ℕ
  pub prompt : String
  pub result : String
  pub error : String
  pub status : Status
  pub changes : Option ChangesSummary
  pub usage : Option UsageInfo
  pub started_at : ℕ
  pub ended_at : Option ℕ

pub record Session : Type 0 where
  pub id : String
  pub status : Status
  pub repo_url : String
  pub provider_key : String
  pub access_token : String
  pub prompt : String
  pub session_type : String
  pub callback_url : String
  pub config : Option Config
  pub result : String
  pub error : String
  pub changes_summary : Option ChangesSummary
  pub usage : Option UsageInfo
  pub review_result : Option ReviewResult
  pub iteration : ℕ
  pub current_prompt : String
  pub iterations : List Iteration
  pub branch : String
  pub pr_number : ℕ
  pub pr_url : String
  pub review_cli : String
  pub review_model : String
  pub metadata : List (String × String)
  pub workflow_run_id : String
  pub tenant_id : String
  pub trace_id : String
  pub created_at : ℕ
  pub started_at : Option ℕ
  pub finished_at : Option ℕ

-- `&Config{}`.
abbrev pub zero_config : Config
zero_config = record {
  timeout_seconds = ℤ.pos 0;
  cli = "";
  ai_model = "";
  ai_api_key = "";
  max_turns = ℤ.pos 0;
  source_branch = "";
  target_branch = "";
  max_budget_usd = ℤ.pos 0;
  mcp_servers = [];
  tools = [];
  workspace_session_id = "";
  pr_number = ℤ.pos 0;
  output_mode = "";
  auto_review_after_fix = Bool.false;
  auto_post_review = Bool.false;
  auto_create_pr = Bool.false;
  pr_title = "";
}

-- JSON keeps a Config but for its key (`json:"-"`): what MarshalConfig followed by UnmarshalConfig
-- gives back.
unfoldable pub marshal_config : Config → Config
marshal_config c = record c { ai_api_key = "" }
