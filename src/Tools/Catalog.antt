-- ===== src/Tools/Catalog.antt =====
-- internal/tools/catalog.go: the tools that are built in.
use codeforge.Prelude.{String, true, false, Option, none, some, List, [], ◌∷◌, if◌then◌else◌, ◌=s◌}
use codeforge.Tools.{ConfigField, ToolDefinition}

abbrev pub built_in :
    String → String → String → String → List ConfigField → List String → ToolDefinition
built_in name description mcp_package command required capabilities = record {
  name = name;
  tool_type = "mcp";
  description = description;
  version = "";
  mcp_transport = "";
  mcp_url = "";
  mcp_package = mcp_package;
  mcp_command = command;
  mcp_args = [];
  required_config = required;
  optional_config = [];
  capabilities = capabilities;
  builtin = true;
  created_at = 0;
}

abbrev pub plain_field : String → String → String → String → ConfigField
plain_field name description field_type env_var = record {
  name = name;
  description = description;
  field_type = field_type;
  env_var = env_var;
  sensitive = false;
  provider_key = "";
}

abbrev pub secret : String → String → String → String → ConfigField
secret name description env_var provider = record (plain_field name description "secret" env_var) {
  sensitive = true;
  provider_key = provider;
}

abbrev pub builtin_tools : List ToolDefinition
builtin_tools =
    built_in "sentry" "Sentry error tracking — search issues, get stack traces, resolve errors"
      "@sentry/mcp-server" "npx"
      (secret "auth_token" "Sentry authentication token" "SENTRY_ACCESS_TOKEN" "sentry" ∷ [])
      ("error-tracking" ∷ "issues" ∷ [])
    ∷ built_in "jira" "Jira issue tracking — search, create, update issues and boards"
        "mcp-atlassian" "uvx"
        (plain_field "url" "Jira instance URL" "url" "JIRA_URL"
          ∷ plain_field "username" "Jira username (email)" "string" "JIRA_USERNAME"
          ∷ secret "api_token" "Jira API token" "JIRA_API_TOKEN" ""
          ∷ [])
        ("issue-tracking" ∷ "project-management" ∷ [])
    ∷ built_in "git" "Git operations — diff, log, blame, branch management via MCP"
        "@cyanheads/git-mcp-server" "npx" [] ("version-control" ∷ "git" ∷ [])
    ∷ built_in "github" "GitHub — issues, PRs, repos, actions via GitHub MCP server"
        "@modelcontextprotocol/server-github" "npx"
        (secret "token" "GitHub personal access token" "GITHUB_PERSONAL_ACCESS_TOKEN" "github" ∷ [])
        ("github" ∷ "issues" ∷ "pull-requests" ∷ [])
    ∷ built_in "playwright" "Playwright browser automation — navigate, click, screenshot, test"
        "@playwright/mcp" "npx" [] ("browser" ∷ "testing" ∷ "automation" ∷ [])
    ∷ []

abbrev pub tool_named : String → List ToolDefinition → Option ToolDefinition
tool_named name [] = none
tool_named name (d ∷ ds) = if d.name =s name then some d else tool_named name ds

abbrev pub builtin_by_name : String → Option ToolDefinition
builtin_by_name name = tool_named name builtin_tools
