-- ===== src/Tools/Tests.antt =====
-- The tool "sentry", whose token comes from the environment, and the tool "git" in the table.
use codeforge.Prelude.{◌≡◌, refl, true, none, some, List, [], ◌∷◌, if◌then◌else◌, ◌=s◌}
use codeforge.Session.Model.{SessionTool}
use codeforge.Session.World.{World, up, Result, ok, err}
use codeforge.Session.World.Rules.{Ensures}
use codeforge.Session.Samples.{no_entries, world_of, marking}
use codeforge.Keys.Environment.{Registry}
use codeforge.Tools.{
  ToolDefinition, map_config_to_env, Server, ParseUrl, ToolInstance, validate_config,
  to_mcp_servers,
}
use codeforge.Tools.Catalog.{built_in}
use codeforge.Tools.Resolver.{find_definition, auto_fill_config, resolve}
use codeforge.Tools.Registry.{ToolRow, stored, seed_builtins}
use codeforge.Tools.Lasting.{Call, creates, deletes, seeds, run_calls}
use codeforge.Tools.Seeded.{seed_builtins_lem}
use codeforge.Tools.Supplied.{AllHave, resolve_lem}

abbrev registry : Registry
registry = record {
  cipher = marking;
  getenv = λ name. if name =s "SENTRY_AUTH_TOKEN" then "secret" else "";
  rows = [];
}

abbrev no_url : ParseUrl
no_url _ = none

abbrev sentry : List SessionTool
sentry = record { name = "sentry"; config = [] } ∷ []

abbrev world : World
world = world_of no_entries none

resolve_lem_example : Ensures (resolve no_url (some registry) [] "p" sentry) world AllHave
resolve_lem_example = resolve_lem no_url (some registry) [] "p" sentry world

abbrev servers : World → List Server
servers w = made (resolve no_url (some registry) [] "p" sentry w).0
  where
    made : Result (List ToolInstance) → List Server
    made (ok is) = to_mcp_servers is
    made (err e) = []

-- The token of the environment is the variable that the server asks for.
token_arrives :
    servers world
    ≡ record {
      name = "sentry";
      transport = "";
      command = "npx";
      server_package = "@sentry/mcp-server";
      args = [];
      env = ("SENTRY_ACCESS_TOKEN", "secret") ∷ [];
      url = "";
      headers = [];
    }
      ∷ []
unfolding resolve find_definition auto_fill_config validate_config to_mcp_servers map_config_to_env
token_arrives = refl

-- The tool "git", which someone else adds and deletes again while SQLite fails once.
abbrev git_tool : ToolDefinition
git_tool =
    built_in "git" "Git operations — diff, log, blame, branch management via MCP"
      "@cyanheads/git-mcp-server" "npx" [] ("version-control" ∷ "git" ∷ [])

abbrev others : List (World × Call)
others =
    (world, creates "global" git_tool)
    ∷ (world, deletes "global" "git")
    ∷ (record world { faults = true ∷ [] }, seeds)
    ∷ (world, deletes "global" "git")
    ∷ []

seed_builtins_example :
    (rows : List ToolRow) × ((seed_builtins [] (up world)).0 ≡ ok (none, rows))
    × ((seed_builtins rows (up world)).0 ≡ ok (none, rows))
    × ((find_definition (run_calls others rows) "" "git" (up world)).0
        ≡ ok (stored world.now git_tool))
seed_builtins_example = seed_builtins_lem [] world world world others "git" git_tool refl refl
