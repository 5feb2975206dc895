-- ===== src/Keys/Resolver.antt =====
-- internal/keys/resolver.go: the order in which a token is looked for.
use codeforge.Prelude.{String, not, Option, none, some, if◌then◌else◌, ◌=s◌, ◌<>◌}
use codeforge.Apperror.{Error, opaque, wrapped}
use codeforge.Session.World.{M, Result, ok, err, ◌>>=◌, pure, fail, attempt}
use codeforge.Prelude.Bytes.{Bytes}
use codeforge.Git.Provider.{Provider, github, gitlab, unknown, RepoUrl, parse_repo_url}
use codeforge.Keys.{Full}
use codeforge.Keys.Environment.{
  Registry, env_resolve, env_resolve_full_by_name, or_variable, variable,
}

-- resolver.go.
abbrev pub provider_text : Provider → String
provider_text github = "github"
provider_text gitlab = "gitlab"
provider_text unknown = "unknown"

abbrev pub variables_of : (String → String) → Provider → Option String
variables_of getenv github = variable (getenv "GITHUB_TOKEN")
variables_of getenv gitlab = variable (getenv "GITLAB_TOKEN")
variables_of getenv unknown =
    or_variable (variable (getenv "GITLAB_TOKEN")) (variable (getenv "GITHUB_TOKEN"))

abbrev pub env_hint : Provider → String
env_hint github = "GITHUB_TOKEN"
env_hint gitlab = "GITLAB_TOKEN"
env_hint unknown = "GITLAB_TOKEN or GITHUB_TOKEN"

abbrev pub no_token : String → Provider → Error
no_token url p = opaque (
    "no access token available for "
    <> url
    <> " (provide access_token, provider_key, or set "
    <> env_hint p
    <> " env var)")

abbrev pub or_no_token : String → Provider → Option String → M String
or_no_token url p none = fail (no_token url p)
or_no_token url p (some t) = pure t

abbrev pub or_environment : Registry → String → Provider → Result String → M String
or_environment reg url p (ok token) = pure token
or_environment reg url p (err e) = or_no_token url p (variables_of reg.getenv p)

-- The error of ParseRepoURL: the URL is none, or it has no owner and repository.
abbrev pub no_repo : String → Option (Bytes × Bytes) → Error
no_repo url none = wrapped "parsing repo URL" (wrapped "invalid repo URL" (opaque "url"))
no_repo url (some _) =
    wrapped "parsing repo URL" (opaque ("cannot extract owner/repo from URL: " <> url))

abbrev pub by_provider : Registry → Error → String → String → Option Provider → M String
by_provider reg e url key none = fail e
by_provider reg e url key (some p) =
    if key =s "" then or_no_token url p (variables_of reg.getenv p) else (do
      answer ← attempt (env_resolve reg (provider_text p) key)
      or_environment reg url p answer)

abbrev pub provider_in : Option RepoUrl → Option Provider
provider_in none = none
provider_in (some repo) = some repo.provider

-- ResolveToken, with the host and the path that url.Parse finds in the URL.
unfoldable pub resolve_token :
    Registry → (Bytes → Option Bytes) → Option (Bytes × Bytes) → String → String → String → M String
resolve_token reg domains parsed url access_token provider_key =
    if not (access_token =s "")
    then pure access_token
    else by_provider reg (no_repo url parsed) url provider_key
        (provider_in (parse_repo_url domains parsed))

abbrev pub or_default : Registry → String → Result Full → M String
or_default reg provider (ok (token, _, _)) = pure token
or_default reg provider (err e) = do
  answer ← attempt (env_resolve reg provider "default")
  or_missing answer
  where
    or_missing : Result String → M String
    or_missing (ok token) = pure token
    or_missing (err e) = fail (opaque ("no AI key found for provider \"" <> provider <> "\""))

-- ResolveAIKey.
unfoldable pub resolve_ai_key : Registry → String → M String
resolve_ai_key reg provider = do
  answer ← attempt (env_resolve_full_by_name reg (provider <> "-env"))
  or_default reg provider answer
