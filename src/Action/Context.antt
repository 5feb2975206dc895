-- ===== src/Action/Context.antt =====
-- cmd/codeforge-action: what a job knows of itself.
--
-- The event of GitHub is a parameter as it is decoded from its file; texts that are cut are bytes.
use codeforge.Prelude.{
  String, Bool, true, Option, none, some, [], if◌then◌else◌, ◌=s◌, ◌<>◌, option_or,
}
use codeforge.Prelude.Bytes.{Bytes, codes}
use codeforge.Prelude.Int.{is_zero, ℤ, pos}
use codeforge.Git.Provider.{cut}
use codeforge.Action.{Environment, atoi, env_default, or_text}

pub data Platform : Type 0 where
  platform_github platform_gitlab platform_unknown : Platform

pub record CiContext : Type 0 where
  pub platform : Platform
  pub repo_url : String
  pub pr_number : ℤ
  pub pr_branch : String
  pub base_branch : String
  pub head_sha : String
  pub work_dir : String
  pub repo_owner : Bytes
  pub repo_name : Bytes

pub record GithubPr : Type 0 where
  pub number : ℤ
  pub head_ref : String
  pub head_sha : String
  pub base_ref : String

-- An issue has its number, and whether it is a pull request's.
pub record GithubEvent : Type 0 where
  pub pull_request : Option GithubPr
  pub issue : Option (ℤ × Bool)
  pub input_pr_number : String
  pub html_url : String

abbrev pub blank_context : Platform → String → CiContext
blank_context p dir = record {
  platform = p;
  repo_url = "";
  pr_number = pos 0;
  pr_branch = "";
  base_branch = "";
  head_sha = "";
  work_dir = dir;
  repo_owner = [];
  repo_name = [];
}

abbrev pub with_parts : Option (Bytes × Bytes) → CiContext → CiContext
with_parts none c = c
with_parts (some (owner, name)) c = record c { repo_owner = owner; repo_name = name }

abbrev pub with_pull_request : Option GithubPr → CiContext → CiContext
with_pull_request none c = c
with_pull_request (some p) c = record c {
  pr_number = p.number;
  pr_branch = p.head_ref;
  base_branch = p.base_ref;
  head_sha = p.head_sha;
}

abbrev pub or_number : Option ℤ → ℤ → ℤ
or_number o n = if is_zero n then option_or o n else n

abbrev pub issue_number : Option (ℤ × Bool) → Option ℤ
issue_number (some (n, true)) = some n
issue_number _ = none

abbrev pub with_event : GithubEvent → CiContext → CiContext
with_event e c =
    let d = with_pull_request e.pull_request c in
    record d {
      pr_number = or_number (atoi e.input_pr_number) (or_number (issue_number e.issue) d.pr_number);
      repo_url = or_text e.html_url d.repo_url;
    }

abbrev pub from_event : String → Option GithubEvent → CiContext → Option CiContext
from_event path none c = if path =s "" then some c else none
from_event path (some e) c = if path =s "" then some c else some (with_event e c)

abbrev pub with_fallbacks : Environment → Option CiContext → Option CiContext
with_fallbacks getenv none = none
with_fallbacks getenv (some c) = some (record c {
  pr_number = or_number (atoi (getenv "INPUT_PR_NUMBER")) c.pr_number;
  base_branch = or_text c.base_branch (env_default getenv "GITHUB_BASE_REF" "main");
  pr_branch = or_text c.pr_branch (getenv "GITHUB_HEAD_REF");
})

-- ParseGitHubContext; `none` is an event that cannot be read.
unfoldable pub parse_github_context : Environment → (String → Option GithubEvent) → Option CiContext
parse_github_context getenv read_event =
    let repo = getenv "GITHUB_REPOSITORY" in
    let server = env_default getenv "GITHUB_SERVER_URL" "https://github.com" in
    let path = getenv "GITHUB_EVENT_PATH" in
    let start = record (blank_context platform_github (env_default getenv "GITHUB_WORKSPACE" ".")) {
      repo_url = if repo =s "" then "" else server <> "/" <> repo;
      head_sha = getenv "GITHUB_SHA";
    } in
    with_fallbacks getenv (from_event path (read_event path) (with_parts (cut (codes repo)) start))

-- ParseGitLabContext.
unfoldable pub parse_gitlab_context : Environment → CiContext
parse_gitlab_context getenv =
    let base = getenv "CI_MERGE_REQUEST_DIFF_BASE_SHA" in
    with_parts (cut (codes (getenv "CI_PROJECT_PATH")))
      (record (blank_context platform_gitlab (env_default getenv "CI_PROJECT_DIR" ".")) {
        repo_url = getenv "CI_PROJECT_URL";
        pr_number = option_or (atoi (getenv "CI_MERGE_REQUEST_IID")) (pos 0);
        pr_branch = getenv "CI_MERGE_REQUEST_SOURCE_BRANCH_NAME";
        base_branch =
            env_default getenv "CI_MERGE_REQUEST_TARGET_BRANCH_NAME"
              (env_default getenv "CI_DEFAULT_BRANCH" "main");
        head_sha =
            if base =s "" then getenv "CI_COMMIT_SHA" else env_default getenv "CI_COMMIT_SHA" base;
      })

-- DetectCIContext.
unfoldable pub detect_ci_context : Environment → (String → Option GithubEvent) → Option CiContext
unfolding parse_github_context parse_gitlab_context
detect_ci_context getenv read_event =
    if getenv "GITHUB_ACTIONS" =s "true"
    then parse_github_context getenv read_event
    else if getenv "GITLAB_CI" =s "true"
    then some (parse_gitlab_context getenv)
    else some (blank_context platform_unknown (env_default getenv "WORKSPACE" "."))
