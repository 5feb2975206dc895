-- ===== src/Session/PrPlan.antt =====
-- internal/session/pr_service.go: the requests and answers of pull requests, and what CreatePR asks
-- of git and of the provider.
--
-- What git, the provider and the AI client answer is a parameter, Outside: an answer is a function
-- of what the code asks, and an error of a call whose result is then not used is `none`.
use codeforge.Prelude.{
  ℕ, String, Bool, false, ◌||◌, Option, none, some, if◌then◌else◌, ◌=s◌, ◌<>◌, ltb,
}
use codeforge.Apperror.{Error, opaque}
use codeforge.Session.Status.{Status, completed, pr_created, text, is_status}
use codeforge.Session.Model.{ChangesSummary, Session}
use codeforge.Session.World.{Result, ok}

-- ParseRepoURL's result, as far as it is used; `known` says that the provider is not
-- ProviderUnknown.
pub record RepoInfo : Type 0 where
  pub known : Bool
  pub host : String
  pub full_name : String

pub record AnalysisResult : Type 0 where
  pub pr_title : String
  pub description : String
  pub branch_slug : String

pub record BranchOptions : Type 0 where
  pub work_dir : String
  pub branch_name : String
  pub base_branch : String
  pub commit_msg : String
  pub token : String

pub record PrCreateOptions : Type 0 where
  pub title : String
  pub description : String
  pub branch : String
  pub base_branch : String

pub record PrResult : Type 0 where
  pub url : String
  pub number : ℕ

pub record Outside : Type 0 where
  pub workspace_base : String
  pub branch_prefix : String
  pub workspace_path : Option (String → String)
  pub resolve_token : Option (String → String → String → Result String)
  pub calculate_changes : String → Option ChangesSummary
  pub parse_repo_url : String → Result RepoInfo
  pub analyze : String → String → AnalysisResult
  pub generate_slug : String → String → String
  pub default_branch : String → Option String
  pub generate_branch_name : String → String → String → String
  pub format_commit_message : String → String → String
  pub unstaged_diff : String → Option String
  pub generate_commit_message : Option (String → String → String)
  pub create_branch_and_push : BranchOptions → Option Error
  pub commit_and_push : BranchOptions → Option Error
  pub create_provider_pr : RepoInfo → String → PrCreateOptions → Result PrResult
  pub provider_state : RepoInfo → String → ℕ → Result String

pub record CreatePrRequest : Type 0 where
  pub title : String
  pub description : String
  pub target_branch : String

pub record CreatePrResponse : Type 0 where
  pub pr_url : String
  pub pr_number : ℕ
  pub branch : String

pub record PushToPrResponse : Type 0 where
  pub pr_url : String
  pub branch : String

-- The check of the status that CreatePR and PushToPR begin with.
abbrev pub pr_refusal : Status → Option Error
pr_refusal s =
    if is_status s completed || is_status s pr_created
    then none
    else some (opaque ("session must be in completed or pr_created status, currently: " <> text s))

abbrev pub resolved_dir : Option (String → String) → String → String → String
resolved_dir none base k = base <> "/" <> k
resolved_dir (some path) base k = if path k =s "" then base <> "/" <> k else path k

-- filepath.Join(WorkspaceBase, id), where WorkspaceBase is a clean path, or what the resolver knows.
abbrev pub work_dir : Outside → String → String
work_dir o k = resolved_dir o.workspace_path o.workspace_base k

abbrev pub touches_files : ChangesSummary → Bool
touches_files c = ltb 0 c.files_modified || ltb 0 c.files_created || ltb 0 c.files_deleted

abbrev pub has_changes : Option ChangesSummary → Bool
has_changes none = false
has_changes (some c) = touches_files c

-- The summary is made again where it is missing or empty.
abbrev pub changes_refusal : Outside → String → Session → Option Error
changes_refusal o dir t =
    if has_changes t.changes_summary || has_changes (o.calculate_changes dir)
    then none
    else some (opaque "no changes to create PR for")

abbrev pub asked_token : Option (String → String → String → Result String) → Session → Result String
asked_token none t = ok t.access_token
asked_token (some resolve) t =
    if t.access_token =s ""
    then resolve t.repo_url t.access_token t.provider_key
    else ok t.access_token

abbrev pub token_for : Outside → Session → Result String
token_for o t = asked_token o.resolve_token t
