-- ===== src/Server/Webhooks.antt =====
-- internal/server/handlers/webhook_receiver.go: the webhooks of GitHub and GitLab, which start
-- reviews and fixes.
--
-- The decoded events are parameters. A delivery is marked in Redis under a key that expires; the marks
-- stand beside the World. What is answered for an event that is left alone is its status and reason.
pub mod Commands
pub mod Comments
pub mod Receiver
pub mod Dedup
pub mod Signed
pub mod Reviews
mod Tests
use Prim.Native.String.{len, slice}
use text.Mathlib.Text.{starts_with}
use codeforge.Prelude.{
  ℕ, ◌+◌, ◌*◌, ◌<◌, String, Bool, true, false, ◌&&◌, ◌||◌, not, Option, none, some, List, [], ◌∷◌,
  if◌then◌else◌, ◌=s◌, ◌<>◌, ◌==◌, ltb, leb, update, contains, option_or,
}
use codeforge.Prelude.Int.{is_zero, ℤ, pos, pos_part, leb_ℤ}
use codeforge.Prelude.Decimal.{decimal}
use codeforge.Apperror.{Error}
use codeforge.Session.Model.{Config, Session, zero_config}
use codeforge.Session.World.{World, M, Result, ok, err, next_fault, later_faults}
use codeforge.Session.Service.{Cipher, CreateSessionRequest, Draws}
use codeforge.Session.Creating.{create}
use codeforge.Session.Operations.{instruct, start_review_async, update_config}
use codeforge.Server.Http.{Response, Body, message, done}
use codeforge.Server.Auth.{trim_prefix}

-- internal/config: the section code_review.
pub record CodeReviewConfig : Type 0 where
  pub github_secret : String
  pub gitlab_secret : String
  pub review_drafts : Bool
  pub default_key_name : String
  pub default_cli : String
  pub webhook_dedup_ttl : ℤ

-- The marks of the deliveries, each with the time at which it expires, and the World.
pub record Site : Type 0 where
  pub world : World
  pub marks : String → Option ℕ

abbrev pub S : Type 0 → Type 0
S A = Site → A × Site

abbrev pub send_reply : ℕ → Body → S Response
send_reply s b site = (record { status = s; body = b }, site)

abbrev pub ignored : String → S Response
ignored reason = send_reply 200 (done "ignored" reason)

abbrev pub in_world : {A : Type 0} → A × World → Site → A × Site
in_world (a, w) site = (a, record site { world = w })

-- A call of the session service.
abbrev pub call : {A : Type 0} → M A → S (Result A)
call m site = in_world (m site.world) site

infixl 5 ◌>>=◌
abbrev pub ◌>>=◌ : {A B : Type 0} → S A → (A → S B) → S B
◌>>=◌ m f site = f (m site).0 (m site).1

-- What SETNX answers: an error, or whether it has set the key.
pub data Mark : Type 0 where
  unknown : Mark
  fresh : Mark
  duplicate : Mark

abbrev pub is_alive : ℕ → Option ℕ → Bool
is_alive now none = false
is_alive now (some deadline) = ltb now deadline

-- SETNX with a time to live.
unfoldable pub set_nx : String → ℕ → S Mark
set_nx key ttl site =
    let w = site.world in
    let popped = record site { world = record w { faults = later_faults w.faults } } in
    if next_fault w.faults
    then (unknown, popped)
    else if is_alive w.now (site.marks key)
    then (duplicate, popped)
    else (fresh, record popped { marks = update site.marks key (some (w.now + ttl)) })

abbrev pub hour : ℕ
hour = 3600000000000

abbrev pub dedup_ttl : CodeReviewConfig → ℕ
dedup_ttl cfg =
    if leb_ℤ cfg.webhook_dedup_ttl (pos 0)
    then hour
    else pos_part cfg.webhook_dedup_ttl * 1000000000

abbrev pub dedup_key : String → ℤ → String → String
dedup_key repo_url number sha = "webhook:dedup:" <> repo_url <> ":" <> decimal number <> ":" <> sha

-- An event without a commit is not marked.
unfoldable pub check_duplicate : CodeReviewConfig → String → ℤ → String → S Mark
unfolding set_nx
check_duplicate cfg repo_url number sha site =
    if sha =s "" then (fresh, site) else set_nx (dedup_key repo_url number sha) (dedup_ttl cfg) site

abbrev pub cli_or_default : String → String
cli_or_default cli = if cli =s "" then "claude-code" else cli

abbrev pub request_of : String → String → String → Config → CreateSessionRequest
request_of repo_url key_name prompt config = record {
  repo_url = repo_url;
  provider_key = key_name;
  access_token = "";
  prompt = prompt;
  session_type = "pr_review";
  callback_url = "";
  config = some config;
  workflow_run_id = "";
  metadata = [];
  tenant_id = "";
}

abbrev pub review_config : CodeReviewConfig → ℤ → String → String → Config
review_config cfg number source target = record zero_config {
  cli = cli_or_default cfg.default_cli;
  source_branch = source;
  target_branch = target;
  pr_number = number;
  output_mode = "post_comments";
}

abbrev pub created_reply : String → Result Session → S Response
created_reply status (err e) = send_reply 500 (message "failed to create review session")
created_reply status (ok t) = send_reply 201 (done status t.id)

abbrev pub create_review : Cipher → Draws → CreateSessionRequest → S Response
create_review cipher draws req = call (create cipher req draws) >>= created_reply "created"

abbrev pub unless_duplicate : S Response → Mark → S Response
unless_duplicate next unknown = next
unless_duplicate next fresh = next
unless_duplicate next duplicate = send_reply 200 (done "deduplicated" "")

-- A pull request or a merge request, as its event tells of it.
pub record Change : Type 0 where
  pub repo_url : String
  pub number : ℤ
  pub draft : Bool
  pub source_branch : String
  pub target_branch : String
  pub commit : String
  pub prompt : String

abbrev pub change_request : CodeReviewConfig → Change → CreateSessionRequest
change_request cfg c =
    request_of c.repo_url cfg.default_key_name c.prompt
      (review_config cfg c.number c.source_branch c.target_branch)

-- From the draft's test on, handleGitHubPR and handleGitLabMR do the same.
unfoldable pub review_change : Cipher → CodeReviewConfig → Draws → String → Change → S Response
unfolding check_duplicate
review_change cipher cfg draws draft_reason c =
    if c.draft && not cfg.review_drafts
    then send_reply 200 (done "skipped" draft_reason)
    else if cfg.default_key_name =s ""
    then send_reply 400 (message "code_review.default_key_name not configured")
    else (check_duplicate cfg c.repo_url c.number c.commit
        >>= unless_duplicate (create_review cipher draws (change_request cfg c)))

-- A decoded pull_request event.
pub record GithubPrEvent : Type 0 where
  pub action : String
  pub number : ℤ
  pub pr_number : ℤ
  pub draft : Bool
  pub head_ref : String
  pub head_sha : String
  pub base_ref : String
  pub clone_url : String
  pub html_url : String

abbrev pub first_set : String → String → String
first_set a b = if a =s "" then b else a

abbrev pub first_number : ℤ → ℤ → ℤ
first_number a b = if is_zero a then b else a

abbrev pub github_change : GithubPrEvent → Change
github_change e =
    let number = first_number e.pr_number e.number in
    record {
      repo_url = first_set e.clone_url e.html_url;
      number = number;
      draft = e.draft;
      source_branch = e.head_ref;
      target_branch = e.base_ref;
      commit = e.head_sha;
      prompt = "Review pull request #" <> decimal number;
    }

-- handleGitHubPR.
unfoldable pub handle_github_pr :
    Cipher → CodeReviewConfig → Draws → Option GithubPrEvent → S Response
handle_github_pr cipher cfg draws none = send_reply 400 (message "failed to parse webhook payload")
handle_github_pr cipher cfg draws (some e) =
    if contains ("opened" ∷ "synchronize" ∷ "reopened" ∷ []) e.action
    then review_change cipher cfg draws "draft PR" (github_change e)
    else ignored ("action " <> e.action <> " not handled")

-- A decoded Merge Request Hook.
pub record GitlabMrEvent : Type 0 where
  pub iid : ℤ
  pub action : String
  pub source_branch : String
  pub target_branch : String
  pub work_in_progress : Bool
  pub draft : Bool
  pub title : String
  pub last_commit : String
  pub http_url_to_repo : String

abbrev pub gitlab_change : GitlabMrEvent → Change
gitlab_change e = record {
  repo_url = e.http_url_to_repo;
  number = e.iid;
  draft = e.draft || e.work_in_progress;
  source_branch = e.source_branch;
  target_branch = e.target_branch;
  commit = e.last_commit;
  prompt = "Review merge request !" <> decimal e.iid <> ": " <> e.title;
}

-- handleGitLabMR.
unfoldable pub handle_gitlab_mr :
    Cipher → CodeReviewConfig → Draws → Option GitlabMrEvent → S Response
handle_gitlab_mr cipher cfg draws none = send_reply 400 (message "failed to parse webhook payload")
handle_gitlab_mr cipher cfg draws (some e) =
    if contains ("open" ∷ "update" ∷ "reopen" ∷ []) e.action
    then review_change cipher cfg draws "draft/WIP MR" (gitlab_change e)
    else ignored ("action " <> e.action <> " not handled")
