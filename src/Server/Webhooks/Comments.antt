-- ===== src/Server/Webhooks/Comments.antt =====
-- internal/server/handlers/webhook_receiver.go: the events of comments.
use codeforge.Prelude.{String, Bool, not, Option, none, some, if◌then◌else◌, ◌=s◌, ◌<>◌}
use codeforge.Prelude.Int.{ℤ}
use codeforge.Prelude.Decimal.{decimal}
use codeforge.Prelude.Bytes.{Bytes}
use codeforge.Session.Service.{Cipher, Draws}
use codeforge.Server.Http.{Response, message}
use codeforge.Server.Webhooks.{CodeReviewConfig, S, send_reply, ignored, first_set}
use codeforge.Server.Webhooks.Commands.{Place, parse_forge_command, run_command}

-- A decoded issue_comment event.
pub record GithubCommentEvent : Type 0 where
  pub action : String
  pub body : Bytes
  pub number : ℤ
  pub on_pull_request : Bool
  pub clone_url : String
  pub html_url : String

abbrev pub github_place : GithubCommentEvent → Place
github_place e = record {
  repo_url = first_set e.clone_url e.html_url;
  number = e.number;
  source_branch = "";
  target_branch = "";
  review_prompt = "Review pull request #" <> decimal e.number;
  fix_prompt = "Fix all issues from the code review comments on this PR.";
  shown = "PR #" <> decimal e.number;
}

unfoldable pub handle_github_comment :
    Cipher
    → CodeReviewConfig
    → Draws
    → Bool
    → (Bytes → String)
    → Option GithubCommentEvent
    → S Response
unfolding run_command parse_forge_command
handle_github_comment cipher cfg draws raced text none =
    send_reply 400 (message "failed to parse comment webhook")
handle_github_comment cipher cfg draws raced text (some e) =
    if not (e.action =s "created")
    then ignored "not a created comment"
    else if not e.on_pull_request
    then ignored "not a PR comment"
    else run_command cipher cfg draws raced text (github_place e) (parse_forge_command e.body)

-- A decoded Note Hook; `merge_request` holds its number and branches.
pub record GitlabNoteEvent : Type 0 where
  pub note : Bytes
  pub noteable_type : String
  pub merge_request : Option (ℤ × String × String)
  pub http_url_to_repo : String

abbrev pub gitlab_place : String → ℤ × String × String → Place
gitlab_place url (iid, source, target) = record {
  repo_url = url;
  number = iid;
  source_branch = source;
  target_branch = target;
  review_prompt = "Review merge request !" <> decimal iid;
  fix_prompt = "Fix all issues from the code review comments on this MR.";
  shown = "MR !" <> decimal iid;
}

abbrev pub on_merge_request :
    Cipher
    → CodeReviewConfig
    → Draws
    → Bool
    → (Bytes → String)
    → GitlabNoteEvent
    → Option (ℤ × String × String)
    → S Response
on_merge_request cipher cfg draws raced text e none = ignored "not a MR note"
on_merge_request cipher cfg draws raced text e (some mr) =
    run_command cipher cfg draws raced text (gitlab_place e.http_url_to_repo mr)
      (parse_forge_command e.note)

unfoldable pub handle_gitlab_note :
    Cipher
    → CodeReviewConfig
    → Draws
    → Bool
    → (Bytes → String)
    → Option GitlabNoteEvent
    → S Response
unfolding run_command parse_forge_command
handle_gitlab_note cipher cfg draws raced text none =
    send_reply 400 (message "failed to parse note webhook")
handle_gitlab_note cipher cfg draws raced text (some e) =
    if not (e.noteable_type =s "MergeRequest")
    then ignored "not a MR note"
    else on_merge_request cipher cfg draws raced text e e.merge_request
