-- ===== src/Session/PrService.antt =====
-- internal/session/pr_service.go: a session's changes as a pull request.
pub mod Safety
pub mod Outcomes
pub mod FollowUps
mod Tests
use codeforge.Prelude.{
  ℕ, String, Bool, true, false, ◌&&◌, ◌||◌, Option, none, some, if◌then◌else◌, ◌=s◌, ◌==◌, ◌<>◌,
  is_some, ltb,
}
use codeforge.Apperror.{Error, opaque, wrapped, error_text}
use codeforge.Session.Status.{Status, completed, failed, creating_pr, pr_created, text, is_status}
use codeforge.Session.Model.{Config, ChangesSummary, Session}
use codeforge.Session.World.{
  M, Result, ok, err, ◌>>=◌, ◌>>◌, pure, fail, get, modify, attempt, ignore, context, require, lift,
  reach, lost, hset, persist_to_sqlite,
}
use codeforge.Session.Sqlite
use codeforge.Session.Service.{Cipher, Settings}
use codeforge.Session.Operations.{update_status, set_error}
use codeforge.Session.Loading.{get_session}
use codeforge.Session.PrPlan.{
  AnalysisResult, BranchOptions, CreatePrRequest, CreatePrResponse, Outside, PrCreateOptions,
  PrResult, PushToPrResponse, RepoInfo, asked_token, changes_refusal, has_changes, pr_refusal,
  resolved_dir, token_for, touches_files, work_dir,
}

-- failPR.
unfoldable pub fail_pr : Settings → String → Error → M (Unit {0})
fail_pr cfg k e = do
  ignore (set_error k ("PR creation failed: " <> error_text e))
  ignore (update_status cfg k failed)

abbrev or_else : String → String → String
or_else s d = if s =s "" then d else s

abbrev config_target : Option Config → String
config_target none = ""
config_target (some c) = c.target_branch

abbrev main_if_unknown : Option String → String
main_if_unknown none = "main"
main_if_unknown (some b) = or_else b "main"

abbrev pub base_branch : Outside → String → CreatePrRequest → Session → String
base_branch o dir req t =
    or_else req.target_branch
      (or_else (config_target t.config) (main_if_unknown (o.default_branch dir)))

abbrev written_message :
    Option (String → String → String) → Option String → String → String → String
written_message (some write) (some diff) prompt fallback =
    if diff =s "" then fallback else or_else (write diff prompt) fallback
written_message _ _ prompt fallback = fallback

abbrev pub commit_message : Outside → String → Session → String → String
commit_message o dir t fallback =
    written_message o.generate_commit_message (o.unstaged_diff dir) t.prompt fallback

abbrev pub pr_title : Outside → String → CreatePrRequest → Session → String
pr_title o k req t = or_else req.title (o.analyze t.prompt k).pr_title

abbrev pub pr_description : Outside → String → CreatePrRequest → Session → String
pr_description o k req t = or_else req.description (o.analyze t.prompt k).description

abbrev pub branch_slug : Outside → String → CreatePrRequest → Session → String
branch_slug o k req t =
    if req.title =s "" || req.description =s ""
    then (o.analyze t.prompt k).branch_slug
    else o.generate_slug t.prompt k

-- What is committed and pushed.
abbrev pub branch_options : Outside → String → CreatePrRequest → Session → String → BranchOptions
branch_options o k req t token = record {
  work_dir = work_dir o k;
  branch_name = o.generate_branch_name (work_dir o k) o.branch_prefix (branch_slug o k req t);
  base_branch = base_branch o (work_dir o k) req t;
  commit_msg = commit_message o (work_dir o k) t (o.format_commit_message (pr_title o k req t) k);
  token = token;
}

abbrev pub pr_options :
    Outside → String → CreatePrRequest → Session → BranchOptions → PrCreateOptions
pr_options o k req t b = record {
  title = pr_title o k req t;
  description = pr_description o k req t;
  branch = b.branch_name;
  base_branch = b.base_branch;
}

-- The provider's answer: the pull request is recorded, whatever the answers of Redis.
unfoldable pub record_pr : Settings → String → String → Result PrResult → M CreatePrResponse
unfolding reach
record_pr cfg k branch (err e) = do fail_pr cfg k e; fail (wrapped "creating PR" e)
record_pr cfg k branch (ok r) = do
  ignore (do
    reach lost
    modify (
        hset k
          λ h. record h { branch = some branch; pr_url = some r.url; pr_number = some r.number }))
  w ← get
  persist_to_sqlite (Sqlite.update_pr w.now k branch r.url r.number)
  ignore (update_status cfg k pr_created)
  pure (record { pr_url = r.url; pr_number = r.number; branch = branch })

-- The push's answer. After an error the old status is to come back.
unfoldable pub after_push :
    Outside
    → Settings
    → String
    → CreatePrRequest
    → Session
    → RepoInfo
    → BranchOptions
    → Option Error
    → M CreatePrResponse
unfolding record_pr update_status
after_push o cfg k req t info b (some e) = do
  ignore (update_status cfg k t.status)
  fail (wrapped "creating branch and pushing" e)
after_push o cfg k req t info b none =
    record_pr cfg k b.branch_name (o.create_provider_pr info b.token (pr_options o k req t b))

-- CreatePR from the parsing of the URL on.
unfoldable pub publish :
    Outside
    → Settings
    → String
    → CreatePrRequest
    → Session
    → String
    → Result RepoInfo
    → M CreatePrResponse
unfolding after_push fail_pr
publish o cfg k req t token (err e) = do fail_pr cfg k e; fail (wrapped "parsing repo URL" e)
publish o cfg k req t token (ok info) =
    let e : Error = opaque ("PR creation not supported for host: " <> info.host) in
    let b = branch_options o k req t token in
    if info.known
    then after_push o cfg k req t info b (o.create_branch_and_push b)
    else (fail_pr cfg k e >> fail e)

abbrev resolved : String → Result String → M String
resolved c r = context c (lift r)

-- CreatePR, behind the session that it loads.
unfoldable pub create_pr_loaded :
    Outside → Settings → String → CreatePrRequest → Session → M CreatePrResponse
unfolding publish update_status
create_pr_loaded o cfg k req t = do
  require (pr_refusal t.status)
  require (changes_refusal o (work_dir o k) t)
  token ← resolved "resolving access token for PR" (token_for o t)
  context "transitioning to creating_pr" (update_status cfg k creating_pr)
  publish o cfg k req t token (o.parse_repo_url t.repo_url)

-- CreatePR.
unfoldable pub create_pr :
    Outside → Settings → Cipher → String → CreatePrRequest → M CreatePrResponse
create_pr o cfg cipher k req = do t ← get_session cipher k; create_pr_loaded o cfg k req t

abbrev pub no_pr : String → Option Error
no_pr branch = if branch =s "" then some (opaque "no existing PR — use create-pr first") else none

-- The summary is stored if it could be made.
abbrev pub restore_changes : String → Option ChangesSummary → M (Unit {0})
restore_changes k none = pure tt
restore_changes k (some c) =
    ignore (do reach lost; modify (hset k λ h. record h { changes_summary = some c }))

abbrev pub ensure_pr_created : Settings → String → Status → M (Unit {0})
ensure_pr_created cfg k s =
    if is_status s pr_created then pure tt else ignore (update_status cfg k pr_created)

abbrev pub push_options : Outside → String → Session → String → BranchOptions
push_options o k t token = record {
  work_dir = work_dir o k;
  branch_name = t.branch;
  base_branch = "";
  commit_msg = commit_message o (work_dir o k) t "follow-up changes";
  token = token;
}

-- PushToPR, behind the session that it loads.
unfoldable pub push_to_pr_loaded : Outside → Settings → String → Session → M PushToPrResponse
unfolding reach update_status
push_to_pr_loaded o cfg k t = do
  require (pr_refusal t.status)
  require (no_pr t.branch)
  token ← resolved "resolving access token for push" (token_for o t)
  require (o.commit_and_push (push_options o k t token))
  restore_changes k (o.calculate_changes (work_dir o k))
  ensure_pr_created cfg k t.status
  pure (record { pr_url = t.pr_url; branch = t.branch })

-- PushToPR.
unfoldable pub push_to_pr : Outside → Settings → Cipher → String → M PushToPrResponse
push_to_pr o cfg cipher k = do t ← get_session cipher k; push_to_pr_loaded o cfg k t

abbrev pub is_over : String → Bool
is_over state = state =s "merged" || state =s "closed"

abbrev pub sync_status : Settings → String → Session → String → M (Unit {0})
sync_status cfg k t state =
    if is_over state && is_status t.status pr_created
    then ignore (update_status cfg k completed)
    else pure tt

-- GetPRStatus, behind the session that it loads.
unfoldable pub get_pr_status_loaded : Outside → Settings → String → Session → M String
unfolding update_status
get_pr_status_loaded o cfg k t = do
  require (if t.pr_number == 0 then some (opaque "session has no PR") else none)
  info ← context "parsing repo URL" (lift (o.parse_repo_url t.repo_url))
  token ← resolved "resolving token" (token_for o t)
  state ← lift (o.provider_state info token t.pr_number)
  sync_status cfg k t state
  pure state

-- GetPRStatus.
unfoldable pub get_pr_status : Outside → Settings → Cipher → String → M String
get_pr_status o cfg cipher k = do t ← get_session cipher k; get_pr_status_loaded o cfg k t
