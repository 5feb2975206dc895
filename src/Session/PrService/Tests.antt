-- ===== src/Session/PrService/Tests.antt =====
-- The theorems on pull requests, applied at concrete sessions.
use codeforge.Prelude.{◌<>◌, ◌≡◌, refl, inl, inr, Option, none, some, true, update}
use codeforge.Apperror.{Error, opaque, wrapped, error_text}
use codeforge.Session.Status.{Status, completed, pr_created, creating_pr, failed}
use codeforge.Session.World.{World, Result, ok, err, up, status_at, entry_hash, Entry}
use codeforge.Session.Loading.{revealed}
use codeforge.Session.Service.{hash_to_session}
use codeforge.Session.Operations.Effects.{loaded}
use codeforge.Session.PrService.{create_pr, push_to_pr, branch_options, pr_options}
use codeforge.Session.PrPlan.{Outside, RepoInfo, PrResult, CreatePrRequest}
use codeforge.Session.PrService.Outcomes.{create_pr_push_fails, create_pr_provider}
use codeforge.Session.PrService.FollowUps.{push_to_pr_completed}
use codeforge.Session.Samples.{marking, day_settings, hash_in, no_entries, world_of}

abbrev entry : Status → Entry
entry s = record {
  hash = record (hash_in s) {
    repo_url = some "https://github.com/o/r";
    branch = some "fix";
    pr_number = some 7;
    changes_summary =
        some (record { files_modified = 1; files_created = 0; files_deleted = 0; diff_stats = "" });
  };
  ttl = none;
}

abbrev one_session : Status → World
one_session s = world_of (update no_entries "a" (some (entry s))) none

abbrev github : RepoInfo
github = record { known = true; host = "github.com"; full_name = "o/r" }

abbrev answers : Option Error → Result PrResult → Outside
answers push created = record {
  workspace_base = "/ws";
  branch_prefix = "codeforge/";
  workspace_path = none;
  resolve_token = none;
  calculate_changes = λ _. none;
  parse_repo_url = λ _. ok github;
  analyze = λ _ _. record { pr_title = "t"; description = "d"; branch_slug = "s" };
  generate_slug = λ _ _. "s";
  default_branch = λ _. none;
  generate_branch_name = λ _ _ slug. slug;
  format_commit_message = λ title _. title;
  unstaged_diff = λ _. none;
  generate_commit_message = none;
  create_branch_and_push = λ _. push;
  commit_and_push = λ _. push;
  create_provider_pr = λ _ _ _. created;
  provider_state = λ _ _ _. ok "merged";
}

abbrev no_request : CreatePrRequest
no_request = record { title = ""; description = ""; target_branch = "" }

abbrev denied : Error
denied = opaque "denied"

abbrev seven : PrResult
seven = record { url = "u"; number = 7 }

create_pr_push_fails_example :
    let (r, w') =
      create_pr
        (answers (some denied) (ok seven))
        day_settings
        marking
        "a"
        no_request
        (up (one_session completed)) in
    (r ≡ err (wrapped "creating branch and pushing" denied)) × (status_at w' "a" ≡ some creating_pr)
unfolding revealed hash_to_session
create_pr_push_fails_example =
    create_pr_push_fails (answers (some denied) (ok seven)) day_settings marking "a" no_request
      (one_session completed) (entry completed) completed "" github denied refl refl (inl refl)
      (refl, refl, refl, refl) refl

create_pr_provider_example :
    let o = answers none (err denied) in
    let w = one_session pr_created in
    let t = loaded marking none (entry pr_created).hash in
    let b = branch_options o "a" no_request t "" in
    let (r, w') = create_pr o day_settings marking "a" no_request (up w) in
    let h = entry_hash (w'.state "a") in
    ((p : PrResult)
      → o.create_provider_pr github "" (pr_options o "a" no_request t b) ≡ ok p
      → (r ≡ ok (record { pr_url = p.url; pr_number = p.number; branch = b.branch_name }))
        × (h.status ≡ some pr_created)
        × (h.branch ≡ some b.branch_name)
        × (h.pr_url ≡ some p.url)
        × (h.pr_number ≡ some p.number))
    × ((e : Error)
        → o.create_provider_pr github "" (pr_options o "a" no_request t b) ≡ err e
        → (r ≡ err (wrapped "creating PR" e))
          × (h.status ≡ some failed)
          × (h.error ≡ some ("PR creation failed: " <> error_text e)))
unfolding revealed hash_to_session
create_pr_provider_example =
    create_pr_provider (answers none (err denied)) day_settings marking "a" no_request
      (one_session pr_created) (entry pr_created) pr_created "" github refl refl (inr refl)
      (refl, refl, refl, refl) refl

push_to_pr_completed_example :
    status_at
      (push_to_pr (answers none (ok seven)) day_settings marking "a" (up (one_session completed))).1
      "a"
    ≡ some completed
push_to_pr_completed_example =
    push_to_pr_completed (answers none (ok seven)) day_settings marking "a" (one_session completed)
      (entry completed) refl refl
