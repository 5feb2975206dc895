-- ===== src/Server/Webhooks/Tests.antt =====
-- Deliveries at a concrete site.
use codeforge.Prelude.Decimal.{decimal}
use codeforge.Prelude.{◌≡◌, ◌⊎◌, refl, String, true, false, none, some, [], ◌∷◌, arith}
use codeforge.Prelude.Bytes.{Bytes, codes}
use codeforge.Prelude.Int.{pos}
use codeforge.Session.Service.{new_session, effective_prompt}
use codeforge.Session.Creating.{create, seal, store_new, encrypted}
use codeforge.Session.Sqlite
use codeforge.Session.Samples.{no_entries, world_of, draws, marking}
use codeforge.Server.Http.{Response, message, done}
use codeforge.Server.Webhooks.{
  CodeReviewConfig, Site, Change, send_reply, review_change, create_review, change_request,
}
use codeforge.Server.Webhooks.Receiver.{Signing, github_webhook}
use codeforge.Server.Webhooks.Commands.{
  Place, run_command, review, fix, comment_request, parse_forge_command,
}
use codeforge.Server.Webhooks.Dedup.{
  calm_site, reached_site, later_site, marked_site, review_change_twice,
}
use codeforge.Server.Webhooks.Signed.{IsSigned, github_webhook_unsigned}
use codeforge.Server.Webhooks.Reviews.{fix_after_review}

abbrev config : CodeReviewConfig
config = record {
  github_secret = "s";
  gitlab_secret = "";
  review_drafts = false;
  default_key_name = "key";
  default_cli = "";
  webhook_dedup_ttl = pos 60;
}

abbrev site : Site
site = record { world = world_of no_entries (some []); marks = λ _. none }

abbrev change : Change
change = record {
  repo_url = "https://github.com/o/r";
  number = pos 7;
  draft = false;
  source_branch = "topic";
  target_branch = "main";
  commit = "abc";
  prompt = "Review pull request #7";
}

-- The SETNX works, and the create behind it does not.
review_change_twice_example :
    let first =
      review_change marking config draws "draft PR" change (reached_site (true ∷ []) site) in
    (first
      ≡ create_review marking draws
          (change_request config change)
          (marked_site config change (true ∷ []) site))
    × (review_change marking config draws "draft PR" change (later_site 6 first.1)
        ≡ (record { status = 200; body = done "deduplicated" "" }, later_site 6 first.1))
review_change_twice_example =
    review_change_twice marking config draws draws "draft PR" change site 6 (true ∷ []) refl refl
      refl refl (omega arith)

-- The first create fails, and the delivery that comes again is answered and lost.
abbrev broken : Site
broken = record site { world = record (site.world) { faults = false ∷ true ∷ [] } }

lost_review :
    let first = review_change marking config draws "draft PR" change broken in
    (first.0 ≡ record { status = 500; body = message "failed to create review session" })
    × ((review_change marking config draws "draft PR" change first.1).0
        ≡ record { status = 200; body = done "deduplicated" "" })
unfolding review_change create seal store_new encrypted effective_prompt decimal
lost_review = (refl, refl)

abbrev signing : Signing
signing = record { hmac = λ secret body. 1 ∷ body; from_hex = λ s. none }

unsigned : IsSigned signing config "sha256=00" (2 ∷ []) → ⊥
unsigned (set, prefixed, matched) = cc

github_webhook_unsigned_example :
    (r : Response) × ((r.status ≡ 503) ⊎ (r.status ≡ 401))
    × (github_webhook signing config
          (λ _. send_reply 201 (message ""))
          (λ _. send_reply 202 (message ""))
          "pull_request"
          "sha256=00"
          (some (2 ∷ []))
          site
        ≡ (r, site))
github_webhook_unsigned_example =
    github_webhook_unsigned signing config (λ _. send_reply 201 (message ""))
      (λ _. send_reply 202 (message "")) "pull_request" "sha256=00" (2 ∷ []) site unsigned

abbrev place : Place
place = record {
  repo_url = "https://github.com/o/r";
  number = pos 7;
  source_branch = "";
  target_branch = "";
  review_prompt = "Review pull request #7";
  fix_prompt = "Fix all issues from the code review comments on this PR.";
  shown = "PR #7";
}

abbrev no_text : Bytes → String
no_text _ = ""

fix_after_review_example :
    let first =
      run_command marking config draws false no_text place (some (review, [])) (calm_site site) in
    (first.0 ≡ record { status = 201; body = done "review_created" "c" })
    × ((run_command marking config draws false no_text place (some (fix, [])) first.1).0
        ≡ record { status = 404; body = message "no session found for PR #7 — run /review first" })
unfolding create seal store_new encrypted effective_prompt Sqlite.find_by_pr
fix_after_review_example =
    fix_after_review marking config false no_text place draws draws [] [] [] site
      (new_session (comment_request config place)
        "Review this pull request.\nReview pull request #7" "c" 5)
      refl refl refl refl refl

-- The argument keeps its case, and the command is found in a later line.
parsed :
    parse_forge_command (codes "Thanks!\n /codeforge  FIX-CR  Only the Tests \n/review")
    ≡ some (fix, codes "Only the Tests")
unfolding parse_forge_command
parsed = refl
