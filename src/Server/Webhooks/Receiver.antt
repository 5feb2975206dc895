-- ===== src/Server/Webhooks/Receiver.antt =====
-- internal/server/handlers/webhook_receiver.go: the signatures of deliveries, and the two routes.
--
-- HMAC-SHA256 and the hexadecimal code are parameters.
use text.Mathlib.Text.{starts_with}
use codeforge.Prelude.{
  ℕ, String, Bool, true, false, ◌&&◌, not, Option, none, some, List, [], ◌∷◌, if◌then◌else◌, ◌=s◌,
  ◌<>◌, ◌==◌,
}
use codeforge.Server.Http.{Response, message}
use codeforge.Server.Auth.{trim_prefix}
use codeforge.Server.Webhooks.{CodeReviewConfig, S, ignored, send_reply}

abbrev pub same_bytes : List ℕ → List ℕ → Bool
same_bytes [] [] = true
same_bytes [] (y ∷ ys) = false
same_bytes (x ∷ xs) [] = false
same_bytes (x ∷ xs) (y ∷ ys) = x == y && same_bytes xs ys

-- HMAC-SHA256 with a secret, and the hexadecimal code.
pub record Signing : Type 0 where
  pub hmac : String → List ℕ → List ℕ
  pub from_hex : String → Option (List ℕ)

abbrev pub is_signature : List ℕ → Option (List ℕ) → Bool
is_signature expected none = false
is_signature expected (some sig) = same_bytes sig expected

unfoldable pub verify_github_signature : Signing → List ℕ → String → String → Bool
verify_github_signature signing payload signature secret =
    starts_with signature "sha256="
    && is_signature (signing.hmac secret payload)
        (signing.from_hex (trim_prefix signature "sha256="))

-- GitHubWebhook: its two handlers take the body.
unfoldable pub github_webhook :
    Signing
    → CodeReviewConfig
    → (pull_request issue_comment : List ℕ → S Response) → (event signature : String)
    → Option (List ℕ)
    → S Response
github_webhook signing cfg pull_request issue_comment event signature none =
    if cfg.github_secret =s ""
    then send_reply 503 (message "GitHub webhook secret not configured")
    else send_reply 400 (message "failed to read request body")
github_webhook signing cfg pull_request issue_comment event signature (some body) =
    if cfg.github_secret =s ""
    then send_reply 503 (message "GitHub webhook secret not configured")
    else if not (verify_github_signature signing body signature cfg.github_secret)
    then send_reply 401 (message "invalid signature")
    else if event =s "pull_request"
    then pull_request body
    else if event =s "issue_comment"
    then issue_comment body
    else ignored ("event " <> event <> " not handled")

-- GitLabWebhook, whose secret is a token.
unfoldable pub gitlab_webhook :
    CodeReviewConfig
    → (merge_request note : List ℕ → S Response) → (event token : String) → Option (List ℕ)
    → S Response
gitlab_webhook cfg merge_request note event token body =
    if cfg.gitlab_secret =s ""
    then send_reply 503 (message "GitLab webhook secret not configured")
    else if not (token =s cfg.gitlab_secret)
    then send_reply 401 (message "invalid token")
    else elim body [
      | none ↦ send_reply 400 (message "failed to read request body")
      | some b ↦
          if event =s "Merge Request Hook"
          then merge_request b
          else if event =s "Note Hook"
          then note b
          else ignored ("event " <> event <> " not handled")
    ]
