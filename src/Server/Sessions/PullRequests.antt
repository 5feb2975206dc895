-- ===== src/Server/Sessions/PullRequests.antt =====
-- internal/server/handlers/sessions.go: the routes of pull requests, whose statuses are found in the
-- texts of errors, and the posting of a review.
--
-- Decoding, git.ParseRepoURL and the posting are parameters; a body that is left out is a request of
-- empty fields.
use codeforge.Prelude.{
  ℕ, ◌≡◌, refl, String, Bool, true, false, ◌&&◌, ◌||◌, not, Option, none, some, if◌then◌else◌, ◌=s◌,
  ◌<>◌,
}
use codeforge.Prelude.Bytes.{codes, has_infix}
use codeforge.Prelude.Int.{ℤ, pos, leb_ℤ}
use codeforge.Apperror.{Error, opaque, error_text}
use codeforge.Session.Model.{Config, ReviewResult, Session}
use codeforge.Session.Status.{
  Status, pending, cloning, running, completed, failed, awaiting_instruction, creating_pr,
  pr_created, reviewing, canceled, other, text, is_status,
}
use codeforge.Session.World.{World, Result, ok, err}
use codeforge.Session.Service.{Settings}
use codeforge.Session.Loading.{get_session}
use codeforge.Session.PrPlan.{Outside, CreatePrRequest, CreatePrResponse, PushToPrResponse}
use codeforge.Session.PrService.{
  create_pr, create_pr_loaded, push_to_pr, push_to_pr_loaded, get_pr_status,
}
use codeforge.Keys.{Full}
use codeforge.Keys.Environment.{Registry, env_resolve_full_by_name}
use codeforge.Server.Http.{
  Handler, Body, message, ◌>>=◌, ◌>>◌, give, respond, refuse_if, call, or_error,
}
use codeforge.Server.Sessions.{SessionHandler}
use codeforge.Server.Sessions.Handlers.{check_id, or_bad_json}

abbrev pub tells : Error → String → Bool
tells e part = has_infix (codes (error_text e)) (codes part)

abbrev pub answer_text : {A : Type 0} → ℕ → Error → Handler A
answer_text s e = respond s (message (error_text e))

abbrev pub nothing_new : Body
nothing_new = message "No new changes to create PR for. Run another instruction first."

abbrev pub refuse_create : {A : Type 0} → Error → Handler A
refuse_create e =
    if tells e "not found"
    then answer_text 404 e
    else if tells e "must be in completed or pr_created status"
    then answer_text 409 e
    else if tells e "no changes" || tells e "nothing to commit"
    then respond 400 nothing_new
    else if tells e "no changes to create PR"
    then answer_text 400 e
    else if tells e "not supported"
    then answer_text 400 e
    else answer_text 500 e

abbrev pub refuse_push : {A : Type 0} → Error → Handler A
refuse_push e =
    if tells e "not found"
    then answer_text 404 e
    else if tells e "must be in completed or pr_created status"
    then answer_text 409 e
    else if tells e "no new changes to push"
    then answer_text 400 e
    else if tells e "no existing PR"
    then answer_text 400 e
    else answer_text 500 e

abbrev pub refuse_status : {A : Type 0} → Error → Handler A
refuse_status e =
    if tells e "not found"
    then answer_text 404 e
    else if tells e "has no PR"
    then answer_text 400 e
    else answer_text 502 e

abbrev pub or_told : {A : Type 0} → (Error → Handler A) → Result A → Handler A
or_told refuse (ok a) = give a
or_told refuse (err e) = refuse e

-- CreatePR, PushToPR and GetPRStatus.
unfoldable pub create_pr_handler :
    SessionHandler → Outside → Settings → String → Option CreatePrRequest → Handler CreatePrResponse
unfolding create_pr
create_pr_handler env o cfg k decoded = do
  check_id k
  req ← or_bad_json decoded
  answer ← call (create_pr o cfg env.cipher k req)
  or_told refuse_create answer

unfoldable pub push_to_pr_handler :
    SessionHandler → Outside → Settings → String → Handler PushToPrResponse
unfolding push_to_pr
push_to_pr_handler env o cfg k = do
  check_id k
  answer ← call (push_to_pr o cfg env.cipher k)
  or_told refuse_push answer

unfoldable pub get_pr_status_handler : SessionHandler → Outside → Settings → String → Handler String
unfolding get_pr_status
get_pr_status_handler env o cfg k = do
  check_id k
  answer ← call (get_pr_status o cfg env.cipher k)
  or_told refuse_status answer

-- PostReviewComments: the number of the request, of the configuration or of the session.
abbrev pub if_positive : ℤ → ℤ → ℤ
if_positive a b = if leb_ℤ a (pos 0) then b else a

abbrev pub config_number : Option Config → ℤ
config_number none = pos 0
config_number (some c) = c.pr_number

abbrev pub review_number : ℤ → Session → ℤ
review_number asked t = if_positive (if_positive asked (config_number t.config)) (pos t.pr_number)

abbrev pub full_token : Result Full → Handler String
full_token (ok (token, _, _)) = give token
full_token (err e) = respond 400 (message ("failed to resolve provider key: " <> error_text e))

abbrev pub post_token : Option Registry → Session → Handler String
post_token none t = give t.access_token
post_token (some reg) t =
    if t.access_token =s "" && not (t.provider_key =s "")
    then call (env_resolve_full_by_name reg t.provider_key) >>= full_token
    else give t.access_token

abbrev pub or_no_review : Option ReviewResult → Handler ReviewResult
or_no_review none = respond 400 (message "session has no review result — run a review first")
or_no_review (some r) = give r

abbrev pub or_failed : {A : Type 0} → ℕ → String → Result A → Handler A
or_failed s what (ok a) = give a
or_failed s what (err e) = respond s (message (what <> error_text e))

unfoldable pub post_review_comments :
    {R : Type 0}
    → SessionHandler
    → Option Registry
    → (String → Result R)
    → (R → String → ℤ → ReviewResult → Result (String × ℕ))
    → String
    → Option ℤ
    → Handler (String × ℕ × ℤ)
unfolding env_resolve_full_by_name
post_review_comments env keys parse post k decoded = do
  check_id k
  asked ← or_bad_json decoded
  answer ← call (get_session env.cipher k)
  t ← or_error answer
  r ← or_no_review t.review_result
  refuse_if (leb_ℤ (review_number asked t) (pos 0)) 400
      (message "pr_number is required (not set on session and not provided in request)")
  token ← post_token keys t
  refuse_if (token =s "") 400 (message "no access token available — set provider_key on session")
  repo ← or_failed 400 "failed to parse repo URL: " (parse t.repo_url)
  (url, n) ←
      or_failed 500 "failed to post review comments: " (post repo token (review_number asked t) r)
  give (url, n, review_number asked t)

-- The refusal of a status.
abbrev pub refusal_of : Status → Error
refusal_of s = opaque ("session must be in completed or pr_created status, currently: " <> text s)

abbrev pub IsConflict : Error → Type 0
IsConflict e =
    (tells e "not found" ≡ false) × (tells e "must be in completed or pr_created status" ≡ true)

-- One of the ten constants.
abbrev pub IsKnown : Status → Type 0
IsKnown (other _) = ⊥
IsKnown _ = Unit

refusal_of-IsConflict : (s : Status) → IsKnown s → IsConflict (refusal_of s)
unfolding error_text
refusal_of-IsConflict pending h = (refl, refl)
refusal_of-IsConflict cloning h = (refl, refl)
refusal_of-IsConflict running h = (refl, refl)
refusal_of-IsConflict completed h = (refl, refl)
refusal_of-IsConflict failed h = (refl, refl)
refusal_of-IsConflict awaiting_instruction h = (refl, refl)
refusal_of-IsConflict creating_pr h = (refl, refl)
refusal_of-IsConflict pr_created h = (refl, refl)
refusal_of-IsConflict reviewing h = (refl, refl)
refusal_of-IsConflict canceled h = (refl, refl)
refusal_of-IsConflict (other _) h = elim h [ ]

-- CreatePR and PushToPR of a session that Get finds in another of the known statuses than completed
-- and pr_created are both answered 409 with that status, and change nothing behind Get.
pub create_pr_handler_refused :
    (env : SessionHandler) (o : Outside) (cfg : Settings) (k : String) (req : CreatePrRequest)
    (t : Session) (w w' : World)
    → (k =s "") ≡ false
    → get_session env.cipher k w ≡ (ok t, w')
    → IsKnown t.status
    → (is_status t.status completed || is_status t.status pr_created) ≡ false
    → (create_pr_handler env o cfg k (some req) w ≡ answer_text 409 (refusal_of t.status) w')
      × (push_to_pr_handler env o cfg k w ≡ answer_text 409 (refusal_of t.status) w')
unfolding create_pr_handler create_pr create_pr_loaded push_to_pr_handler push_to_pr
    push_to_pr_loaded
create_pr_handler_refused env o cfg k req t w w' named found known not_done =
    let (absent, conflicts) = refusal_of-IsConflict t.status known in
    (
      rw named (rw found (rw not_done (rw absent (rw conflicts refl)))),
      rw named (rw found (rw not_done (rw absent (rw conflicts refl)))),
    )
