-- ===== src/Server/Sessions/Handlers.antt =====
-- internal/server/handlers/sessions.go: the handlers behind the routes of sessions, and the
-- middleware that guards them.
use codeforge.Session.Listing.{ListOptions, Summary, list_sessions}
use codeforge.Prelude.{
  ℕ, String, Bool, true, ◌||◌, ◌&&◌, not, Option, none, some, List, [], ◌∷◌, if◌then◌else◌, ◌=s◌,
  ◌<>◌, contains,
}
use codeforge.Prelude.Int.{ℤ, pos, leb_ℤ}
use codeforge.Session.Status.{
  Status, pending, running, cloning, reviewing, canceled, is_status, text,
}
use codeforge.Session.Model.{Config}
use codeforge.Session.World.{Result}
use codeforge.Session.Service.{Settings, CreateSessionRequest, Draws}
use codeforge.Session.Creating.{create}
use codeforge.Session.Loading.{get_session}
use codeforge.Session.Operations.{update_status, instruct, start_review_async}
use codeforge.Tenant.{Tenant}
use codeforge.Server.Http.{
  Handler, Response, Body, message, validation_error, of_session, done, ◌>>=◌, ◌>>◌, give, respond,
  refuse_if, call, or_error, or_refuse,
}
use codeforge.Server.Sessions.{SessionHandler, is_known_cli, for_tenant}

-- The decoded body of a request.
abbrev pub or_bad_json : {A : Type 0} → Option A → Handler A
or_bad_json none = respond 400 (message "invalid JSON body")
or_bad_json (some a) = give a

abbrev pub check_fields : List (String × String) → Handler (Unit {0})
check_fields [] = give tt
check_fields (f ∷ fs) = respond 400 (validation_error (f ∷ fs))

-- internal/prompt/prompt.go: the names of the session types.
abbrev pub session_types : List String
session_types = "code" ∷ "plan" ∷ "review" ∷ "pr_review" ∷ []

abbrev pub lacks_pr_number : Option Config → Bool
lacks_pr_number none = true
lacks_pr_number (some c) = leb_ℤ c.pr_number (pos 0)

abbrev pub check_cli : SessionHandler → String → Handler (Unit {0})
check_cli env cli =
    refuse_if (not (cli =s "") && not (is_known_cli env.registry cli)) 400
      (validation_error (("cli", "unknown CLI: " <> cli) ∷ []))

abbrev pub config_cli : Option Config → String
config_cli none = ""
config_cli (some c) = c.cli

abbrev pub check_type : CreateSessionRequest → Handler (Unit {0})
check_type req =
    refuse_if (not (req.session_type =s "") && not (contains session_types req.session_type)) 400
      (validation_error (("session_type", "unknown session type: " <> req.session_type) ∷ []))

abbrev pub check_pr_number : CreateSessionRequest → Handler (Unit {0})
check_pr_number req =
    refuse_if (req.session_type =s "pr_review" && lacks_pr_number req.config) 400
      (validation_error (("pr_number", "pr_number is required for pr_review sessions") ∷ []))

-- The checks of Create on a request.
unfoldable pub check_request : SessionHandler → CreateSessionRequest → Handler (Unit {0})
check_request env req = do
  check_fields (env.invalid_fields req)
  check_type req
  check_pr_number req
  check_cli env (config_cli req.config)

-- Create.
unfoldable pub create_session :
    SessionHandler → Option Tenant → Option CreateSessionRequest → Draws → Handler Response
create_session env tenant decoded draws = do
  req ← or_bad_json decoded
  check_request env req
  admitted ← for_tenant env tenant req
  answer ← call (create env.cipher admitted draws)
  t ← or_error answer
  give (record { status = 201; body = of_session t })

abbrev pub no_session : Body
no_session = message "session not found"

-- OwnershipMiddleware around the handler of a route.
unfoldable pub ownership :
    {A : Type 0} → SessionHandler → Option Tenant → String → Handler A → Handler A
ownership env none k next = next
ownership env (some tnt) k next = if k =s "" then next else (do
  answer ← call (get_session env.cipher k)
  t ← or_error answer
  refuse_if (not (t.tenant_id =s tnt.id)) 404 no_session
  next)

abbrev pub check_id : String → Handler (Unit {0})
check_id k = refuse_if (k =s "") 400 (message "session ID is required")

-- Get, without the iterations that it loads on demand.
unfoldable pub show_session : SessionHandler → String → Handler Response
show_session env k = do
  check_id k
  answer ← call (get_session env.cipher k)
  t ← or_error answer
  give (record { status = 200; body = of_session t })

-- The tags of Instruct's prompt: required, and at most 102400 characters, which `is_long` counts.
unfoldable pub instruct_session :
    SessionHandler → (String → Bool) → String → Option String → Handler Response
instruct_session env is_long k decoded = do
  check_id k
  prompt ← or_bad_json decoded
  refuse_if (prompt =s "" || is_long prompt) 400
      (message "prompt is required and must be under 100KB")
  answer ← call (instruct env.cipher k prompt)
  t ← or_error answer
  give (record { status = 200; body = of_session t })

abbrev pub is_cancelable : Status → Bool
is_cancelable s = is_status s running || is_status s cloning || is_status s reviewing

abbrev pub canceled_reply : String → Response
canceled_reply k = record { status = 200; body = done k "canceled" }

-- Cancel of a session that is queued only: its stale entry in the queue is skipped by the pool.
abbrev pub cancel_pending : Settings → String → Handler Response
cancel_pending cfg k = do
  answer ← call (update_status cfg k canceled)
  or_error answer
  give (canceled_reply k)

-- `is_running` says whether the pool runs the session in this process.
abbrev pub cancel_running : (String → Bool) → String → Status → Handler Response
cancel_running is_running k s = do
  refuse_if (not (is_cancelable s)) 409
      (message ("session is not running (status: " <> text s <> ")"))
  refuse_if (not (is_running k)) 409 (message "session is not currently running")
  give (record { status = 200; body = done k "canceling" })

unfoldable pub cancel_session :
    SessionHandler → Settings → (String → Bool) → String → Handler Response
cancel_session env cfg is_running k = do
  check_id k
  answer ← call (get_session env.cipher k)
  t ← or_error answer
  if is_status t.status pending then cancel_pending cfg k else cancel_running is_running k t.status

-- Review; `raced` is the conflict of StartReviewAsync's transaction.
unfoldable pub review_session :
    SessionHandler → Bool → String → Option (String × String) → Handler Response
review_session env raced k decoded = do
  check_id k
  req ← or_bad_json decoded
  check_cli env req.0
  answer ← call (start_review_async env.cipher raced k req.0 req.1)
  t ← or_error answer
  give (record { status = 202; body = of_session t })

-- List; `limit` and `offset` are 0 where strconv.Atoi refuses them.
abbrev pub list_options : Option Tenant → String → ℤ → ℤ → ListOptions
list_options none status limit offset = record {
  status = status;
  tenant_id = "";
  limit = limit;
  offset = offset;
}
list_options (some tnt) status limit offset = record {
  status = status;
  tenant_id = tnt.id;
  limit = limit;
  offset = offset;
}

unfoldable pub list_handler :
    Result (List String) → Option Tenant → String → ℤ → ℤ → Handler (List Summary × ℕ)
list_handler scanned tenant status limit offset = do
  answer ← call (list_sessions (list_options tenant status limit offset) scanned)
  or_refuse 500 (message "failed to list sessions") answer
