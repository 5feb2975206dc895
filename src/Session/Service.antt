-- ===== src/Session/Service.antt =====
-- internal/session/service.go: the operations of the session service on Redis, with the writes
-- that SQLite gets behind them. Logging is left out. `now` is the clock of the World, which stands
-- still during an operation.
use codeforge.Prelude.{
  ℕ, String, ◌||◌, Option, none, some, List, [], ◌∷◌, if◌then◌else◌, ◌=s◌, ◌<>◌, option_or,
}
use codeforge.Apperror.{validation}
use codeforge.Session.Status.{pending, other}
use codeforge.Session.Model.{Config, Session, marshal_config}
use codeforge.Session.World.{Hash, empty_hash, Result, ok, err}

-- internal/crypto as the service uses it: Encrypt takes its random nonce, and fails without one.
-- The client of this interface is the service; NewService of internal/crypto gives it.
pub record Cipher : Type 0 where
  pub encrypt : String → String → Option String
  pub decrypt : String → Option String

-- What NewService is told, but for the names of the keys and the life of a result.
pub record Settings : Type 0 where
  pub state_ttl : ℕ

pub record CreateSessionRequest : Type 0 where
  pub repo_url : String
  pub provider_key : String
  pub access_token : String
  pub prompt : String
  pub session_type : String
  pub callback_url : String
  pub config : Option Config
  pub workflow_run_id : String
  pub metadata : List (String × String)
  pub tenant_id : String

-- What Create draws at random: the id of `uuid.New` and the nonces of two encryptions.
pub record Draws : Type 0 where
  pub id : String
  pub token_nonce : String
  pub key_nonce : String

abbrev pub non_empty : String → Option String
non_empty s = if s =s "" then none else some s

abbrev pub text_of : Option String → String
text_of v = option_or v ""

abbrev pub map_config : Option Config → Option Config
map_config none = none
map_config (some c) = some (marshal_config c)

abbrev pub non_empty_metadata : List (String × String) → Option (List (String × String))
non_empty_metadata [] = none
non_empty_metadata (x ∷ xs) = some (x ∷ xs)

unfoldable pub session_to_hash : Session → Hash
unfolding marshal_config
session_to_hash t = record empty_hash {
  id = some t.id;
  status = some t.status;
  repo_url = some t.repo_url;
  prompt = some t.prompt;
  session_type = some t.session_type;
  iteration = some t.iteration;
  created_at = some t.created_at;
  updated_at = some t.created_at;
  provider_key = non_empty t.provider_key;
  callback_url = non_empty t.callback_url;
  config = map_config t.config;
  workflow_run_id = non_empty t.workflow_run_id;
  tenant_id = non_empty t.tenant_id;
  trace_id = non_empty t.trace_id;
  review_cli = non_empty t.review_cli;
  review_model = non_empty t.review_model;
  metadata = non_empty_metadata t.metadata;
}

-- An absent field reads as the zero value of its type.
unfoldable pub hash_to_session : Hash → Session
hash_to_session h = record {
  id = text_of h.id;
  status = option_or h.status (other "");
  repo_url = text_of h.repo_url;
  provider_key = text_of h.provider_key;
  access_token = "";
  prompt = text_of h.prompt;
  session_type = text_of h.session_type;
  callback_url = text_of h.callback_url;
  config = h.config;
  result = "";
  error = text_of h.error;
  changes_summary = h.changes_summary;
  usage = h.usage;
  review_result = h.review_result;
  iteration = option_or h.iteration 0;
  current_prompt = text_of h.current_prompt;
  iterations = [];
  branch = text_of h.branch;
  pr_number = option_or h.pr_number 0;
  pr_url = text_of h.pr_url;
  review_cli = text_of h.review_cli;
  review_model = text_of h.review_model;
  metadata = option_or h.metadata [];
  workflow_run_id = text_of h.workflow_run_id;
  tenant_id = text_of h.tenant_id;
  trace_id = text_of h.trace_id;
  created_at = option_or h.created_at 0;
  started_at = h.started_at;
  finished_at = h.finished_at;
}

abbrev review_prompt : String
review_prompt = "Review this repository for code quality, security, and architecture."

abbrev pr_review_prompt : String
pr_review_prompt = "Review this pull request."

abbrev pub task_type : String → String
task_type t = if t =s "" then "code" else t

-- The prompt that Create stores, or its refusal.
unfoldable pub effective_prompt : String → String → Result String
effective_prompt kind prompt =
    if prompt =s ""
    then (if kind =s "code" || kind =s "plan"
        then err (validation "prompt is required for code and plan sessions")
        else if kind =s "review"
        then ok review_prompt
        else if kind =s "pr_review"
        then ok pr_review_prompt
        else ok prompt)
    else if kind =s "review"
    then ok (review_prompt <> "\n" <> prompt)
    else if kind =s "pr_review"
    then ok (pr_review_prompt <> "\n" <> prompt)
    else ok prompt

abbrev pub new_session : CreateSessionRequest → String → String → ℕ → Session
new_session req prompt id now = record {
  id = id;
  status = pending;
  repo_url = req.repo_url;
  provider_key = req.provider_key;
  access_token = req.access_token;
  prompt = prompt;
  session_type = task_type req.session_type;
  callback_url = req.callback_url;
  config = req.config;
  result = "";
  error = "";
  changes_summary = none;
  usage = none;
  review_result = none;
  iteration = 1;
  current_prompt = "";
  iterations = [];
  branch = "";
  pr_number = 0;
  pr_url = "";
  review_cli = "";
  review_model = "";
  metadata = req.metadata;
  workflow_run_id = req.workflow_run_id;
  tenant_id = req.tenant_id;
  trace_id = "";
  created_at = now;
  started_at = none;
  finished_at = none;
}
