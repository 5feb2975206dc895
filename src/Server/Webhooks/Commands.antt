-- ===== src/Server/Webhooks/Commands.antt =====
-- internal/server/handlers/webhook_receiver.go: the commands in comments, `/review`, `/fix-cr` and
-- `/fix`.
--
-- A comment is its bytes. No letter of the commands is the lower case of a letter outside ASCII.
use codeforge.Prelude.{
  String, Bool, true, ◌||◌, Option, none, some, List, [], ◌∷◌, if◌then◌else◌, ◌=s◌, ◌<>◌, ◌==◌,
  option_or, drop, length,
}
use codeforge.Prelude.Int.{ℤ, pos_part}
use codeforge.Prelude.Decimal.{decimal}
use codeforge.Prelude.Bytes.{Bytes, codes, trim_space, split_lines, has_prefix, same, lower}
use codeforge.Apperror.{not_found, wrapped}
use codeforge.Session.Model.{Config, Session, zero_config}
use codeforge.Session.World.{
  Row, M, Result, ok, err, ◌>>=◌, ◌>>◌, pure, fail, get, attempt, reach, lost,
}
use codeforge.Session.Service.{Cipher, CreateSessionRequest, Draws}
use codeforge.Session.Loading.{get_session}
use codeforge.Session.Operations.{instruct, start_review_async, update_config}
use codeforge.Session.Creating.{create}
use codeforge.Session.Sqlite
use codeforge.Server.Http.{Response, message, done}
use codeforge.Server.Webhooks as Webhooks
use codeforge.Server.Webhooks.{
  CodeReviewConfig, Site, S, send_reply, ignored, call, cli_or_default, request_of, created_reply,
  first_set,
}

-- strings.SplitN(line, " ", 2): what stands before the first space, and behind it.
abbrev pub word : Bytes → Bytes
word [] = []
word (c ∷ cs) = let rest = word cs in if c == 32 then [] else c ∷ rest

abbrev pub behind_word : Bytes → Bytes
behind_word [] = []
behind_word (c ∷ cs) = let rest = behind_word cs in if c == 32 then cs else rest

pub data Command : Type 0 where
  review : Command
  fix : Command

-- `fix-cr` and `fix` are handled alike.
abbrev pub command_of : Bytes → Option Command
command_of w =
    if same w (codes "review")
    then some review
    else if same w (codes "fix-cr") || same w (codes "fix")
    then some fix
    else none

abbrev pub without_codeforge : Bytes → Bytes
without_codeforge line =
    if has_prefix line (codes "/codeforge ")
    then b'/' ∷ trim_space (drop (length (codes "/codeforge ")) line)
    else line

abbrev pub with_argument : Bytes → Option Command → Option (Command × Bytes)
with_argument argument none = none
with_argument argument (some c) = some (c, argument)

-- The command of a trimmed line, behind its `/`.
abbrev pub slash_command : Bytes → Option (Command × Bytes)
slash_command [] = none
slash_command (c ∷ line) =
    if c == b'/'
    then with_argument (trim_space (behind_word line)) (command_of (lower (word line)))
    else none

unfoldable pub line_command : Bytes → Option (Command × Bytes)
unfolding trim_space
line_command line = slash_command (without_codeforge (trim_space line))

abbrev pub first_command : List Bytes → Option (Command × Bytes)
first_command [] = none
first_command (l ∷ ls) = elim (line_command l) [ none ↦ first_command ls | some c ↦ some c ]

unfoldable pub parse_forge_command : Bytes → Option (Command × Bytes)
unfolding line_command
parse_forge_command body = first_command (split_lines body)

abbrev pub fresh_or : Session → Result Session → Session
fresh_or t (ok fresh) = fresh
fresh_or t (err e) = t

abbrev pub no_session_for : {A : Type 0} → String → ℤ → M A
no_session_for url number =
    fail (not_found ("no session found for repo " <> url <> " PR #" <> decimal number))

abbrev pub fresh_session : Cipher → String → ℤ → Option Session → M Session
fresh_session cipher url number none = no_session_for url number
fresh_session cipher url number (some t) = do
  answer ← attempt (get_session cipher t.id)
  pure (fresh_or t answer)

abbrev pub find_in : Cipher → String → ℤ → Option (List Row) → M Session
find_in cipher url number none = no_session_for url number
find_in cipher url number (some rows) = do
  reach (wrapped "finding session by PR" lost)
  fresh_session cipher url number (Sqlite.find_by_pr url (pos_part number) rows)

-- FindByPR of the session service, for the number of a pull request.
unfoldable pub find_by_pr : Cipher → String → ℤ → M Session
unfolding reach
find_by_pr cipher url number = do w ← get; find_in cipher url number w.sqlite

-- What the two forges say of a pull request or a merge request, and in what words.
pub record Place : Type 0 where
  pub repo_url : String
  pub number : ℤ
  pub source_branch : String
  pub target_branch : String
  pub review_prompt : String
  pub fix_prompt : String
  pub shown : String

abbrev pub comment_config : CodeReviewConfig → Place → Config
comment_config cfg p = record zero_config {
  cli = cli_or_default cfg.default_cli;
  source_branch = p.source_branch;
  target_branch = p.target_branch;
  pr_number = p.number;
  output_mode = "post_comments";
  auto_post_review = true;
}

abbrev pub started_reply : String → String → Result Session → S Response
started_reply status failure (err e) = send_reply 500 (message failure)
started_reply status failure (ok t) = send_reply 202 (done status t.id)

abbrev pub comment_request : CodeReviewConfig → Place → CreateSessionRequest
comment_request cfg p =
    request_of p.repo_url cfg.default_key_name p.review_prompt (comment_config cfg p)

-- `/review`: on the session of the pull request, or on a new one.
unfoldable pub review_command :
    Cipher → CodeReviewConfig → Draws → Bool → Place → Result Session → S Response
review_command cipher cfg draws raced p (ok existing) =
    Webhooks.◌>>=◌
      (call (start_review_async cipher raced existing.id (cli_or_default cfg.default_cli) ""))
      (started_reply "review_started" "failed to start review")
review_command cipher cfg draws raced p (err e) =
    Webhooks.◌>>=◌ (call (create cipher (comment_request cfg p) draws))
      (created_reply "review_created")

abbrev pub fix_config : Option Config → Config
fix_config c = record (option_or c zero_config) {
  auto_review_after_fix = true;
  auto_post_review = true;
}

-- `/fix`: a new instruction to the session of the pull request.
unfoldable pub fix_command : Cipher → Place → String → Result Session → S Response
fix_command cipher p argument (err e) =
    send_reply 404 (message ("no session found for " <> p.shown <> " — run /review first"))
fix_command cipher p argument (ok existing) =
    Webhooks.◌>>=◌ (call (update_config existing.id (some (fix_config existing.config)))) λ _.
      Webhooks.◌>>=◌ (call (instruct cipher existing.id (first_set argument p.fix_prompt)))
        (started_reply "fix_started" "failed to start fix")

abbrev pub dispatch :
    Cipher
    → CodeReviewConfig
    → Draws
    → Bool
    → (Bytes → String)
    → Place
    → Command × Bytes
    → Result Session
    → S Response
dispatch cipher cfg draws raced text p (review, argument) found =
    review_command cipher cfg draws raced p found
dispatch cipher cfg draws raced text p (fix, argument) found =
    fix_command cipher p (text argument) found

-- handleGitHubComment and handleGitLabNote from the command on.
unfoldable pub run_command :
    Cipher
    → CodeReviewConfig
    → Draws
    → Bool
    → (Bytes → String)
    → Place
    → Option (Command × Bytes)
    → S Response
unfolding find_by_pr
run_command cipher cfg draws raced text p none = ignored "no forge command found"
run_command cipher cfg draws raced text p (some c) =
    if cfg.default_key_name =s ""
    then send_reply 400 (message "code_review.default_key_name not configured")
    else Webhooks.◌>>=◌ (call (find_by_pr cipher p.repo_url p.number))
        (dispatch cipher cfg draws raced text p c)
