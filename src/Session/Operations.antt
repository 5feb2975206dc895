-- ===== src/Session/Operations.antt =====
-- internal/session/service.go: the operations on a stored session, after Create and Get.
pub mod Reads
pub mod Safety
pub mod Effects
pub mod Expired
pub mod Creation
pub mod Stored
pub mod Moves
use codeforge.Prelude.{
  ℕ, ◌+◌, ◌*◌, String, Bool, true, false, Option, none, some, List, [], ◌∷◌, ◌++◌, if◌then◌else◌,
  ◌=s◌, ◌<>◌, ltb, option_or, update,
}
use codeforge.Apperror.{Error, opaque, wrapped, not_found, validation, conflict}
use codeforge.Session.Status.{
  Status, cloning, running, completed, failed, awaiting_instruction, reviewing, creating_pr,
  pr_created, canceled, text, is_status, validate_transition, is_finished, is_idle,
}
use codeforge.Session.Model.{
  Config, ChangesSummary, UsageInfo, ReviewResult, Iteration, Session, zero_config, marshal_config,
}
use codeforge.Session.World.{
  Hash, Entry, World, Row, M, Result, ok, err, ◌>>=◌, ◌>>◌, pure, fail, get, modify, attempt,
  require, lift, reach, lost, status_at, hset, expire, persist, enqueue, persist_to_sqlite,
}
use codeforge.Session.Sqlite
use codeforge.Session.Service.{
  Cipher, Settings, CreateSessionRequest, Draws, session_to_hash, hash_to_session, task_type,
  effective_prompt, new_session,
}
use codeforge.Session.Creating.{
  add_to_index, api_key, create, encrypt_error, encrypted, overlay, seal, store_new,
}
use codeforge.Session.Loading.{
  decrypted, get_entry, get_row, get_session, load, missing, read_status, revealed, row_or_missing,
  status_or_missing, with_key, with_result, with_token,
}

abbrev pub starts : Status → Bool
starts cloning = true
starts running = true
starts _ = false

abbrev pub finishes : Status → Bool
finishes completed = true
finishes failed = true
finishes pr_created = true
finishes canceled = true
finishes _ = false

abbrev pub status_fields : Status → ℕ → Hash → Hash
status_fields s now h = record h {
  status = some s;
  updated_at = some now;
  started_at = if starts s then some now else h.started_at;
  finished_at = if finishes s then some now else h.finished_at;
}

abbrev pub hour : ℕ
hour = 3_600_000_000_000

unfoldable pub idle_ttl : ℕ → ℕ
idle_ttl ttl = if ltb (ttl * 7) (24 * hour) then 7 * 24 * hour else ttl * 7

abbrev pub expire_for : Settings → Status → String → World → World
expire_for cfg s k w =
    if is_finished s
    then expire k cfg.state_ttl w
    else if is_idle s
    then expire k (idle_ttl cfg.state_ttl) w
    else w

abbrev pub when : Bool → ℕ → Option ℕ
when b t = if b then some t else none

-- UpdateStatus.
unfoldable pub update_status : Settings → String → Status → M (Unit {0})
unfolding reach persist_to_sqlite read_status
update_status cfg k s = do
  current ← read_status (wrapped "getting session status" lost) k
  require (validate_transition current s)
  reach (wrapped "updating session status" lost)
  w ← get
  modify λ w. expire_for cfg s k (hset k (status_fields s w.now) w)
  persist_to_sqlite
      (Sqlite.update_status w.now k s (when (starts s) w.now) (when (finishes s) w.now))

abbrev pub result_fields : Option ChangesSummary → Option UsageInfo → Hash → Hash
result_fields none none h = h
result_fields (some c) none h = record h { changes_summary = some c }
result_fields none (some u) h = record h { usage = some u }
result_fields (some c) (some u) h = record h { changes_summary = some c; usage = some u }

abbrev pub hset_result : String → Option ChangesSummary → Option UsageInfo → World → World
hset_result k none none w = w
hset_result k c u w = hset k (result_fields c u) w

-- SetResult.
unfoldable pub set_result :
    String → String → Option ChangesSummary → Option UsageInfo → M (Unit {0})
unfolding reach persist_to_sqlite
set_result k result changes usage = do
  reach (wrapped "setting session result" lost)
  w ← get
  modify λ w. record w { result = update w.result k (some result) }
  modify (hset_result k changes usage)
  persist_to_sqlite (Sqlite.update_result w.now k result changes usage)

-- The `switch` of Instruct and, with `verb`, of StartReviewAsync; nil lets the request through.
abbrev pub instruct_refusal : Status → Option Error
instruct_refusal completed = none
instruct_refusal awaiting_instruction = none
instruct_refusal pr_created = none
instruct_refusal running = some (conflict "session is currently running, cannot instruct")
instruct_refusal cloning = some (conflict "session is currently cloning, cannot instruct")
instruct_refusal creating_pr = some (conflict "session is currently creating_pr, cannot instruct")
instruct_refusal failed = some (validation "session has failed, create a new session instead")
instruct_refusal s =
    some (conflict ("session in status " <> text s <> " cannot accept instructions"))

abbrev pub transition_refusal : Status → Option Error
transition_refusal s =
    if is_status s completed
    then validate_transition s awaiting_instruction
    else if is_status s pr_created
    then validate_transition s awaiting_instruction
    else none

abbrev pub instruct_fields : String → ℕ → ℕ → Hash → Hash
instruct_fields prompt iteration now h = record h {
  status = some awaiting_instruction;
  current_prompt = some prompt;
  iteration = some iteration;
  updated_at = some now;
  error = some "";
}

abbrev pub instructed : String → Session → Session
instructed prompt t = record t {
  status = awaiting_instruction;
  current_prompt = prompt;
  iteration = t.iteration + 1;
  error = "";
}

-- Instruct, behind the session that it loads.
unfoldable pub instruct_loaded : String → String → Session → M Session
unfolding reach persist_to_sqlite
instruct_loaded k prompt t = do
  require (instruct_refusal t.status)
  require (transition_refusal t.status)
  reach (wrapped "instructing session" lost)
  w ← get
  modify λ w. enqueue k (persist k (hset k (instruct_fields prompt (t.iteration + 1) w.now) w))
  persist_to_sqlite (Sqlite.save w.now (instructed prompt t))
  pure (instructed prompt t)

-- Instruct.
unfoldable pub instruct : Cipher → String → String → M Session
instruct cipher k prompt = do t ← get_session cipher k; instruct_loaded k prompt t

abbrev pub review_refusal : Status → Option Error
review_refusal completed = none
review_refusal awaiting_instruction = none
review_refusal pr_created = none
review_refusal running = some (conflict "session is currently running, cannot start review")
review_refusal cloning = some (conflict "session is currently cloning, cannot start review")
review_refusal creating_pr = some (conflict "session is currently creating_pr, cannot start review")
review_refusal reviewing = some (conflict "session is currently reviewing, cannot start review")
review_refusal failed = some (validation "session has failed, create a new session instead")
review_refusal s = some (conflict ("session in status " <> text s <> " cannot be reviewed"))

abbrev pub review_fields : String → String → ℕ → Hash → Hash
review_fields cli model now h = record h {
  status = some reviewing;
  updated_at = some now;
  review_cli = some cli;
  review_model = some model;
  error = some "";
}

-- EXEC of a watched transaction fails with TxFailedErr where the key was written since WATCH, and
-- the transaction does nothing.
abbrev pub tx_conflict : Bool → M (Unit {0})
tx_conflict true = fail (conflict "session state changed concurrently, retry the request")
tx_conflict false = pure tt

-- StartReviewAsync up to its transaction; `raced` says whether another client wrote the hash in
-- between.
unfoldable pub enqueue_review : Bool → String → String → String → M (Unit {0})
unfolding reach read_status
enqueue_review raced k cli model = do
  reach lost
  current ← read_status (wrapped "reading session status" lost) k
  require (review_refusal current)
  reach lost
  tx_conflict raced
  w ← get
  modify λ w. enqueue k (persist k (hset k (review_fields cli model w.now) w))

-- StartReviewAsync.
unfoldable pub start_review_async : Cipher → Bool → String → String → String → M Session
start_review_async cipher raced k cli model = do
  enqueue_review raced k cli model
  t ← get_session cipher k
  w ← get
  persist_to_sqlite (Sqlite.update_status w.now k reviewing none none)
  pure t

-- SetReviewResult.
unfoldable pub set_review_result : String → Option ReviewResult → M (Unit {0})
unfolding reach persist_to_sqlite
set_review_result k r = do
  reach (wrapped "setting review result" lost)
  w ← get
  modify λ w. hset k (λ h. record h { review_result = r }) w
  persist_to_sqlite (Sqlite.update_review_result w.now k r)

-- CompleteReview.
unfoldable pub complete_review : Settings → String → Option ReviewResult → M (Unit {0})
unfolding set_review_result update_status
complete_review cfg k r = do set_review_result k r; update_status cfg k completed

-- UpdateConfig.
unfoldable pub update_config : String → Option Config → M (Unit {0})
unfolding reach marshal_config
update_config k none = pure tt
update_config k (some c) = do
  reach (wrapped "updating session config" lost)
  modify λ w. hset k (λ h. record h { config = some (marshal_config c) }) w

-- SetError.
unfoldable pub set_error : String → String → M (Unit {0})
unfolding reach
set_error k message = do
  reach lost
  w ← get
  modify λ w. hset k (λ h. record h { error = some message }) w
  persist_to_sqlite (Sqlite.update_error w.now k message)

-- SaveIteration, on the list in Redis; the table `session_iterations` is left out.
unfoldable pub save_iteration : String → Iteration → M (Unit {0})
unfolding reach
save_iteration k it = do
  reach lost
  modify λ w. record w { iterations = update w.iterations k (w.iterations k ++ it ∷ []) }

-- ListStuck and CountActiveByTenant, which are empty without SQLite.
abbrev pub stuck_rows : ℕ → Option (List Row) → M (List String)
stuck_rows before none = pure []
stuck_rows before (some rows) = do
  reach (wrapped "listing stuck sessions" lost)
  pure (Sqlite.list_stuck before rows)

unfoldable pub list_stuck : ℕ → M (List String)
unfolding reach
list_stuck before = do w ← get; stuck_rows before w.sqlite

abbrev pub active_rows : String → Option (List Row) → M ℕ
active_rows k none = pure 0
active_rows k (some rows) = do
  reach (wrapped "counting active sessions" lost)
  pure (Sqlite.count_active_by_tenant k rows)

unfoldable pub count_active_by_tenant : String → M ℕ
unfolding reach
count_active_by_tenant k = do w ← get; active_rows k w.sqlite
