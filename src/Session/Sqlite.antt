-- ===== src/Session/Sqlite.antt =====
-- internal/session/sqlite_store.go: the statements on the table `sessions`.
--
-- `marshalJSON` is given a pointer in an interface, so a nil pointer is stored as the JSON `null`,
-- which is read back as a pointer to a zero value. The columns `tenant_id` and `created_at` are
-- written by an INSERT alone, `review_result_json` by UpdateReviewResult alone; secrets, metadata
-- and the review parameters have no column.
pub mod Rows
pub mod PullRequests
use codeforge.Prelude.{
  ℕ, ◌+◌, String, Bool, false, not, ◌&&◌, ◌||◌, Option, none, some, List, [], ◌∷◌, if◌then◌else◌,
  ◌=s◌, ◌==◌, option_or,
}
use codeforge.Prelude.Int.{ℤ}
use codeforge.Session.Status.{
  Status, running, cloning, completed, failed, pr_created, canceled, is_status,
}
use codeforge.Session.Model.{
  Config, ChangesSummary, UsageInfo, ReviewResult, Session, zero_config, marshal_config,
}
use codeforge.Session.World.{Row}
use codeforge.Session.Rfc3339.{rfc_lt}

abbrev zero_changes : ChangesSummary
zero_changes = record { files_modified = 0; files_created = 0; files_deleted = 0; diff_stats = "" }

abbrev zero_usage : UsageInfo
zero_usage = record { input_tokens = 0; output_tokens = 0; duration_seconds = 0 }

abbrev zero_review : ReviewResult
zero_review = record {
  verdict = "";
  score = ℤ.pos 0;
  summary = "";
  issues = [];
  auto_fixable = false;
  reviewed_by = "";
  duration = 0;
}

-- `marshalJSON` of a pointer, as it is read back.
abbrev column {ℓ} : {A : Type ℓ} → A → Option A → Option A
column zero' p = some (option_or p zero')

abbrev column_config : Option Config → Option Config
column_config none = some zero_config
column_config (some c) = some (marshal_config c)

-- The columns of Save as a session: what a new row holds.
unfoldable pub saved : Session → Session
unfolding marshal_config
saved t = record t {
  access_token = "";
  config = column_config t.config;
  changes_summary = column zero_changes t.changes_summary;
  usage = column zero_usage t.usage;
  review_result = none;
  iterations = [];
  review_cli = "";
  review_model = "";
  metadata = [];
}

-- `ON CONFLICT(id) DO UPDATE SET …` over an old row.
abbrev pub merged : Session → Session → Session
merged old new = record new {
  tenant_id = old.tenant_id;
  created_at = old.created_at;
  review_result = old.review_result;
}

unfoldable pub save : ℕ → Session → List Row → List Row
unfolding saved
save now t [] = record { session = saved t; updated_at = now } ∷ []
save now t (r ∷ rows) =
    if r.session.id =s t.id
    then record { session = merged r.session (saved t); updated_at = now } ∷ rows
    else r ∷ save now t rows

-- `UPDATE sessions SET …, updated_at = now WHERE id = k`.
unfoldable pub update_row : ℕ → String → (Session → Session) → List Row → List Row
update_row now k f [] = []
update_row now k f (r ∷ rows) =
    (if r.session.id =s k then record { session = f r.session; updated_at = now } else r)
    ∷ update_row now k f rows

-- COALESCE(new, old).
abbrev pub coalesce : Option ℕ → Option ℕ → Option ℕ
coalesce none old = old
coalesce (some t) old = some t

abbrev pub update_status : ℕ → String → Status → Option ℕ → Option ℕ → List Row → List Row
update_status now k s started finished = update_row now k λ t. record t {
  status = s;
  started_at = coalesce started t.started_at;
  finished_at = coalesce finished t.finished_at;
}

abbrev pub update_result :
    ℕ → String → String → Option ChangesSummary → Option UsageInfo → List Row → List Row
update_result now k result changes usage = update_row now k λ t. record t {
  result = result;
  changes_summary = column zero_changes changes;
  usage = column zero_usage usage;
}

abbrev pub update_pr : ℕ → String → String → String → ℕ → List Row → List Row
update_pr now k branch url number =
    update_row now k λ t. record t { branch = branch; pr_url = url; pr_number = number }

abbrev pub update_review_result : ℕ → String → Option ReviewResult → List Row → List Row
update_review_result now k r =
    update_row now k λ t. record t { review_result = column zero_review r }

abbrev pub update_error : ℕ → String → String → List Row → List Row
update_error now k message = update_row now k λ t. record t { error = message }

-- `SELECT … WHERE id = k`; none is sql.ErrNoRows.
unfoldable pub find_row : String → List Row → Option Session
find_row k [] = none
find_row k (r ∷ rows) = if r.session.id =s k then some r.session else find_row k rows

-- The statuses that CountActiveByTenant leaves out.
abbrev pub is_settled : Status → Bool
is_settled s =
    is_status s completed || is_status s failed || is_status s pr_created || is_status s canceled

unfoldable pub count_active_by_tenant : String → List Row → ℕ
count_active_by_tenant k [] = 0
count_active_by_tenant k (r ∷ rows) =
    let rest = count_active_by_tenant k rows in
    if r.session.tenant_id =s k && not (is_settled r.session.status) then rest + 1 else rest

-- ListStuckSessions compares the texts of the two times.
unfoldable pub list_stuck : ℕ → List Row → List String
list_stuck before [] = []
list_stuck before (r ∷ rows) =
    let rest = list_stuck before rows in
    if (is_status r.session.status running || is_status r.session.status cloning)
      && rfc_lt r.updated_at before
    then r.session.id ∷ rest
    else rest

-- The row of FindByPR: the latest by the text of `updated_at` among those that fit. It reads no
-- column `tenant_id`.
abbrev fits_pr : String → ℕ → Row → Bool
fits_pr url n r =
    r.session.repo_url =s url && r.session.pr_number == n && not (is_status r.session.status failed)

abbrev later : Row → Option Row → Option Row
later r none = some r
later r (some best) = some (if rfc_lt r.updated_at best.updated_at then best else r)

find_latest : String → ℕ → List Row → Option Row
find_latest url n [] = none
find_latest url n (r ∷ rows) =
    let rest = find_latest url n rows in if fits_pr url n r then later r rest else rest

abbrev without_tenant : Option Row → Option Session
without_tenant none = none
without_tenant (some r) = some (record (r.session) { tenant_id = "" })

unfoldable pub find_by_pr : String → ℕ → List Row → Option Session
unfolding find_latest
find_by_pr url n rows = without_tenant (find_latest url n rows)
