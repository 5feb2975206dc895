-- ===== src/Session/Listing.antt =====
-- internal/session/service.go and sqlite_store.go: List, with SQLite and without it.
--
-- `len` and `slice` count the bytes of a text, as Go's do. SQLite leaves the order of rows with equal
-- times open: the sort here is stable.
pub mod Pages
mod Tests
use Prim.Native.String.{len, slice}
use codeforge.Prelude.{
  ℕ, String, Bool, true, false, ◌&&◌, ◌||◌, not, Option, none, some, List, [], ◌∷◌, ◌++◌, map,
  if◌then◌else◌, ◌=s◌, ◌==◌, ◌<>◌, ltb, leb, length, take, drop, erase,
}
use codeforge.Prelude.Int.{ℤ, pos, pos_part, leb_ℤ, ltb_ℤ}
use codeforge.Apperror.{Error, wrapped}
use codeforge.Session.Status.{Status, text}
use codeforge.Session.Model.{ChangesSummary, Session}
use codeforge.Session.World.{
  World, Row, Entry, M, Result, ok, err, ◌>>=◌, ◌>>◌, pure, get, modify, attempt, ignore, reach,
  lost,
}
use codeforge.Session.Service.{hash_to_session}
use codeforge.Session.Creating.{add_to_index}
use codeforge.Session.Rfc3339.{rfc_lt}

pub record Summary : Type 0 where
  pub id : String
  pub status : Status
  pub repo_url : String
  pub prompt : String
  pub session_type : String
  pub iteration : ℕ
  pub error : String
  pub branch : String
  pub pr_url : String
  pub workflow_run_id : String
  pub changes_summary : Option ChangesSummary
  pub created_at : ℕ
  pub started_at : Option ℕ
  pub finished_at : Option ℕ

pub record ListOptions : Type 0 where
  pub status : String
  pub tenant_id : String
  pub limit : ℤ
  pub offset : ℤ

unfoldable pub truncate_prompt : String → ℕ → String
truncate_prompt s n = if leb (len s) n then s else slice s 0 n <> "..."

unfoldable pub summary_of : Session → Option ChangesSummary → Summary
unfolding truncate_prompt
summary_of t changes = record {
  id = t.id;
  status = t.status;
  repo_url = t.repo_url;
  prompt = truncate_prompt t.prompt 200;
  session_type = t.session_type;
  iteration = t.iteration;
  error = t.error;
  branch = t.branch;
  pr_url = t.pr_url;
  workflow_run_id = t.workflow_run_id;
  changes_summary = changes;
  created_at = t.created_at;
  started_at = t.started_at;
  finished_at = t.finished_at;
}

-- Changes without files are left out.
abbrev pub listed_changes : Option ChangesSummary → Option ChangesSummary
listed_changes none = none
listed_changes (some c) =
    if ltb 0 c.files_modified || ltb 0 c.files_created || ltb 0 c.files_deleted
    then some c
    else none

-- 50 by default, and 200 at most.
unfoldable pub page_limit : ℤ → ℕ
page_limit limit =
    if leb_ℤ limit (pos 0) then 50 else if ltb_ℤ (pos 200) limit then 200 else pos_part limit

-- The filters of the query.
abbrev pub fits : ListOptions → Row → Bool
fits opts r =
    (opts.status =s "" || text r.session.status =s opts.status)
    && (opts.tenant_id =s "" || r.session.tenant_id =s opts.tenant_id)

abbrev pub fitting : ListOptions → List Row → List Row
fitting opts [] = []
fitting opts (r ∷ rows) = let rest = fitting opts rows in if fits opts r then r ∷ rest else rest

-- A stable insertion: `newer x a` says that `x` stays before `a`.
abbrev pub insert_by : {A : Type 0} → (A → A → Bool) → A → List A → List A
insert_by newer a [] = a ∷ []
insert_by newer a (x ∷ xs) =
    let rest = insert_by newer a xs in if newer x a then x ∷ rest else a ∷ (x ∷ xs)

unfoldable pub sort_by : {A : Type 0} → (A → A → Bool) → List A → List A
sort_by newer [] = []
sort_by newer (x ∷ xs) = insert_by newer x (sort_by newer xs)

-- ORDER BY created_at DESC, on the texts of the times.
abbrev pub newer_row : Row → Row → Bool
newer_row x a = rfc_lt a.session.created_at x.session.created_at

abbrev pub row_summary : Row → Summary
row_summary r = summary_of r.session (listed_changes r.session.changes_summary)

-- LIMIT and OFFSET; SQLite takes a negative offset for 0.
unfoldable pub page : {A : Type 0} → ListOptions → List A → List A
unfolding page_limit
page opts xs = take (page_limit opts.limit) (drop (pos_part opts.offset) xs)

unfoldable pub list_rows : ListOptions → List Row → List Summary × ℕ
unfolding page sort_by summary_of
list_rows opts rows = (
  map row_summary (page opts (sort_by newer_row (fitting opts rows))),
  length (fitting opts rows),
)

-- The list without SQLite: the hashes of the ids in the index, which loses the ids that have none.
abbrev pub drop_id : String → M (Unit {0})
drop_id k = ignore (do reach lost; modify λ w. record w { index = erase k w.index })

abbrev pub hash_summary : Entry → Summary
hash_summary e = summary_of (hash_to_session e.hash) (hash_to_session e.hash).changes_summary

abbrev pub found_summary :
    ListOptions → String → Result (Unit {0}) → Option Entry → M (List Summary)
found_summary opts k (err _) e = do drop_id k; pure []
found_summary opts k (ok _) none = do drop_id k; pure []
found_summary opts k (ok _) (some e) = pure (
    if not (opts.status =s "") && not (text (hash_to_session e.hash).status =s opts.status)
    then []
    else hash_summary e ∷ [])

unfoldable pub list_ids : ListOptions → List String → M (List Summary)
unfolding reach summary_of
list_ids opts [] = pure []
list_ids opts (k ∷ ks) = do
  answer ← attempt (reach lost)
  w ← get
  here ← found_summary opts k answer (w.state k)
  rest ← list_ids opts ks
  pure (here ++ rest)

abbrev pub add_ids : List String → M (Unit {0})
add_ids [] = pure tt
add_ids (k ∷ ks) = do
  ignore (do reach lost; modify λ w. record w { index = add_to_index k w.index })
  add_ids ks

-- The ids of the index, or those of the keys that SCAN finds where it is empty.
abbrev pub known_ids : Result (List String) → List String → M (List String)
known_ids (err e) [] = λ w. (err e, w)
known_ids (err e) (k ∷ ks) = pure (k ∷ ks)
known_ids (ok ks) [] = do add_ids ks; pure ks
known_ids (ok found) (k ∷ ks) = pure (k ∷ ks)

abbrev pub newer_summary : Summary → Summary → Bool
newer_summary x a = ltb a.created_at x.created_at

unfoldable pub list_redis : ListOptions → Result (List String) → M (List Summary × ℕ)
unfolding page reach sort_by
list_redis opts scanned = do
  reach (wrapped "listing session index" lost)
  w ← get
  ids ← known_ids scanned w.index
  all ← list_ids opts ids
  pure (page opts (sort_by newer_summary all), length all)

abbrev pub list_from : ListOptions → Result (List String) → Option (List Row) → M (List Summary × ℕ)
list_from opts scanned none = list_redis opts scanned
list_from opts scanned (some rows) = do
  reach (wrapped "counting sessions" lost)
  reach (wrapped "listing sessions" lost)
  pure (list_rows opts rows)

-- List; an offset is not negative without SQLite, where Go would panic on it.
unfoldable pub list_sessions : ListOptions → Result (List String) → M (List Summary × ℕ)
unfolding reach
list_sessions opts scanned = do w ← get; list_from opts scanned w.sqlite
