-- ===== src/Schedule.antt =====
-- internal/schedule: sessions that recur, the table of their schedules, and the rounds that fire them.
--
-- The library for cron expressions is a parameter, and so is the decoder of the stored requests. A
-- time is its nanoseconds; the time that the table reads back is the one that it was given.
pub mod Leaving
pub mod Rounds
mod Tests
use codeforge.Prelude.{
  ℕ, String, Bool, true, false, ◌&&◌, not, Option, none, some, List, [], ◌∷◌, ◌++◌, if◌then◌else◌,
  ◌=s◌, ltb, option_or, set_key,
}
use codeforge.Apperror.{Error, opaque, wrapped}
use codeforge.Session.Model.{Session}
use codeforge.Session.World.{
  M, Result, ok, err, ◌>>=◌, ◌>>◌, pure, fail, context, attempt, lift, reach, lost,
}
use codeforge.Session.Service.{Cipher, CreateSessionRequest, Draws}
use codeforge.Session.Creating.{create}
use codeforge.Session.Listing.{sort_by}
use codeforge.Session.Rfc3339.{rfc_lt}

pub record Schedule : Type 0 where
  pub id : String
  pub name : String
  pub cron : String
  pub enabled : Bool
  pub session_request : String
  pub last_run_at : Option ℕ
  pub last_session_id : String
  pub created_at : ℕ
  pub updated_at : ℕ
  pub next_run_at : Option ℕ

-- What the cron library and the decoder of JSON answer. A parsed expression gives the next time after
-- another, or none where the library finds none within five years and returns the zero time.
pub record Library : Type 0 where
  pub parse : String → Option (ℕ → Option ℕ)
  pub decode : String → Option CreateSessionRequest

abbrev pub schedule_not_found : Error
schedule_not_found = opaque "schedule not found"

abbrev pub has_id : String → List Schedule → Bool
has_id k [] = false
has_id k (s ∷ ss) = if s.id =s k then true else has_id k ss

-- Create of the store, for the id that it draws; a table that has the id refuses the row.
abbrev pub stamped : String → ℕ → Schedule → Schedule
stamped fresh now s = record s {
  id = if s.id =s "" then fresh else s.id;
  created_at = now;
  updated_at = now;
}

abbrev pub with_row : Schedule → List Schedule → M (List Schedule)
with_row s table =
    if has_id s.id table
    then fail (wrapped "inserting schedule" (opaque "UNIQUE constraint failed"))
    else pure
        (table ++ record s { last_run_at = none; last_session_id = ""; next_run_at = none } ∷ [])

unfoldable pub create_schedule : String → ℕ → Schedule → List Schedule → M (List Schedule)
unfolding reach
create_schedule fresh now s table = do
  reach (wrapped "inserting schedule" lost)
  with_row (stamped fresh now s) table

abbrev pub first_with : String → List Schedule → Result Schedule
first_with k [] = err schedule_not_found
first_with k (s ∷ ss) = if s.id =s k then ok s else first_with k ss

-- Get of the store.
unfoldable pub get_schedule : String → List Schedule → M Schedule
unfolding reach
get_schedule k table = do reach (wrapped "scanning schedule" lost); lift (first_with k table)

abbrev pub earlier : Schedule → Schedule → Bool
earlier x a = rfc_lt x.created_at a.created_at

abbrev pub enabled_ones : List Schedule → List Schedule
enabled_ones [] = []
enabled_ones (s ∷ ss) = if s.enabled then s ∷ enabled_ones ss else enabled_ones ss

-- List, and ListEnabled.
unfoldable pub list_schedules : List Schedule → M (List Schedule)
unfolding reach sort_by
list_schedules table = do reach (wrapped "listing schedules" lost); pure (sort_by earlier table)

unfoldable pub list_enabled : List Schedule → M (List Schedule)
unfolding reach sort_by
list_enabled table = do
  reach (wrapped "listing schedules" lost)
  pure (sort_by earlier (enabled_ones table))

-- The fields that Update sets.
abbrev pub with_fields : ℕ → Schedule → Schedule → Schedule
with_fields now s row = record row {
  name = s.name;
  cron = s.cron;
  enabled = s.enabled;
  session_request = s.session_request;
  updated_at = now;
}

abbrev pub rows_with : String → (Schedule → Schedule) → List Schedule → List Schedule
rows_with k f [] = []
rows_with k f (s ∷ ss) = if s.id =s k then f s ∷ rows_with k f ss else s ∷ rows_with k f ss

abbrev pub unless_missing : String → List Schedule → List Schedule → M (List Schedule)
unless_missing k table changed = if has_id k table then pure changed else fail schedule_not_found

unfoldable pub update_schedule : ℕ → Schedule → List Schedule → M (List Schedule)
unfolding reach
update_schedule now s table = do
  reach (wrapped "updating schedule" lost)
  unless_missing s.id table (rows_with s.id (with_fields now s) table)

abbrev pub without_id : String → List Schedule → List Schedule
without_id k [] = []
without_id k (s ∷ ss) = if s.id =s k then without_id k ss else s ∷ without_id k ss

unfoldable pub delete_schedule : String → List Schedule → M (List Schedule)
unfolding reach
delete_schedule k table = do
  reach (wrapped "deleting schedule" lost)
  unless_missing k table (without_id k table)

-- MarkRun. Fire goes on where it fails.
abbrev pub marked_row : ℕ → String → Schedule → Schedule
marked_row at session row = record row {
  last_run_at = some at;
  last_session_id = session;
  updated_at = at;
}

abbrev pub unless_failed : List Schedule → List Schedule → Result (Unit {0}) → List Schedule
unless_failed table marked (ok _) = marked
unless_failed table marked (err _) = table

unfoldable pub mark_run : String → ℕ → String → List Schedule → M (List Schedule)
unfolding reach
mark_run k at session table = do
  answer ← attempt (reach (wrapped "marking schedule run" lost))
  pure (unless_failed table (rows_with k (marked_row at session) table) answer)

-- FillNextRun.
abbrev pub next_run : Option (ℕ → Option ℕ) → ℕ → Option ℕ
next_run none now = none
next_run (some next) now = next now

unfoldable pub fill_next_run : Library → ℕ → Schedule → Schedule
fill_next_run lib now s = record s {
  next_run_at = if s.enabled then next_run (lib.parse s.cron) now else none;
}

abbrev pub with_schedule : Schedule → CreateSessionRequest → CreateSessionRequest
with_schedule s req = record req {
  metadata = set_key "schedule_name" s.name (set_key "schedule_id" s.id req.metadata);
}

abbrev pub decoded : Option CreateSessionRequest → Result CreateSessionRequest
decoded none = err (wrapped "decoding session request" (opaque "json"))
decoded (some req) = ok req

-- Fire: the session, and the table then.
unfoldable pub fire :
    Library → Cipher → Draws → ℕ → Schedule → List Schedule → M (Session × List Schedule)
unfolding mark_run create
fire lib cipher draws now s table = do
  req ← lift (decoded (lib.decode s.session_request))
  t ← context "creating session" (create cipher (with_schedule s req) draws)
  marked ← mark_run s.id now t.id table
  pure (t, marked)

-- `spec.Next(base).After(now)` is false of the zero time.
abbrev pub is_later : Option ℕ → ℕ → Bool
is_later none now = false
is_later (some next) now = ltb now next

abbrev pub due_by : Option (ℕ → Option ℕ) → ℕ → ℕ → Bool
due_by none base now = false
due_by (some next) base now = not (is_later (next base) now)

unfoldable pub is_due : Library → ℕ → Schedule → Bool
is_due lib now s = due_by (lib.parse s.cron) (option_or s.last_run_at s.created_at) now

abbrev pub table_after : List Schedule → Result (Session × List Schedule) → List Schedule
table_after table (err e) = table
table_after table (ok (t, marked)) = marked

-- One turn of the loop of RunDue.
abbrev pub fired : Library → Cipher → Draws → ℕ → Schedule → List Schedule → M (List Schedule)
fired lib cipher draws now s table = do
  answer ← attempt (fire lib cipher draws now s table)
  pure (table_after table answer)

abbrev pub turn : Library → Cipher → Draws → ℕ → Schedule → List Schedule → M (List Schedule)
turn lib cipher draws now s table =
    if is_due lib now s then fired lib cipher draws now s table else pure table

unfoldable pub run_listed :
    Library → Cipher → (String → Draws) → ℕ → List Schedule → List Schedule → M (List Schedule)
unfolding fire is_due
run_listed lib cipher draws now [] table = pure table
run_listed lib cipher draws now (s ∷ ss) table =
    turn lib cipher (draws s.id) now s table >>= run_listed lib cipher draws now ss

abbrev pub run_answer :
    Library
    → Cipher
    → (String → Draws)
    → ℕ
    → List Schedule
    → Result (List Schedule)
    → M (List Schedule)
run_answer lib cipher draws now table (err e) = pure table
run_answer lib cipher draws now table (ok ss) = run_listed lib cipher draws now ss table

-- RunDue, with what each Create draws: the table then.
unfoldable pub run_due : Library → Cipher → (String → Draws) → ℕ → List Schedule → M (List Schedule)
unfolding list_enabled run_listed
run_due lib cipher draws now table = do
  answer ← attempt (list_enabled table)
  run_answer lib cipher draws now table answer
