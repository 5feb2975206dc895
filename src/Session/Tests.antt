-- ===== src/Session/Tests.antt =====
-- The theorems on the session service, applied at concrete sessions.
use codeforge.Session.Operations.Creation.{get_session-create}
use codeforge.Prelude.{
  In, ◌/◌, List, false, String, ◌=s◌, contains, ◌+◌, ◌≡◌, ◌↔◌, ◌<◌, refl, inl, true, none, some, [],
  ◌∷◌, ◌++◌, update,
}
use codeforge.Session.Status.{Status, running, completed, awaiting_instruction, validate_transition}
use codeforge.Session.Status.Graph.{◌⟶◌}
use codeforge.Session.Model.{Session}
use codeforge.Session.World.{World, Row, ok, status_at, up}
use codeforge.Session.Sqlite
use codeforge.Session.Service.{effective_prompt, new_session}
use codeforge.Session.Operations.{update_status, instruct}
use codeforge.Session.Loading.{get_session}
use codeforge.Session.Creating.{create, seal, store_new, encrypted}
use codeforge.Session.Rfc3339.{second}
use codeforge.Session.Sqlite.Rows.{list_stuck_lem, Listed, is_working}
use codeforge.Session.Operations.Moves.{update_status_mirrored}
use codeforge.Session.Operations.Effects.{update_status_iff, instruct_effect}
use codeforge.Session.Samples.{
  two_sessions, request, draws, marking, marking-IsInvertible, day_settings, hash_in, entry_in,
  no_entries, world_of,
}

update_status_iff_example :
    ((update_status day_settings "a" completed two_sessions).0 ≡ ok tt)
    ↔ ((c : Status) × (status_at two_sessions "a" ≡ some c) × (c ⟶ completed))
update_status_iff_example = update_status_iff day_settings "a" completed two_sessions refl

-- "a" waits for the user.
abbrev waiting : World
waiting = world_of (update no_entries "a" (some (entry_in completed))) none

instruct_effect_example :
    let (r, w') = instruct marking "a" "again" (up waiting) in
    (w'.state "a"
      ≡ some (record {
        hash = record (hash_in completed) {
          status = some awaiting_instruction;
          current_prompt = some "again";
          iteration = some (1 + 1);
          updated_at = some 5;
          error = some "";
        };
        ttl = none;
      }))
    × (w'.queue ≡ [] ++ "a" ∷ [])
instruct_effect_example =
    instruct_effect marking "a" "again" waiting (entry_in completed) completed refl refl (inl refl)

-- Only SQLite remembers "c".
abbrev completed_session : Session
completed_session = record (new_session request "fix the tests" "c" 1) { status = completed }

abbrev row_of_c : Row
row_of_c = record { session = completed_session; updated_at = 2 }

abbrev expired_world : World
expired_world = world_of no_entries (some (row_of_c ∷ []))

abbrev created : Session
created = new_session request "fix the tests" "c" 5

get_session-create_example :
    (get_session marking "c" (create marking request draws (up two_sessions)).1).0 ≡ ok created
unfolding create seal store_new encrypted effective_prompt
get_session-create_example =
    get_session-create marking request draws two_sessions created marking-IsInvertible refl refl

abbrev other_row : Row
other_row = record {
  session = record completed_session { id = "d"; status = running };
  updated_at = 2;
}

list_stuck_lem_example :
    ((k : String)
      → contains (Sqlite.list_stuck 5_000_000_000 (other_row ∷ [])) k ≡ true
      → Listed 5_000_000_000 (other_row ∷ []) k)
    × ((r : Row)
        → In r (other_row ∷ [])
        → is_working r.session.status ≡ true
        → r.updated_at / second < 5_000_000_000 / second
        → contains (Sqlite.list_stuck 5_000_000_000 (other_row ∷ [])) r.session.id ≡ true)
list_stuck_lem_example = list_stuck_lem 5_000_000_000 (other_row ∷ [])

abbrev both_stores : World
both_stores = world_of (update no_entries "d" (some (entry_in running))) (some (other_row ∷ []))

update_status_mirrored_example :
    let w' = (update_status day_settings "d" completed (up both_stores)).1 in
    (status_at w' "d" ≡ some completed)
    × (rows' : List Row) × (w'.sqlite ≡ some rows')
    × (Sqlite.find_row "d" rows'
        ≡ some (record (other_row.session) {
          status = completed;
          started_at = none;
          finished_at = some 5;
        }))
    × ((j : String)
        → ("d" =s j) ≡ false
        → Sqlite.find_row j rows' ≡ Sqlite.find_row j (other_row ∷ []))
unfolding validate_transition Sqlite.find_row
update_status_mirrored_example =
    update_status_mirrored day_settings "d" completed running both_stores (other_row ∷ [])
      other_row.session refl refl refl refl
