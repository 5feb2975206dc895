-- ===== src/Workspace/Tests.antt =====
-- The cleaner at concrete disks.
use codeforge.Session.Service.{hash_to_session}
use codeforge.Session.Loading.{get_session}
use codeforge.Prelude.{
  inl, inr, ◌≡◌, refl, true, false, none, some, [], ◌∷◌, ◌<>◌, ◌=s◌, if◌then◌else◌, update,
}
use codeforge.Session.Status.{reviewing}
use codeforge.Session.World.{reach, World}
use codeforge.Session.Samples.{two_sessions, marking, world_of, no_entries, entry_in}
use codeforge.Workspace.{
  delete_workspace, is_expired, list_keys, total_size_bytes, list_workspaces, Workspace, Disk,
  Manager, find, path_or,
}
use codeforge.Workspace.Cleaner.{
  is_session_running, delete_expired, check_disk_usage, CleanerConfig, cleanup,
}
use codeforge.Workspace.Contained.{IsContained, cleanup-IsContained}
use codeforge.Workspace.Spared.{cleanup-IsSpared}

-- Clean absolute paths: "/w" is the base, and the empty name joined to it is the base again.
abbrev manager : Manager
manager = record {
  base_path = "/w";
  ttl = 60;
  join = λ base s. if s =s "" then base else base <> "/" <> s;
  absolute = λ p. p;
  is_removable = λ _. true;
}

abbrev config : CleanerConfig
config = record { disk_warning_threshold = 0; disk_critical_threshold = 0 }

abbrev workspace : Workspace
workspace = record {
  task_id = "a";
  path = "/w/fix";
  slug = "fix";
  created_at = 1;
  ttl = 60;
  size_bytes = 9;
}

-- Much later than the TTL.
abbrev late : World → World
late w = record w { now = 100000000000 }

abbrev disk : World → Disk
disk w = record {
  world = late w;
  entries = ("a", workspace) ∷ [];
  dirs = update (update (λ _. none) "/w/fix" (some 9)) "/etc" (some 3);
}

cleanup-IsContained_example :
    IsContained manager
      (disk two_sessions).dirs
      (cleanup marking config manager (disk two_sessions)).1
cleanup-IsContained_example = cleanup-IsContained marking config manager (disk two_sessions)

-- With the session "b", which is canceled and whose workspace goes.
abbrev crowded : Disk
crowded = record (disk two_sessions) {
  entries =
      ("b", record workspace { task_id = "b"; path = "/w/b"; slug = "b" }) ∷ ("a", workspace) ∷ [];
}

cleanup-IsSpared_example :
    let d' = (cleanup marking config manager crowded).1 in
    (d'.dirs "/w/fix" ≡ some 9) × (path_or "" (find "a" d'.entries) ≡ "/w/fix")
unfolding get_session hash_to_session
cleanup-IsSpared_example =
    cleanup-IsSpared marking config manager (late two_sessions) crowded "a" "/w/fix" refl refl
      (inr (refl, refl), (inl refl, tt))

-- A session under review, and one that Redis does not tell of, lose theirs.
abbrev reviewed : World
reviewed = world_of (update no_entries "a" (some (entry_in reviewing))) none

review_loses_workspace : (cleanup marking config manager (disk reviewed)).1.dirs "/w/fix" ≡ none
unfolding cleanup list_workspaces reach check_disk_usage total_size_bytes delete_expired list_keys
    is_expired is_session_running get_session hash_to_session delete_workspace
review_loses_workspace = refl

abbrev lossy : World
lossy = record two_sessions { faults = false ∷ false ∷ true ∷ [] }

outage_loses_workspace : (cleanup marking config manager (disk lossy)).1.dirs "/w/fix" ≡ none
unfolding cleanup list_workspaces reach check_disk_usage total_size_bytes delete_expired list_keys
    is_expired is_session_running get_session delete_workspace
outage_loses_workspace = refl
