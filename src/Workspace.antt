-- ===== src/Workspace.antt =====
-- internal/workspace: the directories that sessions work in, with their entries in Redis, and the
-- cleaner that removes them.
--
-- A directory is its path with the bytes beneath it, a time is its nanoseconds, and a TTL its seconds.
-- filepath.Join and filepath.Abs are parameters, and so is what the file system allows. The entries
-- are listed in the order of the keys; SCAN leaves it open, as sort.Slice does the order of equal
-- times.
pub mod Cleaner
pub mod Giving
pub mod Keeping
pub mod Contained
pub mod Entries
pub mod Spared
mod Tests
use text.Mathlib.Text.{starts_with}
use codeforge.Prelude.{
  ℕ, ◌+◌, ◌*◌, String, Bool, true, false, ◌&&◌, ◌||◌, not, Option, none, some, List, [], ◌∷◌, ◌++◌,
  if◌then◌else◌, ◌=s◌, ◌<>◌, ltb, update, option_or,
}
use codeforge.Apperror.{Error, opaque, wrapped}
use codeforge.Session.World.{World, M, Result, ok, err, attempt, reach, lost}

pub record Workspace : Type 0 where
  pub task_id : String
  pub path : String
  pub slug : String
  pub created_at : ℕ
  pub ttl : ℕ
  pub size_bytes : ℕ

-- The World, the entries `workspace:{id}` with their ids, and the directories.
pub record Disk : Type 0 where
  pub world : World
  pub entries : List (String × Workspace)
  pub dirs : String → Option ℕ

-- Paths: joined to the base, and absolute.
pub record Manager : Type 0 where
  pub base_path : String
  pub ttl : ℕ
  pub join : String → String → String
  pub absolute : String → String
  pub is_removable : String → Bool

abbrev pub D : Type 0 → Type 0
D A = Disk → A × Disk

infixl 5 ◌>>=◌
abbrev pub ◌>>=◌ : {A B : Type 0} → D A → (A → D B) → D B
◌>>=◌ m f d = f (m d).0 (m d).1

abbrev pub pure : {A : Type 0} → A → D A
pure a d = (a, d)

abbrev pub on_world : {A : Type 0} → Result A × World → Disk → Result A × Disk
on_world (r, w) d = (r, record d { world = w })

-- A call on the World, whose error is a value.
abbrev pub call : {A : Type 0} → M A → D (Result A)
call m d = on_world (m d.world) d

abbrev pub find : String → List (String × Workspace) → Option Workspace
find k [] = none
find k ((j, s) ∷ es) = let rest = find k es in if j =s k then some s else rest

abbrev pub without : String → List (String × Workspace) → List (String × Workspace)
without k [] = []
without k ((j, s) ∷ es) = let rest = without k es in if j =s k then rest else (j, s) ∷ rest

-- HSET of all fields.
abbrev pub put : String → Workspace → List (String × Workspace) → List (String × Workspace)
put k s [] = (k, s) ∷ []
put k s ((j, t) ∷ es) = let rest = put k s es in if j =s k then (k, s) ∷ es else (j, t) ∷ rest

-- IsExpired.
unfoldable pub is_expired : ℕ → Workspace → Bool
is_expired now s = ltb (s.created_at + s.ttl * 1000000000) now

abbrev pub found : {A : Type 0} → Result A → Option Workspace → Option Workspace
found (err e) o = none
found (ok a) o = o

-- Get: no entry where Redis does not answer.
unfoldable pub get_workspace : String → D (Option Workspace)
get_workspace k d = let (r, d') = call (reach lost) d in (found r (find k d'.entries), d')

abbrev pub path_or : String → Option Workspace → String
path_or p none = p
path_or p (some s) = if s.path =s "" then p else s.path

-- WorkspacePath.
unfoldable pub workspace_path : String → D String
workspace_path k = get_workspace k >>= λ o. pure (path_or "" o)

-- What os.RemoveAll removes.
abbrev pub is_beneath : String → String → Bool
is_beneath p q = q =s p || starts_with q (p <> "/")

abbrev pub removed : String → (String → Option ℕ) → String → Option ℕ
removed p dirs q = if is_beneath p q then none else dirs q

unfoldable pub remove_all : Manager → String → Disk → Disk
remove_all m p d = if m.is_removable p then record d { dirs = removed p d.dirs } else d

abbrev pub forget : String → {A : Type 0} → Result A → Disk → Disk
forget k (err e) d = d
forget k (ok a) d = record d { entries = without k d.entries }

-- DEL, whose error is dropped.
abbrev pub del : String → Disk → Disk
del k d = let (r, d') = call (reach lost) d in forget k r d'

abbrev pub is_inside : Manager → String → Bool
is_inside m p = starts_with p (m.absolute m.base_path <> "/")

abbrev pub outside : Manager → String → Error
outside m p =
    opaque
      ("path traversal attempt: " <> p <> " is outside workspace base " <> m.absolute m.base_path)

-- Delete.
unfoldable pub delete_workspace : Manager → String → D (Result (Unit {0}))
unfolding get_workspace remove_all
delete_workspace m k = get_workspace k >>= λ o d.
    let p = m.absolute (path_or (m.join m.base_path k) o) in
    if is_inside m p then (ok tt, del k (remove_all m p d)) else (err (outside m p), d)

abbrev pub registered : {A : Type 0} → Workspace → Result A → Disk → Result Workspace × Disk
registered s (err e) d = (err e, d)
registered s (ok a) d = (ok s, record d { entries = put s.task_id s d.entries })

abbrev pub or_empty : Option ℕ → Option ℕ
or_empty none = some 0
or_empty (some n) = some n

-- Create, for the name that internal/slug gives; the test says whether the directory can be made.
unfoldable pub create_workspace : Manager → Bool → String → String → D (Result Workspace)
create_workspace m makes name k d =
    let path = m.join m.base_path name in
    let d' = record d { dirs = update d.dirs path (or_empty (d.dirs path)) } in
    let s : Workspace = record {
      task_id = k;
      path = path;
      slug = name;
      created_at = d.world.now;
      ttl = m.ttl;
      size_bytes = 0;
    } in
    let (r, d'') = call (reach (wrapped "registering workspace in redis" lost)) d' in
    if makes
    then registered s r d''
    else (err (wrapped "creating workspace directory" (opaque "mkdir")), d)

-- A hash that holds a size alone.
abbrev pub size_only : Workspace
size_only = record { task_id = ""; path = ""; slug = ""; created_at = 0; ttl = 0; size_bytes = 0 }

abbrev pub resized : String → ℕ → List (String × Workspace) → List (String × Workspace)
resized k n es = put k (record (option_or (find k es) size_only) { size_bytes = n }) es

abbrev pub store_size_if : {A : Type 0} → String → ℕ → Result A → Disk → Disk
store_size_if k n (err e) d = d
store_size_if k n (ok a) d = record d { entries = resized k n d.entries }

-- HSET of the size, whose error is dropped.
abbrev pub store_size : String → ℕ → Disk → Disk
store_size k n d = let (r, d') = call (reach lost) d in store_size_if k n r d'

abbrev pub measured : String → Option ℕ → D (Result ℕ)
measured k none d = (err (opaque "no such directory"), d)
measured k (some n) d = (ok n, store_size k n d)

-- UpdateSize.
unfoldable pub update_size : Manager → String → D (Result ℕ)
unfolding get_workspace
update_size m k =
    get_workspace k >>= λ o d. measured k (d.dirs (path_or (m.join m.base_path k) o)) d

-- A listed entry, whose size is taken again where it is unknown.
abbrev pub with_size : String → Workspace → Option ℕ → D Workspace
with_size k s none d = (s, d)
with_size k s (some n) d =
    if ltb 0 n then (record s { size_bytes = n }, store_size k n d) else (s, d)

abbrev pub sized : String → Workspace → D Workspace
sized k s d =
    let unknown = with_size k s (d.dirs s.path) d in
    if ltb 0 s.size_bytes || s.path =s "" then (s, d) else unknown

abbrev pub listed : String → Option Workspace → D (List Workspace)
listed k none = pure []
listed k (some s) = sized k s >>= λ t. pure (t ∷ [])

unfoldable pub list_keys : List String → D (List Workspace)
unfolding get_workspace
list_keys [] = pure []
list_keys (k ∷ ks) =
    get_workspace k >>= listed k >>= λ here. list_keys ks >>= λ rest. pure (here ++ rest)

abbrev pub ids : List (String × Workspace) → List String
ids [] = []
ids ((k, s) ∷ es) = k ∷ ids es

abbrev pub unless_lost : {A B : Type 0} → D (Result B) → Result A → D (Result B)
unless_lost next (err e) d = (err (wrapped "scanning workspaces" e), d)
unless_lost next (ok a) d = next d

-- List.
unfoldable pub list_workspaces : D (Result (List Workspace))
list_workspaces d =
    (call (reach lost) >>= unless_lost (list_keys (ids d.entries) >>= λ all. pure (ok all))) d

abbrev pub sum_sizes : List Workspace → ℕ
sum_sizes [] = 0
sum_sizes (s ∷ ss) = s.size_bytes + sum_sizes ss

abbrev pub total_of : Result (List Workspace) → ℕ
total_of (err e) = 0
total_of (ok all) = sum_sizes all

unfoldable pub total_size_bytes : D ℕ
total_size_bytes = list_workspaces >>= λ r. pure (total_of r)
