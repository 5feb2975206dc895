-- ===== src/Workspace/Keeping.antt =====
-- What a round of the cleaner keeps, if its calls do.
use codeforge.Prelude.{
  ℕ, ◌≡◌, refl, String, Bool, true, false, ◌&&◌, ◌||◌, Option, none, some, List, [], ◌∷◌, ◌++◌,
  if◌then◌else◌, ltb, ◌=s◌,
}
use codeforge.Session.World.{Result, ok, err, reach, lost}
use codeforge.Session.Service.{Cipher}
use codeforge.Session.Loading.{get_session}
use codeforge.Session.Listing.{sort_by}
use codeforge.Session.Listing.Pages.{All, All-sort_by}
use codeforge.Workspace.{
  Workspace, Disk, Manager, D, ◌>>=◌, pure, call, find, found, get_workspace, delete_workspace,
  resized, store_size, store_size_if, with_size, sized, listed, list_keys, ids, unless_lost,
  list_workspaces, total_size_bytes, is_expired,
}
use codeforge.Workspace.Cleaner.{
  CleanerConfig, is_at_work, is_session_running, delete_idle, delete_expired, older, until_below,
  delete_if_idle, delete_oldest, empty_oldest, emergency_cleanup, check_disk_usage, clean_listed,
  cleanup,
}
use codeforge.Workspace.Giving.{
  All-append, AllKnown, Gives, Keeps, bind-Gives, bind-Keeps, find-IsKnown, given-Keeps, if-Gives,
  if-Keeps,
}

module _ (cipher : Cipher) (m : Manager) (cfg : CleanerConfig) (I : Disk → Type 0)
    (P : String → Type 0) (entries_known : (d : Disk) → I d → AllKnown P d.entries)
    (on_call : Keeps I (call (reach lost)))
    (on_session : (k : String) → Keeps I (call (get_session cipher k)))
    (on_size : (k : String) (n : ℕ) (s : Workspace) (d : Disk)
      → I d
      → find k d.entries ≡ some s
      → I (record d { entries = resized k n d.entries }))
    (on_delete : (k : String) (d : Disk)
      → P k
      → I d
      → is_at_work (get_session cipher k d.world).0 ≡ false
      → I (delete_workspace m k (call (get_session cipher k) d).1).1) where
  abbrev IsKnown : Workspace → Type 0
  IsKnown s = P s.task_id

  abbrev IsFoundIn : String → Option Workspace → Disk → Type 0
  IsFoundIn k none d = Unit
  IsFoundIn k (some s) d = find k d.entries ≡ some s

  get_workspace-Gives : (k : String) → Gives I (IsFoundIn k) (get_workspace k)
  unfolding get_workspace
  get_workspace-Gives k d h = (on_call d h, seen (call (reach lost) d).0 (find k d.entries) refl)
    where
      seen :
          {A : Type 0} (r : Result A) (o : Option Workspace)
          → find k d.entries ≡ o
          → IsFoundIn k (found r o) (call (reach lost) d).1
      seen (err e) o q = tt
      seen (ok a) none q = tt
      seen (ok a) (some s) q = q

  store_size-Keeps :
      (k : String) (n : ℕ) (s : Workspace) (d : Disk)
      → I d
      → find k d.entries ≡ some s
      → I (store_size k n d)
  store_size-Keeps k n s d h q =
      stored (call (reach lost) d).0 (call (reach lost) d).1 (on_call d h) q
    where
      stored :
          {A : Type 0} (r : Result A) (d : Disk)
          → I d
          → find k d.entries ≡ some s
          → I (store_size_if k n r d)
      stored (err e) d h q = h
      stored (ok a) d h q = on_size k n s d h q

  abbrev HasKnown : Workspace × Disk → Type 0
  HasKnown (s, d) = I d × IsKnown s

  with_size-Gives :
      (k : String) (s : Workspace) (o : Option ℕ) (d : Disk)
      → I d
      → find k d.entries ≡ some s
      → IsKnown s
      → HasKnown (with_size k s o d)
  with_size-Gives k s none d h q p = (h, p)
  with_size-Gives k s (some n) d h q p =
      if-Gives HasKnown (ltb 0 n) (record s { size_bytes = n }, store_size k n d) (s, d)
        (store_size-Keeps k n s d h q, p) (h, p)

  sized-Gives :
      (k : String) (s : Workspace) (d : Disk)
      → I d
      → find k d.entries ≡ some s
      → IsKnown s
      → HasKnown (sized k s d)
  sized-Gives k s d h q p =
      if-Gives HasKnown (ltb 0 s.size_bytes || s.path =s "") (s, d)
        (with_size k s (d.dirs s.path) d) (h, p) (with_size-Gives k s (d.dirs s.path) d h q p)

  abbrev AreKnown : List Workspace → Disk → Type 0
  AreKnown ss d = All IsKnown ss

  listed-Gives :
      (k : String) (o : Option Workspace) (d : Disk)
      → I d
      → IsFoundIn k o d
      → I (listed k o d).1 × AreKnown (listed k o d).0 (listed k o d).1
  listed-Gives k none d h q = (h, tt)
  listed-Gives k (some s) d h q =
      let (i, p) = sized-Gives k s d h q (find-IsKnown P k d.entries s (entries_known d h) q) in
      (i, (p, tt))

  list_keys-Gives : (ks : List String) → Gives I AreKnown (list_keys ks)
  unfolding list_keys
  list_keys-Gives [] = λ d h. (h, tt)
  list_keys-Gives (k ∷ ks) =
      bind-Gives I AreKnown AreKnown (get_workspace k >>= listed k)
        (λ here. list_keys ks >>= λ rest. pure (here ++ rest))
        (bind-Gives I (IsFoundIn k) AreKnown (get_workspace k) (listed k) (get_workspace-Gives k)
          (listed-Gives k))
        λ here d h p.
          let (i, q) = list_keys-Gives ks d h in (i, All-append IsKnown here (list_keys ks d).0 p q)

  abbrev IsListing : Result (List Workspace) → Disk → Type 0
  IsListing (ok ss) d = All IsKnown ss
  IsListing (err e) d = Unit

  list_workspaces-Gives : Gives I IsListing list_workspaces
  unfolding list_workspaces
  list_workspaces-Gives d h =
      unless_lost-Gives (call (reach lost) d).0 (call (reach lost) d).1 (on_call d h)
    where
      all : D (Result (List Workspace))
      all = list_keys (ids d.entries) >>= λ ss. pure (ok ss)

      unless_lost-Gives : {A : Type 0} (r : Result A) → Gives I IsListing (unless_lost all r)
      unless_lost-Gives (err e) d' h' = (h', tt)
      unless_lost-Gives (ok a) d' h' = list_keys-Gives (ids d.entries) d' h'

  total_size_bytes-Keeps : Keeps I total_size_bytes
  unfolding total_size_bytes
  total_size_bytes-Keeps d h = (list_workspaces-Gives d h).0

  -- What follows the test of a session: a program that keeps I if it is not at work.
  idle-Keeps :
      {A : Type 0} (k : String) (g : Bool → D A)
      → P k
      → Keeps I (g true)
      → ((d : Disk) → I (delete_workspace m k d).1 → I (g false d).1)
      → Keeps I (is_session_running cipher k >>= g)
  unfolding is_session_running
  idle-Keeps {A} k g p hg hd d h = go (is_at_work (get_session cipher k d.world).0) refl
    where
      left : Disk
      left = (call (get_session cipher k) d).1

      go : (b : Bool) → is_at_work (get_session cipher k d.world).0 ≡ b → I (g b left).1
      go true e = hg left (on_session k d h)
      go false e = hd left (on_delete k d p h e)

  delete_expired-Keeps :
      (ss : List Workspace) → All IsKnown ss → Keeps I (delete_expired cipher m ss)
  unfolding delete_expired
  delete_expired-Keeps [] ps d h = h
  delete_expired-Keeps (s ∷ ss) (p, ps) d h =
      if-Keeps I (is_expired d.world.now s) (next d) (delete_expired cipher m ss d)
        (bind-Keeps I (is_session_running cipher s.task_id >>= delete_idle m s.task_id)
          (λ _. delete_expired cipher m ss)
          (idle-Keeps s.task_id (delete_idle m s.task_id) p (λ d h. h) λ d h. h)
          (λ _. delete_expired-Keeps ss ps) d h)
        (delete_expired-Keeps ss ps d h)
    where
      next : D (Unit {0})
      next = is_session_running cipher s.task_id >>= delete_idle m s.task_id >>= λ _.
          delete_expired cipher m ss

  until_below-Keeps :
      (rest : D (Unit {0}))
      → Keeps I rest
      → (r : Result (Unit {0})) → Keeps I (until_below cfg rest r)
  until_below-Keeps rest hr (err e) = hr
  until_below-Keeps rest hr (ok a) =
      bind-Keeps I total_size_bytes
        (λ total d.
          let on = rest d in if ltb total cfg.disk_critical_threshold then (tt, d) else on)
        total_size_bytes-Keeps
        λ total d h. if-Keeps I (ltb total cfg.disk_critical_threshold) (tt, d) (rest d) h (hr d h)

  delete_oldest-Keeps :
      (ss : List Workspace) → All IsKnown ss → Keeps I (delete_oldest cipher cfg m ss)
  unfolding delete_oldest
  delete_oldest-Keeps [] ps = λ d h. h
  delete_oldest-Keeps (s ∷ ss) (p, ps) =
      idle-Keeps s.task_id (delete_if_idle cfg m s.task_id rest) p (delete_oldest-Keeps ss ps)
        λ d h.
          until_below-Keeps rest (delete_oldest-Keeps ss ps) (delete_workspace m s.task_id d).0
            (delete_workspace m s.task_id d).1 h
    where
      rest : D (Unit {0})
      rest = delete_oldest cipher cfg m ss

  empty_oldest-Keeps :
      (r : Result (List Workspace)) (d : Disk)
      → I d
      → IsListing r d
      → I (empty_oldest cipher cfg m r d).1
  empty_oldest-Keeps (err e) d h ps = h
  empty_oldest-Keeps (ok all) d h ps =
      delete_oldest-Keeps (sort_by older all) (All-sort_by IsKnown older all ps) d h

  check_disk_usage-Keeps : Keeps I (check_disk_usage cipher cfg m)
  unfolding check_disk_usage emergency_cleanup
  check_disk_usage-Keeps = bind-Keeps I total_size_bytes after total_size_bytes-Keeps λ total d h.
      if-Keeps I (ltb 0 cfg.disk_critical_threshold && ltb cfg.disk_critical_threshold total)
        (emergency_cleanup cipher cfg m d) (tt, d)
        (given-Keeps I IsListing list_workspaces (empty_oldest cipher cfg m) list_workspaces-Gives
          empty_oldest-Keeps d h)
        h
    where
      after : ℕ → D (Unit {0})
      after total d =
          if ltb 0 cfg.disk_critical_threshold && ltb cfg.disk_critical_threshold total
          then emergency_cleanup cipher cfg m d
          else (tt, d)

  clean_listed-Keeps :
      (r : Result (List Workspace)) (d : Disk)
      → I d
      → IsListing r d
      → I (clean_listed cipher cfg m r d).1
  clean_listed-Keeps (err e) d h ps = h
  clean_listed-Keeps (ok all) d h ps =
      bind-Keeps I (delete_expired cipher m all) (λ _. check_disk_usage cipher cfg m)
        (delete_expired-Keeps all ps) (λ _. check_disk_usage-Keeps) d h

  pub cleanup-Keeps : Keeps I (cleanup cipher cfg m)
  unfolding cleanup
  cleanup-Keeps =
      given-Keeps I IsListing list_workspaces (clean_listed cipher cfg m) list_workspaces-Gives
        clean_listed-Keeps
