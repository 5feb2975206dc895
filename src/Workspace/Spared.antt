-- ===== src/Workspace/Spared.antt =====
-- What the cleaner leaves to a session at work.
use mathlib.Core.Bool.{false≢true}
use codeforge.Prelude.{
  ℕ, ◌≡◌, refl, sym, ap, ◌∙◌, subst, String, true, false, Option, some, List, ◌⊎◌, Bool-cases, inl,
  inr, ◌=s◌, eq_iff,
}
use codeforge.Session.World.{World, up, reach, lost}
use codeforge.Session.Service.{Cipher}
use codeforge.Session.Loading.{get_session}
use codeforge.Session.Operations.Effects.{get_session_answers}
use codeforge.Session.Listing.Pages.{All}
use codeforge.Workspace.{
  Workspace, Disk, Manager, call, find, without, resized, get_workspace, delete_workspace,
  remove_all, is_beneath, is_inside, path_or,
}
use codeforge.Workspace.Cleaner.{CleanerConfig, cleanup, is_at_work}
use codeforge.Workspace.Entries.{place-resized, find-without, All-put, All-without}
use codeforge.Workspace.Keeping.{cleanup-Keeps}
use codeforge.Workspace.Giving.{AllKnown, find-IsKnown}

-- An id is that of the session, or neither its entry's path nor the one that Delete assumes without an
-- entry is the directory or lies above it.
abbrev pub IsAway : Manager → List (String × Workspace) → String → String → String → Type 0
IsAway m es k q j =
    ((j =s k) ≡ true)
    ⊎ ((is_beneath (m.absolute (m.join m.base_path j)) q ≡ false)
        × (is_beneath (m.absolute (path_or (m.join m.base_path j) (find j es))) q ≡ false))

module _ (cipher : Cipher) (m : Manager) (w : World) (k q : String)
    (at_work : is_at_work (get_session cipher k (up w)).0 ≡ true) (es : List (String × Workspace))
    (bytes : Option ℕ) (path : String) where
  -- The path that Delete takes for an id.
  abbrev pub path_of : String → Disk → String
  path_of j d = m.absolute (path_or (m.join m.base_path j) (find j d.entries))

  abbrev IsOther : String → Type 0
  IsOther = IsAway m es k q

  abbrev pub IsApart : Disk → Type 0
  IsApart d = (j : String) → IsOther j → (j =s k) ≡ false → is_beneath (path_of j d) q ≡ false

  fallbacks :
      (j : String)
      → IsOther j
      → (j =s k) ≡ false
      → is_beneath (m.absolute (m.join m.base_path j)) q ≡ false
  fallbacks j (inl e) other = absurd (false≢true (sym other ∙ e))
  fallbacks j (inr (h, _)) other = h

  record IsSpared (d : Disk) : Type 0 where
    calm : d.world ≡ up w
    kept : d.dirs q ≡ bytes
    placed : path_or "" (find k d.entries) ≡ path
    clear : IsApart d
    known : AllKnown IsOther d.entries

  resized-IsSpared :
      (i : String) (n : ℕ) (s : Workspace) (d : Disk)
      → IsSpared d
      → find i d.entries ≡ some s
      → IsSpared (record d { entries = resized i n d.entries })
  resized-IsSpared i n s d h found = record {
    calm = h.calm;
    kept = h.kept;
    placed = place-resized "" i k n d.entries ∙ h.placed;
    clear = λ j away other.
        ap (λ p. is_beneath (m.absolute p) q) (place-resized (m.join m.base_path j) i j n d.entries)
        ∙ h.clear j away other;
    known = rw found (
        All-put (λ e. IsOther e.1.task_id) i (record s { size_bytes = n }) d.entries
          (find-IsKnown IsOther i d.entries s h.known found) h.known);
  }

  on_world-IsSpared :
      (d : Disk) (v : World) → v ≡ up w → IsSpared d → IsSpared (record d { world = v })
  on_world-IsSpared d v e h = record {
    calm = e;
    kept = h.kept;
    placed = h.placed;
    clear = h.clear;
    known = h.known;
  }

  reach-IsSpared : (d : Disk) → IsSpared d → IsSpared (call (reach lost) d).1
  unfolding reach
  reach-IsSpared d h =
      on_world-IsSpared d (call (reach lost) d).1.world
        (ap (λ v. (call (reach lost) (record d { world = v })).1.world) h.calm) h

  session_calm : (j : String) → (get_session cipher j (up w)).1 ≡ up w
  session_calm j = elim (get_session_answers cipher j w) [
    | inl (e, here, gone) ↦ ap (λ r. r.1) here
    | inr (t, here, status) ↦ ap (λ r. r.1) here
  ]

  session-IsSpared :
      (j : String) (d : Disk) → IsSpared d → IsSpared (call (get_session cipher j) d).1
  session-IsSpared j d h =
      on_world-IsSpared d (get_session cipher j d.world).1
        (ap (λ v. (get_session cipher j v).1) h.calm ∙ session_calm j) h

  -- Only a session that is not at work loses its workspace.
  other_session :
      (j : String) (d : Disk)
      → IsSpared d
      → is_at_work (get_session cipher j d.world).0 ≡ false
      → (j =s k) ≡ false
  other_session j d h idle = elim (Bool-cases (j =s k)) [
    | inr e ↦ e
    | inl e ↦ absurd (
        false≢true (
          sym idle
          ∙ ap (λ v. is_at_work (get_session cipher j v).0) h.calm
          ∙ ap (λ i. is_at_work (get_session cipher i (up w)).0) ((eq_iff j k).0 e)
          ∙ at_work))
  ]

  without-IsApart :
      (i : String) (d : Disk) → IsApart d → IsApart (record d { entries = without i d.entries })
  without-IsApart i d h j away other =
      ap (λ o. is_beneath (m.absolute (path_or (m.join m.base_path j) o)) q)
        (find-without i j d.entries)
      ∙ elim (Bool-cases (i =s j)) [
        | inl e ↦ rw e (fallbacks j away other)
        | inr e ↦ rw e (h j away other)
      ]

  forgotten : String → Disk → Disk
  forgotten j d = record d { entries = without j d.entries }

  forgotten-IsSpared :
      (j : String) (d : Disk) → (j =s k) ≡ false → IsSpared d → IsSpared (forgotten j d)
  unfolding forgotten
  forgotten-IsSpared j d other h = record {
    calm = h.calm;
    kept = h.kept;
    placed = ap (path_or "") (find-without j k d.entries) ∙ rw other h.placed;
    clear = without-IsApart j d h.clear;
    known = All-without (λ e. IsOther e.1.task_id) j d.entries h.known;
  }

  -- Delete where Redis answers.
  delete_calm :
      (j : String) (d : Disk)
      → IsOther j
      → (j =s k) ≡ false
      → IsSpared (record d { world = up w })
      → IsSpared (delete_workspace m j (record d { world = up w })).1
  unfolding delete_workspace get_workspace reach remove_all forgotten
  delete_calm j d away other h = elim (Bool-cases (is_inside m p)) [
    | inr e ↦ rw e h
    | inl e ↦ elim (Bool-cases (m.is_removable p)) [
      | inl f ↦
          rw (e, f)
            (record {
              calm = refl;
              kept = rw (h.clear j away other) h.kept;
              placed = (forgotten-IsSpared j d' other h).placed;
              clear = without-IsApart j d' h.clear;
              known = (forgotten-IsSpared j d' other h).known;
            })
      | inr f ↦
          rw (e, f)
            (record {
              calm = refl;
              kept = h.kept;
              placed = (forgotten-IsSpared j d' other h).placed;
              clear = without-IsApart j d' h.clear;
              known = (forgotten-IsSpared j d' other h).known;
            })
    ]
  ]
    where
      d' : Disk
      d' = record d { world = up w }

      p : String
      p = path_of j d'

  delete-IsSpared :
      (j : String) (d : Disk)
      → IsOther j
      → IsSpared d
      → is_at_work (get_session cipher j d.world).0 ≡ false
      → IsSpared (delete_workspace m j (call (get_session cipher j) d).1).1
  delete-IsSpared j d away h idle =
      subst (λ v. IsSpared (delete_workspace m j (record d { world = v })).1)
        (sym (session-IsSpared j d h).calm)
        (delete_calm j d away (other_session j d h idle) (on_world-IsSpared d (up w) refl h))

-- Where every call works, a session that runs, is cloned or makes its pull request keeps its
-- directory and its entry through a round of the cleaner, the emergency clean-up included: if of no
-- other session that the entries name is the path of its entry, or the path that Delete assumes where
-- it has none, this directory or above it.
pub cleanup-IsSpared :
    (cipher : Cipher) (cfg : CleanerConfig) (m : Manager) (w : World) (d : Disk) (k q : String)
    → d.world ≡ up w
    → is_at_work (get_session cipher k (up w)).0 ≡ true
    → All (λ e. IsAway m d.entries k q e.1.task_id) d.entries
    → let d' = (cleanup cipher cfg m d).1 in
      (d'.dirs q ≡ d.dirs q) × (path_or "" (find k d'.entries) ≡ path_or "" (find k d.entries))
cleanup-IsSpared cipher cfg m w d k q calm at_work away = (spared.kept, spared.placed)
  where
    bytes : Option ℕ
    bytes = d.dirs q

    path : String
    path = path_or "" (find k d.entries)

    clear : IsApart cipher m w k q at_work d.entries bytes path d
    clear j (inl e) other = absurd (false≢true (sym other ∙ e))
    clear j (inr (_, h)) other = h

    spared : IsSpared cipher m w k q at_work d.entries bytes path (cleanup cipher cfg m d).1
    spared =
        cleanup-Keeps cipher m cfg (IsSpared cipher m w k q at_work d.entries bytes path)
          (IsAway m d.entries k q) (λ d' h. h.known)
          (reach-IsSpared cipher m w k q at_work d.entries bytes path)
          (session-IsSpared cipher m w k q at_work d.entries bytes path)
          (resized-IsSpared cipher m w k q at_work d.entries bytes path)
          (delete-IsSpared cipher m w k q at_work d.entries bytes path) d
          (record { calm = calm; kept = refl; placed = refl; clear = clear; known = away })
