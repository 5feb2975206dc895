-- ===== src/Workspace/Contained.antt =====
-- Where the cleaner removes directories.
use text.Mathlib.Text.{starts_with}
use text.Mathlib.TextEquality.{starts_with_iff}
use text.Mathlib.TextLemmas.{append_assoc}
use mathlib.Core.Bool.{false≢true}
use codeforge.Prelude.{
  ◌≡◌, refl, sym, ap, ◌∙◌, subst, String, true, false, Option, Bool-cases, inl, inr, ◌=s◌, ◌<>◌,
  eq_iff, ℕ,
}
use codeforge.Session.World.{Result, ok, err, reach, lost}
use codeforge.Session.Service.{Cipher}
use codeforge.Session.Loading.{get_session}
use codeforge.Workspace.{
  Disk, Manager, call, get_workspace, delete_workspace, remove_all, is_beneath, is_inside, forget,
  path_or,
}
use codeforge.Workspace.Cleaner.{CleanerConfig, cleanup}
use codeforge.Workspace.Keeping.{cleanup-Keeps}
use codeforge.Workspace.Giving.{all-AllKnown}

starts_with_trans :
    (a b c : String) → starts_with a b ≡ true → starts_with b c ≡ true → starts_with a c ≡ true
starts_with_trans a b c h k =
    let (u, p) = (starts_with_iff a b).0 h in
    let (v, q) = (starts_with_iff b c).0 k in
    (starts_with_iff a c).1 (v <> u, sym (append_assoc c v u) ∙ ap (λ t. t <> u) q ∙ p)

starts_with_append : (a b c : String) → starts_with a c ≡ true → starts_with (a <> b) c ≡ true
starts_with_append a b c h =
    let (u, p) = (starts_with_iff a c).0 h in
    (starts_with_iff (a <> b) c).1 (u <> b, sym (append_assoc c u b) ∙ ap (λ t. t <> b) p)

-- What is beneath a path inside the base is inside it.
beneath-inside :
    (m : Manager) (p q : String)
    → is_inside m p ≡ true
    → is_beneath p q ≡ true
    → is_inside m q ≡ true
beneath-inside m p q h b = elim (Bool-cases (q =s p)) [
  | inl e ↦ subst (λ x. is_inside m x ≡ true) (sym ((eq_iff q p).0 e)) h
  | inr e ↦ starts_with_trans q (p <> "/") base (rw e at b) (starts_with_append p "/" base h)
]
  where
    base : String
    base = m.absolute m.base_path <> "/"

module _ (m : Manager) (before : String → Option ℕ) where
  abbrev pub IsContained : Disk → Type 0
  IsContained d = (q : String) → is_inside m q ≡ false → d.dirs q ≡ before q

  forget-IsContained :
      {A : Type 0} (k : String) (r : Result A) (d : Disk)
      → IsContained d
      → IsContained (forget k r d)
  forget-IsContained k (err e) d h = h
  forget-IsContained k (ok a) d h = h

  remove_all-IsContained :
      (p : String) (d : Disk)
      → is_inside m p ≡ true
      → IsContained d
      → IsContained (remove_all m p d)
  unfolding remove_all
  remove_all-IsContained p d inside h q out = elim (Bool-cases (m.is_removable p)) [
    | inr e ↦ rw e (h q out)
    | inl e ↦ elim (Bool-cases (is_beneath p q)) [
      | inl b ↦ absurd (false≢true (sym out ∙ beneath-inside m p q inside b))
      | inr b ↦ rw (e, b) (h q out)
    ]
  ]

  delete_workspace-IsContained :
      (k : String) (d : Disk) → IsContained d → IsContained (delete_workspace m k d).1
  unfolding delete_workspace get_workspace
  delete_workspace-IsContained k d h = elim (Bool-cases (is_inside m p)) [
    | inr e ↦ rw e h
    | inl e ↦ rw e (
        forget-IsContained k (call (reach lost) gone).0 (call (reach lost) gone).1
          (remove_all-IsContained p read e h))
  ]
    where
      read : Disk
      read = (get_workspace k d).1

      p : String
      p = m.absolute (path_or (m.join m.base_path k) (get_workspace k d).0)

      gone : Disk
      gone = remove_all m p read

-- A round of the cleaner, the emergency clean-up included and whichever calls fail, removes no
-- directory outside the base of the workspaces, whatever paths the entries in Redis hold.
pub cleanup-IsContained :
    (cipher : Cipher) (cfg : CleanerConfig) (m : Manager) (d : Disk)
    → IsContained m d.dirs (cleanup cipher cfg m d).1
cleanup-IsContained cipher cfg m d =
    cleanup-Keeps cipher m cfg (IsContained m d.dirs) (λ _. Unit {0})
      (λ d' h. all-AllKnown d'.entries) (λ d' h. h) (λ k d' h. h) (λ k n s d' h found. h)
      (λ k d' p h idle.
        delete_workspace-IsContained m d.dirs k (call (get_session cipher k) d').1 h)
      d λ q out. refl
