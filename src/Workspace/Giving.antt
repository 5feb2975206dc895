-- ===== src/Workspace/Giving.antt =====
-- Programs on a disk: what they keep, and what they give.
use codeforge.Prelude.{
  ◌≡◌, String, Bool, true, false, Option, none, some, List, [], ◌∷◌, ◌++◌, if◌then◌else◌, ◌=s◌,
  Bool-cases, inl, inr, subst,
}
use codeforge.Session.Listing.Pages.{All}
use codeforge.Workspace.{Workspace, Disk, D, ◌>>=◌, find}

-- A program keeps what holds of a disk, and gives a value of which more holds.
abbrev pub Keeps : (Disk → Type 0) → {A : Type 0} → D A → Type 0
Keeps I f = (d : Disk) → I d → I (f d).1

abbrev pub Gives : (Disk → Type 0) → {A : Type 0} → (A → Disk → Type 0) → D A → Type 0
Gives I Q f = (d : Disk) → I d → I (f d).1 × Q (f d).0 (f d).1

pub bind-Keeps :
    (I : Disk → Type 0) {A B : Type 0} (f : D A) (g : A → D B)
    → Keeps I f
    → ((a : A) → Keeps I (g a))
    → Keeps I (f >>= g)
bind-Keeps I f g hf hg d h = hg (f d).0 (f d).1 (hf d h)

pub given-Keeps :
    (I : Disk → Type 0) {A B : Type 0} (Q : A → Disk → Type 0) (f : D A) (g : A → D B)
    → Gives I Q f
    → ((a : A) (d : Disk) → I d → Q a d → I (g a d).1)
    → Keeps I (f >>= g)
given-Keeps I Q f g hf hg d h = let (k, q) = hf d h in hg (f d).0 (f d).1 k q

pub bind-Gives :
    (I : Disk → Type 0) {A B : Type 0} (Q : A → Disk → Type 0) (R : B → Disk → Type 0) (f : D A)
    (g : A → D B)
    → Gives I Q f
    → ((a : A) (d : Disk) → I d → Q a d → I (g a d).1 × R (g a d).0 (g a d).1)
    → Gives I R (f >>= g)
bind-Gives I Q R f g hf hg d h = let (k, q) = hf d h in hg (f d).0 (f d).1 k q

pub if-Keeps :
    (I : Disk → Type 0) {A : Type 0} (b : Bool) (x y : A × Disk)
    → I x.1
    → I y.1
    → I (if b then x else y).1
if-Keeps I true x y hx hy = hx
if-Keeps I false x y hx hy = hy

pub if-Gives :
    {A : Type 0} (H : A × Disk → Type 0) (b : Bool) (x y : A × Disk)
    → H x
    → H y
    → H (if b then x else y)
if-Gives H true x y hx hy = hx
if-Gives H false x y hx hy = hy

pub All-append :
    {A : Type 0} (P : A → Type 0) (xs ys : List A) → All P xs → All P ys → All P (xs ++ ys)
All-append P [] ys h k = k
All-append P (x ∷ xs) ys (p, h) k = (p, All-append P xs ys h k)

-- A test of the ids of sessions, of the entries whose sessions pass it.
abbrev pub AllKnown : (String → Type 0) → List (String × Workspace) → Type 0
AllKnown P = All λ e. P e.1.task_id

pub all-AllKnown : (es : List (String × Workspace)) → AllKnown (λ _. Unit {0}) es
all-AllKnown [] = tt
all-AllKnown (e ∷ es) = (tt, all-AllKnown es)

pub find-IsKnown :
    (P : String → Type 0) (k : String) (es : List (String × Workspace)) (s : Workspace)
    → AllKnown P es
    → find k es ≡ some s
    → P s.task_id
find-IsKnown P k [] s h e = absurd (cc)
find-IsKnown P k ((j, t) ∷ es) s (p, h) e = elim (Bool-cases (j =s k)) [
  | inl q ↦ subst (IsKnownIn P) (rw q at e) p
  | inr q ↦ find-IsKnown P k es s h (rw q at e)
]
  where
    IsKnownIn : (String → Type 0) → Option Workspace → Type 0
    IsKnownIn P none = Unit
    IsKnownIn P (some u) = P u.task_id
