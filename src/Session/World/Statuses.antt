-- ===== src/Session/World/Statuses.antt =====
-- The stored statuses, and how an operation moves them.
use codeforge.Prelude.{
  Bool, true, false, if◌then◌else◌, ℕ, ◌≡◌, refl, subst, String, Option, none, some, ◌=s◌, arith,
  eq_iff, Bool-cases, update, inl, inr, List,
}
use codeforge.Session.Status.{Status}
use codeforge.Session.Status.Graph.{◌⟶◌, ◌⟶*◌, here, step}
use codeforge.Apperror.{Error}
use codeforge.Session.World.{
  ◌>>◌, Hash, Entry, World, M, entry_hash, entry_status, set_ttl, hset, status_at, ◌>>=◌, Result,
  Row, reach, persist_to_sqlite, lift, require, ignore, attempt, modify,
}
use codeforge.Session.World.Rules.{Ensures, bind_rule}

⟶*-trans : {s t u : Status} → s ⟶* t → t ⟶* u → s ⟶* u
⟶*-trans here q = q
⟶*-trans (step e p) q = step e (⟶*-trans p q)

-- A stored status stays, or moves along edges of the diagram; it does not vanish.
abbrev pub Moved : Option Status → Option Status → Type 0
Moved none t = Unit
Moved (some s) t = (u : Status) × (t ≡ some u) × (s ⟶* u)

pub Moved-refl : (s : Option Status) → Moved s s
Moved-refl none = tt
Moved-refl (some s) = (s, refl, here)

pub Moved-trans : (s t u : Option Status) → Moved s t → Moved t u → Moved s u
Moved-trans none t u p q = tt
Moved-trans (some s) t u (v, e, p) q =
    let (x, e', p') = subst (λ y. Moved y u) e q in (x, e', ⟶*-trans p p')

pub Moved-known :
    (o : Option Status) (t : Status) → ((c : Status) → o ≡ some c → c ⟶* t) → Moved o (some t)
Moved-known none t h = tt
Moved-known (some c) t h = (t, refl, h c refl)

pub Moved-edge : (s : Option Status) (c t : Status) → s ≡ some c → c ⟶ t → Moved s (some t)
Moved-edge s c t e edge = rw e (t, refl, step edge here)

-- What an operation that starts in `w` leaves behind.
abbrev pub Keeps : {A : Type 0} → World → A → World → Type 0
Keeps w _ w' = (j : String) → Moved (status_at w j) (status_at w' j)

abbrev pub IsSafe : {A : Type 0} → M A → Type 0
IsSafe m = (w : World) → Ensures m w (Keeps w)

pub Keeps-refl : (w : World) (j : String) → Moved (status_at w j) (status_at w j)
Keeps-refl w j = Moved-refl (status_at w j)

pub >>=-IsSafe :
    {A B : Type 0} (m : M A) (f : A → M B) → IsSafe m → ((a : A) → IsSafe (f a)) → IsSafe (m >>= f)
>>=-IsSafe m f p q w =
    bind_rule m f w (Keeps w) (Keeps w) (p w) (λ e w' h. h)
      λ a w' h j. Moved-trans (status_at w j) (status_at w' j) _ (h j) (q a w' j)

-- Operations that write no status.
pub then-IsSafe : (m k : M (Unit {0})) → IsSafe m → IsSafe k → IsSafe (m >> k)
then-IsSafe m k safe_m safe_k = >>=-IsSafe m (λ _. k) safe_m λ _. safe_k

pub choice-IsSafe :
    {A : Type 0} (b : Bool) (m k : M A) → IsSafe m → IsSafe k → IsSafe (if b then m else k)
choice-IsSafe true m k safe_m safe_k = safe_m
choice-IsSafe false m k safe_m safe_k = safe_k

pub reach-IsSafe : (e : Error) → IsSafe (reach e)
unfolding reach
reach-IsSafe e w = Keeps-refl w

pub persist_to_sqlite-IsSafe : (f : List Row → List Row) → IsSafe (persist_to_sqlite f)
unfolding persist_to_sqlite
persist_to_sqlite-IsSafe f w = Keeps-refl w

pub lift-IsSafe : {A : Type 0} (r : Result A) → IsSafe (lift r)
lift-IsSafe r w = Keeps-refl w

pub require-IsSafe : (o : Option Error) → IsSafe (require o)
require-IsSafe none w = Keeps-refl w
require-IsSafe (some e) w = Keeps-refl w

pub ignore-IsSafe : {A : Type 0} (m : M A) → IsSafe m → IsSafe (ignore m)
ignore-IsSafe m p w = p w

pub attempt-IsSafe : {A : Type 0} (m : M A) → IsSafe m → IsSafe (attempt m)
attempt-IsSafe m p w = p w

-- The time to live says nothing of the status.
pub status_at-set_ttl :
    (k : String) (t : Option ℕ) (w : World) (j : String)
    → entry_status (update w.state k (set_ttl t (w.state k)) j) ≡ status_at w j
status_at-set_ttl k t w j = elim (Bool-cases (k =s j)) [
  | inl same ↦ rw same (rw (← (eq_iff k j).0 same) (ground arith))
  | inr apart ↦ rw apart
]

-- HSET moves the status of its key alone.
pub Moved-hset :
    (k : String) (f : Hash → Hash) (w : World)
    → Moved (status_at w k) (f (entry_hash (w.state k))).status
    → (j : String) → Moved (status_at w j) (status_at (hset k f w) j)
Moved-hset k f w m j = elim (Bool-cases (k =s j)) [
  | inl same ↦ rw same (
      subst (λ x. Moved (status_at w x) (f (entry_hash (w.state k))).status) ((eq_iff k j).0 same)
        m)
  | inr apart ↦ rw apart (Moved-refl (status_at w j))
]

-- A write that leaves the field alone.
pub Moved-hset_same :
    (k : String) (f : Hash → Hash) (w : World)
    → ((h : Hash) → (f h).status ≡ h.status)
    → (j : String) → Moved (status_at w j) (status_at (hset k f w) j)
Moved-hset_same k f w same =
    Moved-hset k f w (rw (same (entry_hash (w.state k))) (kept (w.state k)))
  where
    kept : (o : Option Entry) → Moved (entry_status o) (entry_hash o).status
    kept none = tt
    kept (some e) = Moved-refl e.hash.status

pub hset-IsSafe :
    (k : String) (f : Hash → Hash)
    → ((h : Hash) → (f h).status ≡ h.status)
    → IsSafe (modify (hset k f))
hset-IsSafe k f same w = Moved-hset_same k f w same
