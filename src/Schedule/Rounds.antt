-- ===== src/Schedule/Rounds.antt =====
-- What a round of the scheduler makes of the table, whichever calls fail.
use mathlib.Core.Bool.{false≢true}
use codeforge.Prelude.{
  In, ℕ, ◌<◌, ◌≡◌, ◌⊎◌, refl, sym, ap, ◌∙◌, String, Bool, true, false, Option, none, some, List, [],
  ◌∷◌, arith, Bool-cases, Option-cases, inl, inr, if◌then◌else◌, ◌=s◌, eq_iff,
}
use codeforge.Session.World.{World}
use codeforge.Session.Service.{Cipher, Draws}
use codeforge.Session.Listing.Pages.{All}
use codeforge.Schedule.{Schedule, Library, rows_with, marked_row, next_run, due_by, is_due, run_due}
use codeforge.Schedule.Leaving.{Leaves, run_due-Leaves}

-- A time that Next gives is a later one; there may be none.
abbrev pub IsForward : Library → Type 0
IsForward lib =
    (cron : String) (next : ℕ → Option ℕ)
    → lib.parse cron ≡ some next
    → (t n : ℕ) → next t ≡ some n
    → t < n

-- It has run now, and is not due any more, or its expression means no time behind this one.
abbrev pub HasRun : Library → ℕ → Schedule → Type 0
HasRun lib now s =
    (s.last_run_at ≡ some now)
    × ((is_due lib now s ≡ false) ⊎ (next_run (lib.parse s.cron) now ≡ none))

-- Each row is one of before, or has run now.
abbrev pub IsRound : Library → ℕ → List Schedule → List Schedule → Type 0
IsRound lib now before = All (λ s. In s before ⊎ HasRun lib now s)

rests :
    (lib : Library) (now : ℕ) (cron : String)
    → IsForward lib
    → (due_by (lib.parse cron) now now ≡ false) ⊎ (next_run (lib.parse cron) now ≡ none)
rests lib now cron law = elim (Option-cases (lib.parse cron)) [
  | inl e ↦ inr (rw e refl)
  | inr (next, e) ↦ elim (Option-cases (next now)) [
    | inl n ↦ inr (rw e n)
    | inr (t, n) ↦ let later = law cron next e now t n in inl (rw e (rw n (ground (arith, later))))
  ]
]

marked_row-HasRun :
    (lib : Library) (now : ℕ) (session : String) (s : Schedule)
    → IsForward lib
    → HasRun lib now (marked_row now session s)
unfolding is_due
marked_row-HasRun lib now session s law = (refl, rests lib now s.cron law)

rows_with-IsRound :
    (lib : Library) (now : ℕ) (before table : List Schedule) (k session : String)
    → IsForward lib
    → IsRound lib now before table
    → IsRound lib now before (rows_with k (marked_row now session) table)
rows_with-IsRound lib now before [] k session law h = tt
rows_with-IsRound lib now before (s ∷ ss) k session law (p, h) =
    either (s.id =s k) (rows_with-IsRound lib now before ss k session law h)
  where
    rest : List Schedule
    rest = rows_with k (marked_row now session) ss

    either :
        (b : Bool)
        → IsRound lib now before rest
        → IsRound lib now before (if b then marked_row now session s ∷ rest else s ∷ rest)
    either true q = (inr (marked_row-HasRun lib now session s law), q)
    either false q = (p, q)

old_rows : (lib : Library) (now : ℕ) (before : List Schedule) → IsRound lib now before before
old_rows lib now before = all before λ s i. i
  where
    all :
        (ss : List Schedule) → ((s : Schedule) → In s ss → In s before) → IsRound lib now before ss
    all [] h = tt
    all (s ∷ ss) h = (inl (h s (inl refl)), all ss λ t i. h t (inr i))

In-rows_with :
    (s : Schedule) (k : String) (f : Schedule → Schedule) (table : List Schedule)
    → (s.id =s k) ≡ false
    → In s table
    → In s (rows_with k f table)
In-rows_with s k f [] other h = h
In-rows_with s k f (t ∷ ts) other (inl same) =
    let unmarked : (t.id =s k) ≡ false = ap (λ x. x.id =s k) same ∙ other in rw unmarked (inl same)
In-rows_with s k f (t ∷ ts) other (inr h) = either (t.id =s k) (In-rows_with s k f ts other h)
  where
    either :
        (b : Bool)
        → In s (rows_with k f ts)
        → In s (if b then f t ∷ rows_with k f ts else t ∷ rows_with k f ts)
    either true q = inr q
    either false q = inr q

-- A schedule that rests in this round: it is disabled, or not due.
abbrev pub IsResting : Library → ℕ → Schedule → Type 0
IsResting lib now s = (s.enabled ≡ false) ⊎ (is_due lib now s ≡ false)

abbrev pub IsUnique : List Schedule → Type 0
IsUnique table = (s t : Schedule) → In s table → In t table → s.id ≡ t.id → s ≡ t

not_fired :
    (lib : Library) (now : ℕ) (s t : Schedule)
    → (s.id ≡ t.id → s ≡ t)
    → IsResting lib now s
    → t.enabled ≡ true
    → is_due lib now t ≡ true
    → (s.id =s t.id) ≡ false
not_fired lib now s t unique rest on due = elim (Bool-cases (s.id =s t.id)) [
  | inl e ↦ absurd (apart (unique ((eq_iff s.id t.id).0 e)) rest)
  | inr e ↦ e
]
  where
    apart : s ≡ t → IsResting lib now s → ⊥
    apart same (inl off) = false≢true (sym off ∙ ap (λ x. x.enabled) same ∙ on)
    apart same (inr quiet) = false≢true (sym quiet ∙ ap (is_due lib now) same ∙ due)

-- A round of RunDue over rows with ids of their own, whichever calls fail, with a cron library whose
-- Next gives a later time or none: each row is then one of before, or it has run now and either is
-- not due at this time any more or has an expression for which Next gives no time; and a row that was
-- disabled or not due is still there.
pub run_due_lem :
    (lib : Library) (cipher : Cipher) (draws : String → Draws) (now : ℕ) (table : List Schedule)
    (s : Schedule) (w : World)
    → IsForward lib
    → IsUnique table
    → In s table
    → IsResting lib now s
    → Leaves
        (λ after. IsRound lib now table after × In s after)
        (run_due lib cipher draws now table w)
run_due_lem lib cipher draws now table s w law unique here rest =
    run_due-Leaves lib cipher draws now (λ after. IsRound lib now table after × In s after)
      (λ t. is_due lib now t ≡ true → (s.id =s t.id) ≡ false)
      (λ t session after p due (q, h). (
        rows_with-IsRound lib now table after t.id session law q,
        In-rows_with s t.id (marked_row now session) after (p due) h,
      ))
      table w (λ t i on. not_fired lib now s t (unique s t here i) rest on)
      (old_rows lib now table, here)
