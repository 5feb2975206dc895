-- ===== src/Schedule/Tests.antt =====
-- Rounds at two schedules.
use mathlib.Core.Bool.{false≢true}
use codeforge.Prelude.{
  ℕ, suc, ◌≡◌, ◌≢◌, ◌<◌, Bool, if◌then◌else◌, ◌=s◌, refl, sym, ap, ◌∙◌, In, eq_iff, option_or,
  String, true, false, Option, none, some, [], ◌∷◌, arith, inl, inr,
}
use codeforge.Session.Creating.{create, seal, store_new}
use codeforge.Session.Service.{effective_prompt}
use codeforge.Session.World.{World, ok}
use codeforge.Session.Samples.{no_entries, world_of, request, draws, marking}
use codeforge.Schedule.{Schedule, Library, is_due, run_due, marked_row}
use codeforge.Schedule.Leaving.{Leaves}
use codeforge.Schedule.Rounds.{IsForward, IsUnique, IsRound, run_due_lem}

-- An expression means one unit of time later, but "never" means no time.
abbrev next_of : String → ℕ → Option ℕ
next_of cron t = if cron =s "never" then none else some (suc t)

abbrev library : Library
library = record { parse = λ cron. some (next_of cron); decode = λ _. some request }

abbrev daily : Schedule
daily = record {
  id = "s";
  name = "tests";
  cron = "@daily";
  enabled = true;
  session_request = "{}";
  last_run_at = none;
  last_session_id = "";
  created_at = 3;
  updated_at = 3;
  next_run_at = none;
}

abbrev switched_off : Schedule
switched_off = record daily { id = "t"; enabled = false }

library-IsForward : IsForward library
library-IsForward cron next h t n e =
    given (cron =s "never") (ap (λ o. option_or {A = ℕ → Option ℕ} o (λ _. none) t) h ∙ e)
  where
    given : (b : Bool) → (if b then none else some (suc t)) ≡ some n → t < n
    given true p = absurd (cc)
    given false p = let same : suc t ≡ n = cc in omega (arith, same)

apart : ◌≢◌ {A = String} "s" "t"
apart same = false≢true ((eq_iff "s" "t").1 same)

two-IsUnique : IsUnique (daily ∷ switched_off ∷ [])
two-IsUnique s t (inl a) (inl b) same = sym a ∙ b
two-IsUnique s t (inr (inl a)) (inr (inl b)) same = sym a ∙ b
two-IsUnique s t (inl a) (inr (inl b)) same =
    absurd (apart (ap (λ x. x.id) a ∙ same ∙ ap (λ x. x.id) (sym b)))
two-IsUnique s t (inr (inl a)) (inl b) same =
    absurd (apart (ap (λ x. x.id) b ∙ sym same ∙ ap (λ x. x.id) (sym a)))
two-IsUnique s t (inl a) (inr (inr b)) same = absurd b
two-IsUnique s t (inr (inl a)) (inr (inr b)) same = absurd b
two-IsUnique s t (inr (inr a)) h same = absurd a

abbrev world : World
world = world_of no_entries (some [])

run_due_lem_example :
    Leaves
      (λ after. IsRound library 9 (daily ∷ switched_off ∷ []) after × In switched_off after)
      (run_due library marking (λ _. draws) 9 (daily ∷ switched_off ∷ []) world)
run_due_lem_example =
    run_due_lem library marking (λ _. draws) 9 (daily ∷ switched_off ∷ []) switched_off world
      library-IsForward two-IsUnique (inr (inl refl)) (inl refl)

first_runs :
    (run_due library marking (λ _. draws) 9 (daily ∷ switched_off ∷ []) world).0
    ≡ ok (marked_row 9 "c" daily ∷ switched_off ∷ [])
unfolding run_due create effective_prompt seal store_new
first_runs = refl

-- 30 February: the library finds no time, and the schedule is due however late it has run.
abbrev leap : Schedule
leap = record daily { cron = "never" }

runs_again : (now later : ℕ) → is_due library later (marked_row now "c" leap) ≡ true
unfolding is_due
runs_again now later = refl
