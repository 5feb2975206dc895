-- ===== src/Session/Status/Graph.antt =====
-- The transition diagram of a session as a relation, and what ValidateTransition decides.
use mathlib.Core.Bool.{false≢true}
use codeforge.Prelude.{
  ◌≡◌, ◌≢◌, refl, sym, ◌∙◌, ◌↔◌, ◌⊎◌, inl, inr, none, Bool, true, false, arith, Bool-cases,
}
use codeforge.Session.Status.{
  Status, pending, cloning, running, completed, failed, awaiting_instruction, reviewing,
  creating_pr, pr_created, canceled, other, validate_transition, is_finished,
}

-- Who moves a session: the worker while it works, an abort, the restart of the server, the user.
infix 40 ◌⟶◌ ◌⟶*◌
pub data ◌⟶◌ : Status → Status → Type 0 where
  clone : pending ⟶ cloning
  start : pending ⟶ running
  start_cloned : cloning ⟶ running
  start_instructed : awaiting_instruction ⟶ running
  complete : running ⟶ completed
  complete_review : reviewing ⟶ completed
  requeue_clone : cloning ⟶ pending
  requeue_run : running ⟶ pending
  instruct : completed ⟶ awaiting_instruction
  instruct_pr : pr_created ⟶ awaiting_instruction
  review : completed ⟶ reviewing
  review_pr : pr_created ⟶ reviewing
  review_instructed : awaiting_instruction ⟶ reviewing
  create_pr : completed ⟶ creating_pr
  recreate_pr : pr_created ⟶ creating_pr
  open_pr : creating_pr ⟶ pr_created
  close_pr : pr_created ⟶ completed
  fail_pending : pending ⟶ failed
  fail_cloning : cloning ⟶ failed
  fail_running : running ⟶ failed
  fail_reviewing : reviewing ⟶ failed
  fail_instructed : awaiting_instruction ⟶ failed
  fail_pr : creating_pr ⟶ failed
  cancel_pending : pending ⟶ canceled
  cancel_cloning : cloning ⟶ canceled
  cancel_running : running ⟶ canceled
  cancel_reviewing : reviewing ⟶ canceled
  cancel_instructed : awaiting_instruction ⟶ canceled

pub ruleset edges = (
  clone, start, start_cloned, start_instructed, complete, complete_review, requeue_clone,
  requeue_run, instruct, instruct_pr, review, review_pr, review_instructed, create_pr, recreate_pr,
  open_pr, close_pr, fail_pending, fail_cloning, fail_running, fail_reviewing, fail_instructed,
  fail_pr, cancel_pending, cancel_cloning, cancel_running, cancel_reviewing, cancel_instructed,
)

pub data ◌⟶*◌ : Status → Status → Type 0 where
  here : {s : Status} → s ⟶* s
  step : {s t u : Status} → s ⟶ t → t ⟶* u → s ⟶* u

valid_of_⟶ : {s t : Status} → s ⟶ t → validate_transition s t ≡ none
unfolding validate_transition
valid_of_⟶ clone = refl
valid_of_⟶ _ = refl

⟶_of_valid : (s t : Status) → validate_transition s t ≡ none → s ⟶ t
unfolding validate_transition
⟶_of_valid s t h = grind (arith, edges)

-- ValidateTransition returns no error exactly for the edges of the diagram `◌⟶◌`.
pub validate_transition_iff : (s t : Status) → (validate_transition s t ≡ none) ↔ (s ⟶ t)
validate_transition_iff s t = (⟶_of_valid s t, valid_of_⟶)

-- One of the ten constants of model.go.
abbrev pub IsKnown : Status → Type 0
IsKnown (other _) = ⊥
IsKnown _ = Unit

has_edge : (s : Status) → IsKnown s → is_finished s ≡ false → (t : Status) × (s ⟶ t)
has_edge pending _ h = (_, clone)
has_edge cloning _ h = (_, start_cloned)
has_edge running _ h = (_, complete)
has_edge completed _ h = (_, review)
has_edge awaiting_instruction _ h = (_, start_instructed)
has_edge reviewing _ h = (_, complete_review)
has_edge creating_pr _ h = (_, open_pr)
has_edge pr_created _ h = (_, close_pr)
has_edge failed _ h = cc
has_edge canceled _ h = cc
has_edge (other _) k h = absurd k

no_edge : {s t : Status} → s ⟶ t → is_finished s ≡ false
no_edge clone = refl
no_edge _ = refl

-- Of the known statuses, IsFinished holds exactly of those that no edge leaves.
pub is_finished_iff : (s : Status) → IsKnown s → (is_finished s ≡ true) ↔ ((t : Status) → ¬ (s ⟶ t))
is_finished_iff s k = (
  λ h t e. false≢true (sym (no_edge e) ∙ h),
  λ none_left. elim (Bool-cases (is_finished s)) [
    | inl yes' ↦ yes'
    | inr h ↦ absurd (none_left _ (has_edge s k h).1)
  ],
)

-- A session that is failed or canceled never gets another status by transitions.
pub finished_absorbs : {s t : Status} → is_finished s ≡ true → s ⟶* t → s ≡ t
finished_absorbs h here = refl
finished_absorbs h (step e r) = absurd (false≢true (sym (no_edge e) ∙ h))

-- The table "Valid Transitions" of docs/architecture.md.
abbrev pub documented : Status → Status → Bool
documented pending cloning = true
documented pending running = true
documented pending failed = true
documented cloning running = true
documented cloning failed = true
documented running completed = true
documented running failed = true
documented completed awaiting_instruction = true
documented completed creating_pr = true
documented completed reviewing = true
documented reviewing completed = true
documented reviewing failed = true
documented awaiting_instruction running = true
documented awaiting_instruction reviewing = true
documented awaiting_instruction failed = true
documented creating_pr pr_created = true
documented creating_pr failed = true
documented pr_created awaiting_instruction = true
documented pr_created reviewing = true
documented pr_created creating_pr = true
documented pr_created completed = true
documented _ _ = false

-- The documented table holds, and the code has two kinds of transitions more: a cancellation,
-- from five of the statuses that can fail, and the return of an interrupted session to pending.
pub documented_transitions :
    (s t : Status)
    → (validate_transition s t ≡ none) ↔ (
        (documented s t ≡ true)
        ⊎ ((t ≡ canceled) × (documented s failed ≡ true) × (s ≢ creating_pr))
        ⊎ ((t ≡ pending) × ((s ≡ cloning) ⊎ (s ≡ running))))
unfolding validate_transition
documented_transitions s t = ground arith
