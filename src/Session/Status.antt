-- ===== src/Session/Status.antt =====
-- internal/session/state.go and the constants of model.go: the states of a session.
pub mod Graph
use codeforge.Prelude.{
  String, Bool, true, false, ◌||◌, Option, none, some, List, [], ◌∷◌, if◌then◌else◌,
}
use codeforge.Prelude.{◌=s◌, ◌<>◌}
use codeforge.Apperror.{Error, app, err_invalid_transition}

-- Go's `type Status string`: its ten constants, and any other text.
pub data Status : Type 0 where
  pending cloning running completed failed awaiting_instruction reviewing creating_pr pr_created
        canceled :
      Status
  other : String → Status

abbrev pub text : Status → String
text pending = "pending"
text cloning = "cloning"
text running = "running"
text completed = "completed"
text failed = "failed"
text awaiting_instruction = "awaiting_instruction"
text reviewing = "reviewing"
text creating_pr = "creating_pr"
text pr_created = "pr_created"
text canceled = "canceled"
text (other s) = s

-- `==` on statuses.
abbrev pub is_status : Status → Status → Bool
is_status pending pending = true
is_status cloning cloning = true
is_status running running = true
is_status completed completed = true
is_status failed failed = true
is_status awaiting_instruction awaiting_instruction = true
is_status reviewing reviewing = true
is_status creating_pr creating_pr = true
is_status pr_created pr_created = true
is_status canceled canceled = true
is_status (other s) (other t) = s =s t
is_status _ _ = false

-- The map `validTransitions`; `none` for a key that it lacks.
valid_transitions : Status → Option (List Status)
valid_transitions pending = some (cloning ∷ running ∷ failed ∷ canceled ∷ [])
valid_transitions cloning = some (running ∷ failed ∷ canceled ∷ pending ∷ [])
valid_transitions running = some (completed ∷ failed ∷ canceled ∷ pending ∷ [])
valid_transitions reviewing = some (completed ∷ failed ∷ canceled ∷ [])
valid_transitions completed = some (awaiting_instruction ∷ creating_pr ∷ reviewing ∷ [])
valid_transitions failed = some []
valid_transitions canceled = some []
valid_transitions awaiting_instruction = some (running ∷ reviewing ∷ failed ∷ canceled ∷ [])
valid_transitions creating_pr = some (pr_created ∷ failed ∷ [])
valid_transitions pr_created =
    some (awaiting_instruction ∷ reviewing ∷ creating_pr ∷ completed ∷ [])
valid_transitions (other _) = none

-- The loop over the allowed statuses.
allows : List Status → Status → Bool
allows [] next = false
allows (s ∷ ss) next = is_status s next || allows ss next

abbrev transition_error : String → Error
transition_error message =
    app (record { err = err_invalid_transition; message = message; status = 409; fields = [] })

-- `none` is Go's nil error.
unfoldable pub validate_transition : Status → Status → Option Error
unfolding valid_transitions allows
validate_transition current next = elim (valid_transitions current) [
  | none ↦ some (transition_error ("unknown status: " <> text current))
  | some allowed ↦
      if allows allowed next
      then none
      else some (transition_error ("invalid transition: " <> text current <> " → " <> text next))
]

abbrev pub is_finished : Status → Bool
is_finished s = is_status s failed || is_status s canceled

abbrev pub is_idle : Status → Bool
is_idle s = is_status s completed || is_status s pr_created
