-- ===== src/Worker/Executor/Prompt/Tests.antt =====
-- Prompts and attempts at concrete values.
use codeforge.Prelude.{◌≡◌, refl, false, none, some, [], ◌∷◌}
use codeforge.Apperror.{opaque}
use codeforge.Session.Status.{completed}
use codeforge.Session.Model.{Iteration}
use codeforge.Worker.Executor.Prompt.{Attempt, clone_with_retry, entries_from}
use codeforge.Worker.Executor.Prompt.Context.{Shown, entries_from_lem}

abbrev iteration : Iteration
iteration = record {
  number = 1;
  prompt = "fix";
  result = "fixed";
  error = "";
  status = completed;
  changes = none;
  usage = none;
  started_at = 0;
  ended_at = none;
}

entries_from_lem_example : Shown 0 (iteration ∷ []) (entries_from 0 (iteration ∷ []))
entries_from_lem_example = entries_from_lem (iteration ∷ [])

abbrev broken : Attempt
broken = record { error = some (opaque "network"); done_after = false; done_waiting = false }

abbrev cloned : Attempt
cloned = record broken { error = none }

second_works : clone_with_retry broken cloned broken ≡ (2, none)
unfolding clone_with_retry
second_works = refl
