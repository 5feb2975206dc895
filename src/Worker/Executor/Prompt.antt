-- ===== src/Worker/Executor/Prompt.antt =====
-- internal/worker/executor.go: buildPrompt and cloneWithRetry; and GetIterations of the session service.
--
-- The templates of prompts are a parameter, and so is the table of iterations in SQLite. `len` counts
-- the bytes of a text.
pub mod Context
pub mod Attempts
mod Tests
use Prim.Native.String.{len}
use codeforge.Prelude.{
  ℕ, ◌+◌, String, Bool, true, false, ◌&&◌, ◌||◌, not, Option, none, some, List, [], ◌∷◌,
  if◌then◌else◌, ◌=s◌, ◌<>◌, ltb, leb, option_or,
}
use codeforge.Prelude.Int.{ℤ, pos}
use codeforge.Prelude.Decimal.{decimal}
use codeforge.Apperror.{Error, wrapped}
use codeforge.Session.Status.{text}
use codeforge.Session.Model.{Config, Iteration, Session}
use codeforge.Session.World.{
  World, Row, M, Result, ok, err, ◌>>=◌, ◌>>◌, pure, get, attempt, reach, lost,
}

-- What the template of a pull request's review shows.
pub record PrReviewData : Type 0 where
  pub user_prompt : String
  pub pr_number : ℤ
  pub pr_branch : String
  pub base_branch : String

pub record Templates : Type 0 where
  pub render_task : String → String → Option String
  pub render_pr_review : PrReviewData → Option String

abbrev pub or_table : List Iteration → Option (List Row) → List Iteration → M (List Iteration)
or_table stored rows (it ∷ its) = pure (it ∷ its)
or_table stored none [] = pure []
or_table stored (some rows) [] = do
  reach (wrapped "getting iterations from sqlite" lost)
  pure stored

-- GetIterations, for what the table holds of the session.
unfoldable pub get_iterations : List Iteration → String → M (List Iteration)
unfolding reach
get_iterations stored k = do
  reach (wrapped "loading iterations" lost)
  w ← get
  or_table stored w.sqlite (w.iterations k)

abbrev pub user_prompt : Session → String
user_prompt t = if t.current_prompt =s "" then t.prompt else t.current_prompt

abbrev pub review_data : Config → String → PrReviewData
review_data c prompt = record {
  user_prompt = prompt;
  pr_number = c.pr_number;
  pr_branch = c.source_branch;
  base_branch = if c.target_branch =s "" then "main" else c.target_branch;
}

-- The template of a session's type; `none` is one that failed.
abbrev pub rendered : Templates → String → String → Option Config → Option String
rendered ts type prompt none = ts.render_task type prompt
rendered ts type prompt (some c) =
    if type =s "pr_review"
    then ts.render_pr_review (review_data c prompt)
    else ts.render_task type prompt

abbrev pub first_prompt : Templates → Session → String
first_prompt ts t =
    let prompt = user_prompt t in
    if t.session_type =s "" || t.session_type =s "code"
    then prompt
    else option_or (rendered ts t.session_type prompt t.config) prompt

abbrev pub max_context_chars : ℕ
max_context_chars = 50000

abbrev pub entry_text : Iteration → String
entry_text it =
    "### Iteration "
    <> decimal (pos it.number)
    <> "\n**Prompt:** "
    <> it.prompt
    <> "\n**Result summary:** "
    <> it.result
    <> "\n**Status:** "
    <> text it.status
    <> "\n\n"

abbrev pub truncated : String
truncated = "(earlier iterations truncated for context limits)\n\n"

-- The loop over the iterations, behind so many bytes.
unfoldable pub entries_from : ℕ → List Iteration → String
entries_from total [] = ""
entries_from total (it ∷ its) =
    let n = total + len (entry_text it) in
    let more = entries_from n its in
    if ltb max_context_chars n then truncated else entry_text it <> more

abbrev pub with_history : String → List Iteration → String
with_history prompt its =
    "## Previous iterations on this codebase:\n\n"
    <> entries_from 0 its
    <> "## Current instruction:\n\n"
    <> prompt

abbrev pub with_iterations : String → Result (List Iteration) → String
with_iterations prompt (err e) = prompt
with_iterations prompt (ok []) = prompt
with_iterations prompt (ok (it ∷ its)) = with_history prompt (it ∷ its)

abbrev pub with_context : List Iteration → Session → M String
with_context stored t = do
  answer ← attempt (get_iterations stored t.id)
  pure (with_iterations (user_prompt t) answer)

-- buildPrompt.
unfoldable pub build_prompt : Templates → List Iteration → Session → M String
unfolding get_iterations entries_from
build_prompt ts stored t =
    if leb t.iteration 1 then pure (first_prompt ts t) else with_context stored t

-- What an attempt to clone comes to: whether git has failed, and whether the context was done by then
-- or while the next attempt was waited for.
pub record Attempt : Type 0 where
  pub error : Option Error
  pub done_after : Bool
  pub done_waiting : Bool

-- The attempts that are left in the loop of cloneWithRetry, behind the error of the last one: how many
-- are made, and what is returned.
abbrev pub one_more : ℕ × Option Error → ℕ × Option Error
one_more (n, e) = (n + 1, e)

abbrev pub after_attempt :
    Bool → Option Error → (Option Error → ℕ × Option Error) → ℕ × Option Error
after_attempt done none next = (1, none)
after_attempt true (some e) next = (1, some e)
after_attempt false (some e) next = one_more (next (some e))

abbrev pub retry_from : Option Error → List Attempt → ℕ × Option Error
retry_from last [] = (0, last)
retry_from last (a ∷ rest) =
    let made = after_attempt a.done_after a.error (λ e. retry_from e rest) in
    if a.done_waiting then (0, last) else made

-- cloneWithRetry, for its three attempts: the first is not waited for.
unfoldable pub clone_with_retry : Attempt → Attempt → Attempt → ℕ × Option Error
clone_with_retry a b c = after_attempt a.done_after a.error (λ e. retry_from e (b ∷ c ∷ []))
