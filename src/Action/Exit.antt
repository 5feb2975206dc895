-- ===== src/Action/Exit.antt =====
-- When a job succeeds.
use mathlib.Core.Bool.{false≢true}
use codeforge.Prelude.{
  ℕ, ◌≡◌, refl, sym, eq_iff, String, Bool, true, false, ◌&&◌, ◌||◌, not, Option, none, some, arith,
  Bool-cases, inl, inr, if◌then◌else◌, ◌=s◌, contains, ◌↔◌,
}
use codeforge.Prelude.Int.{is_zero, ℤ}
use codeforge.Apperror.{Error}
use codeforge.Review.Parser.{parse_review_output}
use codeforge.Action.{Environment, ActionConfig, valid_types, parse_config, check_config}
use codeforge.Action.Context.{CiContext, detect_ci_context}
use codeforge.Action.Executor.{
  Outside, CliResult, ensure_cli, write_mcp_config, build_ci_prompt, cli_options, exit_of,
  handle_result, failed_early, after_run, prompted, configured, detected, execute_ci,
  unless_invalid, run_action,
}

-- What a type of session asks of the CLI's result: a review that does not request changes where the
-- job is to fail on them, or the exit code 0.
abbrev pub IsPassed : Outside → ActionConfig → CliResult → Type 0
unfolding parse_review_output
IsPassed out cfg result =
    (if cfg.session_type =s "pr_review" || cfg.session_type =s "code_review"
      then not (
          cfg.fail_on_request_changes
          && (parse_review_output out.texts result.output).verdict =s "request_changes")
      else is_zero result.exit_code)
    ≡ true

exit_iff : (b : Bool) → (if◌then◌else◌ {A = ℕ} b 1 0 ≡ 0) ↔ (not b ≡ true)
exit_iff true = (λ h. absurd (omega (arith, h)), λ h. absurd (false≢true h))
exit_iff false = (λ h. refl, λ h. refl)

exit_of_iff : (n : ℤ) → (exit_of n ≡ 0) ↔ (is_zero n ≡ true)
exit_of_iff n = go (is_zero n)
  where
    go : (b : Bool) → (if◌then◌else◌ {A = ℕ} b 0 1 ≡ 0) ↔ (b ≡ true)
    go true = (λ h. refl, λ h. refl)
    go false = (λ h. absurd (omega (arith, h)), λ h. absurd (false≢true h))

-- A valid type is that of a review, or one of the other two.
plain_type :
    (type : String)
    → contains valid_types type ≡ true
    → (type =s "pr_review" || type =s "code_review") ≡ false
    → (type =s "knowledge_update" || type =s "custom") ≡ true
plain_type type known = elim (Bool-cases ("pr_review" =s type)) [
  | inl e ↦ rw⁻¹ ((eq_iff "pr_review" type).0 e) (λ h. absurd (false≢true (sym h)))
  | inr a ↦ elim (Bool-cases ("code_review" =s type)) [
    | inl e ↦ rw⁻¹ ((eq_iff "code_review" type).0 e) (λ h. absurd (false≢true (sym h)))
    | inr b ↦ elim (Bool-cases ("knowledge_update" =s type)) [
      | inl e ↦ rw⁻¹ ((eq_iff "knowledge_update" type).0 e) (λ h. refl)
      | inr c ↦ elim (Bool-cases ("custom" =s type)) [
        | inl e ↦ rw⁻¹ ((eq_iff "custom" type).0 e) (λ h. refl)
        | inr d ↦ absurd (ground arith)
      ]
    ]
  ]
]

valid_type :
    (cfg : ActionConfig) → check_config cfg ≡ none → contains valid_types cfg.session_type ≡ true
unfolding check_config
valid_type cfg valid = go (contains valid_types cfg.session_type) _ _ valid
  where
    go :
        (b : Bool) (e : Error) (rest : Option Error)
        → (if not b then some e else rest) ≡ none
        → b ≡ true
    go true e rest h = refl
    go false e rest h = absurd (cc)

handle_result_iff :
    (out : Outside) (cfg : ActionConfig) (c : CiContext) (seconds : ℕ) (result : CliResult)
    → check_config cfg ≡ none
    → ((handle_result out cfg c seconds result).exit ≡ 0) ↔ IsPassed out cfg result
unfolding handle_result
handle_result_iff out cfg c seconds result valid =
    elim (Bool-cases (cfg.session_type =s "pr_review" || cfg.session_type =s "code_review")) [
      | inl e ↦ rw e (exit_iff _)
      | inr e ↦
          rw e (
            rw (plain_type cfg.session_type (valid_type cfg valid) e)
              (exit_of_iff result.exit_code))
    ]

-- The steps of a job that succeeds.
pub record Success (out : Outside) (getenv : Environment) (cfg : ActionConfig) : Type 0 where
  pub context : CiContext
  pub mcp : String
  pub prompt : String
  pub result : CliResult
  pub valid : check_config cfg ≡ none
  pub is_detected : detect_ci_context getenv out.read_event ≡ some context
  pub has_cli : ensure_cli out cfg.cli ≡ true
  pub has_mcp : write_mcp_config out cfg.mcp_config context.work_dir ≡ some mcp
  pub has_prompt : build_ci_prompt out cfg context ≡ some prompt
  pub has_result : out.run (cli_options out cfg context mcp prompt) ≡ some result
  pub passed : IsPassed out cfg result

succeeds :
    (out : Outside) (getenv : Environment) (cfg : ActionConfig) (seconds : ℕ)
    → Success out getenv cfg
    → (unless_invalid (execute_ci out getenv cfg seconds) (check_config cfg)).exit ≡ 0
unfolding execute_ci
succeeds out getenv cfg seconds s = rw s.valid (
    rw s.is_detected (
      rw s.has_cli (
        rw s.has_mcp (
          rw s.has_prompt (
            rw s.has_result
              ((handle_result_iff out cfg s.context seconds s.result s.valid).1 s.passed))))))

module _ (out : Outside) (getenv : Environment) (cfg : ActionConfig) (seconds : ℕ)
    (valid : check_config cfg ≡ none) where
  ran-Success :
      (c : CiContext) (mcp prompt : String) (o : Option CliResult)
      → detect_ci_context getenv out.read_event ≡ some c
      → ensure_cli out cfg.cli ≡ true
      → write_mcp_config out cfg.mcp_config c.work_dir ≡ some mcp
      → build_ci_prompt out cfg c ≡ some prompt
      → out.run (cli_options out cfg c mcp prompt) ≡ o
      → (after_run out cfg c seconds o).exit ≡ 0
      → Success out getenv cfg
  ran-Success c mcp prompt none d e m p r h = absurd (omega (arith, h))
  ran-Success c mcp prompt (some result) d e m p r h = record {
    context = c;
    mcp = mcp;
    prompt = prompt;
    result = result;
    valid = valid;
    is_detected = d;
    has_cli = e;
    has_mcp = m;
    has_prompt = p;
    has_result = r;
    passed = (handle_result_iff out cfg c seconds result valid).0 h;
  }

  prompted-Success :
      (c : CiContext) (mcp : String) (o : Option String)
      → detect_ci_context getenv out.read_event ≡ some c
      → ensure_cli out cfg.cli ≡ true
      → write_mcp_config out cfg.mcp_config c.work_dir ≡ some mcp
      → build_ci_prompt out cfg c ≡ o
      → (prompted out cfg c seconds mcp o).exit ≡ 0
      → Success out getenv cfg
  prompted-Success c mcp none d e m p h = absurd (omega (arith, h))
  prompted-Success c mcp (some prompt) d e m p h = ran-Success c mcp prompt _ d e m p refl h

  configured-Success :
      (c : CiContext) (o : Option String)
      → detect_ci_context getenv out.read_event ≡ some c
      → ensure_cli out cfg.cli ≡ true
      → write_mcp_config out cfg.mcp_config c.work_dir ≡ o
      → (configured out cfg c seconds o).exit ≡ 0
      → Success out getenv cfg
  configured-Success c none d e m h = absurd (omega (arith, h))
  configured-Success c (some mcp) d e m h = prompted-Success c mcp _ d e m refl h

  detected-Success :
      (o : Option CiContext)
      → detect_ci_context getenv out.read_event ≡ o
      → (detected out cfg seconds o).exit ≡ 0
      → Success out getenv cfg
  detected-Success none d h = absurd (omega (arith, h))
  detected-Success (some c) d h = go (ensure_cli out cfg.cli) refl h
    where
      go :
          (b : Bool)
          → ensure_cli out cfg.cli ≡ b
          → (if b
              then configured out cfg c seconds (write_mcp_config out cfg.mcp_config c.work_dir)
              else failed_early).exit
            ≡ 0
          → Success out getenv cfg
      go true e k = configured-Success c _ d e refl k
      go false e k = absurd (omega (arith, k))

-- A job exits with 0 exactly if its configuration is valid, its context is detected, the CLI is there
-- or can be installed, the MCP configuration is written, the prompt is rendered, the CLI gives a
-- result, and this result passes: for a review that means the verdict alone, never the exit code.
pub run_action_iff :
    (out : Outside) (getenv : Environment) (seconds : ℕ)
    → ((run_action out getenv seconds).exit ≡ 0) ↔ Success out getenv (parse_config getenv)
unfolding run_action execute_ci
run_action_iff out getenv seconds = (
  go (check_config (parse_config getenv)) refl,
  succeeds out getenv (parse_config getenv) seconds,
)
  where
    go :
        (o : Option Error)
        → check_config (parse_config getenv) ≡ o
        → (unless_invalid (execute_ci out getenv (parse_config getenv) seconds) o).exit ≡ 0
        → Success out getenv (parse_config getenv)
    go none valid h = detected-Success out getenv (parse_config getenv) seconds valid _ refl h
    go (some e) valid h = absurd (omega (arith, h))
