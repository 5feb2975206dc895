-- ===== src/Worker/Executor/Prompt/Attempts.antt =====
-- How often a clone is tried.
use codeforge.Prelude.{
  ℕ, zero, suc, ◌+◌, ◌≤◌, ◌≡◌, refl, sym, ap, ◌∙◌, Bool, true, false, Option, none, some, List, [],
  ◌∷◌, arith, if◌then◌else◌, length,
}
use codeforge.Apperror.{Error}
use codeforge.Worker.Executor.Prompt.{Attempt, after_attempt, retry_from, clone_with_retry}

-- The error of the last of the first `n` attempts.
abbrev pub error_after : Option Error → ℕ → List Attempt → Option Error
error_after last zero rest = last
error_after last (suc n) [] = last
error_after last (suc n) (a ∷ rest) = error_after a.error n rest

-- What is returned after so many attempts.
abbrev pub IsOutcome : Option Error → List Attempt → ℕ × Option Error → Type 0
IsOutcome last rest (n, e) = (n ≤ length rest) × (e ≡ error_after last n rest)

after_attempt-IsOutcome :
    (done : Bool) (e last : Option Error) (rest : List Attempt) (a : Attempt)
    (next : Option Error → ℕ × Option Error)
    → a.error ≡ e
    → IsOutcome e rest (next e)
    → IsOutcome last (a ∷ rest) (after_attempt done e next)
after_attempt-IsOutcome done none last rest a next same h = (omega arith, sym same)
after_attempt-IsOutcome true (some e) last rest a next same h = (omega arith, sym same)
after_attempt-IsOutcome false (some e) last rest a next same h =
    (omega (arith, h.0), moved (next (some e)).0 h.1)
  where
    moved :
        (n : ℕ)
        → (next (some e)).1 ≡ error_after (some e) n rest
        → (next (some e)).1 ≡ error_after last (n + 1) (a ∷ rest)
    moved n k =
        let one_later : suc n ≡ n + 1 = omega arith in
        k
        ∙ ap (λ x. error_after x n rest) (sym same)
        ∙ ap (λ m. error_after last m (a ∷ rest)) one_later

if-IsOutcome :
    (b : Bool) (last : Option Error) (rest : List Attempt) (x y : ℕ × Option Error)
    → IsOutcome last rest x
    → IsOutcome last rest y
    → IsOutcome last rest (if b then x else y)
if-IsOutcome true last rest x y h k = h
if-IsOutcome false last rest x y h k = k

retry_from-IsOutcome :
    (last : Option Error) (rest : List Attempt) → IsOutcome last rest (retry_from last rest)
retry_from-IsOutcome last [] = (omega arith, refl)
retry_from-IsOutcome last (a ∷ rest) =
    if-IsOutcome a.done_waiting last (a ∷ rest) (0, last)
      (after_attempt a.done_after a.error (λ e. retry_from e rest)) (omega arith, refl)
      (after_attempt-IsOutcome a.done_after a.error last rest a (λ x. retry_from x rest) refl
        (retry_from-IsOutcome a.error rest))

-- cloneWithRetry makes one attempt at least and three at most, and returns what the last one that
-- it made has come to: no error exactly if this one has cloned.
pub clone_with_retry-IsOutcome :
    (a b c : Attempt)
    → (1 ≤ (clone_with_retry a b c).0) × IsOutcome none (a ∷ b ∷ c ∷ []) (clone_with_retry a b c)
unfolding clone_with_retry
clone_with_retry-IsOutcome a b c = (
  one a.done_after a.error (λ e. retry_from e (b ∷ c ∷ [])),
  after_attempt-IsOutcome a.done_after a.error none (b ∷ c ∷ []) a (λ e. retry_from e (b ∷ c ∷ []))
      refl (retry_from-IsOutcome a.error (b ∷ c ∷ [])),
)
  where
    one :
        (done : Bool) (e : Option Error) (next : Option Error → ℕ × Option Error)
        → 1 ≤ (after_attempt done e next).0
    one done none next = omega arith
    one true (some e) next = omega arith
    one false (some e) next = omega arith
