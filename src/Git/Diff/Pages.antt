-- ===== src/Git/Diff/Pages.antt =====
-- The pages of a pull request's files.
use codeforge.Prelude.{
  ℕ, zero, suc, ◌+◌, ◌<◌, ◌≤◌, ◌≡◌, ◌⊎◌, subst, refl, sym, ap, ◌∙◌, true, false, none, List, [],
  ◌∷◌, ◌++◌, arith, Bool-cases, inl, inr, ltb, length,
}
use codeforge.Git.Diff.{
  PrFile, DiffLineSet, Page, failed, files, Fetched, fetched, fetch_failed, out_of_fuel, page_size,
  with_files, with_lines, on_page, fetch_from, fetch_pr_diff_lines,
}

-- A page after which the loop does not ask again.
abbrev pub IsLast : Page → Type 0
IsLast failed = Unit
IsLast (files fs) = length fs < page_size

-- Full pages from a page on, and then one that is not full.
abbrev pub Answers : (ℕ → Page) → ℕ → List (List PrFile) → List PrFile → Type 0
Answers ask page [] rest = (ask page ≡ files rest) × (length rest < page_size)
Answers ask page (fs ∷ full) rest =
    (ask page ≡ files fs) × (page_size ≤ length fs) × Answers ask (suc page) full rest

abbrev pub flatten : List (List PrFile) → List PrFile
flatten [] = []
flatten (fs ∷ rest) = fs ++ flatten rest

with_files-append :
    (fs gs : List PrFile) (set : DiffLineSet)
    → with_files (fs ++ gs) set ≡ with_files gs (with_files fs set)
with_files-append [] gs set = refl
with_files-append (f ∷ fs) gs set = with_files-append fs gs (with_lines f.filename _ set)

append_assoc : (fs gs hs : List PrFile) → (fs ++ gs) ++ hs ≡ fs ++ (gs ++ hs)
append_assoc [] gs hs = refl
append_assoc (f ∷ fs) gs hs = ap (λ t. f ∷ t) (append_assoc fs gs hs)

fetch_from_complete :
    (ask : ℕ → Page) (fuel page : ℕ) (full : List (List PrFile)) (rest : List PrFile)
    (set : DiffLineSet)
    → Answers ask page full rest
    → length full < fuel
    → fetch_from ask fuel page set ≡ fetched (with_files (flatten full ++ rest) set)
unfolding fetch_from
fetch_from_complete ask zero page full rest set h k = absurd (omega (arith, k))
fetch_from_complete ask (suc fuel) page [] rest set (e, short) k =
    let last : ltb (length rest) page_size ≡ true = ground arith in rw (e, last) refl
fetch_from_complete ask (suc fuel) page (fs ∷ full) rest set (e, long, h) k =
    let more : ltb (length fs) page_size ≡ false = ground arith in
    rw (e, more)
      (fetch_from_complete ask fuel (suc page) full rest (with_files fs set) h (omega (arith, k))
        ∙ ap fetched (
            sym (with_files-append fs (flatten full ++ rest) set)
            ∙ ap (λ t. with_files t set) (sym (append_assoc fs (flatten full) rest))))

abbrev pub Ended : Fetched → Type 0
Ended (fetched set) = Unit
Ended fetch_failed = Unit
Ended out_of_fuel = ⊥

on_page-Ended :
    (p : Page) (set : DiffLineSet) (next : DiffLineSet → Fetched)
    → IsLast p ⊎ ((set' : DiffLineSet) → Ended (next set'))
    → Ended (on_page p set next)
on_page-Ended failed set next h = tt
on_page-Ended (files fs) set next (inl short) =
    let last : ltb (length fs) page_size ≡ true = ground arith in rw last tt
on_page-Ended (files fs) set next (inr h) = elim (Bool-cases (ltb (length fs) page_size)) [
  | inl e ↦ rw e tt
  | inr e ↦ rw e (h (with_files fs set))
]

fetch_from-Ended :
    (ask : ℕ → Page) (fuel page more : ℕ) (set : DiffLineSet)
    → IsLast (ask (more + page))
    → more < fuel
    → Ended (fetch_from ask fuel page set)
unfolding fetch_from
fetch_from-Ended ask zero page more set last k = absurd (omega (arith, k))
fetch_from-Ended ask (suc fuel) page zero set last k =
    on_page-Ended (ask page) set (fetch_from ask fuel (suc page))
      (inl (subst (λ n. IsLast (ask n)) (omega arith) last))
fetch_from-Ended ask (suc fuel) page (suc more) set last k =
    on_page-Ended (ask page) set (fetch_from ask fuel (suc page)) (
      inr λ set'.
        fetch_from-Ended ask fuel (suc page) more set'
          (subst (λ n. IsLast (ask n)) (omega arith) last) (omega (arith, k)))

-- FetchPRDiffLines ends with fuel for one page more than `more` if page `more + 1` fails or has
-- fewer than 100 files. If the pages before it are full, and this one is answered too, it ends
-- with the lines of all their files.
pub fetch_pr_diff_lines_lem :
    (ask : ℕ → Page) (fuel : ℕ)
    → ((more : ℕ) → IsLast (ask (more + 1)) → more < fuel → Ended (fetch_pr_diff_lines ask fuel))
      × ((full : List (List PrFile)) (rest : List PrFile)
          → Answers ask 1 full rest
          → length full < fuel
          → fetch_pr_diff_lines ask fuel ≡ fetched (with_files (flatten full ++ rest) (λ _. none)))
unfolding fetch_pr_diff_lines
fetch_pr_diff_lines_lem ask fuel = (
  (λ more last k. fetch_from-Ended ask fuel 1 more (λ _. none) last k),
  λ full rest h k. fetch_from_complete ask fuel 1 full rest (λ _. none) h k,
)
