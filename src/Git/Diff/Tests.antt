-- ===== src/Git/Diff/Tests.antt =====
-- Patches and pages at concrete values.
use codeforge.Prelude.Decimal.{decimal}
use codeforge.Prelude.{ℕ, ◌+◌, ◌<◌, ◌≡◌, ◌↔◌, refl, none, some, List, [], ◌∷◌, ◌++◌, In, length}
use codeforge.Prelude.Bytes.{Bytes, codes, split_lines}
use codeforge.Git.Diff.{
  parse_patch, hunk_start, PrFile, Page, files, fetch_pr_diff_lines, fetched, with_files,
  calculate_changes, ShortStat,
}
use codeforge.Git.Diff.Hunks.{InHunk, parse_patch_iff}
use codeforge.Git.Diff.Pages.{IsLast, Answers, Ended, flatten, fetch_pr_diff_lines_lem}

abbrev patch : Bytes
patch =
    codes
      "@@ -1,2 +10,3 @@ func f()\n same\n-old\n+new\n\\ No newline at end of file\n@@ -7 +20 @@\n+one"

lines_found : parse_patch patch ≡ 10 ∷ 11 ∷ 20 ∷ []
unfolding parse_patch
lines_found = refl

parse_patch_iff_example : In 11 (parse_patch patch) ↔ InHunk 11 (split_lines patch)
parse_patch_iff_example = parse_patch_iff patch 11

-- A header without its sign of new lines.
no_header : hunk_start (codes "@@ -1,2 10,3 @@") ≡ none
unfolding hunk_start
no_header = refl

abbrev file : PrFile
file = record { filename = "a.go"; patch = patch }

abbrev one_page : ℕ → Page
one_page _ = files (file ∷ [])

fetch_pr_diff_lines_lem_example :
    ((more : ℕ) → IsLast (one_page (more + 1)) → more < 3 → Ended (fetch_pr_diff_lines one_page 3))
    × ((full : List (List PrFile)) (rest : List PrFile)
        → Answers one_page 1 full rest
        → length full < 3
        → fetch_pr_diff_lines one_page 3 ≡ fetched (with_files (flatten full ++ rest) (λ _. none)))
fetch_pr_diff_lines_lem_example = fetch_pr_diff_lines_lem one_page 3

abbrev added : ShortStat
added = record { both = none; insertions_only = some (codes "12"); deletions_only = none }

changes :
    calculate_changes (some (codes " M a.go\n?? b.go\nR  c.go\n")) (some added) none
    ≡ some
        (record { files_modified = 2; files_created = 1; files_deleted = 0; diff_stats = "+12 -0" })
unfolding calculate_changes decimal
changes = refl
