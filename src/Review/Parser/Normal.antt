-- ===== src/Review/Parser/Normal.antt =====
-- What every parsed review has.
use codeforge.Prelude.{
  ◌≡◌, refl, String, true, Option, none, some, List, [], ◌∷◌, map, arith, Bool-cases, contains, inl,
  inr, if◌then◌else◌,
}
use codeforge.Prelude.Int.{pos, ◌≤ℤ◌}
use codeforge.Session.Model.{ReviewIssue, ReviewResult}
use codeforge.Review.Parser.{
  Texts, Bytes, valid_verdicts, valid_severities, known_severity, post_process, found_or,
  parse_review_output, heuristic_extract, try_found, try_unmarshal, trimmed_block, fallback,
}

abbrev pub AreKnown : List ReviewIssue → Type 0
AreKnown [] = Unit {0}
AreKnown (i ∷ is) = (contains valid_severities i.severity ≡ true) × AreKnown is

-- A verdict and severities of the code's tables, and a score from 0 to 10.
abbrev pub IsNormal : ReviewResult → Type 0
IsNormal r =
    (contains valid_verdicts r.verdict ≡ true)
    × (pos 0 ≤ℤ r.score)
    × (r.score ≤ℤ pos 10)
    × AreKnown r.issues

map-AreKnown : (is : List ReviewIssue) → AreKnown (map known_severity is)
map-AreKnown [] = tt
map-AreKnown (i ∷ is) = elim (Bool-cases (contains valid_severities i.severity)) [
  | inl e ↦ rw e (e, map-AreKnown is)
  | inr e ↦ rw e (refl, map-AreKnown is)
]

verdict_normal :
    (v : String)
    → contains valid_verdicts (if contains valid_verdicts v then v else "comment") ≡ true
verdict_normal v = elim (Bool-cases (contains valid_verdicts v)) [
  | inl e ↦ rw e e
  | inr e ↦ rw e refl
]

post_process-IsNormal : (r : ReviewResult) → IsNormal (post_process r)
unfolding post_process
post_process-IsNormal r =
    (verdict_normal r.verdict, ground arith, ground arith, map-AreKnown r.issues)

found_or-IsNormal :
    (other : ReviewResult) (o : Option ReviewResult) → IsNormal other → IsNormal (found_or other o)
found_or-IsNormal other none normal = normal
found_or-IsNormal other (some r) normal = post_process-IsNormal r

-- Whatever an agent prints and whatever the decoder makes of it, the review has one of the three
-- verdicts, a score from 0 to 10, and issues of the four severities.
pub parse_review_output-IsNormal :
    (texts : Texts) (raw : Bytes) → IsNormal (parse_review_output texts raw)
unfolding parse_review_output
parse_review_output-IsNormal texts raw =
    found_or-IsNormal
      (found_or (found_or (fallback texts (texts.trim_space raw)) (heuristic_extract texts raw))
        (try_found texts (trimmed_block texts raw)))
      (try_unmarshal texts (texts.trim_space raw))
      (found_or-IsNormal
        (found_or (fallback texts (texts.trim_space raw)) (heuristic_extract texts raw))
        (try_found texts (trimmed_block texts raw))
        (found_or-IsNormal (fallback texts (texts.trim_space raw)) (heuristic_extract texts raw)
          (refl, ground arith, ground arith, tt)))
