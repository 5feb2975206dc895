-- ===== src/Review/Parser.antt =====
-- internal/review/parser.go: a review in what an agent prints.
--
-- A text is its bytes. The JSON decoder, the pattern of a Markdown block and TrimSpace are a
-- parameter, Texts.
pub mod Objects
pub mod Normal
mod Tests
use codeforge.Prelude.{
  ℕ, zero, suc, ◌+◌, ◌-◌, String, Bool, true, false, not, Option, none, some, List, [], ◌∷◌, map,
  ◌&&◌, if◌then◌else◌, ◌=s◌, ◌==◌, ltb, length, take, drop, contains,
}
use codeforge.Prelude.Int.{ℤ, pos, ltb_ℤ}
use codeforge.Session.Model.{ReviewIssue, ReviewResult}

abbrev pub Bytes : Type 0
Bytes = List ℕ

pub record Texts : Type 0 where
  pub trim_space : Bytes → Bytes
  pub markdown_block : Bytes → Option Bytes
  pub unmarshal : Bytes → Option ReviewResult
  pub text : Bytes → String

abbrev pub opening : ℕ
opening = 123

abbrev pub closing : ℕ
closing = 125

-- The bytes of `"verdict"`.
abbrev pub verdict_key : Bytes
verdict_key = 34 ∷ 118 ∷ 101 ∷ 114 ∷ 100 ∷ 105 ∷ 99 ∷ 116 ∷ 34 ∷ []

abbrev pub has_prefix : Bytes → Bytes → Bool
has_prefix raw [] = true
has_prefix [] (c ∷ cs) = false
has_prefix (b ∷ bs) (c ∷ cs) = if b == c then has_prefix bs cs else false

abbrev pub later : Option ℕ → Option ℕ
later none = none
later (some i) = some (suc i)

-- strings.Index with a needle that is not empty.
unfoldable pub index_of : Bytes → Bytes → Option ℕ
index_of [] needle = none
index_of (b ∷ bs) needle =
    let rest = index_of bs needle in if has_prefix (b ∷ bs) needle then some 0 else later rest

abbrev pub byte_at : Bytes → ℕ → ℕ
byte_at [] i = 0
byte_at (b ∷ bs) zero = b
byte_at (b ∷ bs) (suc i) = byte_at bs i

-- The walk backwards from `i - 1` to an opening brace.
unfoldable pub walk_back : Bytes → ℕ → Option ℕ
walk_back raw zero = none
walk_back raw (suc i) =
    let rest = walk_back raw i in if byte_at raw i == opening then some i else rest

abbrev pub next_depth : ℕ → ℕ → ℕ
next_depth depth b = if b == opening then depth + 1 else if b == closing then depth - 1 else depth

-- The walk forwards with a depth, after `n` bytes: how many bytes end the object. It starts at an
-- opening brace and ends at depth 0, so the depth is never negative.
unfoldable pub walk_forward : ℕ → ℕ → Bytes → Option ℕ
walk_forward depth n [] = none
walk_forward depth n (b ∷ bs) =
    let after = next_depth depth b in
    let rest = walk_forward after (n + 1) bs in
    if b == closing && after == 0 then some (n + 1) else rest

abbrev pub slice_from : Bytes → Option ℕ → Option Bytes
slice_from rest none = none
slice_from rest (some n) = some (take n rest)

abbrev pub object_at : Bytes → Option ℕ → Option Bytes
object_at raw none = none
object_at raw (some start) = slice_from (drop start raw) (walk_forward 0 0 (drop start raw))

abbrev pub object_before : Bytes → Option ℕ → Option Bytes
object_before raw none = none
object_before raw (some idx) = object_at raw (walk_back raw idx)

-- `raw[start:end]` of heuristicExtract.
unfoldable pub object : Bytes → Option Bytes
object raw = object_before raw (index_of raw verdict_key)

abbrev pub with_verdict : Option ReviewResult → Option ReviewResult
with_verdict none = none
with_verdict (some r) = if r.verdict =s "" then none else some r

abbrev pub try_unmarshal : Texts → Bytes → Option ReviewResult
try_unmarshal texts s = with_verdict (texts.unmarshal s)

abbrev pub try_found : Texts → Option Bytes → Option ReviewResult
try_found texts none = none
try_found texts (some s) = try_unmarshal texts s

unfoldable pub heuristic_extract : Texts → Bytes → Option ReviewResult
heuristic_extract texts raw = try_found texts (object raw)

abbrev pub valid_verdicts : List String
valid_verdicts = "approve" ∷ "request_changes" ∷ "comment" ∷ []

abbrev pub valid_severities : List String
valid_severities = "critical" ∷ "major" ∷ "minor" ∷ "suggestion" ∷ []

abbrev pub clamp : ℤ → ℤ
clamp score =
    let low = if ltb_ℤ score (pos 1) then pos 1 else score in
    if ltb_ℤ (pos 10) low then pos 10 else low

abbrev pub known_severity : ReviewIssue → ReviewIssue
known_severity i =
    if contains valid_severities i.severity then i else record i { severity = "suggestion" }

unfoldable pub post_process : ReviewResult → ReviewResult
post_process r = record r {
  score = clamp r.score;
  verdict = if contains valid_verdicts r.verdict then r.verdict else "comment";
  issues = map known_severity r.issues;
}

abbrev pub fallback : Texts → Bytes → ReviewResult
fallback texts trimmed = record {
  verdict = "comment";
  score = pos 0;
  summary = texts.text (if ltb 500 (length trimmed) then take 500 trimmed else trimmed);
  issues = [];
  auto_fixable = false;
  reviewed_by = "";
  duration = 0;
}

abbrev pub found_or : ReviewResult → Option ReviewResult → ReviewResult
found_or other none = other
found_or other (some r) = post_process r

abbrev pub trimmed_block : Texts → Bytes → Option Bytes
trimmed_block texts raw = elim (texts.markdown_block raw) [
  | none ↦ none
  | some block ↦ some (texts.trim_space block)
]

-- The strategies in their order.
unfoldable pub parse_review_output : Texts → Bytes → ReviewResult
parse_review_output texts raw =
    let trimmed = texts.trim_space raw in
    found_or
      (found_or (found_or (fallback texts trimmed) (heuristic_extract texts raw))
        (try_found texts (trimmed_block texts raw)))
      (try_unmarshal texts trimmed)
